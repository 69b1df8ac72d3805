-- ===== src/Config/Tests.antt =====
-- An environment with all that has to be there.
use wa_ops.Base.{◌≡◌, String, none, some, [], ◌∷◌}
use wa_ops.Base.Dict.{Dict}
use wa_ops.Config.Schema.{Number, whole, good}
use wa_ops.Config.{AppConfig, load_config}
use wa_ops.Config.Fits.{Loads, load_config-Loads}

abbrev seven : String → Number
seven v = whole 7

abbrev digits : String
digits = "0123456789abcdef0123456789abcdef0123456789abcdef0123456789ABCDEF"

abbrev filled : Dict String
filled =
    ("DATABASE_URL", "postgres://db")
    ∷ ("REDIS_URL", "redis://r")
    ∷ ("JWT_SECRET", digits)
    ∷ ("ENCRYPTION_MASTER_KEY", digits)
    ∷ ("PORT", "")
    ∷ []

load_config-Loads_example :
    Loads seven (load_config seven none filled)
    × ((config : AppConfig)
        → (load_config seven none filled).1 ≡ good config
        → load_config seven (load_config seven none filled).0 [] ≡ (some config, good config))
load_config-Loads_example = load_config-Loads seven filled []
