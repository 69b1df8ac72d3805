-- ===== src/Config/Schema.antt =====
-- The schema of packages/config/src/index.ts: what it makes of the value of one variable.
use wa_ops.Base.{
  ℕ, zero, suc, Bool, true, ◌&&◌, ◌||◌, String, Option, none, some, List, [], ◌∷◌, ◌==◌, leb,
  length, str_eq, if◌then◌else◌,
}
use wa_ops.Base.Text.{Text, codes}

-- What JavaScript's `Number` makes of a text.
pub data Number : Type 0 where
  nan fraction : Number
  whole : ℕ → Number
  -- below zero, by how much
  negative : ℕ → Number

pub data Problem : Type 0 where
  missing not_in_list too_short no_number no_integer too_small no_match : Problem

pub record Issue : Type 0 where
  pub path : String
  pub problem : Problem

-- What parsing comes to: the value, or the issues, of which there is one at least.
pub data Parsed {ℓ} (A : Type ℓ) : Type ℓ where
  bad : Issue → List Issue → Parsed A
  good : A → Parsed A

unfoldable pub issues_of : {A : Type 0} → Parsed A → List Issue
issues_of (bad e es) = e ∷ es
issues_of (good x) = []

-- The value of a field, which is read only where no field has an issue.
unfoldable pub value_of : {A : Type 0} → A → Parsed A → A
value_of d (bad e es) = d
value_of d (good x) = x

abbrev pub fail : {A : Type 0} → String → Problem → Parsed A
fail key problem = bad (record { path = key; problem = problem }) []

pub data NodeEnv : Type 0 where
  development test production : NodeEnv

unfoldable pub node_env_of : String → Option String → Parsed NodeEnv
node_env_of key none = good development
node_env_of key (some v) =
    if str_eq v "development"
    then good development
    else if str_eq v "test"
    then good test
    else if str_eq v "production"
    then good production
    else fail key not_in_list

unfoldable pub is_log_level : String → Bool
is_log_level v =
    str_eq v "fatal"
    || str_eq v "error"
    || str_eq v "warn"
    || str_eq v "info"
    || str_eq v "debug"
    || str_eq v "trace"

unfoldable pub log_level_of : String → Option String → Parsed String
unfolding is_log_level
log_level_of key none = good "info"
log_level_of key (some v) = if is_log_level v then good v else fail key not_in_list

-- `z.string().min(n)`
unfoldable pub at_least : ℕ → String → Option String → Parsed String
at_least n key none = fail key missing
at_least n key (some v) = if leb n (length (codes v)) then good v else fail key too_short

-- `z.string().default(d)`
unfoldable pub text_or : String → String → Option String → Parsed String
text_or d key none = good d
text_or d key (some v) = good v

-- `z.string().optional()`
unfoldable pub optional : String → Option String → Parsed (Option String)
optional key v = good v

-- `/^[0-9a-f]{64}$/i`
unfoldable pub is_hex : ℕ → Bool
is_hex c = leb 48 c && leb c 57 || leb 97 c && leb c 102 || leb 65 c && leb c 70

unfoldable pub all_hex : Text → Bool
unfolding is_hex
all_hex [] = true
all_hex (c ∷ s) = is_hex c && all_hex s

unfoldable pub hex_key : String → Option String → Parsed String
unfolding all_hex
hex_key key none = fail key missing
hex_key key (some v) =
    if length (codes v) == 64 && all_hex (codes v) then good v else fail key no_match

-- `z.coerce.number().int().min(least)`, of what `Number` gives.
unfoldable pub at_least_number : ℕ → String → Number → Parsed ℕ
at_least_number least key nan = fail key no_number
at_least_number least key fraction = fail key no_integer
at_least_number least key (negative n) = fail key too_small
at_least_number least key (whole n) = if leb least n then good n else fail key too_small

-- `z.coerce.number().int()`
unfoldable pub integer : String → Number → Parsed (Option Number)
integer key nan = fail key no_number
integer key fraction = fail key no_integer
integer key (negative n) = good (some (negative n))
integer key (whole n) = good (some (whole n))

abbrev pub port_number : Number → ℕ
port_number nan = 3001
port_number fraction = 3001
port_number (negative n) = 3001
port_number (whole zero) = 3001
port_number (whole (suc n)) = suc n

module _ (to_number : String → Number) where
  unfoldable pub number_or : ℕ → ℕ → String → Option String → Parsed ℕ
  unfolding at_least_number
  number_or least d key none = good d
  number_or least d key (some v) = at_least_number least key (to_number v)

  unfoldable pub optional_integer : String → Option String → Parsed (Option Number)
  unfolding integer
  optional_integer key none = good none
  optional_integer key (some v) = integer key (to_number v)

  -- The transform of PORT.
  unfoldable pub port_of : String → Option String → Parsed ℕ
  port_of key none = good 3001
  port_of key (some v) = good (port_number (to_number v))
