-- ===== src/Entitlements/Tests.antt =====
-- A tenant with a limit of five.
use wa_ops.Base.{
  ℕ, ◌+◌, ◌≤◌, ◌≡◌, ◌≢◌, refl, String, Option, none, true, some, List, [], ◌∷◌, arith,
}
use wa_ops.Base.Dict.{get}
use wa_ops.Entitlements.{Registry, Entitlement, entitled, assert_entitled, Counter, current_usage}

abbrev month : ℕ → ℕ
month now = 1000

abbrev other_zone : ℕ → ℕ
other_zone now = 1003

abbrev unused : List Counter
unused = []

reached : 5 ≤ current_usage month month unused 1500 "t1" "hosts" + 5
reached = omega arith

apart : ◌≢◌ {A = ℕ} 1000 1003
apart e = omega arith

abbrev monitor : Registry
monitor = ("wamonitor", record { key = "wamonitor"; features = "alerts" ∷ [] }) ∷ []

abbrev ids : String → Option String
ids key = some "m1"

abbrev all_rows : String → String → String → Option Entitlement
all_rows tenant id feature = some (record { enabled = true; limit_value = none })

is_entitled : assert_entitled ids all_rows monitor "t1" "wamonitor" "alerts" ≡ entitled
unfolding assert_entitled get
is_entitled = refl
