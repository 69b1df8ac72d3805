-- ===== src/RateLimit/Tests.antt =====
-- Runs of the rate limits on small budgets.
use wa_ops.Base.{
  ℕ, ◌+◌, ◌-◌, ◌*◌, ◌≤◌, ◌≡◌, refl, String, max, true, false, none, some, List, [], ◌∷◌, inr, arith,
}
use wa_ops.Base.Dict.{Dict, get}
use wa_ops.Errors.{ApiError, rate_limited, text, number}
use wa_ops.RateLimit.Bucket.{Budget, Bucket, stored, token_bucket}
use wa_ops.RateLimit.Bucket.Admission.{Hit, Orderly, admitted, end_time, admitted-le_budget}
use wa_ops.RateLimit.Middleware.{Options, preset, fail_open, refused, use_limit}
use wa_ops.RateLimit.Middleware.Laws.{at_bucket}
use wa_ops.RateLimit.Stats.{minute}
use wa_ops.RateLimit.Window.{Window, passed, passed-le_limit}

-- Two requests in a second.
abbrev two : Budget
two = record { capacity = 2; window = 1000 }

-- The first request comes so long after time 0 that its key has expired.
abbrev requests : List Hit
requests = (70000, false) ∷ (70010, true) ∷ (70020, true) ∷ (70700, true) ∷ []

requests-Orderly : Orderly two 0 requests
requests-Orderly = (
  omega arith,
  λ _. omega arith,
  (omega arith, λ e. cc, (omega arith, λ e. cc, (omega arith, λ e. cc, tt))),
)

admitted-le_budget_example :
    admitted two (stored two 0 none) requests * 1000 ≤ 2 * 1000 + (end_time 0 requests - 0) * 2
admitted-le_budget_example = admitted-le_budget two 0 requests requests-Orderly

abbrev spent : Bucket
spent = record { tokens = 0; ts = 500 }

spent_expires : 500 + (token_bucket two 500 1 (some spent)).expire_ms ≤ 70000
unfolding token_bucket
spent_expires = omega arith

spent_refuses : (token_bucket two 600 1 (some spent)).allowed ≡ false
unfolding token_bucket
spent_refuses = refl

abbrev auth : Options
auth = preset "auth" 10 "too many auth attempts"

abbrev empty : Bucket
empty = record { tokens = 0; ts = 500 }

abbrev too_many : ApiError
too_many = record {
  code = rate_limited;
  message = "too many auth attempts";
  status = 429;
  details = ("route_class", text "auth") ∷ ("retry_after_seconds", number 6) ∷ [];
}

auth_refuses :
    at_bucket auth fail_open none (some "10.0.0.1") 600 (some empty)
    ≡ refused
        (record { limit = 10; remaining = 0; reset = 6; retry_after = some 6 })
        "auth"
        too_many
unfolding use_limit token_bucket
auth_refuses = refl

abbrev five : String → ℕ → ℕ
five route_class m = 5

twentieth : 14 ≤ minute 1234567
unfolding minute
twentieth = omega arith

-- A window of `a` that has ended.
abbrev windows : Dict Window
windows = ("a", record { count = 9; window_start = 0 }) ∷ []

abbrev calls : List (String × ℕ)
calls = ("a", 205) ∷ ("b", 206) ∷ ("a", 207) ∷ []

old_window : get "a" windows ≡ some (record { count = 9; window_start = 0 })
unfolding get
old_window = refl

passed-le_limit_example : passed 2 100 "a" windows (("a", 200) ∷ calls) ≤ max 2 1
passed-le_limit_example =
    passed-le_limit 2 100 "a" windows 200 calls
      (inr (record { count = 9; window_start = 0 }, old_window, omega arith))
      (omega arith, (omega arith, (omega arith, tt)))
