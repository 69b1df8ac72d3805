-- ===== src/RateLimit/Middleware.antt =====
-- `RateLimitMiddleware.use` of apps/api/src/middleware/rate-limit.middleware.ts, and the presets.
-- Redis is an argument: the reply of the script for a key, `none` if the call throws.
pub mod Laws
use Prim.Native.String.{◌++◌}
use wa_ops.Base.{
  ℕ, ◌+◌, ◌/◌, max, Bool, true, false, String, Option, none, some, List, [], ◌∷◌, if◌then◌else◌,
}
use wa_ops.Errors.{ApiError, rate_limited, dependency_unavailable, text, number, simple_error}
use wa_ops.RateLimit.Bucket.{Budget, Reply}

pub record Options : Type 0 where
  pub route_class : String
  pub budget : Budget
  pub open budget use *
  pub message : Option String

abbrev pub preset : String → ℕ → String → Options
preset route_class capacity message = record {
  route_class = route_class;
  budget = record { capacity = capacity; window = 60000 };
  message = some message;
}

-- RATE_LIMIT_PRESETS, as app.module.ts names them.
abbrev pub presets : List Options
presets =
    preset "auth" 10 "too many auth attempts"
    ∷ preset "api" 120 "too many requests"
    ∷ preset "realtime" 30 "too many stream (re)connections"
    ∷ []

pub data FailureMode : Type 0 where
  fail_open fail_closed : FailureMode

pub record Headers : Type 0 where
  pub limit : ℕ
  pub remaining : ℕ
  pub reset : ℕ
  pub retry_after : Option ℕ

-- `next()`, or an error with the class whose 429s are counted, or an error before any header is set.
pub data Outcome : Type 0 where
  next : Headers → Outcome
  refused : Headers → (counted : String) → ApiError → Outcome
  failed : ApiError → Outcome

abbrev principal : Option String → Option String → String
principal (some tenant_id) ip = tenant_id
principal none (some ip) = ip
principal none none = "anonymous"

unfoldable pub bucket_key : Options → Option String → Option String → String
bucket_key o tenant_id ip = "rl:" ++ (o.route_class ++ (":" ++ principal tenant_id ip))

-- `Math.ceil(ms / 1000)`
unfoldable pub seconds : ℕ → ℕ
seconds ms = (ms + 999) / 1000

abbrev or_default : Option String → String → String
or_default none d = d
or_default (some s) d = s

unfoldable pub answer : Options → Bool → ℕ → ℕ → Outcome
unfolding seconds
answer o true remaining reset_ms = next (record {
  limit = o.capacity;
  remaining = remaining;
  reset = max 0 (seconds reset_ms);
  retry_after = none;
})
answer o false remaining reset_ms =
    refused
      (record {
        limit = o.capacity;
        remaining = 0;
        reset = max 0 (seconds reset_ms);
        retry_after = some (max 1 (seconds reset_ms));
      })
      o.route_class
      (record {
        code = rate_limited;
        message = or_default o.message "too many requests";
        status = 429;
        details =
            ("route_class", text o.route_class)
            ∷ ("retry_after_seconds", number (max 1 (seconds reset_ms)))
            ∷ [];
      })

unfoldable pub unavailable : Options → FailureMode → Outcome
unfolding answer
unavailable o fail_closed =
    failed (simple_error dependency_unavailable "rate limit store unavailable" 503)
unavailable o fail_open = answer o true o.capacity 0

-- `this.redis` is `none` where no REDIS_URL is configured.
unfoldable pub use_limit :
    Options → FailureMode → Option (String → Option Reply) → Option String → Option String → Outcome
unfolding answer unavailable bucket_key
use_limit o mode none tenant_id ip = answer o true o.capacity 0
use_limit o mode (some redis) tenant_id ip = elim (redis (bucket_key o tenant_id ip)) [
  | none ↦ unavailable o mode
  | some r ↦ answer o r.allowed r.remaining r.ttl_ms
]
