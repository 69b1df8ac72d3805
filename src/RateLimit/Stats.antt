-- ===== src/RateLimit/Stats.antt =====
-- apps/api/src/middleware/rate-limit.stats.ts, and `countRateLimited` of rate-limit.middleware.ts,
-- which writes what it reads. A counter is named by its route class and its minute; the key
-- `rl:stats:429:<class>:<minute>` that spells the two is not spelled out. The counters are read
-- through an argument, since Redis keeps them.
pub mod Laws
use wa_ops.Base.{
  ℕ, ◌+◌, ◌-◌, ◌*◌, ◌/◌, ◌≤◌, ◌<◌, ◌≡◌, refl, String, List, [], ◌∷◌, map, arith, length,
}

abbrev minute_ms : ℕ
minute_ms = 60000

-- The minute that `countRateLimited` increments at a time.
unfoldable pub minute : ℕ → ℕ
minute now = now / minute_ms

-- `redis.multi().incr(key).expire(key, 1000)`: the time until which the counter is kept.
unfoldable pub kept_until : ℕ → ℕ
kept_until now = now + 1000 * 1000

abbrev pub classes : List String
classes = "auth" ∷ "api" ∷ "realtime" ∷ []

pub record Stat : Type 0 where
  pub route_class : String
  pub window_start : ℕ
  pub limited : ℕ

pub record Point : Type 0 where
  pub window_start : ℕ
  pub limited : ℕ

-- `Math.round(prev * (1 - f) + cur)` with `f` the part of the minute that has passed, as a fraction of
-- `minute_ms`; a half is rounded up.
unfoldable pub weighted : ℕ → ℕ → ℕ → ℕ
weighted now prev cur =
    (prev * (minute_ms - (now - minute now * minute_ms)) + cur * minute_ms + minute_ms / 2)
    / minute_ms

module _ (counter : String → ℕ → ℕ) where
  unfoldable pub stat : ℕ → String → Stat
  unfolding minute weighted
  stat now route_class = record {
    route_class = route_class;
    window_start = (minute now - 1) * minute_ms;
    limited =
        weighted now (counter route_class (minute now - 1)) (counter route_class (minute now));
  }

  unfoldable pub stats : ℕ → List Stat
  unfolding stat
  stats now = map (stat now) classes

abbrev pub history_minutes : ℕ
history_minutes = 15

-- `Array.from({ length: 15 }, (_, i) => nowBucket - (14 - i))`, by the number of minutes left.
unfoldable pub last_minutes : ℕ → ℕ → List ℕ
last_minutes now_minute ℕ.zero = []
last_minutes now_minute (ℕ.suc left) = (now_minute - left) ∷ last_minutes now_minute left

module _ (counter : String → ℕ → ℕ) where
  unfoldable pub history_points : ℕ → String → List Point
  unfolding last_minutes minute
  history_points now route_class =
      map (λ b. record { window_start = b * minute_ms; limited = counter route_class b })
        (last_minutes (minute now) history_minutes)

  unfoldable pub history : ℕ → List (String × List Point)
  unfolding history_points
  history now = map (λ c. (c, history_points now c)) classes
