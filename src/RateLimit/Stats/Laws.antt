-- ===== src/RateLimit/Stats/Laws.antt =====
-- What the counters of rate-limit.stats.ts show.
use native.Mathlib.Nat.{mul-le-mul_left}
use wa_ops.Base.{
  ℕ, zero, suc, ◌+◌, ◌-◌, ◌*◌, ◌≤◌, ◌<◌, ◌≡◌, refl, String, List, [], ◌∷◌, arith, All, All-map,
}
use wa_ops.RateLimit.Stats.{
  minute_ms, minute, kept_until, stat, Point, last_minutes, history_minutes, history_points,
}

-- The numbers from `a` on, up to `b` and without it.
abbrev pub Runs : ℕ → List ℕ → ℕ → Type 0
Runs a [] b = a ≡ b
Runs a (x ∷ xs) b = (x ≡ a) × Runs (a + 1) xs b

Runs-from : (n k : ℕ) (a : ℕ) → a + k ≡ n + 1 → Runs a (last_minutes n k) (n + 1)
unfolding last_minutes
Runs-from n zero a h = omega arith
Runs-from n (suc k) a h = (omega arith, Runs-from n k (a + 1) (omega arith))

last_minutes-alive :
    (now k : ℕ)
    → k ≤ 15
    → All (λ m. (t : ℕ) → minute t ≡ m → now < kept_until t) (last_minutes (minute now) k)
unfolding last_minutes minute kept_until
last_minutes-alive now zero h = tt
last_minutes-alive now (suc k) h = (λ t e. omega arith, last_minutes-alive now k (omega arith))

-- A point shows the counter of a minute, and every increment of that counter is still kept at `now`.
abbrev pub IsKept : (ℕ → ℕ) → ℕ → Point → Type 0
IsKept counter now p =
    (m : ℕ) × (p.window_start ≡ m * minute_ms)
    × (p.limited ≡ counter m)
    × ((t : ℕ) → minute t ≡ m → now < kept_until t)

-- Each point of a class's history shows the counter of its minute, and every increment of that
-- counter is still kept when the history is read: the time to live covers the whole window.
pub history_points-IsKept :
    (counter : String → ℕ → ℕ) (now : ℕ) (route_class : String)
    → All (IsKept (counter route_class) now) (history_points counter now route_class)
unfolding history_points
history_points-IsKept counter now route_class =
    All-map (IsKept (counter route_class) now) _ (λ m alive. (m, refl, refl, alive))
      (last_minutes (minute now) 15) (last_minutes-alive now 15 (omega arith))

-- The history of a class shows the fifteen minutes up to the present one, oldest first, when the
-- clock has reached its fifteenth minute.
pub last_minutes-Runs :
    (now : ℕ)
    → 14 ≤ minute now
    → Runs (minute now - 14) (last_minutes (minute now) history_minutes) (minute now + 1)
last_minutes-Runs now h = Runs-from (minute now) 15 (minute now - 14) (omega arith)

-- The number that is shown lies between this minute's count and the sum of the two counts.
pub stat_bounds :
    (counter : String → ℕ → ℕ) (now : ℕ) (route_class : String)
    → (counter route_class (minute now) ≤ (stat counter now route_class).limited)
      × ((stat counter now route_class).limited
          ≤ counter route_class (minute now - 1) + counter route_class (minute now))
unfolding stat
stat_bounds counter now route_class =
    let prev = counter route_class (minute now - 1) in
    let e = now - minute now * minute_ms in
    let less : prev * (minute_ms - e) ≤ prev * minute_ms =
      mul-le-mul_left {m = minute_ms - e} {n = minute_ms} prev (omega arith) in
    (omega arith, omega arith)
