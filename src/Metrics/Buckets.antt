-- ===== src/Metrics/Buckets.antt =====
-- The arithmetic of apps/api/src/metrics/metrics.controller.ts: the window of a query, the width of its
-- buckets, and the thinning of a long series.
pub mod Thinning
use native.Mathlib.Nat.{
  div-mul-le_self, mod-lt, mod-eq_of_lt, mod_self, suc-mod, mul-le-mul_right, mul_comm,
}
use wa_ops.Base.{
  ℕ, zero, suc, refl, sym, false, ◌+◌, ◌-◌, ◌*◌, ◌/◌, ◌%◌, ◌≤◌, ◌<◌, ◌≡◌, ap, ◌∙◌, Option, none,
  some, List, [], ◌∷◌, ◌==◌, leb, min, max, length, get_elem?, arith, if◌then◌else◌, Bool-cases,
  inl, inr,
}
use wa_ops.RateLimit.Bucket.{ceil_div}
use wa_ops.RateLimit.Bucket.Retry.{ceil_div_iff}

-- DEFAULT_WINDOW_MS and DEFAULT_BUCKETS
abbrev pub default_window_ms : ℕ
default_window_ms = 21600000

abbrev pub default_buckets : ℕ
default_buckets = 60

-- `toMs - fromMs` of a query that ends at `to_ms`, if `from` is before it.
unfoldable pub span_of : Option ℕ → ℕ → Option ℕ
span_of none to_ms = some default_window_ms
span_of (some from_ms) to_ms = if leb to_ms from_ms then none else some (to_ms - from_ms)

unfoldable pub buckets_of : Option ℕ → ℕ → ℕ
buckets_of none span_ms = min default_buckets (max 10 (span_ms / 60000))
buckets_of (some b) span_ms = b

unfoldable pub bucket_ms : ℕ → ℕ → ℕ
unfolding ceil_div
bucket_ms span_ms buckets = ceil_div span_ms buckets

-- `Math.max(1, Math.round(bucketMs / 60_000))`, the minutes of `date_bin`
unfoldable pub minutes_of : ℕ → ℕ
minutes_of width_ms = max 1 ((2 * width_ms + 60000) / 120000)

-- `filter((_, i) => i % step === 0)`, from an index on
unfoldable pub every {ℓ} : {A : Type ℓ} → ℕ → ℕ → List A → List A
every step i [] = []
every step i (x ∷ xs) = let rest = every step (suc i) xs in if i % step == 0 then x ∷ rest else rest

-- `Math.max(1, Math.ceil(pts.length / buckets))`
unfoldable pub step_of : ℕ → ℕ → ℕ
unfolding ceil_div
step_of count buckets = max 1 (ceil_div count buckets)

unfoldable pub downsample {ℓ} : {A : Type ℓ} → ℕ → List A → List A
unfolding every step_of
downsample buckets pts = every (step_of (length pts) buckets) 0 pts
