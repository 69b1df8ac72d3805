-- ===== src/RateLimit/Bucket/Admission.antt =====
-- How many requests a bucket of TOKEN_BUCKET_LUA admits over time.
use native.Mathlib.Nat.{mul-le-mul_left, mul_comm, add-mul}
use wa_ops.Base.{
  ℕ, ◌+◌, ◌-◌, ◌*◌, ◌/◌, ◌≤◌, ◌≡◌, refl, ap, Bool, true, false, Option, none, some, List, [], ◌∷◌,
  arith,
}
use wa_ops.RateLimit.Bucket.{Budget, Bucket, Reply, stored, refill, spend, token_bucket}

-- A request at a time, with whether the key that the last one wrote was still there.
abbrev pub Hit : Type 0
Hit = ℕ × Bool

abbrev pub found : Bool → Bucket → Option Bucket
found true k = some k
found false k = none

abbrev pub expire_ms : Budget → ℕ
expire_ms b = ((b.window + 60000 + (1000 - 1)) / 1000) * 1000

-- The clock does not run backwards, and a key is lost only after its time to live.
abbrev pub Orderly : Budget → ℕ → List Hit → Type 0
Orderly b last [] = Unit
Orderly b last ((now, kept) ∷ hits) =
    (last ≤ now) × (kept ≡ false → last + expire_ms b ≤ now) × Orderly b now hits

abbrev pub end_time : ℕ → List Hit → ℕ
end_time last [] = last
end_time last ((now, _) ∷ hits) = end_time now hits

abbrev pub one_if : Bool → ℕ
one_if true = 1
one_if false = 0

-- The number of admitted requests, each of cost 1.
pub admitted : Budget → Bucket → List Hit → ℕ
admitted b k [] = 0
admitted b k ((now, kept) ∷ hits) =
    let r = token_bucket b now 1 (found kept k) in one_if r.allowed + admitted b r.bucket hits

record Paid (b : Budget) (k : Bucket) (now : ℕ) (r : Reply) : Type 0 where
  credit : one_if r.allowed * b.window + r.bucket.tokens ≤ k.tokens + (now - k.ts) * b.capacity
  capped : r.bucket.tokens ≤ b.capacity * b.window
  stamped : r.bucket.ts ≡ now

expire-ge-window : (b : Budget) → b.window ≤ expire_ms b
expire-ge-window b = omega arith

spend-Paid :
    (b : Budget) (k : Bucket) (now tokens : ℕ)
    → tokens ≤ b.capacity * b.window
    → tokens ≤ k.tokens + (now - k.ts) * b.capacity
    → Paid b k now (spend b now 1 tokens)
unfolding spend
spend-Paid b k now tokens h g = ground arith

expire_ms-spend :
    (b : Budget) (now cost tokens : ℕ) → (spend b now cost tokens).expire_ms ≡ expire_ms b
unfolding spend
expire_ms-spend b now cost tokens = ground arith

window_passed :
    (b : Budget) (k : Bucket) (now : ℕ) → k.ts + expire_ms b ≤ now → b.window ≤ now - k.ts
window_passed b k now h = omega (arith, expire-ge-window b)

lost_is_full :
    (b : Budget) (k : Bucket) (now : ℕ)
    → k.ts + expire_ms b ≤ now
    → b.capacity * b.window ≤ k.tokens + (now - k.ts) * b.capacity
lost_is_full b k now h =
    omega (
      arith,
      mul-le-mul_left b.capacity (window_passed b k now h),
      mul_comm b.capacity (now - k.ts),
    )

token_bucket-Paid :
    (b : Budget) (k : Bucket) (now : ℕ) (kept : Bool)
    → k.tokens ≤ b.capacity * b.window
    → k.ts ≤ now
    → (kept ≡ false → k.ts + expire_ms b ≤ now)
    → Paid b k now (token_bucket b now 1 (found kept k))
unfolding token_bucket stored refill
token_bucket-Paid b k now true full past life = spend-Paid b k now _ (omega arith) (omega arith)
token_bucket-Paid b k now false full past life =
    spend-Paid b k now _ (omega arith) (omega (arith, lost_is_full b k now (life refl)))

le-end_time :
    (b : Budget) (last : ℕ) (hits : List Hit) → Orderly b last hits → last ≤ end_time last hits
le-end_time b last [] t = omega arith
le-end_time b last ((now, _) ∷ hits) (past, _, t) = omega (arith, le-end_time b now hits t)

split_elapsed : (s t u n : ℕ) → s ≤ t → t ≤ u → (t - s) * n + (u - t) * n ≡ (u - s) * n
split_elapsed s t u n h g = rw (← add-mul) (ap (λ d. d * n) (omega arith))

-- The bound for a bucket in any state.
pub admitted-le_of_bucket :
    (b : Budget) (k : Bucket) (hits : List Hit)
    → k.tokens ≤ b.capacity * b.window
    → Orderly b k.ts hits
    → admitted b k hits * b.window ≤ k.tokens + (end_time k.ts hits - k.ts) * b.capacity
unfolding admitted
admitted-le_of_bucket b k [] full t = omega arith
admitted-le_of_bucket b k ((now, kept) ∷ hits) full (past, life, t) =
    let r = token_bucket b now 1 (found kept k) in
    let p : Paid b k now r = token_bucket-Paid b k now kept full past life in
    let ih = admitted-le_of_bucket b r.bucket hits p.capped (rw p.stamped t) in
    let ih' = rw p.stamped at ih in
    omega (
      arith,
      p.credit,
      ih',
      split_elapsed k.ts now (end_time now hits) b.capacity past (le-end_time b now hits t),
    )

-- From a first request at `start`, which finds no bucket, the requests admitted up to the last one
-- are at most `capacity` and `capacity` more for each `window` that passes, whatever the times of the
-- requests, if the clock does not run backwards and a key lives as long as the script asks.
pub admitted-le_budget :
    (b : Budget) (start : ℕ) (hits : List Hit)
    → Orderly b start hits
    → admitted b (stored b start none) hits * b.window
      ≤ b.capacity * b.window + (end_time start hits - start) * b.capacity
unfolding stored
admitted-le_budget b start hits t = admitted-le_of_bucket b _ hits (omega arith) t

-- A bucket whose key has expired answers as the bucket itself would: losing the key gives no tokens
-- away, and takes none.
pub token_bucket-expired :
    (b : Budget) (k : Bucket) (now cost : ℕ)
    → k.tokens ≤ b.capacity * b.window
    → k.ts + (token_bucket b k.ts cost (some k)).expire_ms ≤ now
    → token_bucket b now cost none ≡ token_bucket b now cost (some k)
unfolding token_bucket stored refill
token_bucket-expired b k now cost full gone =
    ap (spend b now cost)
      (omega (arith, lost_is_full b k now (rw (expire_ms-spend b k.ts cost _) at gone)))
