-- ===== src/RateLimit/Bucket/Retry.antt =====
-- When a request that TOKEN_BUCKET_LUA has refused is admitted.
use native.Mathlib.Nat.{div-lt_iff_lt-mul, mul-le-mul_right}
use wa_ops.Base.{ℕ, suc, ◌+◌, ◌-◌, ◌*◌, ◌≤◌, ◌<◌, ◌≡◌, ◌↔◌, true, false, Option, some, arith}
use wa_ops.RateLimit.Bucket.{Budget, Bucket, stored, refill, ceil_div, spend, token_bucket}

pub ceil_div_iff : (a b t : ℕ) → 0 < b → (ceil_div a b ≤ t) ↔ (a ≤ t * b)
unfolding ceil_div
ceil_div_iff a b t h = (
  λ p. omega (arith, (div-lt_iff_lt-mul {x = a + (b - 1)} {y = suc t} h).0 (omega arith)),
  λ q. omega (arith, (div-lt_iff_lt-mul {x = a + (b - 1)} {y = suc t} h).1 (omega arith)),
)

-- A refused request leaves the tokens that it found, which are short of its price.
spend_refused :
    (b : Budget) (now cost tokens : ℕ)
    → (spend b now cost tokens).allowed ≡ false
    → (tokens < cost * b.window)
      × ((spend b now cost tokens).bucket ≡ record { tokens = tokens; ts = now })
      × ((spend b now cost tokens).ttl_ms ≡ ceil_div (cost * b.window - tokens) b.capacity)
unfolding spend
spend_refused b now cost tokens h = ground arith

spend_allowed_iff :
    (b : Budget) (now cost tokens : ℕ)
    → ((spend b now cost tokens).allowed ≡ true) ↔ (cost * b.window ≤ tokens)
unfolding spend
spend_allowed_iff b now cost tokens = (λ h. ground arith, λ h. ground arith)

waited :
    (b : Budget) (now t tokens : ℕ)
    → 0 < b.capacity
    → (b.window ≤ refill b (now + t) (record { tokens = tokens; ts = now }))
      ↔ (b.window - tokens ≤ t * b.capacity)
unfolding refill
waited b now t tokens h =
    let room : b.window ≤ b.capacity * b.window =
      omega (arith, mul-le-mul_right {m = 1} {n = b.capacity} b.window h) in
    let gone : now + t - now ≡ t = omega arith in rw gone (λ p. omega arith, λ q. omega arith)

-- If a request of cost 1 is refused, then with no other request in between, one that comes `t`
-- milliseconds later is admitted exactly when `t` is at least the wait that the script returned.
pub token_bucket-retry :
    (b : Budget) (now t : ℕ) (key : Option Bucket)
    → 0 < b.capacity
    → (token_bucket b now 1 key).allowed ≡ false
    → ((token_bucket b (now + t) 1 (some (token_bucket b now 1 key).bucket)).allowed ≡ true)
      ↔ ((token_bucket b now 1 key).ttl_ms ≤ t)
unfolding token_bucket stored
token_bucket-retry b now t key h refused =
    let tokens = refill b now (stored b now key) in
    let (short, left, wait) = spend_refused b now 1 tokens refused in
    let (soon, late) =
      spend_allowed_iff b (now + t) 1 (refill b (now + t) (record { tokens = tokens; ts = now })) in
    let (enough, back) = waited b now t tokens h in
    let (down, up) = ceil_div_iff (1 * b.window - tokens) b.capacity t h in
    rw (left, wait)
      (
        λ p. up (omega (arith, enough (omega (arith, soon p)))),
        λ q. late (omega (arith, back (omega (arith, down q)))),
      )
