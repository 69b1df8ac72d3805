-- ===== src/RateLimit/Bucket.antt =====
-- The Lua script TOKEN_BUCKET_LUA of apps/api/src/middleware/rate-limit.middleware.ts.
-- The script computes with `refill_per_ms = capacity / windowMs`, a fraction. Here token amounts are
-- multiplied by `window`, so that every amount is a whole number and no rounding happens.
pub mod Admission
pub mod Retry
use wa_ops.Base.{
  ℕ, ◌+◌, ◌-◌, ◌*◌, ◌/◌, Bool, true, false, Option, none, some, leb, if◌then◌else◌, min,
}

-- `capacity` and `windowMs` of RateLimitOptions.
pub record Budget : Type 0 where
  pub capacity : ℕ
  pub window : ℕ

-- The hash at the bucket's key: `tokens` (times `window`) and `ts`.
pub record Bucket : Type 0 where
  pub tokens : ℕ
  pub ts : ℕ

-- What the script returns, with the key's new content and the time to live that it sets.
pub record Reply : Type 0 where
  pub allowed : Bool
  pub remaining : ℕ
  pub ttl_ms : ℕ
  pub bucket : Bucket
  pub expire_ms : ℕ

-- `none` is a key that is missing: the bucket is full.
unfoldable pub stored : Budget → ℕ → Option Bucket → Bucket
stored b now none = record { tokens = b.capacity * b.window; ts = now }
stored b now (some k) = k

-- `elapsed < 0` counts as 0, which the subtraction on ℕ does.
unfoldable pub refill : Budget → ℕ → Bucket → ℕ
refill b now k = min (b.capacity * b.window) (k.tokens + (now - k.ts) * b.capacity)

-- `math.ceil(a / b)`
unfoldable pub ceil_div : ℕ → ℕ → ℕ
ceil_div a b = (a + (b - 1)) / b

unfoldable pub spend : Budget → ℕ → ℕ → ℕ → Reply
unfolding ceil_div
spend b now cost tokens =
    let price = cost * b.window in
    let ttl_s = ceil_div (b.window + 60000) 1000 in
    if leb price tokens
    then record {
      allowed = true;
      remaining = (tokens - price) / b.window;
      ttl_ms = 0;
      bucket = record { tokens = tokens - price; ts = now };
      expire_ms = ttl_s * 1000;
    }
    else record {
      allowed = false;
      remaining = tokens / b.window;
      ttl_ms = ceil_div (price - tokens) b.capacity;
      bucket = record { tokens = tokens; ts = now };
      expire_ms = ttl_s * 1000;
    }

unfoldable pub token_bucket : Budget → ℕ → ℕ → Option Bucket → Reply
unfolding stored refill spend
token_bucket b now cost key = spend b now cost (refill b now (stored b now key))
