-- ===== src/RateLimit.antt =====
-- Request budgets. `Bucket` is the token bucket of the API, `Middleware` its use on a request,
-- `Stats` the counters of what it refuses, `Window` the fixed window of the collector gateway.
pub mod Bucket
pub mod Middleware
pub mod Stats
pub mod Window
mod Tests
