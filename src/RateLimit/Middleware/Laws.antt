-- ===== src/RateLimit/Middleware/Laws.antt =====
-- What a client of `RateLimitMiddleware.use` sees.
use wa_ops.Base.{ℕ, ◌+◌, ◌*◌, ◌≤◌, ◌<◌, ◌≡◌, refl, Bool, true, false, String, Option, some, arith}
use wa_ops.Errors.{ApiError}
use wa_ops.RateLimit.Bucket.{Bucket, token_bucket}
use wa_ops.RateLimit.Bucket.Retry.{token_bucket-retry}
use wa_ops.RateLimit.Middleware.{
  Options, FailureMode, Headers, Outcome, next, refused, answer, use_limit,
}

module _ (o : Options) (mode : FailureMode) (tenant_id ip : Option String) where
  -- The outcome of a request at a time, with the bucket that Redis holds.
  abbrev pub at_bucket : ℕ → Option Bucket → Outcome
  at_bucket now key =
      use_limit o mode (some (λ _. some (token_bucket o.budget now 1 key))) tenant_id ip

  answer_refused :
      (allowed : Bool) (remaining reset_ms : ℕ) {h : Headers} {c : String} {e : ApiError} {s : ℕ}
      → answer o allowed remaining reset_ms ≡ refused h c e
      → h.retry_after ≡ some s
      → (allowed ≡ false) × (reset_ms ≤ s * 1000)
  unfolding answer
  answer_refused allowed remaining reset_ms p q = ground arith

  answer_next :
      (remaining reset_ms : ℕ) → (h : Headers) × (answer o true remaining reset_ms ≡ next h)
  unfolding answer
  answer_next remaining reset_ms = (_, refl)

  -- A client that is refused and waits the seconds that `Retry-After` names is let through, if no
  -- other request of its bucket comes in between.
  pub retry_after-admits :
      (now s : ℕ) (key : Option Bucket) (h : Headers) (c : String) (e : ApiError)
      → 0 < o.capacity
      → at_bucket now key ≡ refused h c e
      → h.retry_after ≡ some s
      → (h' : Headers) × (at_bucket (now + s * 1000) (some (token_bucket o.budget now 1 key).bucket)
          ≡ next h')
  unfolding use_limit
  retry_after-admits now s key h c e pos p q =
      let (no_token, wait) = answer_refused _ _ _ p q in
      let again = (token_bucket-retry o.budget now (s * 1000) key pos no_token).1 wait in
      rw again (answer_next _ _)
