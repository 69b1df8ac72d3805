-- ===== src/Notifications/Signature.antt =====
-- `verifyWebhookSignature` of apps/worker/src/notifications.ts. `createHmac`, `Number` and the decoding of
-- hexadecimal digits are arguments, and so is the clock, in seconds.
use wa_ops.Base.{
  ℕ, suc, ◌+◌, ◌-◌, ◌≤◌, ◌≡◌, refl, Option, none, some, ◌∷◌, ◌++◌, ◌==◌, ltb, length, arith,
  if◌then◌else◌,
}
use wa_ops.Base.Text.{Text, codes, text_eq, text_eq_iff}
use wa_ops.Gateway.Credential.{strip_prefix}

pub data ℤ : Type 0 where
  pos negsuc : ℕ → ℤ

-- `Math.abs(now - ts)`
abbrev pub distance : ℕ → ℤ → ℕ
distance now (pos ts) = (now - ts) + (ts - now)
distance now (negsuc n) = now + suc n

pub data Verdict : Type 0 where
  accepted bad_timestamp expired mismatch : Verdict
  -- `timingSafeEqual` throws where the two buffers have different lengths.
  thrown : Verdict

-- WEBHOOK_TIMESTAMP_TOLERANCE_SECONDS
abbrev pub tolerance : ℕ
tolerance = 300

-- What arrives at the receiver.
pub record Delivered : Type 0 where
  pub signature : Text
  pub timestamp : Text
  pub delivery_id : Text
  pub body : Text

-- `${timestamp}.${deliveryId}.${body}`
unfoldable pub signed_text : Text → Text → Text → Text
signed_text timestamp delivery_id body = timestamp ++ (46 ∷ (delivery_id ++ (46 ∷ body)))

-- `replace(/^sha256=/, '')`
abbrev pub or_all : Text → Option Text → Text
or_all s none = s
or_all s (some rest) = rest

unfoldable pub provided : Text → Text
unfolding strip_prefix
provided signature = or_all signature (strip_prefix (codes "sha256=") signature)

-- `timingSafeEqual`
abbrev pub timing_safe_equal : Text → Text → Verdict
timing_safe_equal a b =
    if length a == length b then (if text_eq a b then accepted else mismatch) else thrown

module _ (hmac : Text → Text → Text) (unhex : Text → Text) (to_integer : Text → Option ℤ) where
  abbrev pub compare_signatures : Text → Text → Verdict
  compare_signatures expected given =
      if length given == length expected
      then timing_safe_equal (unhex expected) (unhex given)
      else mismatch

  abbrev pub check_at : Text → ℕ → Delivered → Option ℤ → Verdict
  check_at secret now d none = bad_timestamp
  check_at secret now d (some ts) =
      if ltb 20 (length d.timestamp)
      then bad_timestamp
      else (if ltb tolerance (distance now ts)
          then expired
          else compare_signatures (hmac secret (signed_text d.timestamp d.delivery_id d.body))
              (provided d.signature))

  unfoldable pub verify_webhook_signature : Text → ℕ → Delivered → Verdict
  unfolding signed_text provided
  verify_webhook_signature secret now d = check_at secret now d (to_integer d.timestamp)

  compare-accepted :
      (expected given : Text)
      → compare_signatures expected given ≡ accepted
      → (length given ≡ length expected) × (unhex expected ≡ unhex given)
  compare-accepted expected given e =
      (ground arith, (text_eq_iff (unhex expected) (unhex given)).0 (ground arith))

  pub compare-same : (expected : Text) → compare_signatures expected expected ≡ accepted
  compare-same expected = ground (arith, text_eq_iff (unhex expected) (unhex expected))

  -- What an accepted delivery shows: a whole number of seconds that is at most 300 away from the
  -- receiver's clock, and a signature that decodes to the digest of exactly what has arrived.
  pub record IsAuthentic (secret : Text) (now : ℕ) (d : Delivered) : Type 0 where
    pub seconds : ℤ
    pub read : to_integer d.timestamp ≡ some seconds
    pub near : distance now seconds ≤ 300
    pub digest :
        unhex (hmac secret (signed_text d.timestamp d.delivery_id d.body))
        ≡ unhex (provided d.signature)

  check_at_sound :
      (secret : Text) (now : ℕ) (d : Delivered) (o : Option ℤ)
      → to_integer d.timestamp ≡ o
      → check_at secret now d o ≡ accepted
      → IsAuthentic secret now d
  check_at_sound secret now d none r e = cc
  check_at_sound secret now d (some ts) r e =
      let compared : compare_signatures (hmac secret (signed_text d.timestamp d.delivery_id d.body))
            (provided d.signature)
          ≡ accepted =
        ground arith in
      record {
        seconds = ts;
        read = r;
        near = ground arith;
        digest = (compare-accepted _ _ compared).1;
      }

  -- Only authentic deliveries are accepted.
  pub verify_webhook_signature_sound :
      (secret : Text) (now : ℕ) (d : Delivered)
      → verify_webhook_signature secret now d ≡ accepted
      → IsAuthentic secret now d
  unfolding verify_webhook_signature
  verify_webhook_signature_sound secret now d e = check_at_sound secret now d _ refl e
