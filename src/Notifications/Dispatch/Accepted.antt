-- ===== src/Notifications/Dispatch/Accepted.antt =====
-- The two ends of a webhook of apps/worker/src/notifications.ts: what `dispatchToChannel` signs, and
-- `verifyWebhookSignature` at its receiver.
use wa_ops.Base.{ℕ, ◌≤◌, ◌≡◌, ◌↔◌, Option, none, some, [], length, ltb, arith, if◌then◌else◌}
use wa_ops.Base.Text.{Text}
use wa_ops.Contracts.{Envelope, truthy}
use wa_ops.Database.{RowId, Table}
use wa_ops.Notifications.Signature.{
  ℤ, pos, distance, Delivered, Verdict, accepted, bad_timestamp, expired, tolerance, signed_text,
  verify_webhook_signature, provided, compare-same,
}
use wa_ops.Notifications.Dispatch.{Channel, Delivery, Request, request_of}

-- The request as it arrives; a header that is missing reads as the empty text.
abbrev pub arrives : Request → Delivered
arrives r = record {
  signature = elim r.signature [ none ↦ [] | some s ↦ s ];
  timestamp = r.timestamp;
  delivery_id = r.delivery_id;
  body = r.body;
}

near_iff :
    (n d : ℕ) (v : Verdict)
    → n ≤ 20
    → v ≡ accepted
    → ((if ltb 20 n then bad_timestamp else (if ltb tolerance d then expired else v)) ≡ accepted)
      ↔ (d ≤ 300)
near_iff n d v short e = ground arith

module _ (channels_table : Table Channel) (deliveries_table : Table Delivery)
    (hmac : Text → Text → Text) (unhex : Text → Text) (digits : ℕ → Text)
    (to_integer : Text → Option ℤ) (stringify : Option RowId → Envelope → Text) where
  -- A webhook that is sent with a secret at a time that is written with at most 20 digits is accepted by a
  -- receiver with the same secret exactly where its clock is at most 300 seconds away from the
  -- sender's, whatever the event. Asked: a number is read back from its digits.
  pub request_of-accepted_iff :
      (channel : Channel) (secret : Text) (delivery_id : RowId) (now now' : ℕ)
      (incident_id : Option RowId) (e : Envelope)
      → truthy channel.secret ≡ some secret
      → to_integer (digits now) ≡ some (pos now)
      → length (digits now) ≤ 20
      → (verify_webhook_signature hmac unhex to_integer secret now' (
            arrives (
              request_of channels_table deliveries_table hmac digits stringify channel delivery_id
                now incident_id e))
          ≡ accepted)
        ↔ (distance now' (pos now) ≤ 300)
  unfolding verify_webhook_signature request_of provided
  request_of-accepted_iff channel secret delivery_id now now' incident_id e has_secret reads short =
      rw (has_secret, reads)
        (near_iff (length (digits now)) (distance now' (pos now)) _ short (
          compare-same hmac unhex to_integer
            (hmac secret (signed_text (digits now) delivery_id (stringify incident_id e)))))
