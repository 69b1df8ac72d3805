-- ===== src/Notifications/Dispatch.antt =====
-- `dispatchToChannel` of apps/worker/src/notifications.ts. `JSON.stringify`, `createHmac` and the digits of
-- a number are arguments, and so is what the mail server, the receiver of a webhook and the database
-- make of the calls. The text of a mail and the log lines are left out.
pub mod Settled
pub mod Accepted
use wa_ops.Base.{
  ℕ, ◌+◌, ◌≡◌, refl, Bool, true, false, Option, none, some, List, [], ◌∷◌, ◌++◌, map, if◌then◌else◌,
}
use wa_ops.Base.Text.{Text, codes}
use wa_ops.Contracts.{Envelope, truthy}
use wa_ops.Database.{RowId, Table}
use wa_ops.Notifications.Signature.{signed_text}

pub data Provider : Type 0 where
  email webhook : Provider
  other : Text → Provider

-- notificationChannel
pub record Channel : Type 0 where
  pub enabled : Bool
  pub provider : Provider
  pub secret : Option Text

pub data DeliveryStatus : Type 0 where
  pending delivered failed : DeliveryStatus

-- notificationDelivery
pub record Delivery : Type 0 where
  pub tenant_id : Text
  pub channel_id : RowId
  pub incident_id : Option Text
  pub status : DeliveryStatus
  pub provider_message_ref : Option Text
  pub last_error : Option Text
  pub attempt_count : ℕ

-- What the call of the provider comes to: an answer, or the message of what it throws.
pub data Mailed : Type 0 where
  sent : (message_id : Text) → Mailed
  refused : (message : Text) → Mailed

pub data Fetched : Type 0 where
  responded : (ok : Bool) → (status : ℕ) → Fetched
  unreachable : (message : Text) → Fetched

-- The outside of one call: the time in seconds, the two providers, whether the `create` throws, the
-- message of what the `update` in the `try` throws, if it does, and whether the one in the `catch` does.
pub record Outside : Type 0 where
  pub now : ℕ
  pub mail : Mailed
  pub web : Fetched
  pub create_fault : Bool
  pub fault : Option Text
  pub catch_fault : Bool

pub data Answer : Type 0 where
  skipped was_delivered thrown : Answer
  has_failed : (error : Text) → Answer

-- The webhook's headers and body.
pub record Request : Type 0 where
  pub delivery_id : Text
  pub timestamp : Text
  pub signature : Option Text
  pub body : Text

abbrev pub or_field : Option Text → Option Text → Option Text
or_field none b = b
or_field (some a) b = some a

abbrev pub new_delivery : RowId → Option RowId → Envelope → Delivery
new_delivery channel_id incident_id e = record {
  tenant_id = e.tenant_id;
  channel_id = channel_id;
  incident_id = or_field incident_id e.resource_id;
  status = pending;
  provider_message_ref = none;
  last_error = none;
  attempt_count = 0;
}

abbrev pub to_delivered : Option Text → Delivery → Delivery
to_delivered none d = record d { status = delivered; attempt_count = d.attempt_count + 1 }
to_delivered (some ref) d = record d {
  status = delivered;
  provider_message_ref = some ref;
  attempt_count = d.attempt_count + 1;
}

abbrev pub to_failed : Text → Delivery → Delivery
to_failed message d = record d {
  status = failed;
  last_error = some message;
  attempt_count = d.attempt_count + 1;
}

-- What the `try` comes to before its `update`: the id of the message, a provider that is not known, or
-- the message of what is thrown.
pub data Tried : Type 0 where
  done : Option Text → Tried
  unknown : Tried
  threw : Text → Tried

abbrev pub mailed : Mailed → Tried
mailed (sent message_id) = done (some message_id)
mailed (refused message) = threw message

module _ (channels_table : Table Channel) (deliveries_table : Table Delivery)
    (hmac : Text → Text → Text) (digits : ℕ → Text)
    (stringify : Option RowId → Envelope → Text) where
  abbrev pub fetched : Fetched → Tried
  fetched (responded true status) = done none
  fetched (responded false status) = threw (codes "webhook responded " ++ digits status)
  fetched (unreachable message) = threw message

  abbrev pub signature_of : Option Text → Text → Option Text
  signature_of none signed = none
  signature_of (some secret) signed = some (codes "sha256=" ++ hmac secret signed)

  unfoldable pub request_of : Channel → RowId → ℕ → Option RowId → Envelope → Request
  unfolding signed_text
  request_of channel delivery_id now incident_id e =
      let payload = stringify incident_id e in
      record {
        delivery_id = delivery_id;
        timestamp = digits now;
        signature =
            signature_of (truthy channel.secret) (signed_text (digits now) delivery_id payload);
        body = payload;
      }

  -- The `catch`.
  abbrev pub caught :
      RowId → Text → (catch_fault : Bool) → deliveries_table.State → deliveries_table.State × Answer
  caught id message true s = (s, thrown)
  caught id message false s = (deliveries_table.update id (to_failed message) s, has_failed message)

  -- The `update` of the `try`, and the `catch`.
  abbrev pub settle_delivery :
      RowId
      → Tried
      → (fault : Option Text) → (catch_fault : Bool) → deliveries_table.State
      → deliveries_table.State × Answer
  settle_delivery id (done ref) none catch_fault s =
      (deliveries_table.update id (to_delivered ref) s, was_delivered)
  settle_delivery id unknown none catch_fault s = (
    deliveries_table.update id (to_failed (codes "unknown provider")) s,
    has_failed (codes "unknown provider"),
  )
  settle_delivery id (done ref) (some message) catch_fault s = caught id message catch_fault s
  settle_delivery id unknown (some message) catch_fault s = caught id message catch_fault s
  settle_delivery id (threw message) fault catch_fault s = caught id message catch_fault s

  abbrev pub tried : Provider → Outside → Tried
  tried email out = mailed out.mail
  tried webhook out = fetched out.web
  tried (other name) out = unknown

  abbrev pub requests : Channel → RowId → ℕ → Option RowId → Envelope → Provider → List Request
  requests channel id now incident_id e webhook = request_of channel id now incident_id e ∷ []
  requests channel id now incident_id e _ = []

  -- The deliveries after the call, its answer, and the requests that have been sent, where the `create`
  -- does not throw.
  abbrev pub attempt :
      Channel
      → RowId
      → Option RowId
      → Envelope
      → Outside
      → deliveries_table.State
      → deliveries_table.State × Answer × List Request
  attempt channel channel_id incident_id e out s =
      let (id, s') = deliveries_table.create (new_delivery channel_id incident_id e) s in
      let (s'', answer) =
        settle_delivery id (tried channel.provider out) out.fault out.catch_fault s' in
      (s'', answer, requests channel id out.now incident_id e channel.provider)

  abbrev pub enabled_channel : Option Channel → Option Channel
  enabled_channel none = none
  enabled_channel (some c) = if c.enabled then some c else none

  unfoldable pub dispatch_to_channel :
      channels_table.State
      → RowId
      → Option RowId
      → Envelope
      → Outside
      → deliveries_table.State
      → deliveries_table.State × Answer × List Request
  unfolding request_of
  dispatch_to_channel channels channel_id incident_id e out s =
      elim (enabled_channel (channels_table.at channels channel_id)) [
        | none ↦ (s, skipped, [])
        | some channel ↦
            if out.create_fault
            then (s, thrown, [])
            else attempt channel channel_id incident_id e out s
      ]
