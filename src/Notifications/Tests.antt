-- ===== src/Notifications/Tests.antt =====
-- A webhook that is sent and checked, and a delivery that fails, over tables in memory.
use wa_ops.Base.{ℕ, ◌≤◌, ◌≡◌, ◌↔◌, ◌⊎◌, refl, true, false, Option, none, some, [], ◌∷◌, arith}
use wa_ops.Base.Text.{Text, codes}
use wa_ops.Contracts.{Envelope, high}
use wa_ops.Database.{RowId}
use wa_ops.Memory.{memory, Rows}
use wa_ops.Notifications.Signature.{ℤ, pos, distance, Delivered, accepted, verify_webhook_signature}
use wa_ops.Notifications.Dispatch.{
  Channel, webhook, Delivery, Outside, refused, responded, skipped, thrown, request_of,
  enabled_channel, dispatch_to_channel,
}
use wa_ops.Notifications.Dispatch.Settled.{IsSettled, dispatch_to_channel-settles}
use wa_ops.Notifications.Dispatch.Accepted.{arrives, request_of-accepted_iff}

-- A digest that is the text behind a mark, digits of base one number, and their reading.
abbrev hmac : Text → Text → Text
hmac secret s = 1 ∷ s

abbrev itself : Text → Text
itself s = s

abbrev digits : ℕ → Text
digits n = n ∷ []

abbrev to_integer : Text → Option ℤ
to_integer [] = none
to_integer (n ∷ s) = some (pos n)

abbrev stringify : Option RowId → Envelope → Text
stringify incident_id e = e.event_id

abbrev event : Envelope
event = record {
  event_id = codes "e1";
  tenant_id = codes "t1";
  source = codes "worker";
  resource_id = none;
  event_type = codes "host.cpu_high";
  severity = high;
  fingerprint = none;
  observed_at = 5;
}

abbrev hook : Channel
hook = record { enabled = true; provider = webhook; secret = some (codes "k") }

request_of-accepted_iff_example :
    (verify_webhook_signature hmac itself to_integer (codes "k") 1200 (
        arrives (
          request_of
            (memory Channel)
            (memory Delivery)
            hmac
            digits
            stringify
            hook
            (codes "d1")
            1000
            none
            event))
      ≡ accepted)
    ↔ (distance 1200 (pos 1000) ≤ 300)
request_of-accepted_iff_example =
    request_of-accepted_iff (memory Channel) (memory Delivery) hmac itself digits to_integer
      stringify hook (codes "k") (codes "d1") 1000 1200 none event refl refl (omega arith)

abbrev delivered : Delivered
delivered = arrives (
    request_of (memory Channel) (memory Delivery) hmac digits stringify hook (codes "d1") 1000 none
      event)

is_accepted : verify_webhook_signature hmac itself to_integer (codes "k") 1200 delivered ≡ accepted
is_accepted = request_of-accepted_iff_example.1 (omega arith)

abbrev channels : Rows Channel
channels = (codes "c1", hook) ∷ []

abbrev outside : Outside
outside = record {
  now = 1000;
  mail = refused (codes "no mail");
  web = responded false 503;
  create_fault = false;
  fault = none;
  catch_fault = false;
}

dispatch_to_channel-settles_example :
    ((enabled_channel
          (memory Channel)
          (memory Delivery)
          hmac
          digits
          stringify
          ((memory Channel).at channels (codes "c1"))
        ≡ none)
      × (dispatch_to_channel
            (memory Channel)
            (memory Delivery)
            hmac
            digits
            stringify
            channels
            (codes "c1")
            none
            event
            outside
            []
          ≡ ([], skipped, [])))
    ⊎ (((outside.create_fault ≡ true)
          × (dispatch_to_channel
                (memory Channel)
                (memory Delivery)
                hmac
                digits
                stringify
                channels
                (codes "c1")
                none
                event
                outside
                []
              ≡ ([], thrown, [])))
        ⊎ IsSettled
            (memory Channel)
            (memory Delivery)
            hmac
            digits
            stringify
            []
            (dispatch_to_channel
              (memory Channel)
              (memory Delivery)
              hmac
              digits
              stringify
              channels
              (codes "c1")
              none
              event
              outside
              []).0
            (dispatch_to_channel
              (memory Channel)
              (memory Delivery)
              hmac
              digits
              stringify
              channels
              (codes "c1")
              none
              event
              outside
              []).1
            (codes "c1")
            (codes "t1")
            outside.catch_fault)
dispatch_to_channel-settles_example =
    dispatch_to_channel-settles (memory Channel) (memory Delivery) hmac digits stringify channels
      (codes "c1") none event outside []
