-- ===== src/Realtime/Broker/Ids.antt =====
-- The numbering of events: `publish` of apps/api/src/realtime/realtime.publisher.ts, `nextId` and
-- `publishRetained` of apps/worker/src/realtime.emit.ts, and `publishAgentEvent` of
-- apps/collector-gateway/src/main.ts, which all do the same: what they are given, and the keys. A key
-- of Redis is named without the prefix that its kind shares.
use wa_ops.Base.{
  ◌≡◌, refl, Bool, true, false, ◌&&◌, Option, [], ◌∷◌, ◌++◌, arith, some, none, if◌then◌else◌,
}
use wa_ops.Contracts.{Severity, Envelope, truthy}
use wa_ops.Base.Text.{codes, Text, text_eq, includes}
use wa_ops.Realtime.Broker.Streams.{SseChannel, incidents, agents, name_of, channel_name}

-- An event before it has an id.
pub record Draft : Type 0 where
  pub tenant_id : Text
  pub channel : SseChannel
  pub type : Text
  pub payload : Text

unfoldable pub set {ℓ} : {A : Type ℓ} → Text → A → (Text → A) → Text → A
unfolding text_eq
set k v f j = if text_eq j k then v else f j

abbrev pub same_channel : SseChannel → SseChannel → Bool
same_channel incidents incidents = true
same_channel agents agents = true
same_channel _ _ = false

text_eq-colon_right : (s t u : Text) → includes 58 s ≡ false → text_eq s (t ++ 58 ∷ u) ≡ false
unfolding text_eq includes
text_eq-colon_right [] [] u h = refl
text_eq-colon_right [] (d ∷ t) u h = refl
text_eq-colon_right (c ∷ s) [] u h = ground arith
text_eq-colon_right (c ∷ s) (d ∷ t) u h = ground (arith, text_eq-colon_right s t u)

text_eq-colon_left : (s t u : Text) → includes 58 s ≡ false → text_eq (t ++ 58 ∷ u) s ≡ false
unfolding text_eq includes
text_eq-colon_left [] [] u h = refl
text_eq-colon_left [] (d ∷ t) u h = refl
text_eq-colon_left (c ∷ s) [] u h = ground arith
text_eq-colon_left (c ∷ s) (d ∷ t) u h = ground (arith, text_eq-colon_left s t u)

includes-name_of : (c : SseChannel) → includes 58 (name_of c) ≡ false
unfolding includes
includes-name_of incidents = refl
includes-name_of agents = refl

text_eq-tails :
    (s t : Text) (c d : SseChannel)
    → text_eq (s ++ 58 ∷ name_of c) (t ++ 58 ∷ name_of d) ≡ (text_eq s t && same_channel c d)
unfolding text_eq
text_eq-tails [] [] incidents incidents = refl
text_eq-tails [] [] incidents agents = refl
text_eq-tails [] [] agents incidents = refl
text_eq-tails [] [] agents agents = refl
text_eq-tails [] (b ∷ t) c d =
    ground (arith, text_eq-colon_right (name_of c) t (name_of d) (includes-name_of c))
text_eq-tails (a ∷ s) [] c d =
    ground (arith, text_eq-colon_left (name_of d) s (name_of c) (includes-name_of d))
text_eq-tails (a ∷ s) (b ∷ t) c d = ground (arith, text_eq-tails s t c d)

-- Two channels have one name only where the tenant and the channel are one.
pub text_eq-channel_name :
    (s t : Text) (c d : SseChannel)
    → text_eq (channel_name s c) (channel_name t d) ≡ (text_eq s t && same_channel c d)
unfolding text_eq channel_name
text_eq-channel_name s t c d = text_eq-tails s t c d

-- What the worker tells a dashboard about an incident.
pub record IncidentPayload : Type 0 where
  pub incident_id : Text
  pub event_type : Text
  pub severity : Severity
  pub resource_id : Option Text
  pub title : Text
  pub status : Option Text

abbrev or_resource : Option Text → Text
or_resource none = codes "resource"
or_resource (some id) = id

-- `emitIncidentEvent` of the worker; `encode` writes a payload out.
unfoldable pub incident_draft :
    (IncidentPayload → Text) → Envelope → (incident_id : Text) → (status : Option Text) → Draft
incident_draft encode envelope incident_id status = record {
  tenant_id = envelope.tenant_id;
  channel = incidents;
  type = codes "incident.created";
  payload = encode (record {
    incident_id = incident_id;
    event_type = envelope.event_type;
    severity = envelope.severity;
    resource_id = envelope.resource_id;
    title = envelope.event_type ++ (codes " on " ++ or_resource envelope.resource_id);
    status = truthy status;
  });
}

-- `emitAgentEvent` of the worker, and `publishAgentEvent` of the gateway
unfoldable pub agent_draft : (tenant type payload : Text) → Draft
agent_draft tenant type payload = record {
  tenant_id = tenant;
  channel = agents;
  type = type;
  payload = payload;
}
