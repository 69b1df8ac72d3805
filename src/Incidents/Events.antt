-- ===== src/Incidents/Events.antt =====
-- `handleEventEnvelope` of apps/worker/src/main.ts: an event is stored under its id, opens or recurs on
-- an incident, and is passed on. The publishing and the dispatch to a channel are acts. One envelope is
-- handled at a time here; the worker handles four, which Race beside this is about.
use wa_ops.Base.{
  ◌≡◌, refl, Bool, true, false, ◌&&◌, ◌||◌, Option, none, some, List, [], ◌∷◌, map, arith,
  if◌then◌else◌,
}
use wa_ops.Base.Text.{Text, text_eq, text_eq_iff}
use wa_ops.Contracts.{Envelope}
use wa_ops.Database.{RowId, Table}
use wa_ops.Incidents.{Incident, Db, open_from_event}

-- notificationChannel
pub record Channel : Type 0 where
  pub id : RowId
  pub tenant_id : Text
  pub enabled : Bool

pub data Act : Type 0 where
  emit_incident_event : Envelope → RowId → Act
  dispatch_to_channel : (channel incident : RowId) → Envelope → Act

-- The ids in the table of domain events.
abbrev pub is_stored : List Text → Text → Bool
is_stored [] id = false
is_stored (x ∷ xs) id = text_eq x id || is_stored xs id

-- `findMany({ where: { tenantId, enabled: true } })`
abbrev pub enabled_of : Text → List Channel → List Channel
enabled_of tenant [] = []
enabled_of tenant (c ∷ cs) =
    let rest = enabled_of tenant cs in
    if text_eq c.tenant_id tenant && c.enabled then c ∷ rest else rest

abbrev pub fan_out : List Channel → Envelope → Option RowId → List Act
fan_out channels e none = []
fan_out channels e (some k) =
    emit_incident_event e k
    ∷ map (λ c. dispatch_to_channel c.id k e) (enabled_of e.tenant_id channels)

module _ (tb : Table Incident) where
  pub record Store : Type 0 where
    pub db : Db tb
    pub events : List Text

  -- `create` fails with P2002 where the id is there.
  unfoldable pub handle_event_envelope : List Channel → Store → Envelope → Store × List Act
  handle_event_envelope channels s e =
      let opened = open_from_event tb s.db e in
      if is_stored s.events e.event_id
      then (s, [])
      else (record { db = opened.0; events = e.event_id ∷ s.events }, fan_out channels e opened.1)

  unfoldable pub handle_all : List Channel → Store → List Envelope → Store
  unfolding handle_event_envelope
  handle_all channels s [] = s
  handle_all channels s (e ∷ es) = handle_all channels (handle_event_envelope channels s e).0 es

  stored_now :
      (channels : List Channel) (s : Store) (e : Envelope)
      → is_stored (handle_event_envelope channels s e).0.events e.event_id ≡ true
  unfolding handle_event_envelope
  stored_now channels s e = ground (arith, text_eq_iff e.event_id e.event_id)

  stored_still :
      (channels : List Channel) (s : Store) (e : Envelope) (id : Text)
      → is_stored s.events id ≡ true
      → is_stored (handle_event_envelope channels s e).0.events id ≡ true
  unfolding handle_event_envelope
  stored_still channels s e id h = ground arith

  stored_after :
      (channels : List Channel) (s : Store) (es : List Envelope) (id : Text)
      → is_stored s.events id ≡ true
      → is_stored (handle_all channels s es).events id ≡ true
  unfolding handle_all
  stored_after channels s [] id h = h
  stored_after channels s (e ∷ es) id h =
      stored_after channels (handle_event_envelope channels s e).0 es id
        (stored_still channels s e id h)

  skips :
      (channels : List Channel) (s : Store) (e : Envelope)
      → is_stored s.events e.event_id ≡ true
      → handle_event_envelope channels s e ≡ (s, [])
  unfolding handle_event_envelope
  skips channels s e h = rw (h, handle_event_envelope) refl

  -- An envelope that is delivered again, whatever other envelopes have been handled in between, changes
  -- nothing and is passed on to nobody.
  pub handle_event_envelope_again :
      (channels channels' : List Channel) (s : Store) (e : Envelope) (es : List Envelope)
      → handle_event_envelope channels'
          (handle_all channels (handle_event_envelope channels s e).0 es)
          e
        ≡ (handle_all channels (handle_event_envelope channels s e).0 es, [])
  handle_event_envelope_again channels channels' s e es = skips channels' _ e (
      stored_after channels (handle_event_envelope channels s e).0 es e.event_id
        (stored_now channels s e))
