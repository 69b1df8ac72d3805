-- ===== src/Incidents.antt =====
-- apps/worker/src/incident.service.ts and the changing handlers of
-- apps/api/src/incidents/incidents.controller.ts, over the `incident` table and the rows that they
-- append. The request's schema check, the permission check and the log lines are not modelled here.
pub mod OneOpen
pub mod Race
pub mod Events
pub mod Alarms
mod Tests
use Prim.Native.String.{◌++◌ as append}
use wa_ops.Base.{
  ℕ, Bool, true, false, not, ◌&&◌, ◌||◌, String, Option, none, some, List, [], ◌∷◌, ◌++◌,
  if◌then◌else◌,
}
use wa_ops.Base.Text.{Text, codes, text_eq}
use wa_ops.Contracts.{Severity, Envelope, truthy}
use wa_ops.Database.{RowId, Table}
use wa_ops.Errors.{
  Result, returned, raised, not_found_error, conflict_error, or_throw, guard, ◌>>=◌, ◌>>◌,
}

pub data Status : Type 0 where
  detected acknowledged resolved closed : Status

abbrev pub status_name : Status → String
status_name detected = "detected"
status_name acknowledged = "acknowledged"
status_name resolved = "resolved"
status_name closed = "closed"

pub record Incident : Type 0 where
  pub tenant_id : Text
  pub title : Text
  pub severity : Severity
  pub status : Status
  pub primary_resource_id : Option Text
  pub fingerprint : Option Text
  pub acknowledged_at : Option ℕ
  pub resolved_at : Option ℕ

pub data EntryType : Type 0 where
  created event_recurred entry_acknowledged entry_resolved reopened : EntryType

pub data Actor : Type 0 where
  system : Actor
  user : Text → Actor

pub record TimelineEntry : Type 0 where
  pub tenant_id : Text
  pub incident_id : RowId
  pub entry_type : EntryType
  pub actor : Actor
  -- the event's id, or the note
  pub payload : Option Text

pub record Link : Type 0 where
  pub incident_id : RowId
  pub event_id : Text
  pub tenant_id : Text

pub record Audit : Type 0 where
  pub action : String
  pub resource_id : RowId
  pub before : Option Status
  pub after : Option Status

-- `status: { notIn: ['resolved', 'closed'] }`
abbrev pub is_open : Status → Bool
is_open detected = true
is_open acknowledged = true
is_open resolved = false
is_open closed = false

abbrev pub has_fingerprint : Text → Option Text → Bool
has_fingerprint fp none = false
has_fingerprint fp (some fp') = text_eq fp' fp

-- The `where` of `openFromEvent`.
abbrev pub matches : Text → Text → Incident → Bool
matches tenant fp r =
    text_eq r.tenant_id tenant && (has_fingerprint fp r.fingerprint && is_open r.status)

abbrev linked : RowId → Text → List Link → Bool
linked incident event [] = false
linked incident event (l ∷ ls) =
    (text_eq l.incident_id incident && text_eq l.event_id event) || linked incident event ls

-- `incidentEvent.create`, whose key is the incident with the event; the `.catch` drops the error that
-- a second row with that key raises.
unfoldable pub link : RowId → Envelope → List Link → List Link
link incident e ls =
    if linked incident e.event_id ls
    then ls
    else ls
      ++ record { incident_id = incident; event_id = e.event_id; tenant_id = e.tenant_id } ∷ []

abbrev or_else : Option Text → Text → Text
or_else none d = d
or_else (some s) d = s

module _ (tb : Table Incident) where
  open tb use {State, at, find_first, create, update}

  pub record Db : Type 0 where
    pub incidents : State
    pub links : List Link
    pub timeline : List TimelineEntry
    pub audits : List Audit

  abbrev pub row : Db → RowId → Option Incident
  row db k = at db.incidents k

  -- The incident that an event opens.
  abbrev pub new_incident : Envelope → Text → Incident
  new_incident e fp = record {
    tenant_id = e.tenant_id;
    title = e.event_type ++ (codes " on " ++ or_else e.resource_id (codes "resource"));
    severity = e.severity;
    status = detected;
    primary_resource_id = e.resource_id;
    fingerprint = some fp;
    acknowledged_at = none;
    resolved_at = none;
  }

  abbrev entry : Envelope → RowId → EntryType → TimelineEntry
  entry e k type = record {
    tenant_id = e.tenant_id;
    incident_id = k;
    entry_type = type;
    actor = system;
    payload = some e.event_id;
  }

  -- The first await of `openFromEvent`: the open incident it reads, if there is one.
  unfoldable pub find_open : Db → Envelope → Text → Option RowId
  find_open db e fp = elim (find_first (λ _. matches e.tenant_id fp) db.incidents) [
    | some (k, _) ↦ some k
    | none ↦ none
  ]

  -- What it writes then, for what it has read; other calls may have written in between. The result is
  -- the incident, and whether it was there.
  unfoldable pub open_found : Db → Envelope → Text → Option RowId → Db × RowId × Bool
  unfolding link
  open_found db e fp (some k) = (
    record db {
      links = link k e db.links;
      timeline = db.timeline ++ entry e k event_recurred ∷ [];
    },
    k,
    true,
  )
  open_found db e fp none =
      let (k, incidents) = create (new_incident e fp) db.incidents in
      (
        record db {
          incidents = incidents;
          links = link k e db.links;
          timeline = db.timeline ++ entry e k created ∷ [];
        },
        k,
        false,
      )

  -- `openFromEvent` for an event with a fingerprint, with no other write between its awaits.
  unfoldable pub open_or_reuse : Db → Envelope → Text → Db × RowId × Bool
  unfolding find_open open_found
  open_or_reuse db e fp = open_found db e fp (find_open db e fp)

  -- The whole of `openFromEvent`, alone on the database. `none` is the empty `incidentId` of an event
  -- without a fingerprint.
  unfoldable pub open_from_event : Db → Envelope → Db × Option RowId × Bool
  unfolding open_or_reuse
  open_from_event db e = elim (truthy e.fingerprint) [
    | none ↦ (db, none, false)
    | some fp ↦ let (db', k, deduped) = open_or_reuse db e fp in (db', some k, deduped)
  ]

  abbrev pub owned : Text → RowId → RowId → Incident → Bool
  owned tenant id k r = text_eq k id && text_eq r.tenant_id tenant

  -- `findFirst({ where: { id, tenantId } })`, or the 404.
  abbrev pub require : Db → Text → RowId → Result (RowId × Incident)
  require db tenant id =
      or_throw (not_found_error "Incident") (find_first (owned tenant id) db.incidents)

  abbrev note_entry : Text → Text → RowId → EntryType → Option Text → TimelineEntry
  note_entry tenant user_id k type remark = record {
    tenant_id = tenant;
    incident_id = k;
    entry_type = type;
    actor = user user_id;
    payload = remark;
  }

  abbrev audit_row : String → RowId → Option Status → Option Status → Audit
  audit_row action k before after = record {
    action = action;
    resource_id = k;
    before = before;
    after = after;
  }

  abbrev pub to_acknowledged : ℕ → Incident → Incident
  to_acknowledged now r = record r { status = acknowledged; acknowledged_at = some now }

  abbrev pub to_resolved : ℕ → Incident → Incident
  to_resolved now r = record r { status = resolved; resolved_at = some now }

  abbrev pub to_reopened : Incident → Incident
  to_reopened r = record r { status = acknowledged; resolved_at = none }

  abbrev pub is_detected : Status → Bool
  is_detected detected = true
  is_detected _ = false

  unfoldable pub acknowledge : Db → Text → Text → RowId → Option Text → ℕ → Result Db
  acknowledge db tenant user_id id remark now = do
    (k, r) ← require db tenant id
    guard (is_detected r.status) (
        conflict_error
          (append "incident not in detected state (current: " (append (status_name r.status) ")")))
    returned (record db {
      incidents = update k (to_acknowledged now) db.incidents;
      timeline = db.timeline ++ note_entry tenant user_id k entry_acknowledged (truthy remark) ∷ [];
      audits =
          db.audits ++ audit_row "incident.acknowledge" k (some r.status) (some acknowledged) ∷ [];
    })

  unfoldable pub resolve : Db → Text → Text → RowId → Option Text → ℕ → Result Db
  resolve db tenant user_id id remark now = do
    (k, r) ← require db tenant id
    guard (is_open r.status) (conflict_error (append "incident already " (status_name r.status)))
    returned (record db {
      incidents = update k (to_resolved now) db.incidents;
      timeline = db.timeline ++ note_entry tenant user_id k entry_resolved (truthy remark) ∷ [];
      audits = db.audits ++ audit_row "incident.resolve" k (some r.status) (some resolved) ∷ [];
    })

  -- No test of the present state.
  unfoldable pub reopen : Db → Text → Text → RowId → Result Db
  reopen db tenant user_id id = do
    (k, r) ← require db tenant id
    returned (record db {
      incidents = update k to_reopened db.incidents;
      timeline = db.timeline ++ note_entry tenant user_id k reopened none ∷ [];
      audits = db.audits ++ audit_row "incident.reopen" k none none ∷ [];
    })
