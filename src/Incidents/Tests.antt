-- ===== src/Incidents/Tests.antt =====
-- A life of an incident on the table in memory.
use wa_ops.Base.{List, ◌≡◌, ◌≢◌, ◌↔◌, refl, true, none, some, [], ◌∷◌}
use wa_ops.Base.Text.{Text, codes, text_eq}
use wa_ops.Contracts.{Envelope, high}
use wa_ops.Memory.{memory, row_at, update_rows, find_row, new_id}
use wa_ops.Database.{RowId}
use wa_ops.Errors.{returned, raised}
use wa_ops.Incidents.{
  Incident, detected, acknowledged, resolved, reopened, user, matches, Db, find_open,
  open_from_event, resolve, reopen,
}
use wa_ops.Incidents.Alarms.{IsRaised, IsOnly, resolve-refines}
use wa_ops.Incidents.Events.{
  Channel, Store, handle_event_envelope, handle_all, handle_event_envelope_again,
}
use wa_ops.Incidents.Race.{both_write, both_write-not-OneOpen}
use wa_ops.Incidents.OneOpen.{
  OneOpen, matches_iff, Reach, here, next, event, Reach-OneOpen, reopen-not-OneOpen,
}

abbrev empty : Db (memory Incident)
empty = record { incidents = []; links = []; timeline = []; audits = [] }

abbrev alarm : Text → Envelope
alarm id = record {
  event_id = id;
  tenant_id = codes "t1";
  source = codes "worker";
  resource_id = some (codes "host");
  event_type = codes "host.cpu_high";
  severity = high;
  fingerprint = some (codes "fp");
  observed_at = 5;
}

-- Two alarms, the second under the incident of the first.
abbrev twice : Db (memory Incident)
twice =
    (open_from_event (memory Incident)
      (open_from_event (memory Incident) empty (alarm (codes "e1"))).0 (alarm (codes "e2"))).0

empty-OneOpen : OneOpen (memory Incident) empty.incidents
unfolding row_at
empty-OneOpen = record { same = λ j k q r fp a. cc }

abbrev to_twice : Reach (memory Incident) empty twice
to_twice = next (next here (event empty (alarm (codes "e1")))) (event _ (alarm (codes "e2")))

Reach-OneOpen_example : OneOpen (memory Incident) twice.incidents
Reach-OneOpen_example = Reach-OneOpen (memory Incident) to_twice empty-OneOpen

abbrev first : RowId
first = 1 ∷ []

abbrev one : Incident
one = record {
  tenant_id = codes "t1";
  title = codes "host.cpu_high on host";
  severity = high;
  status = detected;
  primary_resource_id = some (codes "host");
  fingerprint = some (codes "fp");
  acknowledged_at = none;
  resolved_at = none;
}

first_stands : row_at twice.incidents first ≡ some one
unfolding open_from_event row_at find_row new_id text_eq
first_stands = refl

one-matches : matches (codes "t1") (codes "fp") one ≡ true
unfolding text_eq
one-matches = refl

-- An incident that is resolved, and a second one that is open.
abbrev closed_one : Incident
closed_one = record one { status = resolved; resolved_at = some 9 }

abbrev before_reopen : Db (memory Incident)
before_reopen = record empty { incidents = (2 ∷ [], one) ∷ (first, closed_one) ∷ [] }

abbrev after_reopen : Db (memory Incident)
after_reopen = record {
  incidents =
      (2 ∷ [], one) ∷ (first, record closed_one { status = acknowledged; resolved_at = none }) ∷ [];
  links = [];
  timeline =
      record {
        tenant_id = codes "t1";
        incident_id = first;
        entry_type = reopened;
        actor = user (codes "u1");
        payload = none;
      }
      ∷ [];
  audits =
      record { action = "incident.reopen"; resource_id = first; before = none; after = none } ∷ [];
}

reopens :
    reopen (memory Incident) before_reopen (codes "t1") (codes "u1") first ≡ returned after_reopen
unfolding reopen find_row update_rows text_eq
reopens = refl

distinct : first ≢ 2 ∷ []
distinct e = cc

second_stands : row_at before_reopen.incidents (2 ∷ []) ≡ some one
unfolding row_at text_eq
second_stands = refl

closed_stands : row_at before_reopen.incidents first ≡ some closed_one
unfolding row_at text_eq
closed_stands = refl

reopen-not-OneOpen_example : ¬ OneOpen (memory Incident) after_reopen.incidents
reopen-not-OneOpen_example =
    reopen-not-OneOpen (memory Incident) before_reopen after_reopen (codes "t1") (codes "u1")
      (codes "fp") first (2 ∷ []) closed_one one reopens distinct closed_stands second_stands refl
      refl refl refl

abbrev fresh_store : Store (memory Incident)
fresh_store = record { db = empty; events = [] }

abbrev channels : List Channel
channels = record { id = codes "c1"; tenant_id = codes "t1"; enabled = true } ∷ []

abbrev in_between : List Envelope
in_between = alarm (codes "e2") ∷ []

handle_event_envelope_again_example :
    handle_event_envelope
      (memory Incident)
      channels
      (handle_all
        (memory Incident)
        channels
        (handle_event_envelope (memory Incident) channels fresh_store (alarm (codes "e1"))).0
        in_between)
      (alarm (codes "e1"))
    ≡ (
      handle_all
          (memory Incident)
          channels
          (handle_event_envelope (memory Incident) channels fresh_store (alarm (codes "e1"))).0
          in_between,
      [],
    )
handle_event_envelope_again_example =
    handle_event_envelope_again (memory Incident) channels channels fresh_store (alarm (codes "e1"))
      in_between

abbrev after_resolve : Db (memory Incident)
after_resolve = elim (resolve (memory Incident) twice (codes "t1") (codes "u1") first none 9) [
  | returned db ↦ db
  | raised e ↦ twice
]

resolves :
    resolve (memory Incident) twice (codes "t1") (codes "u1") first none 9 ≡ returned after_resolve
unfolding resolve open_from_event find_row new_id text_eq
resolves = refl

first-IsOnly : IsOnly (memory Incident) twice.incidents first (codes "t1") (codes "fp")
first-IsOnly i q a m =
    let (t, f, o) = matches_iff (memory Incident) (codes "t1") (codes "fp") q m in
    let one_open = Reach-OneOpen (memory Incident) to_twice empty-OneOpen in
    one_open.same i first q one (codes "fp") a first_stands o refl t f refl

resolve-refines_example :
    IsRaised (memory Incident) after_resolve.incidents (codes "t1") (codes "other") ↔ (
      IsRaised (memory Incident) twice.incidents (codes "t1") (codes "other")
      × ¬ ((codes "t1" ≡ codes "t1") × (codes "other" ≡ codes "fp")))
resolve-refines_example =
    resolve-refines (memory Incident) twice after_resolve (codes "t1") (codes "u1") first none 9 one
      (codes "fp") resolves first-IsOnly first_stands refl (codes "t1") (codes "other")

none_open : find_open (memory Incident) empty (alarm (codes "e1")) (codes "fp") ≡ none
unfolding find_open find_row
none_open = refl

none_open_again : find_open (memory Incident) empty (alarm (codes "e2")) (codes "fp") ≡ none
unfolding find_open find_row
none_open_again = refl

both_write-not-OneOpen_example :
    ¬ OneOpen
      (memory Incident)
      (both_write
        (memory Incident)
        empty
        (alarm (codes "e1"))
        (alarm (codes "e2"))
        (codes "fp")
        (find_open (memory Incident) empty (alarm (codes "e1")) (codes "fp"))
        (find_open (memory Incident) empty (alarm (codes "e2")) (codes "fp"))).incidents
both_write-not-OneOpen_example =
    both_write-not-OneOpen (memory Incident) empty (alarm (codes "e1")) (alarm (codes "e2"))
      (codes "fp") refl none_open none_open_again
