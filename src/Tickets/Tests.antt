-- ===== src/Tickets/Tests.antt =====
-- A ticket that is made, taken up and resolved, on tables in memory.
use mathlib.Core.Bool.{false≢true}
use wa_ops.Base.{◌≡◌, ◌≢◌, refl, ◌↔◌, Bool, true, none, some, [], ◌∷◌}
use wa_ops.Base.Text.{Text, codes, text_eq, text_eq_iff}
use wa_ops.Database.{RowId}
use wa_ops.Memory.{memory, row_at, find_row, new_id}
use wa_ops.Errors.{returned}
use wa_ops.Tickets.{
  low, closed, resolved, status_name, Ticket, Comment, Membership, Context, CreateInput, Db,
  require, create_ticket, transition,
}
use wa_ops.Tickets.Effects.{creates, transitions_to, here, next}
use wa_ops.Tickets.Invariant.{IsSound, Reach-IsSound, Step-keeps_others}
use wa_ops.Tickets.Web.{next_statuses, offers, transition-offered_iff}

abbrev any_text : Text → Bool
any_text s = true

abbrev Store : Type 0
Store = Db (memory Ticket) (memory Comment) (memory Membership) any_text

abbrev nothing : Store
nothing = record {
  tickets = [];
  comments = [];
  members = [];
  sequences = λ t. none;
  audits = [];
  published = [];
}

abbrev ctx : Context
ctx = record { tenant_id = codes "t1"; user_id = codes "u1"; organization_scope = none }

abbrev input : CreateInput
input = record {
  title = codes "disk";
  description = codes "disk is full";
  priority = none;
  labels = none;
  incident_id = none;
}

abbrev made : Store × RowId
made =
    elim (create_ticket (memory Ticket) (memory Comment) (memory Membership) any_text nothing ctx
      input) [ returned r ↦ r | _ ↦ (nothing, []) ]

makes_one :
    create_ticket (memory Ticket) (memory Comment) (memory Membership) any_text nothing ctx input
    ≡ returned made
unfolding create_ticket
makes_one = refl

abbrev done : Store
done =
    elim (transition (memory Ticket) (memory Comment) (memory Membership) any_text made.0 ctx made.1
      resolved none 9) [ returned r ↦ r | _ ↦ nothing ]

resolves_it :
    transition
      (memory Ticket)
      (memory Comment)
      (memory Membership)
      any_text
      made.0
      ctx
      made.1
      resolved
      none
      9
    ≡ returned done
unfolding create_ticket transition find_row text_eq new_id
resolves_it = refl

nothing-IsSound :
    IsSound
      (memory Ticket)
      (memory Comment)
      (memory Membership)
      any_text
      nothing.tickets
      nothing.sequences
unfolding row_at
nothing-IsSound = record { issued = λ k r a. cc; unique = λ j k q r a. cc; stamped = λ k r a. cc }

Reach-IsSound_example :
    IsSound
      (memory Ticket)
      (memory Comment)
      (memory Membership)
      any_text
      done.tickets
      done.sequences
Reach-IsSound_example =
    Reach-IsSound (memory Ticket) (memory Comment) (memory Membership) any_text
      (next ctx (next ctx here (creates input made.1 makes_one))
        (transitions_to made.1 resolved none 9 resolves_it))
      nothing-IsSound

-- A ticket of another tenant.
abbrev other : Ticket
other = record {
  tenant_id = codes "t2";
  organization_id = none;
  number = 1;
  title = codes "x";
  description = codes "y";
  priority = low;
  labels = [];
  incident_id = none;
  requester_id = codes "u2";
  assignee_id = none;
  status = closed;
  resolved_at = none;
}

abbrev with_other : Store
with_other = record nothing { tickets = (codes "k", other) ∷ [] }

abbrev two : Store × RowId
two =
    elim (create_ticket (memory Ticket) (memory Comment) (memory Membership) any_text with_other ctx
      input) [ returned r ↦ r | _ ↦ (nothing, []) ]

makes_second :
    create_ticket (memory Ticket) (memory Comment) (memory Membership) any_text with_other ctx input
    ≡ returned two
unfolding create_ticket
makes_second = refl

other_stands : row_at with_other.tickets (codes "k") ≡ some other
unfolding row_at text_eq
other_stands = refl

other_tenant : codes "t2" ≢ codes "t1"
unfolding text_eq
other_tenant e = false≢true ((text_eq_iff (codes "t2") (codes "t1")).1 e)

Step-keeps_others_example : row_at two.0.tickets (codes "k") ≡ some other
Step-keeps_others_example =
    Step-keeps_others (memory Ticket) (memory Comment) (memory Membership) any_text (codes "k")
      other (creates input two.1 makes_second) other_stands other_tenant

finds_other :
    require
      (memory Ticket)
      (memory Comment)
      (memory Membership)
      any_text
      with_other
      (codes "t2")
      (codes "k")
    ≡ returned (codes "k", other)
unfolding find_row text_eq
finds_other = refl

abbrev their_ctx : Context
their_ctx = record { tenant_id = codes "t2"; user_id = codes "u2"; organization_scope = none }

transition-offered_iff_example :
    ((db' : Store) × (transition
          (memory Ticket)
          (memory Comment)
          (memory Membership)
          any_text
          with_other
          their_ctx
          (codes "k")
          resolved
          none
          9
        ≡ returned db'))
    ↔ (offers (next_statuses (status_name closed)) (status_name resolved) ≡ true)
transition-offered_iff_example =
    transition-offered_iff (memory Ticket) (memory Comment) (memory Membership) any_text with_other
      their_ctx (codes "k") (codes "k") other resolved none 9 finds_other refl
