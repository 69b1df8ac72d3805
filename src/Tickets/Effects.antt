-- ===== src/Tickets/Effects.antt =====
-- What a request does to the table of tickets: it makes one row, or changes one row of its tenant, or
-- leaves the table as it is.
use wa_ops.Base.{ℕ, ◌≡◌, refl, sym, ap, Bool, true, Option, none, some, arith}
use wa_ops.Base.Text.{Text, text_eq_iff}
use wa_ops.Contracts.{truthy}
use wa_ops.Database.{RowId, Table}
use wa_ops.Errors.{
  returned, or_throw-eq-returned, >>=-eq-returned, guard-eq-returned, returned-injective,
}
use wa_ops.Tickets.{
  Status, open_, in_progress, resolved, closed, Ticket, Comment, Membership, Context, CreateInput,
  PatchInput, next_value, bump, is_in, transitions, set_status, patched, Db, owned, require,
  new_ticket, create_ticket, patch, comment, check_assignee, to_assignee, assign, transition,
}

-- A resolved ticket has its time; one that is open or in progress has none.
abbrev pub Stamp : Status → Option ℕ → Type 0
Stamp open_ o = o ≡ none
Stamp in_progress o = o ≡ none
Stamp resolved o = (now : ℕ) × (o ≡ some now)
Stamp closed o = Unit

abbrev pub IsStamped : Ticket → Type 0
IsStamped r = Stamp r.status r.resolved_at

pub record IsChange (r r' : Ticket) : Type 0 where
  pub tenant : r'.tenant_id ≡ r.tenant_id
  pub number : r'.number ≡ r.number
  pub stamped : IsStamped r → IsStamped r'

to_in_progress :
    (s : Status) (o : Option ℕ)
    → is_in (transitions s) in_progress ≡ true
    → Stamp s o
    → Stamp in_progress o
to_in_progress open_ o h p = p
to_in_progress in_progress o h p = p
to_in_progress resolved o h p = cc
to_in_progress closed o h p = cc

set_status-IsChange :
    (target : Status) (now : ℕ) (r : Ticket)
    → is_in (transitions r.status) target ≡ true
    → IsChange r (set_status target now r)
set_status-IsChange open_ now r h = record { tenant = refl; number = refl; stamped = λ _. refl }
set_status-IsChange in_progress now r h = record {
  tenant = refl;
  number = refl;
  stamped = to_in_progress r.status r.resolved_at h;
}
set_status-IsChange resolved now r h = record {
  tenant = refl;
  number = refl;
  stamped = λ _. (now, refl);
}
set_status-IsChange closed now r h = record { tenant = refl; number = refl; stamped = λ _. tt }

module _ (tb : Table Ticket) (tc : Table Comment) (tm : Table Membership)
    (is_uuid : Text → Bool) where
  open tb use {State, at, find_first, create, update}

  abbrev pub Store : Type 0
  Store = Db tb tc tm is_uuid

  pub data Effect (tenant : Text) (a b : Store) : Type 0 where
    makes :
        (n : Ticket)
        → n.tenant_id ≡ tenant
        → IsStamped n
        → n.number ≡ next_value (a.sequences tenant)
        → b.tickets ≡ (create n a.tickets).1
        → b.sequences ≡ bump tenant a.sequences
        → Effect tenant a b
    changes :
        (k : RowId) (r : Ticket) (f : Ticket → Ticket)
        → at a.tickets k ≡ some r
        → r.tenant_id ≡ tenant
        → IsChange r (f r)
        → b.tickets ≡ update k f a.tickets
        → b.sequences ≡ a.sequences
        → Effect tenant a b
    leaves : b.tickets ≡ a.tickets → b.sequences ≡ a.sequences → Effect tenant a b

  require-eq-returned :
      (db : Store) (tenant : Text) (id : RowId) (found : RowId × Ticket)
      → require tb tc tm is_uuid db tenant id ≡ returned found
      → (at db.tickets found.0 ≡ some found.1) × (found.1.tenant_id ≡ tenant)
  require-eq-returned db tenant id (k, r) e =
      let p =
        or_throw-eq-returned _ (find_first (owned tb tc tm is_uuid tenant id) db.tickets) (k, r)
          e in
      let (a, m) = tb.find_first-some (owned tb tc tm is_uuid tenant id) db.tickets k r p in
      (a, ground (arith, text_eq_iff k id, text_eq_iff r.tenant_id tenant))

  tickets_of_returned : {a b : Store} → returned a ≡ returned b → b.tickets ≡ a.tickets
  tickets_of_returned h = sym (ap (λ (d : Store). d.tickets) (returned-injective h))

  sequences_of_returned : {a b : Store} → returned a ≡ returned b → b.sequences ≡ a.sequences
  sequences_of_returned h = sym (ap (λ (d : Store). d.sequences) (returned-injective h))

  create_ticket-Effect :
      (db db' : Store) (ctx : Context) (input : CreateInput) (k : RowId)
      → create_ticket tb tc tm is_uuid db ctx input ≡ returned (db', k)
      → Effect ctx.tenant_id db db'
  unfolding create_ticket
  create_ticket-Effect db db' ctx input k e =
      let (_, last) = guard-eq-returned _ _ _ e in
      let same = returned-injective last in
      makes (new_ticket tb tc tm is_uuid ctx input (next_value (db.sequences ctx.tenant_id))) refl
        refl refl (sym (ap (λ (d : Store × RowId). d.0.tickets) same))
        (sym (ap (λ (d : Store × RowId). d.0.sequences) same))

  patch-Effect :
      (db db' : Store) (ctx : Context) (id : RowId) (input : PatchInput)
      → patch tb tc tm is_uuid db ctx id input ≡ returned db'
      → Effect ctx.tenant_id db db'
  unfolding patch
  patch-Effect db db' ctx id input e =
      let (_, more) = guard-eq-returned _ _ _ e in
      let ((k, r), found, last) =
        >>=-eq-returned (require tb tc tm is_uuid db ctx.tenant_id id) _ more in
      let (a, own) = require-eq-returned db ctx.tenant_id id (k, r) found in
      changes k r (patched input) a own (record { tenant = refl; number = refl; stamped = λ h. h })
        (tickets_of_returned last) (sequences_of_returned last)

  comment-Effect :
      (db db' : Store) (ctx : Context) (id : RowId) (body : Text)
      → comment tb tc tm is_uuid db ctx id body ≡ returned db'
      → Effect ctx.tenant_id db db'
  unfolding comment
  comment-Effect db db' ctx id body e =
      let (_, more) = guard-eq-returned _ _ _ e in
      let ((k, r), found, last) =
        >>=-eq-returned (require tb tc tm is_uuid db ctx.tenant_id id) _ more in
      leaves (tickets_of_returned last) (sequences_of_returned last)

  assign-Effect :
      (db db' : Store) (ctx : Context) (id : RowId) (assignee : Option Text)
      → assign tb tc tm is_uuid db ctx id assignee ≡ returned db'
      → Effect ctx.tenant_id db db'
  unfolding assign
  assign-Effect db db' ctx id assignee e =
      let (_, more) = guard-eq-returned _ _ _ e in
      let ((k, r), found, rest) =
        >>=-eq-returned (require tb tc tm is_uuid db ctx.tenant_id id) _ more in
      let (a, own) = require-eq-returned db ctx.tenant_id id (k, r) found in
      let (_, _, last) =
        >>=-eq-returned (check_assignee tb tc tm is_uuid db ctx.tenant_id (truthy assignee)) _
          rest in
      changes k r (to_assignee tb tc tm is_uuid assignee) a own
        (record { tenant = refl; number = refl; stamped = λ h. h }) (tickets_of_returned last)
        (sequences_of_returned last)

  transition-Effect :
      (db db' : Store) (ctx : Context) (id : RowId) (target : Status) (remark : Option Text)
      (now : ℕ)
      → transition tb tc tm is_uuid db ctx id target remark now ≡ returned db'
      → Effect ctx.tenant_id db db'
  unfolding transition
  transition-Effect db db' ctx id target remark now e =
      let (_, more) = guard-eq-returned _ _ _ e in
      let ((k, r), found, rest) =
        >>=-eq-returned (require tb tc tm is_uuid db ctx.tenant_id id) _ more in
      let (a, own) = require-eq-returned db ctx.tenant_id id (k, r) found in
      let (legal, last) = guard-eq-returned _ _ _ rest in
      changes k r (set_status target now) a own (set_status-IsChange target now r legal)
        (tickets_of_returned last) (sequences_of_returned last)

  -- A request that succeeds.
  pub data Step (ctx : Context) (a b : Store) : Type 0 where
    creates :
        (input : CreateInput) (k : RowId)
        → create_ticket tb tc tm is_uuid a ctx input ≡ returned (b, k)
        → Step ctx a b
    patches :
        (id : RowId) (input : PatchInput)
        → patch tb tc tm is_uuid a ctx id input ≡ returned b
        → Step ctx a b
    comments :
        (id : RowId) (body : Text)
        → comment tb tc tm is_uuid a ctx id body ≡ returned b
        → Step ctx a b
    assigns :
        (id : RowId) (assignee : Option Text)
        → assign tb tc tm is_uuid a ctx id assignee ≡ returned b
        → Step ctx a b
    transitions_to :
        (id : RowId) (target : Status) (remark : Option Text) (now : ℕ)
        → transition tb tc tm is_uuid a ctx id target remark now ≡ returned b
        → Step ctx a b

  pub data Reach (a : Store) : Store → Type 0 where
    here : Reach a a
    next : {b c : Store} (ctx : Context) → Reach a b → Step ctx b c → Reach a c

  pub Step-Effect : {ctx : Context} {a b : Store} → Step ctx a b → Effect ctx.tenant_id a b
  Step-Effect {ctx} {a} {b} (creates input k e) = create_ticket-Effect a b ctx input k e
  Step-Effect {ctx} {a} {b} (patches id input e) = patch-Effect a b ctx id input e
  Step-Effect {ctx} {a} {b} (comments id body e) = comment-Effect a b ctx id body e
  Step-Effect {ctx} {a} {b} (assigns id assignee e) = assign-Effect a b ctx id assignee e
  Step-Effect {ctx} {a} {b} (transitions_to id target remark now e) =
      transition-Effect a b ctx id target remark now e
