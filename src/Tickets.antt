-- ===== src/Tickets.antt =====
-- The changing handlers of apps/api/src/support/tickets.controller.ts, and the transitions that
-- apps/web/src/lib/tickets.ts offers. The permission checks come before the handlers and are not
-- modelled; `z.string().uuid()` is an argument.
pub mod Effects
pub mod Invariant
pub mod Web
mod Tests
use Prim.Native.String.{◌++◌ as append}
use wa_ops.Base.{
  ℕ, ◌+◌, Bool, true, false, ◌&&◌, ◌||◌, String, Option, none, some, List, [], ◌∷◌, ◌++◌, leb,
  length, if◌then◌else◌,
}
use wa_ops.Base.Text.{Text, codes, text_eq}
use wa_ops.Contracts.{truthy}
use wa_ops.Database.{RowId, Table}
use wa_ops.Errors.{
  Result, returned, raised, not_found_error, conflict_error, validation, or_throw, guard, ◌>>=◌,
  ◌>>◌,
}

pub data Status : Type 0 where
  open_ in_progress resolved closed : Status

abbrev pub status_name : Status → String
status_name open_ = "open"
status_name in_progress = "in_progress"
status_name resolved = "resolved"
status_name closed = "closed"

pub data Priority : Type 0 where
  low normal high urgent : Priority

-- TRANSITIONS
abbrev pub transitions : Status → List Status
transitions open_ = in_progress ∷ resolved ∷ closed ∷ []
transitions in_progress = resolved ∷ closed ∷ open_ ∷ []
transitions resolved = closed ∷ open_ ∷ []
transitions closed = open_ ∷ []

abbrev pub same_status : Status → Status → Bool
same_status open_ open_ = true
same_status in_progress in_progress = true
same_status resolved resolved = true
same_status closed closed = true
same_status _ _ = false

abbrev pub is_in : List Status → Status → Bool
is_in [] t = false
is_in (s ∷ ss) t = same_status s t || is_in ss t

pub record Ticket : Type 0 where
  pub tenant_id : Text
  pub organization_id : Option Text
  pub number : ℕ
  pub title : Text
  pub description : Text
  pub priority : Priority
  pub labels : List Text
  pub incident_id : Option Text
  pub requester_id : Text
  pub assignee_id : Option Text
  pub status : Status
  pub resolved_at : Option ℕ

pub record Comment : Type 0 where
  pub tenant_id : Text
  pub ticket_id : RowId
  pub author_id : Text
  pub body : Text

pub record Membership : Type 0 where
  pub user_id : Text
  pub tenant_id : Text
  pub active : Bool

-- TenantContext
pub record Context : Type 0 where
  pub tenant_id : Text
  pub user_id : Text
  pub organization_scope : Option Text

-- CreateTicketSchema
pub record CreateInput : Type 0 where
  pub title : Text
  pub description : Text
  pub priority : Option Priority
  pub labels : Option (List Text)
  pub incident_id : Option Text

-- PatchTicketSchema
pub record PatchInput : Type 0 where
  pub title : Option Text
  pub description : Option Text
  pub priority : Option Priority
  pub labels : Option (List Text)

-- What `realtime.publish` sends.
pub data Published : Type 0 where
  ticket_created : RowId → ℕ → Published
  ticket_transitioned : RowId → ℕ → (from to : Status) → Published

-- What `audit.record` writes.
pub data Audit : Type 0 where
  audit_create : RowId → ℕ → Text → Priority → Audit
  audit_update : RowId → (before after : Text × Priority) → Audit
  audit_comment : RowId → (comment_id : RowId) → Audit
  audit_assign : RowId → (before after : Option Text) → Audit
  audit_transition : RowId → (before after : Status) → Audit

-- The table support_sequences, by tenant.
abbrev pub Sequences : Type 0
Sequences = Text → Option ℕ

-- The value that the `INSERT ... ON CONFLICT ... RETURNING value` returns.
abbrev pub next_value : Option ℕ → ℕ
next_value none = 1
next_value (some n) = n + 1

abbrev pub bump : Text → Sequences → Sequences
bump tenant seq t = if text_eq tenant t then some (next_value (seq tenant)) else seq t

-- `min(1).max(most)`
abbrev sized : ℕ → Text → Bool
sized most s = leb 1 (length s) && leb (length s) most

abbrev when_given {ℓ} : {A : Type ℓ} → (A → Bool) → Option A → Bool
when_given test none = true
when_given test (some a) = test a

abbrev every {ℓ} : {A : Type ℓ} → (A → Bool) → List A → Bool
every test [] = true
every test (a ∷ as') = test a && every test as'

abbrev fit_labels : List Text → Bool
fit_labels labels = every (sized 40) labels && leb (length labels) 10

abbrev pub fit_note : Option Text → Bool
fit_note remark = when_given (λ s. leb (length s) 1000) remark

abbrev or_else {ℓ} : {A : Type ℓ} → Option A → A → A
or_else none a = a
or_else (some b) a = b

abbrev note_suffix : Option Text → Text
note_suffix none = []
note_suffix (some remark) = codes ": " ++ remark

-- How the exception filter answers a `ZodError`.
abbrev zod_guard : Bool → Result (Unit {0})
zod_guard test = guard test (validation "Validation failed")

abbrev pub set_status : Status → ℕ → Ticket → Ticket
set_status resolved now r = record r { status = resolved; resolved_at = some now }
set_status open_ now r = record r { status = open_; resolved_at = none }
set_status in_progress now r = record r { status = in_progress }
set_status closed now r = record r { status = closed }

abbrev pub patched : PatchInput → Ticket → Ticket
patched input r = record r {
  title = or_else input.title r.title;
  description = or_else input.description r.description;
  priority = or_else input.priority r.priority;
  labels = or_else input.labels r.labels;
}

module _ (tickets_table : Table Ticket) (comments_table : Table Comment)
    (members_table : Table Membership) (is_uuid : Text → Bool) where
  open tickets_table use {State, find_first, create, update}

  pub record Db : Type 0 where
    pub tickets : State
    pub comments : comments_table.State
    pub members : members_table.State
    pub sequences : Sequences
    pub audits : List Audit
    pub published : List (Text × Published)

  abbrev pub owned : Text → RowId → RowId → Ticket → Bool
  owned tenant id k r = text_eq k id && text_eq r.tenant_id tenant

  abbrev pub require : Db → Text → RowId → Result (RowId × Ticket)
  require db tenant id =
      or_throw (not_found_error "Ticket") (find_first (owned tenant id) db.tickets)

  abbrev pub new_ticket : Context → CreateInput → ℕ → Ticket
  new_ticket ctx input number = record {
    tenant_id = ctx.tenant_id;
    organization_id = ctx.organization_scope;
    number = number;
    title = input.title;
    description = input.description;
    priority = or_else input.priority normal;
    labels = or_else input.labels [];
    incident_id = input.incident_id;
    requester_id = ctx.user_id;
    assignee_id = none;
    status = open_;
    resolved_at = none;
  }

  unfoldable pub create_ticket : Db → Context → CreateInput → Result (Db × RowId)
  create_ticket db ctx input = do
    zod_guard (
        sized 200 input.title
        && (sized 10000 input.description
            && (when_given fit_labels input.labels && when_given is_uuid input.incident_id)))
    let number = next_value (db.sequences ctx.tenant_id)
    let row = new_ticket ctx input number
    let (k, tickets) = create row db.tickets
    returned (
      record db {
        tickets = tickets;
        sequences = bump ctx.tenant_id db.sequences;
        audits = db.audits ++ audit_create k number row.title row.priority ∷ [];
        published = db.published ++ (ctx.tenant_id, ticket_created k number) ∷ [];
      },
      k,
    )

  unfoldable pub patch : Db → Context → RowId → PatchInput → Result Db
  patch db ctx id input = do
    zod_guard (
        when_given (sized 200) input.title
        && (when_given (sized 10000) input.description && when_given fit_labels input.labels))
    (k, r) ← require db ctx.tenant_id id
    let after = patched input r
    returned (record db {
      tickets = update k (patched input) db.tickets;
      audits = db.audits ++ audit_update k (r.title, r.priority) (after.title, after.priority) ∷ [];
    })

  unfoldable pub comment : Db → Context → RowId → Text → Result Db
  comment db ctx id body = do
    zod_guard (sized 5000 body)
    (k, r) ← require db ctx.tenant_id id
    let (c, comments) =
        comments_table.create
          (record {
            tenant_id = ctx.tenant_id;
            ticket_id = k;
            author_id = ctx.user_id;
            body = body;
          })
          db.comments
    returned (record db { comments = comments; audits = db.audits ++ audit_comment k c ∷ [] })

  abbrev pub is_member : Text → Text → RowId → Membership → Bool
  is_member tenant user k m = text_eq m.user_id user && (text_eq m.tenant_id tenant && m.active)

  -- The test of an assignee that is given; `null` and the empty string are let through.
  abbrev pub check_assignee : Db → Text → Option Text → Result (Unit {0})
  check_assignee db tenant none = returned tt
  check_assignee db tenant (some user) =
      or_throw (validation "assignee is not an active member of this tenant")
        (members_table.find_first (is_member tenant user) db.members)
      >>= λ _. returned tt

  abbrev pub to_assignee : Option Text → Ticket → Ticket
  to_assignee assignee r = record r { assignee_id = assignee }

  unfoldable pub assign : Db → Context → RowId → Option Text → Result Db
  assign db ctx id assignee = do
    zod_guard (when_given is_uuid assignee)
    (k, r) ← require db ctx.tenant_id id
    check_assignee db ctx.tenant_id (truthy assignee)
    returned (record db {
      tickets = update k (to_assignee assignee) db.tickets;
      audits = db.audits ++ audit_assign k r.assignee_id assignee ∷ [];
    })

  abbrev illegal : Status → Status → String
  illegal from to =
      append "illegal transition " (append (status_name from) (append " → " (status_name to)))

  unfoldable pub transition : Db → Context → RowId → Status → Option Text → ℕ → Result Db
  transition db ctx id target remark now = do
    zod_guard (fit_note remark)
    (k, r) ← require db ctx.tenant_id id
    guard (is_in (transitions r.status) target) (conflict_error (illegal r.status target))
    let (_, comments) =
        comments_table.create
          (record {
            tenant_id = ctx.tenant_id;
            ticket_id = k;
            author_id = ctx.user_id;
            body = codes "status → " ++ (codes (status_name target) ++ note_suffix (truthy remark));
          })
          db.comments
    returned (record db {
      tickets = update k (set_status target now) db.tickets;
      comments = comments;
      audits = db.audits ++ audit_transition k r.status target ∷ [];
      published =
          db.published ++ (ctx.tenant_id, ticket_transitioned k r.number r.status target) ∷ [];
    })
