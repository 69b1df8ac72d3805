-- ===== src/Tickets/Web.antt =====
-- apps/web/src/lib/tickets.ts: the transitions that the page offers, beside those that the API takes.
use wa_ops.Base.{
  ℕ, ◌≡◌, refl, ◌∙◌, ◌↔◌, sym, Bool, true, false, ◌||◌, String, Option, List, [], ◌∷◌, str_eq,
  if◌then◌else◌,
}
use wa_ops.Base.Text.{Text}
use wa_ops.Database.{RowId, Table}
use wa_ops.Errors.{returned, guard-eq-returned}
use wa_ops.Tickets.{
  Status, open_, in_progress, resolved, closed, status_name, transitions, is_in, Ticket, Comment,
  Membership, Context, Db, require, transition, fit_note,
}

-- `TRANSITIONS[status] ?? []`
unfoldable pub next_statuses : String → List String
next_statuses status =
    if str_eq status "open"
    then "in_progress" ∷ "resolved" ∷ "closed" ∷ []
    else if str_eq status "in_progress"
    then "resolved" ∷ "closed" ∷ "open" ∷ []
    else if str_eq status "resolved"
    then "closed" ∷ "open" ∷ []
    else if str_eq status "closed"
    then "open" ∷ []
    else []

unfoldable pub transition_label : String → String
transition_label target =
    if str_eq target "in_progress"
    then "Iniciar"
    else if str_eq target "resolved"
    then "Resolver"
    else if str_eq target "closed"
    then "Fechar"
    else if str_eq target "open"
    then "Reabrir"
    else target

abbrev pub offers : List String → String → Bool
offers [] t = false
offers (s ∷ ss) t = str_eq s t || offers ss t

offers_same :
    (s t : Status)
    → offers (next_statuses (status_name s)) (status_name t) ≡ is_in (transitions s) t
unfolding next_statuses
offers_same open_ open_ = refl
offers_same open_ in_progress = refl
offers_same open_ resolved = refl
offers_same open_ closed = refl
offers_same in_progress open_ = refl
offers_same in_progress in_progress = refl
offers_same in_progress resolved = refl
offers_same in_progress closed = refl
offers_same resolved open_ = refl
offers_same resolved in_progress = refl
offers_same resolved resolved = refl
offers_same resolved closed = refl
offers_same closed open_ = refl
offers_same closed in_progress = refl
offers_same closed resolved = refl
offers_same closed closed = refl

module _ (tb : Table Ticket) (tc : Table Comment) (tm : Table Membership)
    (is_uuid : Text → Bool) where
  -- For a ticket of the tenant and a note of a permitted length, the API makes a transition exactly
  -- when the page offers it for the ticket's status.
  pub transition-offered_iff :
      (db : Db tb tc tm is_uuid) (ctx : Context) (id k : RowId) (r : Ticket) (target : Status)
      (remark : Option Text) (now : ℕ)
      → require tb tc tm is_uuid db ctx.tenant_id id ≡ returned (k, r)
      → fit_note remark ≡ true
      → ((db' : Db tb tc tm is_uuid) × (transition tb tc tm is_uuid db ctx id target remark now
            ≡ returned db'))
        ↔ (offers (next_statuses (status_name r.status)) (status_name target) ≡ true)
  unfolding transition
  transition-offered_iff db ctx id k r target remark now found fits = (
    λ (db', e).
        let (legal, _) = guard-eq-returned _ _ _ (rw (fits, found) at e) in
        offers_same r.status target ∙ legal,
    λ h.
        let legal : is_in (transitions r.status) target ≡ true =
          sym (offers_same r.status target) ∙ h in
        rw (fits, found, legal, transition) (_, refl),
  )
