-- ===== src/Web/TicketPage/Confirmed.antt =====
-- What the page of a ticket shows is what the server has said.
use wa_ops.Base.{
  ℕ, zero, suc, String, ◌≡◌, refl, Bool, true, false, ◌⊎◌, inl, inr, Option, none, some, List, [],
  ◌∷◌, arith, Bool-cases,
}
use wa_ops.Web.TicketPage.{
  Page, submit, post, loaded_of, transitioned_of, commented_of, reread_of, end_transition, Failure,
  has_status, Answer, fails, answers, Posting, sending, rereading, new_page, on_failed, load,
  loaded, transition, transitioned, add_comment, commented, reread, Event, loads_again,
  adds_comment, clicks, types, load_ends, reread_ends, transition_ends, comment_ends, on_event,
  after_events, view, view_of, showing, failed_view,
}
use wa_ops.Web.TicketPage.Guarded.{IsGuarded, new_page-IsGuarded, after_events-IsGuarded}

module _ {Ticket : Type 0} where
  -- The ticket that an answer of the server has.
  abbrev pub ticket_in : Event Ticket → Option Ticket
  ticket_in loads_again = none
  ticket_in adds_comment = none
  ticket_in (clicks status) = none
  ticket_in (types body) = none
  ticket_in (load_ends (fails e)) = none
  ticket_in (load_ends (answers t)) = some t
  ticket_in (reread_ends (fails e)) = none
  ticket_in (reread_ends (answers t)) = some t
  ticket_in (transition_ends answer) = none
  ticket_in (comment_ends answer) = none

  unfoldable pub IsAnswered : Ticket → List (Event Ticket) → Type 0
  IsAnswered t [] = ⊥
  IsAnswered t (e ∷ es) = (ticket_in e ≡ some t) ⊎ IsAnswered t es

  -- An event that has no ticket leaves the one that is there.
  ticket-submit :
      (status : String) (ticket : Option Ticket) (busy : Option String) (p : Page Ticket)
      → (submit status ticket busy p).ticket ≡ p.ticket
  ticket-submit status none busy p = refl
  ticket-submit status (some t) (some other) p = refl
  ticket-submit status (some t) none p = refl

  ticket-post :
      (ticket : Option Ticket) (posting : Bool) (p : Page Ticket)
      → (post ticket posting p).ticket ≡ p.ticket
  ticket-post none posting p = refl
  ticket-post (some t) true p = refl
  ticket-post (some t) false p = refl

  ticket-end_transition :
      (answer : Answer (Unit {0})) (p : Page Ticket) → (end_transition answer p).ticket ≡ p.ticket
  unfolding end_transition load on_failed
  ticket-end_transition (answers done) p = refl
  ticket-end_transition (fails e) p = elim (Bool-cases (has_status 409 e)) [
    | inl conflict ↦ rw (conflict, on_failed) refl
    | inr other ↦ rw (other, on_failed) refl
  ]

  ticket-transitioned_of :
      (list : List String) (answer : Answer (Unit {0})) (p : Page Ticket)
      → (transitioned_of list answer p).ticket ≡ p.ticket
  unfolding transitioned_of
  ticket-transitioned_of [] answer p = refl
  ticket-transitioned_of (status ∷ rest) answer p =
      ticket-end_transition answer (record p { transitions = rest })

  ticket-commented_of :
      (list : List Posting) (answer : Answer (Unit {0})) (p : Page Ticket)
      → (commented_of list answer p).ticket ≡ p.ticket
  ticket-commented_of [] answer p = refl
  ticket-commented_of (rereading ∷ rest) answer p = refl
  ticket-commented_of (sending ∷ rest) (fails e) p = refl
  ticket-commented_of (sending ∷ rest) (answers done) p = refl

  ticket-loaded_of :
      (n : ℕ) (answer : Answer Ticket) (p : Page Ticket) (t : Ticket)
      → (loaded_of n answer p).ticket ≡ some t
      → (p.ticket ≡ some t) ⊎ (ticket_in (load_ends answer) ≡ some t)
  ticket-loaded_of zero answer p t e = inl e
  ticket-loaded_of (suc n) (fails f) p t e = inl e
  ticket-loaded_of (suc n) (answers u) p t e = inr e

  ticket-reread_of :
      (list : List Posting) (answer : Answer Ticket) (p : Page Ticket) (t : Ticket)
      → (reread_of list answer p).ticket ≡ some t
      → (p.ticket ≡ some t) ⊎ (ticket_in (reread_ends answer) ≡ some t)
  ticket-reread_of [] answer p t e = inl e
  ticket-reread_of (sending ∷ rest) answer p t e = inl e
  ticket-reread_of (rereading ∷ rest) (fails f) p t e = inl e
  ticket-reread_of (rereading ∷ rest) (answers u) p t e = inr e

  ticket-on_event :
      (e : Event Ticket) (p : Page Ticket) (t : Ticket)
      → (on_event p e).ticket ≡ some t
      → (p.ticket ≡ some t) ⊎ (ticket_in e ≡ some t)
  unfolding on_event load loaded transition transitioned add_comment commented reread
  ticket-on_event loads_again p t h = inl h
  ticket-on_event adds_comment p t h = let same = ticket-post p.ticket p.posting p in inl cc
  ticket-on_event (clicks status) p t h =
      let same = ticket-submit status p.ticket p.busy p in inl cc
  ticket-on_event (types body) p t h = inl h
  ticket-on_event (load_ends answer) p t h = ticket-loaded_of p.loads answer p t h
  ticket-on_event (reread_ends answer) p t h = ticket-reread_of p.comments answer p t h
  ticket-on_event (transition_ends answer) p t h =
      let same = ticket-transitioned_of p.transitions answer p in inl cc
  ticket-on_event (comment_ends answer) p t h =
      let same = ticket-commented_of p.comments answer p in inl cc

  ticket-after_events :
      (es : List (Event Ticket)) (p : Page Ticket) (t : Ticket)
      → (after_events p es).ticket ≡ some t
      → (p.ticket ≡ some t) ⊎ IsAnswered t es
  unfolding after_events IsAnswered
  ticket-after_events [] p t h = inl h
  ticket-after_events (e ∷ es) p t h = elim (ticket-after_events es (on_event p e) t h) [
    | inr later ↦ inr (inr later)
    | inl now ↦ elim (ticket-on_event e p t now) [
      | inl before ↦ inl before
      | inr said ↦ inr (inl said)
    ]
  ]

  ticket-view_of :
      (loading : Bool) (error : Option Failure) (ticket : Option Ticket) (t : Ticket)
      → view_of loading error ticket ≡ showing t
      → ticket ≡ some t
  unfolding view_of failed_view
  ticket-view_of true error ticket t e = cc
  ticket-view_of false (some f) ticket t e = absurd (ground arith)
  ticket-view_of false none none t e = cc
  ticket-view_of false none (some u) t e = cc

  ticket-view : (p : Page Ticket) (t : Ticket) → view p ≡ showing t → p.ticket ≡ some t
  unfolding view
  ticket-view p t shown = ticket-view_of p.loading p.error p.ticket t shown

  -- Whatever is clicked and however the answers come, at most one transition and at most one comment of
  -- the page are under way, each with its guard set; and a ticket that the page shows is one that the
  -- server has answered with.
  pub after_events-Confirmed :
      (es : List (Event Ticket))
      → let p = after_events new_page es in
        IsGuarded p × ((t : Ticket) → view p ≡ showing t → IsAnswered t es)
  unfolding new_page
  after_events-Confirmed es =
      let p = after_events new_page es in
      (
        after_events-IsGuarded es new_page new_page-IsGuarded,
        λ t shown. elim (ticket-after_events es new_page t (ticket-view p t shown)) [
          | inl before ↦ absurd cc
          | inr said ↦ said
        ],
      )
