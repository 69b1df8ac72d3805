-- ===== src/Web/TicketPage/Guarded.antt =====
-- What the page of a ticket keeps while its calls are under way.
use wa_ops.Base.{
  ℕ, zero, suc, String, ◌≡◌, refl, Bool, true, false, inl, inr, Option, none, some, List, [], ◌∷◌,
  Bool-cases,
}
use wa_ops.Web.TicketPage.{
  Page, submit, post, loaded_of, transitioned_of, commented_of, reread_of, end_transition,
  has_status, Answer, fails, answers, Posting, sending, rereading, new_page, on_failed, load,
  loaded, transition, transitioned, add_comment, commented, reread, Event, loads_again,
  adds_comment, clicks, types, load_ends, reread_ends, transition_ends, comment_ends, on_event,
  after_events,
}

-- The guards against a second submit: `busy` is set while a transition is under way and `posting`
-- while a comment is, and there is one of each at most.
pub data OneTransition : Option String → List String → Type 0 where
  no_transition : OneTransition none []
  transition_of : (status : String) → OneTransition (some status) (status ∷ [])

pub data OneComment : Bool → List Posting → Type 0 where
  no_comment : OneComment false []
  comment_of : (c : Posting) → OneComment true (c ∷ [])

rest_empty :
    (busy : Option String) (status : String) (rest list : List String)
    → list ≡ status ∷ rest
    → OneTransition busy list
    → rest ≡ []
rest_empty _ status rest _ e no_transition = cc
rest_empty _ status rest _ e (transition_of s) = cc

rest_comments :
    (posting : Bool) (c : Posting) (rest list : List Posting)
    → list ≡ c ∷ rest
    → OneComment posting list
    → rest ≡ []
rest_comments _ c rest _ e no_comment = cc
rest_comments _ c rest _ e (comment_of d) = cc

passed_on :
    (posting : Bool) (c d : Posting) (rest list : List Posting)
    → list ≡ c ∷ rest
    → OneComment posting list
    → OneComment posting (d ∷ rest)
passed_on _ c d rest _ e no_comment = cc
passed_on _ c d rest _ e (comment_of c') = let gone : rest ≡ [] = cc in rw gone (comment_of d)

module _ {Ticket : Type 0} where
  pub record IsGuarded (p : Page Ticket) : Type 0 where
    pub transitions : OneTransition p.busy p.transitions
    pub comments : OneComment p.posting p.comments

  -- A click, with what it finds.
  submit-One :
      (status : String) (ticket : Option Ticket) (busy : Option String) (p : Page Ticket)
      → p.busy ≡ busy
      → OneTransition p.busy p.transitions
      → OneTransition (submit status ticket busy p).busy (submit status ticket busy p).transitions
  submit-One status none busy p e one = one
  submit-One status (some t) (some other) p e one = one
  submit-One status (some t) none p e one =
      rw (alone p.busy p.transitions e one) (transition_of status)
    where
      alone :
          (busy : Option String) (list : List String)
          → busy ≡ none
          → OneTransition busy list
          → list ≡ []
      alone _ _ e no_transition = refl
      alone _ _ e (transition_of s) = cc

  submit-others :
      (status : String) (ticket : Option Ticket) (busy : Option String) (p : Page Ticket)
      → OneComment p.posting p.comments
      → OneComment (submit status ticket busy p).posting (submit status ticket busy p).comments
  submit-others status none busy p one = one
  submit-others status (some t) (some other) p one = one
  submit-others status (some t) none p one = one

  post-One :
      (ticket : Option Ticket) (posting : Bool) (p : Page Ticket)
      → p.posting ≡ posting
      → IsGuarded p
      → IsGuarded (post ticket posting p)
  post-One none posting p e g = g
  post-One (some t) true p e g = g
  post-One (some t) false p e g = record {
    transitions = g.transitions;
    comments = rw (alone p.posting p.comments e g.comments) (comment_of sending);
  }
    where
      alone :
          (posting : Bool) (list : List Posting)
          → posting ≡ false
          → OneComment posting list
          → list ≡ []
      alone _ _ e no_comment = refl
      alone _ _ e (comment_of c) = cc

  end_transition-IsGuarded :
      (answer : Answer (Unit {0})) (p : Page Ticket)
      → p.transitions ≡ []
      → OneComment p.posting p.comments
      → IsGuarded (end_transition answer p)
  unfolding end_transition load on_failed
  end_transition-IsGuarded (answers done) p none_left one = record {
    transitions = rw none_left no_transition;
    comments = one;
  }
  end_transition-IsGuarded (fails e) p none_left one = elim (Bool-cases (has_status 409 e)) [
    | inl conflict ↦
        rw (conflict, on_failed)
          (record { transitions = rw none_left no_transition; comments = one })
    | inr other ↦
        rw (other, on_failed) (record { transitions = rw none_left no_transition; comments = one })
  ]

  transitioned_of-IsGuarded :
      (list : List String) (answer : Answer (Unit {0})) (p : Page Ticket)
      → p.transitions ≡ list
      → IsGuarded p
      → IsGuarded (transitioned_of list answer p)
  unfolding transitioned_of
  transitioned_of-IsGuarded [] answer p e g = g
  transitioned_of-IsGuarded (status ∷ rest) answer p e g =
      end_transition-IsGuarded answer (record p { transitions = rest })
        (rest_empty p.busy status rest p.transitions e g.transitions) g.comments

  commented_of-IsGuarded :
      (list : List Posting) (answer : Answer (Unit {0})) (p : Page Ticket)
      → p.comments ≡ list
      → IsGuarded p
      → IsGuarded (commented_of list answer p)
  commented_of-IsGuarded [] answer p e g = g
  commented_of-IsGuarded (rereading ∷ rest) answer p e g = g
  commented_of-IsGuarded (sending ∷ rest) (fails f) p e g =
      let none_left = rest_comments p.posting sending rest p.comments e g.comments in
      record { transitions = g.transitions; comments = rw none_left no_comment }
  commented_of-IsGuarded (sending ∷ rest) (answers done) p e g =
      let none_left = rest_comments p.posting sending rest p.comments e g.comments in
      record {
        transitions = g.transitions;
        comments = passed_on p.posting sending rereading rest p.comments e g.comments;
      }

  reread_of-IsGuarded :
      (list : List Posting) (answer : Answer Ticket) (p : Page Ticket)
      → p.comments ≡ list
      → IsGuarded p
      → IsGuarded (reread_of list answer p)
  reread_of-IsGuarded [] answer p e g = g
  reread_of-IsGuarded (sending ∷ rest) answer p e g = g
  reread_of-IsGuarded (rereading ∷ rest) (fails f) p e g =
      let none_left = rest_comments p.posting rereading rest p.comments e g.comments in
      record { transitions = g.transitions; comments = rw none_left no_comment }
  reread_of-IsGuarded (rereading ∷ rest) (answers t) p e g =
      let none_left = rest_comments p.posting rereading rest p.comments e g.comments in
      record { transitions = g.transitions; comments = rw none_left no_comment }

  loaded_of-IsGuarded :
      (n : ℕ) (answer : Answer Ticket) (p : Page Ticket)
      → IsGuarded p
      → IsGuarded (loaded_of n answer p)
  loaded_of-IsGuarded zero answer p g = g
  loaded_of-IsGuarded (suc n) (fails e) p g = record {
    transitions = g.transitions;
    comments = g.comments;
  }
  loaded_of-IsGuarded (suc n) (answers t) p g = record {
    transitions = g.transitions;
    comments = g.comments;
  }

  on_event-IsGuarded : (e : Event Ticket) (p : Page Ticket) → IsGuarded p → IsGuarded (on_event p e)
  unfolding on_event load loaded transition transitioned add_comment commented reread
  on_event-IsGuarded loads_again p g = record { transitions = g.transitions; comments = g.comments }
  on_event-IsGuarded adds_comment p g = post-One p.ticket p.posting p refl g
  on_event-IsGuarded (clicks status) p g = record {
    transitions = submit-One status p.ticket p.busy p refl g.transitions;
    comments = submit-others status p.ticket p.busy p g.comments;
  }
  on_event-IsGuarded (types body) p g = record {
    transitions = g.transitions;
    comments = g.comments;
  }
  on_event-IsGuarded (load_ends answer) p g = loaded_of-IsGuarded p.loads answer p g
  on_event-IsGuarded (reread_ends answer) p g = reread_of-IsGuarded p.comments answer p refl g
  on_event-IsGuarded (transition_ends answer) p g =
      transitioned_of-IsGuarded p.transitions answer p refl g
  on_event-IsGuarded (comment_ends answer) p g = commented_of-IsGuarded p.comments answer p refl g

  pub after_events-IsGuarded :
      (es : List (Event Ticket)) (p : Page Ticket) → IsGuarded p → IsGuarded (after_events p es)
  unfolding after_events
  after_events-IsGuarded [] p g = g
  after_events-IsGuarded (e ∷ es) p g =
      after_events-IsGuarded es (on_event p e) (on_event-IsGuarded e p g)

  pub new_page-IsGuarded : IsGuarded (new_page {Ticket = Ticket})
  unfolding new_page
  new_page-IsGuarded = record { transitions = no_transition; comments = no_comment }
