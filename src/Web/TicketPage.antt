-- ===== src/Web/TicketPage.antt =====
-- The page of a ticket, apps/web/src/app/(app)/tickets/[id]/page.tsx: its state, its handlers as far as
-- their first `await`, and what they do with each answer. Answers come in any order, at any time. A
-- handler sees the state as it was rendered last, which is the state behind the event before it.
pub mod Guarded
pub mod Confirmed
mod Tests
use wa_ops.Base.{
  ℕ, zero, suc, ◌+◌, Bool, true, false, ◌&&◌, ◌||◌, String, Option, none, some, List, [], ◌∷◌, ◌==◌,
  if◌then◌else◌,
}

-- What a call throws: an ApiError with its status, or another Error.
pub data Failure : Type 0 where
  api_failure : (status : ℕ) (message : String) → Failure
  other_failure : (message : String) → Failure

pub data Answer {ℓ} (Value : Type ℓ) : Type ℓ where
  fails : Failure → Answer Value
  answers : Value → Answer Value

abbrev pub message_of : Failure → String
message_of (api_failure status message) = message
message_of (other_failure message) = message

unfoldable pub has_status : ℕ → Failure → Bool
has_status code (api_failure status message) = status == code
has_status code (other_failure message) = false

-- A comment is sent, and then the ticket is read again.
pub data Posting : Type 0 where
  sending rereading : Posting

-- The state of the component, and the calls whose answers are awaited: those of `load`, those of
-- `transition` and those of `addComment`.
pub record Page (Ticket : Type 0) : Type 0 where
  pub ticket : Option Ticket
  pub loading : Bool
  pub error : Option Failure
  pub action_error : Option String
  pub busy : Option String
  pub comment_body : String
  pub comment_error : Option String
  pub posting : Bool
  pub loads : ℕ
  pub transitions : List String
  pub comments : List Posting

-- What is rendered.
pub data View (Ticket : Type 0) : Type 0 where
  skeleton not_found denied blank : View Ticket
  failed : (detail : String) → View Ticket
  showing : Ticket → View Ticket

pub data Event (Ticket : Type 0) : Type 0 where
  loads_again adds_comment : Event Ticket
  clicks : (status : String) → Event Ticket
  types : (body : String) → Event Ticket
  load_ends reread_ends : Answer Ticket → Event Ticket
  transition_ends comment_ends : Answer (Unit {0}) → Event Ticket

module _ {Ticket : Type 0} where
  unfoldable pub new_page : Page Ticket
  new_page = record {
    ticket = none;
    loading = true;
    error = none;
    action_error = none;
    busy = none;
    comment_body = "";
    comment_error = none;
    posting = false;
    loads = 0;
    transitions = [];
    comments = [];
  }

  unfoldable pub load : Page Ticket → Page Ticket
  load p = record p { loading = true; error = none; loads = suc p.loads }

  abbrev settle : Answer Ticket → Page Ticket → Page Ticket
  settle (fails e) p = record p { error = some e; loading = false }
  settle (answers t) p = record p { ticket = some t; loading = false }

  abbrev one_less : ℕ → Page Ticket → Page Ticket
  one_less n p = record p { loads = n }

  abbrev pub loaded_of : ℕ → Answer Ticket → Page Ticket → Page Ticket
  loaded_of zero answer p = p
  loaded_of (suc n) answer p = settle answer (one_less n p)

  -- The answer of a call of `load`, if one is awaited.
  unfoldable pub loaded : Answer Ticket → Page Ticket → Page Ticket
  loaded answer p = loaded_of p.loads answer p

  abbrev pub submit : String → Option Ticket → Option String → Page Ticket → Page Ticket
  submit status none busy p = p
  submit status (some t) (some other) p = p
  submit status (some t) none p = record p {
    busy = some status;
    action_error = none;
    transitions = status ∷ p.transitions;
  }

  unfoldable pub transition : String → Page Ticket → Page Ticket
  transition status p = submit status p.ticket p.busy p

  -- `finally`
  abbrev idle : Page Ticket → Page Ticket
  idle p = record p { busy = none }

  unfoldable pub on_failed : Failure → Page Ticket → Page Ticket
  unfolding load has_status
  on_failed e p =
      if has_status 409 e
      then load (record p { action_error = some "O ticket mudou de estado. Atualizando…" })
      else record p { action_error = some (message_of e) }

  unfoldable pub end_transition : Answer (Unit {0}) → Page Ticket → Page Ticket
  unfolding load on_failed
  end_transition (answers done) p = idle (load p)
  end_transition (fails e) p = idle (on_failed e p)

  unfoldable pub transitioned_of : List String → Answer (Unit {0}) → Page Ticket → Page Ticket
  unfolding end_transition
  transitioned_of [] answer p = p
  transitioned_of (status ∷ rest) answer p = end_transition answer (record p { transitions = rest })

  unfoldable pub transitioned : Answer (Unit {0}) → Page Ticket → Page Ticket
  unfolding transitioned_of
  transitioned answer p = transitioned_of p.transitions answer p

  abbrev pub post : Option Ticket → Bool → Page Ticket → Page Ticket
  post none posting p = p
  post (some t) true p = p
  post (some t) false p = record p {
    posting = true;
    comment_error = none;
    comments = sending ∷ p.comments;
  }

  unfoldable pub add_comment : Page Ticket → Page Ticket
  add_comment p = post p.ticket p.posting p

  -- The answer to the comment: the field is emptied and the ticket is read again.
  abbrev end_comment : Answer (Unit {0}) → List Posting → Page Ticket → Page Ticket
  end_comment (answers done) rest p = record p { comment_body = ""; comments = rereading ∷ rest }
  end_comment (fails e) rest p = record p {
    comment_error = some (message_of e);
    comments = rest;
    posting = false;
  }

  abbrev pub commented_of : List Posting → Answer (Unit {0}) → Page Ticket → Page Ticket
  commented_of [] answer p = p
  commented_of (sending ∷ rest) answer p = end_comment answer rest p
  commented_of (rereading ∷ rest) answer p = p

  unfoldable pub commented : Answer (Unit {0}) → Page Ticket → Page Ticket
  commented answer p = commented_of p.comments answer p

  abbrev end_reread : Answer Ticket → List Posting → Page Ticket → Page Ticket
  end_reread (answers t) rest p = record p { ticket = some t; comments = rest; posting = false }
  end_reread (fails e) rest p = record p {
    comment_error = some (message_of e);
    comments = rest;
    posting = false;
  }

  abbrev pub reread_of : List Posting → Answer Ticket → Page Ticket → Page Ticket
  reread_of [] answer p = p
  reread_of (sending ∷ rest) answer p = p
  reread_of (rereading ∷ rest) answer p = end_reread answer rest p

  unfoldable pub reread : Answer Ticket → Page Ticket → Page Ticket
  reread answer p = reread_of p.comments answer p

  unfoldable pub failed_view : Failure → View Ticket
  unfolding has_status
  failed_view e =
      if has_status 404 e
      then not_found
      else if has_status 401 e || has_status 403 e
      then denied
      else failed (message_of e)

  unfoldable pub view_of : Bool → Option Failure → Option Ticket → View Ticket
  unfolding failed_view
  view_of true error ticket = skeleton
  view_of false (some e) ticket = failed_view e
  view_of false none none = blank
  view_of false none (some t) = showing t

  unfoldable pub view : Page Ticket → View Ticket
  unfolding view_of
  view p = view_of p.loading p.error p.ticket

  unfoldable pub on_event : Page Ticket → Event Ticket → Page Ticket
  unfolding load loaded transition transitioned add_comment commented reread
  on_event p loads_again = load p
  on_event p adds_comment = add_comment p
  on_event p (clicks status) = transition status p
  on_event p (types body) = record p { comment_body = body }
  on_event p (load_ends answer) = loaded answer p
  on_event p (reread_ends answer) = reread answer p
  on_event p (transition_ends answer) = transitioned answer p
  on_event p (comment_ends answer) = commented answer p

  unfoldable pub after_events : Page Ticket → List (Event Ticket) → Page Ticket
  unfolding on_event
  after_events p [] = p
  after_events p (e ∷ es) = after_events (on_event p e) es
