-- ===== src/Web/IncidentPage.antt =====
-- The page of an incident, apps/web/src/app/(app)/incidents/[id]/page.tsx: its state, its handlers as
-- far as their first `await`, and what they do with each answer, as for the page of a ticket. `act`
-- sends the action and then reads the timeline; `load` reads both, and the metrics of the host if the
-- incident has one.
pub mod Confirmed
mod Tests
use wa_ops.Base.{
  ℕ, zero, suc, ◌+◌, Bool, true, false, ◌&&◌, ◌||◌, String, Option, none, some, List, [], ◌∷◌, ◌==◌,
  if◌then◌else◌,
}
use wa_ops.Web.TicketPage.{Failure, Answer, fails, answers, message_of, has_status}

pub data Action : Type 0 where
  acknowledge resolve : Action

-- Where an `act` stands: its POST is under way, or the timeline is read.
pub data Acting : Type 0 where
  posting reading_timeline : Acting

pub record Page (Incident Timeline Series : Type 0) : Type 0 where
  pub incident : Option Incident
  pub timeline : Option Timeline
  pub host_series : Option Series
  pub host_series_loading : Bool
  pub loading : Bool
  pub error : Option Failure
  pub action_error : Option String
  pub busy : Option Action
  -- the calls that are under way: loads of incident and timeline, loads of metrics, and actions
  pub loads : ℕ
  pub metric_loads : ℕ
  pub acts : List Acting

pub data View (Incident : Type 0) : Type 0 where
  skeleton not_found denied blank : View Incident
  failed : (detail : String) → View Incident
  showing : Incident → View Incident

pub data Event (Incident Timeline Series : Type 0) : Type 0 where
  loads_again : Event Incident Timeline Series
  clicks : Action → Event Incident Timeline Series
  load_ends : Answer (Incident × Timeline) → Event Incident Timeline Series
  metrics_end : Option Series → Event Incident Timeline Series
  post_ends : Answer Incident → Event Incident Timeline Series
  timeline_ends : Answer Timeline → Event Incident Timeline Series

module _ {Incident : Type 0} where
  unfoldable pub failed_view : Failure → View Incident
  failed_view e =
      if has_status 404 e
      then not_found
      else if has_status 401 e || has_status 403 e
      then denied
      else failed (message_of e)

  unfoldable pub view_of : Bool → Option Failure → Option Incident → View Incident
  unfolding failed_view
  view_of true error incident = skeleton
  view_of false (some e) incident = failed_view e
  view_of false none none = blank
  view_of false none (some i) = showing i

module _ {Incident Timeline Series : Type 0} where
  unfoldable pub new_page : Page Incident Timeline Series
  new_page = record {
    incident = none;
    timeline = none;
    host_series = none;
    host_series_loading = false;
    loading = true;
    error = none;
    action_error = none;
    busy = none;
    loads = 0;
    metric_loads = 0;
    acts = [];
  }

  unfoldable pub load : Page Incident Timeline Series → Page Incident Timeline Series
  load p = record p { loading = true; error = none; loads = suc p.loads }

  -- Where the incident has a host, `finally` comes behind its metrics.
  abbrev after_load :
      (Incident → Bool) → Incident → Page Incident Timeline Series → Page Incident Timeline Series
  after_load has_host i p =
      if has_host i
      then record p { host_series_loading = true; metric_loads = suc p.metric_loads }
      else record p { loading = false }

  abbrev settle :
      (Incident → Bool)
      → Answer (Incident × Timeline)
      → Page Incident Timeline Series
      → Page Incident Timeline Series
  settle has_host (fails e) p = record p { error = some e; loading = false }
  settle has_host (answers (i, t)) p =
      after_load has_host i (record p { incident = some i; timeline = some t })

  unfoldable pub loaded_of :
      (Incident → Bool)
      → ℕ
      → Answer (Incident × Timeline)
      → Page Incident Timeline Series
      → Page Incident Timeline Series
  loaded_of has_host zero answer p = p
  loaded_of has_host (suc n) answer p = settle has_host answer (record p { loads = n })

  unfoldable pub loaded :
      (Incident → Bool)
      → Answer (Incident × Timeline)
      → Page Incident Timeline Series
      → Page Incident Timeline Series
  unfolding loaded_of
  loaded has_host answer p = loaded_of has_host p.loads answer p

  unfoldable pub measured_of :
      ℕ → Option Series → Page Incident Timeline Series → Page Incident Timeline Series
  measured_of zero series p = p
  measured_of (suc n) series p = record p {
    host_series = series;
    host_series_loading = false;
    loading = false;
    metric_loads = n;
  }

  unfoldable pub measured :
      Option Series → Page Incident Timeline Series → Page Incident Timeline Series
  unfolding measured_of
  measured series p = measured_of p.metric_loads series p

  unfoldable pub act_of :
      Action
      → Option Incident
      → Option Action
      → Page Incident Timeline Series
      → Page Incident Timeline Series
  act_of action none busy p = p
  act_of action (some i) (some other) p = p
  act_of action (some i) none p = record p {
    busy = some action;
    action_error = none;
    acts = posting ∷ p.acts;
  }

  unfoldable pub act : Action → Page Incident Timeline Series → Page Incident Timeline Series
  unfolding act_of
  act action p = act_of action p.incident p.busy p

  -- The `catch` of `act`, with its `finally`.
  unfoldable pub give_up :
      Failure → List Acting → Page Incident Timeline Series → Page Incident Timeline Series
  unfolding load
  give_up e rest p =
      if has_status 409 e
      then record (load p) {
        action_error = some "O incidente mudou de estado. Atualizando…";
        busy = none;
        acts = rest;
      }
      else record p { action_error = some (message_of e); busy = none; acts = rest }

  unfoldable pub posted_of :
      List Acting → Answer Incident → Page Incident Timeline Series → Page Incident Timeline Series
  unfolding give_up
  posted_of [] answer p = p
  posted_of (reading_timeline ∷ rest) answer p = p
  posted_of (posting ∷ rest) (fails e) p = give_up e rest p
  posted_of (posting ∷ rest) (answers i) p = record p {
    incident = some i;
    acts = reading_timeline ∷ rest;
  }

  unfoldable pub posted :
      Answer Incident → Page Incident Timeline Series → Page Incident Timeline Series
  unfolding posted_of
  posted answer p = posted_of p.acts answer p

  unfoldable pub told_of :
      List Acting → Answer Timeline → Page Incident Timeline Series → Page Incident Timeline Series
  unfolding give_up
  told_of [] answer p = p
  told_of (posting ∷ rest) answer p = p
  told_of (reading_timeline ∷ rest) (fails e) p = give_up e rest p
  told_of (reading_timeline ∷ rest) (answers t) p = record p {
    timeline = some t;
    busy = none;
    acts = rest;
  }

  unfoldable pub told :
      Answer Timeline → Page Incident Timeline Series → Page Incident Timeline Series
  unfolding told_of
  told answer p = told_of p.acts answer p

  unfoldable pub view : Page Incident Timeline Series → View Incident
  unfolding view_of
  view p = view_of p.loading p.error p.incident

  unfoldable pub on_event :
      (Incident → Bool)
      → Page Incident Timeline Series
      → Event Incident Timeline Series
      → Page Incident Timeline Series
  unfolding load loaded measured act posted told
  on_event has_host p loads_again = load p
  on_event has_host p (clicks action) = act action p
  on_event has_host p (load_ends answer) = loaded has_host answer p
  on_event has_host p (metrics_end series) = measured series p
  on_event has_host p (post_ends answer) = posted answer p
  on_event has_host p (timeline_ends answer) = told answer p

  unfoldable pub after_events :
      (Incident → Bool)
      → Page Incident Timeline Series
      → List (Event Incident Timeline Series)
      → Page Incident Timeline Series
  unfolding on_event
  after_events has_host p [] = p
  after_events has_host p (e ∷ es) = after_events has_host (on_event has_host p e) es
