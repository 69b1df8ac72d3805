-- ===== src/Web/IncidentPage/Confirmed.antt =====
-- What the page of an incident keeps while its calls are under way, and what it shows.
use wa_ops.Base.{
  ℕ, zero, suc, ◌≡◌, refl, Bool, true, false, ◌⊎◌, inl, inr, Option, none, some, List, [], ◌∷◌,
  arith, Bool-cases,
}
use wa_ops.Web.TicketPage.{Failure, Answer, fails, answers, has_status}
use wa_ops.Web.IncidentPage.{
  Action, Acting, posting, reading_timeline, Page, showing, Event, loads_again, clicks, load_ends,
  metrics_end, post_ends, timeline_ends, new_page, load, loaded_of, loaded, measured_of, measured,
  act_of, act, give_up, posted_of, posted, told_of, told, failed_view, view_of, view, on_event,
  after_events,
}

-- `busy` is set while an action is under way, and there is one at most.
pub data OneAct : Option Action → List Acting → Type 0 where
  no_act : OneAct none []
  act_under_way : (action : Action) (c : Acting) → OneAct (some action) (c ∷ [])

alone : (busy : Option Action) (list : List Acting) → busy ≡ none → OneAct busy list → list ≡ []
alone _ _ e no_act = refl
alone _ _ e (act_under_way action c) = cc

rest_empty :
    (busy : Option Action) (c : Acting) (rest list : List Acting)
    → list ≡ c ∷ rest
    → OneAct busy list
    → rest ≡ []
rest_empty _ c rest _ e no_act = cc
rest_empty _ c rest _ e (act_under_way action d) = cc

passed_on :
    (busy : Option Action) (c d : Acting) (rest list : List Acting)
    → list ≡ c ∷ rest
    → OneAct busy list
    → OneAct busy (d ∷ rest)
passed_on _ c d rest _ e no_act = cc
passed_on _ c d rest _ e (act_under_way action c') =
    let gone : rest ≡ [] = cc in rw gone (act_under_way action d)

incident-view_of :
    {Incident : Type 0} (loading : Bool) (error : Option Failure) (incident : Option Incident)
    (i : Incident)
    → view_of loading error incident ≡ showing i
    → incident ≡ some i
unfolding view_of failed_view
incident-view_of true error incident i e = cc
incident-view_of false (some f) incident i e = absurd (ground arith)
incident-view_of false none none i e = cc
incident-view_of false none (some j) i e = cc

module _ {Incident Timeline Series : Type 0} where
  abbrev IsGuarded : Page Incident Timeline Series → Type 0
  IsGuarded p = OneAct p.busy p.acts

  act_of-IsGuarded :
      (action : Action) (incident : Option Incident) (busy : Option Action)
      (p : Page Incident Timeline Series)
      → p.busy ≡ busy
      → IsGuarded p
      → IsGuarded (act_of action incident busy p)
  unfolding act_of
  act_of-IsGuarded action none busy p e g = g
  act_of-IsGuarded action (some i) (some other) p e g = g
  act_of-IsGuarded action (some i) none p e g =
      rw (alone p.busy p.acts e g) (act_under_way action posting)

  give_up-IsGuarded :
      (e : Failure) (rest : List Acting) (p : Page Incident Timeline Series)
      → rest ≡ []
      → IsGuarded (give_up e rest p)
  unfolding give_up load
  give_up-IsGuarded e rest p none_left = elim (Bool-cases (has_status 409 e)) [
    | inl conflict ↦ rw (conflict, give_up) (rw none_left no_act)
    | inr other ↦ rw (other, give_up) (rw none_left no_act)
  ]

  posted_of-IsGuarded :
      (list : List Acting) (answer : Answer Incident) (p : Page Incident Timeline Series)
      → p.acts ≡ list
      → IsGuarded p
      → IsGuarded (posted_of list answer p)
  unfolding posted_of
  posted_of-IsGuarded [] answer p e g = g
  posted_of-IsGuarded (reading_timeline ∷ rest) answer p e g = g
  posted_of-IsGuarded (posting ∷ rest) (fails f) p e g =
      give_up-IsGuarded f rest p (rest_empty p.busy posting rest p.acts e g)
  posted_of-IsGuarded (posting ∷ rest) (answers i) p e g =
      passed_on p.busy posting reading_timeline rest p.acts e g

  told_of-IsGuarded :
      (list : List Acting) (answer : Answer Timeline) (p : Page Incident Timeline Series)
      → p.acts ≡ list
      → IsGuarded p
      → IsGuarded (told_of list answer p)
  unfolding told_of
  told_of-IsGuarded [] answer p e g = g
  told_of-IsGuarded (posting ∷ rest) answer p e g = g
  told_of-IsGuarded (reading_timeline ∷ rest) (fails f) p e g =
      give_up-IsGuarded f rest p (rest_empty p.busy reading_timeline rest p.acts e g)
  told_of-IsGuarded (reading_timeline ∷ rest) (answers t) p e g =
      rw (rest_empty p.busy reading_timeline rest p.acts e g) no_act

  -- The incident that an answer of the server has.
  abbrev pub incident_in : Event Incident Timeline Series → Option Incident
  incident_in loads_again = none
  incident_in (clicks action) = none
  incident_in (load_ends (fails e)) = none
  incident_in (load_ends (answers (i, t))) = some i
  incident_in (metrics_end series) = none
  incident_in (post_ends (fails e)) = none
  incident_in (post_ends (answers i)) = some i
  incident_in (timeline_ends answer) = none

  unfoldable pub IsAnswered : Incident → List (Event Incident Timeline Series) → Type 0
  IsAnswered i [] = ⊥
  IsAnswered i (e ∷ es) = (incident_in e ≡ some i) ⊎ IsAnswered i es

  incident-act_of :
      (action : Action) (incident : Option Incident) (busy : Option Action)
      (p : Page Incident Timeline Series)
      → (act_of action incident busy p).incident ≡ p.incident
  unfolding act_of
  incident-act_of action none busy p = refl
  incident-act_of action (some i) (some other) p = refl
  incident-act_of action (some i) none p = refl

  incident-give_up :
      (e : Failure) (rest : List Acting) (p : Page Incident Timeline Series)
      → (give_up e rest p).incident ≡ p.incident
  unfolding give_up load
  incident-give_up e rest p = elim (Bool-cases (has_status 409 e)) [
    | inl conflict ↦ rw (conflict, give_up) refl
    | inr other ↦ rw (other, give_up) refl
  ]

  incident-measured_of :
      (n : ℕ) (series : Option Series) (p : Page Incident Timeline Series)
      → (measured_of n series p).incident ≡ p.incident
  unfolding measured_of
  incident-measured_of zero series p = refl
  incident-measured_of (suc n) series p = refl

  incident-told_of :
      (list : List Acting) (answer : Answer Timeline) (p : Page Incident Timeline Series)
      → (told_of list answer p).incident ≡ p.incident
  unfolding told_of
  incident-told_of [] answer p = refl
  incident-told_of (posting ∷ rest) answer p = refl
  incident-told_of (reading_timeline ∷ rest) (fails e) p = incident-give_up e rest p
  incident-told_of (reading_timeline ∷ rest) (answers t) p = refl

  incident-posted_of :
      (list : List Acting) (answer : Answer Incident) (p : Page Incident Timeline Series)
      (i : Incident)
      → (posted_of list answer p).incident ≡ some i
      → (p.incident ≡ some i) ⊎ (incident_in (post_ends answer) ≡ some i)
  unfolding posted_of
  incident-posted_of [] answer p i h = inl h
  incident-posted_of (reading_timeline ∷ rest) answer p i h = inl h
  incident-posted_of (posting ∷ rest) (fails e) p i h =
      let same = incident-give_up e rest p in inl cc
  incident-posted_of (posting ∷ rest) (answers j) p i h = inr h

  module _ (has_host : Incident → Bool) where
    loaded_of-IsGuarded :
        (n : ℕ) (answer : Answer (Incident × Timeline)) (p : Page Incident Timeline Series)
        → IsGuarded p
        → IsGuarded (loaded_of has_host n answer p)
    unfolding loaded_of
    loaded_of-IsGuarded zero answer p g = g
    loaded_of-IsGuarded (suc n) (fails e) p g = g
    loaded_of-IsGuarded (suc n) (answers (i, t)) p g = elim (Bool-cases (has_host i)) [
      | inl host ↦ rw (host, loaded_of) g
      | inr none_there ↦ rw (none_there, loaded_of) g
    ]

    incident-settled :
        (n : ℕ) (j : Incident) (t : Timeline) (p : Page Incident Timeline Series)
        → (loaded_of has_host (suc n) (answers (j, t)) p).incident ≡ some j
    unfolding loaded_of
    incident-settled n j t p = elim (Bool-cases (has_host j)) [
      | inl host ↦ rw (host, loaded_of) refl
      | inr none_there ↦ rw (none_there, loaded_of) refl
    ]

    incident-loaded_of :
        (n : ℕ) (answer : Answer (Incident × Timeline)) (p : Page Incident Timeline Series)
        (i : Incident)
        → (loaded_of has_host n answer p).incident ≡ some i
        → (p.incident ≡ some i) ⊎ (incident_in (load_ends answer) ≡ some i)
    unfolding loaded_of
    incident-loaded_of zero answer p i h = inl h
    incident-loaded_of (suc n) (fails e) p i h = inl h
    incident-loaded_of (suc n) (answers (j, t)) p i h =
        let same = incident-settled n j t p in inr cc

    measured_of-IsGuarded :
        (n : ℕ) (series : Option Series) (p : Page Incident Timeline Series)
        → IsGuarded p
        → IsGuarded (measured_of n series p)
    unfolding measured_of
    measured_of-IsGuarded zero series p g = g
    measured_of-IsGuarded (suc n) series p g = g

    on_event-IsGuarded :
        (e : Event Incident Timeline Series) (p : Page Incident Timeline Series)
        → IsGuarded p
        → IsGuarded (on_event has_host p e)
    unfolding on_event load loaded measured act posted told
    on_event-IsGuarded loads_again p g = g
    on_event-IsGuarded (clicks action) p g = act_of-IsGuarded action p.incident p.busy p refl g
    on_event-IsGuarded (load_ends answer) p g = loaded_of-IsGuarded p.loads answer p g
    on_event-IsGuarded (metrics_end series) p g = measured_of-IsGuarded p.metric_loads series p g
    on_event-IsGuarded (post_ends answer) p g = posted_of-IsGuarded p.acts answer p refl g
    on_event-IsGuarded (timeline_ends answer) p g = told_of-IsGuarded p.acts answer p refl g

    incident-on_event :
        (e : Event Incident Timeline Series) (p : Page Incident Timeline Series) (i : Incident)
        → (on_event has_host p e).incident ≡ some i
        → (p.incident ≡ some i) ⊎ (incident_in e ≡ some i)
    unfolding on_event load loaded measured act posted told
    incident-on_event loads_again p i h = inl h
    incident-on_event (clicks action) p i h =
        let same = incident-act_of action p.incident p.busy p in inl cc
    incident-on_event (load_ends answer) p i h = incident-loaded_of p.loads answer p i h
    incident-on_event (metrics_end series) p i h =
        let same = incident-measured_of p.metric_loads series p in inl cc
    incident-on_event (post_ends answer) p i h = incident-posted_of p.acts answer p i h
    incident-on_event (timeline_ends answer) p i h =
        let same = incident-told_of p.acts answer p in inl cc

    after_events-IsGuarded :
        (es : List (Event Incident Timeline Series)) (p : Page Incident Timeline Series)
        → IsGuarded p
        → IsGuarded (after_events has_host p es)
    unfolding after_events
    after_events-IsGuarded [] p g = g
    after_events-IsGuarded (e ∷ es) p g =
        after_events-IsGuarded es (on_event has_host p e) (on_event-IsGuarded e p g)

    incident-after_events :
        (es : List (Event Incident Timeline Series)) (p : Page Incident Timeline Series)
        (i : Incident)
        → (after_events has_host p es).incident ≡ some i
        → (p.incident ≡ some i) ⊎ IsAnswered i es
    unfolding after_events IsAnswered
    incident-after_events [] p i h = inl h
    incident-after_events (e ∷ es) p i h =
        elim (incident-after_events es (on_event has_host p e) i h) [
          | inr later ↦ inr (inr later)
          | inl now ↦ elim (incident-on_event e p i now) [
            | inl before ↦ inl before
            | inr said ↦ inr (inl said)
          ]
        ]

    -- Whatever is clicked and however the answers come, at most one action of the page is under way,
    -- with its guard set; and an incident that the page shows is one that the server has answered with.
    pub after_events-OneAct :
        (es : List (Event Incident Timeline Series))
        → let p = after_events has_host new_page es in
          OneAct p.busy p.acts × ((i : Incident) → view p ≡ showing i → IsAnswered i es)
    unfolding new_page view
    after_events-OneAct es =
        let p = after_events has_host new_page es in
        (
          after_events-IsGuarded es new_page no_act,
          λ i shown.
              let found = incident-view_of p.loading p.error p.incident i shown in
              elim (incident-after_events es new_page i found) [
                | inl before ↦ absurd cc
                | inr said ↦ said
              ],
        )
