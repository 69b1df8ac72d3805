-- ===== src/Web/IncidentPage/Tests.antt =====
-- A page of an incident, which is a number here: two clicks, a conflict, and the incident read again.
use wa_ops.Base.{ℕ, ◌≡◌, refl, true, Bool, none, some, List, [], ◌∷◌}
use wa_ops.Web.TicketPage.{api_failure, fails, answers, has_status}
use wa_ops.Web.IncidentPage.{
  new_page, Event, loads_again, clicks, acknowledge, load_ends, metrics_end, post_ends,
  after_events, view, showing,
}

abbrev on_hosts : ℕ → Bool
on_hosts i = true

abbrev clicks_twice : List (Event ℕ ℕ ℕ)
clicks_twice =
    loads_again
    ∷ load_ends (answers (1, 0))
    ∷ metrics_end (some 5)
    ∷ clicks acknowledge
    ∷ clicks acknowledge
    ∷ post_ends (fails (api_failure 409 "conflict"))
    ∷ load_ends (answers (2, 0))
    ∷ metrics_end none
    ∷ []

shows_second : view (after_events on_hosts new_page clicks_twice) ≡ showing 2
unfolding view after_events new_page has_status
shows_second = refl
