-- ===== src/Web/TicketPage/Tests.antt =====
-- A page of a ticket, which is a number here: two clicks, a conflict, and the ticket read again.
use wa_ops.Base.{ℕ, ◌≡◌, refl, List, [], ◌∷◌}
use wa_ops.Web.TicketPage.{
  new_page, Event, loads_again, clicks, load_ends, transition_ends, api_failure, fails, answers,
  after_events, view, showing,
}
use wa_ops.Web.TicketPage.Guarded.{IsGuarded}
use wa_ops.Web.TicketPage.Confirmed.{IsAnswered, after_events-Confirmed}

abbrev clicks_twice : List (Event ℕ)
clicks_twice =
    loads_again
    ∷ load_ends (answers 1)
    ∷ clicks "closed"
    ∷ clicks "closed"
    ∷ transition_ends (fails (api_failure 409 "conflict"))
    ∷ load_ends (answers 2)
    ∷ []

after_events-Confirmed_example :
    IsGuarded (after_events new_page clicks_twice)
    × ((t : ℕ) → view (after_events new_page clicks_twice) ≡ showing t → IsAnswered t clicks_twice)
after_events-Confirmed_example = after_events-Confirmed clicks_twice

shows_second : view (after_events new_page clicks_twice) ≡ showing 2
unfolding view after_events new_page
shows_second = refl
