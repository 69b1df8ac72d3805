-- ===== src/Realtime/Client/Tests.antt =====
-- Runs of a RealtimeClient that is started and stopped.
use wa_ops.Base.{◌≡◌, ◌≤◌, refl, true, some, List, [], ◌∷◌, inl}
use wa_ops.Realtime.Client.Life.{
  Life, Running, at_fetch, new_life, start, stop, enters, fetch_fails, replies, Input, starts,
  stops, moves, live, step, move, move_at, moved, is_live, count_live,
}
use wa_ops.Realtime.Client.Life.OneLive.{live-OneLive, no_stops, run_at, unauthorized-live}

-- A client that is started, reaches the server, is stopped and started again.
abbrev restarts : List Input
restarts = starts ∷ moves enters 0 ∷ stops ∷ starts ∷ moves fetch_fails 1 ∷ []

live-OneLive_example :
    (count_live (live new_life restarts) (live new_life restarts).runs ≤ 1)
    × (count_live
          (start (stop (live new_life restarts)))
          (start (stop (live new_life restarts))).runs
        ≡ 1)
live-OneLive_example = live-OneLive restarts

-- A client that is stopped and started, whose first run is still waiting when the second is refused.
abbrev before : List Input
before = starts ∷ moves enters 0 ∷ stops ∷ starts ∷ moves enters 0 ∷ []

abbrev second : Running
second = record { token = 3; attempt = 0; place = at_fetch }

stands : run_at 0 (live new_life before).runs ≡ some second
unfolding run_at live step start stop new_life move_at move moved is_live
stands = refl

second_live : is_live (live new_life before) second ≡ true
unfolding live step start stop new_life is_live
second_live = refl

abbrev refused_then_started : Life
refused_then_started = live (step (live new_life before) (moves (replies 401) 0)) (starts ∷ [])

calm : no_stops (starts ∷ []) ≡ true
unfolding no_stops
calm = refl

unauthorized-live_example : count_live refused_then_started refused_then_started.runs ≡ 0
unauthorized-live_example =
    unauthorized-live before (starts ∷ []) 0 401 second stands second_live refl (inl refl) calm
