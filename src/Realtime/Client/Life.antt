-- ===== src/Realtime/Client/Life.antt =====
-- `start` and `stop` of the RealtimeClient in apps/web/src/lib/sse.ts, with the calls of `run` that
-- they leave behind: each runs on its own between its `await`s, so that several may be there at a
-- time. What a run reads and waits for is in the loop of Realtime.Client.
pub mod OneLive
use wa_ops.Base.{
  ℕ, zero, suc, ◌+◌, Bool, true, false, not, ◌&&◌, ◌||◌, Option, none, some, List, [], ◌∷◌, ◌==◌,
  if◌then◌else◌,
}
use wa_ops.Realtime.Client.{Status, connecting, open_, reconnecting, closed, unauthorized}

-- Where a run stands: at the head of its loop, or at one of its `await`s.
pub data Place : Type 0 where
  at_head at_fetch at_read at_backoff : Place

pub record Running : Type 0 where
  pub token : ℕ
  pub attempt : ℕ
  pub place : Place

-- The fields `runToken`, `running`, `stopped` and `status`, and the runs.
pub record Life : Type 0 where
  pub run_token : ℕ
  pub running : Bool
  pub stopped : Bool
  pub status : Status
  pub runs : List Running

unfoldable pub new_life : Life
new_life = record { run_token = 0; running = false; stopped = true; status = closed; runs = [] }

abbrev pub started : Life → Life
started s = record s {
  run_token = s.run_token + 1;
  running = true;
  stopped = false;
  runs = (record { token = s.run_token + 1; attempt = 0; place = at_head }) ∷ s.runs;
}

unfoldable pub start : Life → Life
start s = if s.running then s else started s

unfoldable pub stop : Life → Life
stop s = record s { run_token = s.run_token + 1; running = false; stopped = true; status = closed }

-- What happens to a run.
pub data Event : Type 0 where
  -- the head of the loop is reached
  enters : Event
  -- there is no token, or `fetch` throws
  fetch_fails : Event
  replies : (status : ℕ) → Event
  opens : Event
  -- the stream ends or breaks
  ends : Event
  -- the timer of the backoff, or `wake`
  wakes : Event

-- `live()`
unfoldable pub is_live : Life → Running → Bool
is_live s r = not s.stopped && s.run_token == r.token

-- The end of `run`: its `finally`.
abbrev finish : Life → Running → Status → Status × Option Running
finish s r status = ((if s.run_token == r.token then closed else status), none)

abbrev go_on : Status → Running → Status × Option Running
go_on status r = (status, some r)

abbrev wait_again : Status → Running → Status × Option Running
wait_again status r = go_on status (record r { attempt = r.attempt + 1; place = at_backoff })

-- The status behind an event, and the run if it goes on. No other event comes at a place.
unfoldable pub moved : Event → Place → Life → Running → Status × Option Running
unfolding is_live
moved enters at_head s r =
    if is_live s r
    then go_on (if r.attempt == 0 then connecting else reconnecting) (record r { place = at_fetch })
    else finish s r s.status
moved fetch_fails at_fetch s r = if is_live s r then wait_again s.status r else finish s r s.status
moved (replies code) at_fetch s r =
    if code == 401 || code == 403 then finish s r unauthorized else wait_again s.status r
moved opens at_fetch s r = go_on open_ (record r { attempt = 0; place = at_read })
moved ends at_read s r = if is_live s r then wait_again s.status r else finish s r s.status
moved wakes at_backoff s r = go_on s.status (record r { place = at_head })
moved _ _ s r = go_on s.status r

unfoldable pub move : Event → Life → Running → Status × Option Running
unfolding moved
move event s r = moved event r.place s r

abbrev pub keep_run : Option Running → List Running → List Running
keep_run none rs = rs
keep_run (some r) rs = r ∷ rs

-- The event happens to the run at a position.
unfoldable pub move_at : Event → Life → ℕ → List Running → Status × List Running
unfolding move
move_at event s n [] = (s.status, [])
move_at event s zero (r ∷ rs) = let (status, next) = move event s r in (status, keep_run next rs)
move_at event s (suc n) (r ∷ rs) = let (status, rest) = move_at event s n rs in (status, r ∷ rest)

pub data Input : Type 0 where
  starts stops : Input
  moves : Event → ℕ → Input

unfoldable pub step : Life → Input → Life
unfolding start stop move_at
step s starts = start s
step s stops = stop s
step s (moves event n) =
    let (status, runs) = move_at event s n s.runs in record s { status = status; runs = runs }

unfoldable pub live : Life → List Input → Life
unfolding step
live s [] = s
live s (i ∷ is) = live (step s i) is

unfoldable pub count_live : Life → List Running → ℕ
unfolding is_live
count_live s [] = 0
count_live s (r ∷ rs) = (if is_live s r then 1 else 0) + count_live s rs
