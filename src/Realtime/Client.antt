-- ===== src/Realtime/Client.antt =====
-- `RealtimeClient` of apps/web/src/lib/sse.ts: the reconnecting reader. What the network and the page
-- do is an argument, a list of rounds of the loop of `run`; what the client does is a list of acts.
-- `JSON.parse` and the handlers are not modelled: a frame that is dispatched is an act `deliver`.
pub mod Dedup
pub mod Loop
pub mod Life
mod Tests
use wa_ops.Base.{
  ℕ, zero, suc, ◌+◌, ◌*◌, ◌^◌, min, Bool, true, false, Option, none, some, List, [], ◌∷◌, ◌++◌,
  ◌==◌, ltb, length, if◌then◌else◌, ◌||◌,
}
use wa_ops.Base.Text.{Text, text_eq}
use wa_ops.Realtime.Sse.{Frame, new_parser, push_all}

abbrev pub dedup_window : ℕ
dedup_window = 64

abbrev pub base_backoff_ms : ℕ
base_backoff_ms = 500

-- `recentIds` and `recentIdQueue`; a `Set` keeps its elements in the order of insertion.
pub record Seen : Type 0 where
  pub recent : List Text
  pub queue : List Text

unfoldable pub has : List Text → Text → Bool
has [] x = false
has (y ∷ ys) x = text_eq y x || has ys x

unfoldable pub remove : Text → List Text → List Text
remove x [] = []
remove x (y ∷ ys) = if text_eq y x then ys else y ∷ remove x ys

-- `shift` the queue, and `delete` what it gives from the set.
abbrev pub shift_oldest : List Text → List Text → Seen
shift_oldest recent [] = record { recent = recent; queue = [] }
shift_oldest recent (oldest ∷ queue) = record { recent = remove oldest recent; queue = queue }

unfoldable pub remember : Seen → Text → Seen
unfolding remove
remember s id =
    let recent = s.recent ++ id ∷ [] in
    let queue = s.queue ++ id ∷ [] in
    if ltb dedup_window (length queue)
    then shift_oldest recent queue
    else record { recent = recent; queue = queue }

unfoldable pub is_duplicate : Seen → Text → Bool × Seen
unfolding has remember
is_duplicate s [] = (false, s)
is_duplicate s (c ∷ id) = if has s.recent (c ∷ id) then (true, s) else (false, remember s (c ∷ id))

pub data Status : Type 0 where
  connecting open_ reconnecting closed unauthorized : Status

-- `runToken`, `stopped` and `controller` are in the rounds; `status` is in the acts.
pub record Client : Type 0 where
  pub seen : Seen
  pub cursor : Option Text
  pub attempt : ℕ

pub data Act : Type 0 where
  set_status : Status → Act
  request : (last_event_id : Option Text) → Act
  on_error : Act
  wait : (capped : ℕ) → Act
  deliver : Frame → Act

-- What `fetch` gives: it throws, or a status with no stream, or a stream that gives chunks and then
-- ends or throws.
pub data Response : Type 0 where
  thrown : Response
  replied : (status : ℕ) → Response
  stream : (chunks : List Text) → (broken : Bool) → Response

-- One round: whether there is an access token, what `fetch` gives, and `live()` behind it.
pub record Round : Type 0 where
  pub token : Bool
  pub response : Response
  pub live : Bool

-- `Math.min(500 * 2 ** Math.min(attempt, 10), maxBackoffMs)`
unfoldable pub backoff : ℕ → ℕ → ℕ
backoff max_backoff_ms attempt = min (base_backoff_ms * 2 ^ min attempt 10) max_backoff_ms

abbrev pub move_cursor : Option Text → Text → Option Text
move_cursor cursor [] = cursor
move_cursor cursor (c ∷ id) = some (c ∷ id)

-- The body of the loop over the frames of a chunk.
unfoldable pub on_frame : Client → Frame → Client × List Act
unfolding is_duplicate
on_frame c f =
    let (duplicate, seen) = is_duplicate c.seen f.id in
    (
      record c { seen = seen; cursor = move_cursor c.cursor f.id },
      (if duplicate then [] else deliver f ∷ []),
    )

unfoldable pub on_frames : Client → List Frame → Client × List Act
unfolding on_frame
on_frames c [] = (c, [])
on_frames c (f ∷ fs) =
    let (c', acts) = on_frame c f in let (c'', more) = on_frames c' fs in (c'', acts ++ more)

abbrev error_if : Bool → List Act
error_if true = on_error ∷ []
error_if false = []

module _ (max_backoff_ms : ℕ) where
  -- What a round does, and the client with which the loop goes on, if it does.
  abbrev retry : Client → List Act → Option Client × List Act
  retry c acts = (
    some (record c { attempt = c.attempt + 1 }),
    acts ++ wait (backoff max_backoff_ms c.attempt) ∷ [],
  )

  unfoldable pub on_response : Client → Bool → Response → Option Client × List Act
  unfolding on_frames backoff
  on_response c live thrown = if live then retry c (on_error ∷ []) else (none, [])
  on_response c live (replied status) =
      if status == 401 || status == 403
      then (none, set_status unauthorized ∷ [])
      else retry c (on_error ∷ [])
  on_response c live (stream chunks broken) =
      let (c', acts) = on_frames (record c { attempt = 0 }) (push_all new_parser chunks).1 in
      let before = set_status open_ ∷ acts in
      if live then retry c' (before ++ error_if broken) else (none, before)

  unfoldable pub on_round : Client → Round → Option Client × List Act
  unfolding on_response
  on_round c r =
      let greeting = set_status (if c.attempt == 0 then connecting else reconnecting) in
      let (c', acts) = on_response c r.live r.response in
      let (c'', errors) = on_response c r.live thrown in
      if r.token then (c', greeting ∷ request c.cursor ∷ acts) else (c'', greeting ∷ errors)

  -- The loop, over the rounds that the environment gives. Where it breaks, `finally` sets the status,
  -- or `stop` has done so.
  unfoldable pub run : Client → List Round → List Act
  unfolding on_round
  run c [] = []
  run c (r ∷ rs) =
      let (next, acts) = on_round c r in
      elim next [ none ↦ acts ++ set_status closed ∷ [] | some c' ↦ acts ++ run c' rs ]
