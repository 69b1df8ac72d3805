-- ===== src/Realtime/Client/Loop.antt =====
-- The reconnecting loop of `RealtimeClient`: where it resumes, and how long it waits.
use native.Mathlib.Nat.{pow-suc}
use wa_ops.Base.{
  ℕ, zero, suc, ◌+◌, ◌^◌, ◌≤◌, ◌≡◌, refl, ap, min, Bool, true, Option, some, List, [], ◌∷◌, ◌++◌,
  arith, All, flatten, map,
}
use native.Mathlib.Decide.{dec_lt}
use wa_ops.Base.Text.{Text}
use wa_ops.Realtime.Sse.{Frame, new_parser, push_all}
use wa_ops.Realtime.Sse.Stream.{Item, event, comment, wire, IsWritable, frames, push_all-wire}
use wa_ops.Realtime.Client.{
  Client, stream, backoff, base_backoff_ms, move_cursor, on_frame, on_frames, on_round,
}

pow-rises : (n : ℕ) → 2 ^ n ≤ 2 ^ suc n
pow-rises n = rw pow-suc (omega arith)

one-le-pow : (n : ℕ) → 1 ≤ 2 ^ n
one-le-pow zero = omega arith
one-le-pow (suc n) = omega (arith, one-le-pow n, pow-rises n)

pow-min : (a : ℕ) → 2 ^ min a 10 ≤ 2 ^ min (a + 1) 10
pow-min a = elim (dec_lt a 10) [
  | yes p ↦
      (let e : min a 10 ≡ a = omega arith in
        let e' : min (a + 1) 10 ≡ suc a = omega arith in rw (e, e') (pow-rises a))
  | no p ↦ (let e : min a 10 ≡ min (a + 1) 10 = omega arith in rw e (omega arith))
]

-- The waits grow with the number of failures in a row, and none is above the cap or below the smaller
-- of the base and the cap.
pub backoff_bounds :
    (m a : ℕ)
    → (backoff m a ≤ backoff m (a + 1)) × (backoff m a ≤ m) × (min base_backoff_ms m ≤ backoff m a)
unfolding backoff
backoff_bounds m a = (omega (arith, pow-min a), omega arith, omega (arith, one-le-pow (min a 10)))

-- The cursor behind a list of items: the id of the last event that has one.
abbrev pub resume : Option Text → List Item → Option Text
resume cursor [] = cursor
resume cursor (event id type json ∷ items) = resume (move_cursor cursor id) items
resume cursor (comment s ∷ items) = resume cursor items

cursor-on_frames :
    (c : Client) (items : List Item) → (on_frames c (frames items)).0.cursor ≡ resume c.cursor items
unfolding on_frames on_frame
cursor-on_frames c [] = refl
cursor-on_frames c (event id type json ∷ items) =
    cursor-on_frames (on_frame c (record { id = id; event = type; payload = json })).0 items
cursor-on_frames c (comment s ∷ items) = cursor-on_frames c items

attempt-on_frames : (c : Client) (fs : List Frame) → (on_frames c fs).0.attempt ≡ c.attempt
unfolding on_frames on_frame
attempt-on_frames c [] = refl
attempt-on_frames c (f ∷ fs) = attempt-on_frames (on_frame c f).0 fs

-- After a stream that carried some items, in whatever chunks, and then ended or broke, the loop goes on
-- with one failure counted, the end of the stream, and with the id of the last event in its cursor.
pub on_round-resumes :
    (m : ℕ) (c : Client) (items : List Item) (chunk : Text) (chunks : List Text) (broken : Bool)
    → All IsWritable items
    → chunk ++ flatten chunks ≡ flatten (map wire items)
    → (c' : Client) × ((on_round m c
          (record { token = true; response = stream (chunk ∷ chunks) broken; live = true })).0
        ≡ some c')
      × (c'.attempt ≡ 1)
      × (c'.cursor ≡ resume c.cursor items)
unfolding on_round
on_round-resumes m c items chunk chunks broken h e =
    let read = ap (λ r. r.1) (push_all-wire items chunk chunks h e) in
    let c₀ = record c { attempt = 0 } in
    (
      _,
      refl,
      rw (attempt-on_frames c₀ (push_all new_parser (chunk ∷ chunks)).1) (omega arith),
      rw read (cursor-on_frames c₀ items),
    )
