-- ===== src/Realtime/Client/Life/OneLive.antt =====
-- How many of the runs of a RealtimeClient are live.
use mathlib.Core.Option.{some-injective}
use wa_ops.Base.{
  ℕ, zero, suc, ◌+◌, ◌≤◌, ◌≡◌, refl, ◌∙◌, ◌⊎◌, ◌||◌, Bool, true, false, not, Option, none, some,
  List, [], ◌∷◌, ◌==◌, ==_iff, arith, All, Option-cases, inl, inr, if◌then◌else◌,
}
use wa_ops.Realtime.Client.Life.{
  Place, at_head, at_fetch, at_read, at_backoff, Running, Life, new_life, started, start, stop,
  Event, enters, fetch_fails, replies, opens, ends, wakes, is_live, moved, move, move_at, Input,
  starts, stops, moves, step, live, count_live,
}

-- A run that goes on keeps its token, and so it is live as it was.
moved-token :
    (event : Event) (place : Place) (s : Life) (r next : Running)
    → (moved event place s r).1 ≡ some next
    → next.token ≡ r.token
unfolding moved is_live
moved-token enters at_head s r next e = ground arith
moved-token enters at_fetch s r next e = ground arith
moved-token enters at_read s r next e = ground arith
moved-token enters at_backoff s r next e = ground arith
moved-token fetch_fails at_head s r next e = ground arith
moved-token fetch_fails at_fetch s r next e = ground arith
moved-token fetch_fails at_read s r next e = ground arith
moved-token fetch_fails at_backoff s r next e = ground arith
moved-token (replies code) at_head s r next e = ground arith
moved-token (replies code) at_fetch s r next e = ground arith
moved-token (replies code) at_read s r next e = ground arith
moved-token (replies code) at_backoff s r next e = ground arith
moved-token opens at_head s r next e = ground arith
moved-token opens at_fetch s r next e = ground arith
moved-token opens at_read s r next e = ground arith
moved-token opens at_backoff s r next e = ground arith
moved-token ends at_head s r next e = ground arith
moved-token ends at_fetch s r next e = ground arith
moved-token ends at_read s r next e = ground arith
moved-token ends at_backoff s r next e = ground arith
moved-token wakes at_head s r next e = ground arith
moved-token wakes at_fetch s r next e = ground arith
moved-token wakes at_read s r next e = ground arith
moved-token wakes at_backoff s r next e = ground arith

-- The runs with a token.
unfoldable current : ℕ → List Running → ℕ
current k [] = 0
current k (r ∷ rs) = (if k == r.token then 1 else 0) + current k rs

abbrev Below : ℕ → List Running → Type 0
Below k rs = All (λ r. r.token ≤ k) rs

move_at-Below :
    (k n : ℕ) (rs : List Running) (event : Event) (s : Life)
    → Below k rs
    → Below k (move_at event s n rs).1
unfolding move_at move
move_at-Below k n [] event s below = tt
move_at-Below k zero (r ∷ rs) event s (low, below) =
    elim (Option-cases (moved event r.place s r).1) [
      | inl e ↦ rw (e, move_at) below
      | inr (next, e) ↦ rw (e, move_at) (rw (moved-token event r.place s r next e) low, below)
    ]
move_at-Below k (suc n) (r ∷ rs) event s (low, below) = (low, move_at-Below k n rs event s below)

current-move_at :
    (k n : ℕ) (rs : List Running) (event : Event) (s : Life)
    → current k (move_at event s n rs).1 ≤ current k rs
unfolding move_at move current
current-move_at k n [] event s = omega arith
current-move_at k zero (r ∷ rs) event s = elim (Option-cases (moved event r.place s r).1) [
  | inl e ↦ rw (e, move_at) (omega arith)
  | inr (next, e) ↦ rw (e, move_at) (rw (moved-token event r.place s r next e) (omega arith))
]
current-move_at k (suc n) (r ∷ rs) event s =
    let less = current-move_at k n rs event s in omega arith

current_new : (k : ℕ) (rs : List Running) → Below k rs → current (k + 1) rs ≡ 0
unfolding current
current_new k [] below = refl
current_new k (r ∷ rs) (low, below) = ground (arith, current_new k rs below)

Below-more : (k : ℕ) (rs : List Running) → Below k rs → Below (k + 1) rs
Below-more k [] below = tt
Below-more k (r ∷ rs) (low, below) = (omega arith, Below-more k rs below)

-- The tokens that were given out, and the runs with the last one.
record Sound (s : Life) : Type 0 where
  below : Below s.run_token s.runs
  single : current s.run_token s.runs ≤ 1

if-either {ℓ} :
    {A : Type ℓ} (P : A → Type 0) (test : Bool) (a b : A) → P a → P b → P (if test then a else b)
if-either P true a b pa pb = pa
if-either P false a b pa pb = pb

step-Sound : (s : Life) (i : Input) → Sound s → Sound (step s i)
unfolding step start stop current
step-Sound s starts sound = if-either Sound s.running s (started s) sound (record {
  below = (omega arith, Below-more s.run_token s.runs sound.below);
  single =
      let gone = current_new s.run_token s.runs sound.below in
      rw ((==_iff (s.run_token + 1) (s.run_token + 1)).1 refl, gone, current) (omega arith);
})
step-Sound s stops sound = record {
  below = Below-more s.run_token s.runs sound.below;
  single = let gone = current_new s.run_token s.runs sound.below in omega arith;
}
step-Sound s (moves event n) sound = record {
  below = move_at-Below s.run_token n s.runs event s sound.below;
  single =
      let less = current-move_at s.run_token n s.runs event s in
      let one = sound.single in omega arith;
}

live-Sound : (is : List Input) (s : Life) → Sound s → Sound (live s is)
unfolding live
live-Sound [] s sound = sound
live-Sound (i ∷ is) s sound = live-Sound is (step s i) (step-Sound s i sound)

count_live_le : (s : Life) (rs : List Running) → count_live s rs ≤ current s.run_token rs
unfolding count_live current is_live
count_live_le s [] = omega arith
count_live_le s (r ∷ rs) = let less = count_live_le s rs in ground arith

new_life-Sound : Sound new_life
unfolding new_life current
new_life-Sound = record { below = tt; single = omega arith }

restarted-live : (s : Life) → Sound s → count_live (start (stop s)) (start (stop s)).runs ≡ 1
unfolding start stop count_live is_live
restarted-live s sound =
    let k = s.run_token + 1 in
    let gone = current_new k s.runs (Below-more s.run_token s.runs sound.below) in
    let less = count_live_le (start (stop s)) s.runs in
    let none_left : count_live (start (stop s)) s.runs ≡ 0 = omega arith in
    rw ((==_iff (k + 1) (k + 1)).1 refl, none_left) refl

-- Whatever is called and whatever happens to the runs, in whatever order, at most one of the runs of a
-- client is live; and after `stop` and `start` exactly one is.
pub live-OneLive :
    (is : List Input)
    → let s = live new_life is in
      (count_live s s.runs ≤ 1) × (count_live (start (stop s)) (start (stop s)).runs ≡ 1)
live-OneLive is =
    let s = live new_life is in
    let sound = live-Sound is new_life new_life-Sound in
    let less = count_live_le s s.runs in
    let one = sound.single in (omega arith, restarted-live s sound)

-- A client that counts as running, while none of its runs has its token.
record Dead (s : Life) : Type 0 where
  running : s.running ≡ true
  gone : current s.run_token s.runs ≡ 0

Dead-none : (s : Life) → Dead s → count_live s s.runs ≡ 0
Dead-none s dead = let less = count_live_le s s.runs in let gone = dead.gone in omega arith

unfoldable pub no_stops : List Input → Bool
no_stops [] = true
no_stops (starts ∷ is) = no_stops is
no_stops (stops ∷ is) = false
no_stops (moves event n ∷ is) = no_stops is

live-Dead : (is : List Input) (s : Life) → no_stops is ≡ true → Dead s → Dead (live s is)
unfolding live no_stops step start
live-Dead [] s calm dead = dead
live-Dead (starts ∷ is) s calm dead = live-Dead is (start s) calm (simp (dead.running, start) dead)
live-Dead (stops ∷ is) s calm dead = absurd (ground arith)
live-Dead (moves event n ∷ is) s calm dead = live-Dead is (step s (moves event n)) calm (record {
  running = dead.running;
  gone =
      let less = current-move_at s.run_token n s.runs event s in
      let gone = dead.gone in omega arith;
})

-- The run at a position.
unfoldable pub run_at : ℕ → List Running → Option Running
run_at n [] = none
run_at zero (r ∷ rs) = some r
run_at (suc n) (r ∷ rs) = run_at n rs

code_refused : (code : ℕ) → (code ≡ 401) ⊎ (code ≡ 403) → (code == 401 || code == 403) ≡ true
code_refused code (inl e) = rw e refl
code_refused code (inr e) = rw e refl

-- The answer takes the run away.
refused-move_at :
    (n code : ℕ) (rs : List Running) (s : Life) (r : Running)
    → run_at n rs ≡ some r
    → r.place ≡ at_fetch
    → (code == 401 || code == 403) ≡ true
    → current r.token rs ≡ 1 + current r.token (move_at (replies code) s n rs).1
unfolding run_at move_at move moved current
refused-move_at n code [] s r e fetching refused = cc
refused-move_at zero code (q ∷ rs) s r e fetching refused =
    let same : q ≡ r = some-injective q r e in
    rw (same, fetching, refused, (==_iff r.token r.token).1 refl, moved, move, move_at) refl
refused-move_at (suc n) code (q ∷ rs) s r e fetching refused =
    let less = refused-move_at n code rs s r e fetching refused in omega arith

-- Of `running` and `stopped` one holds.
step-either :
    (s : Life) (i : Input) → s.running ≡ not s.stopped → (step s i).running ≡ not (step s i).stopped
unfolding step start stop
step-either s starts h = if-either (λ x. x.running ≡ not x.stopped) s.running s (started s) h refl
step-either s stops h = refl
step-either s (moves event n) h = h

live-either :
    (is : List Input) (s : Life)
    → s.running ≡ not s.stopped
    → (live s is).running ≡ not (live s is).stopped
unfolding live
live-either [] s h = h
live-either (i ∷ is) s h = live-either is (step s i) (step-either s i h)

-- After a live run has ended by a 401 or a 403, wherever in the life of a client that is, the client
-- stays without a live run, whatever happens and however often `start` is called, until `stop` is
-- called.
pub unauthorized-live :
    (before is : List Input) (n code : ℕ) (r : Running)
    → run_at n (live new_life before).runs ≡ some r
    → is_live (live new_life before) r ≡ true
    → r.place ≡ at_fetch
    → (code ≡ 401) ⊎ (code ≡ 403)
    → no_stops is ≡ true
    → let s = live (step (live new_life before) (moves (replies code) n)) is in
      count_live s s.runs ≡ 0
unfolding step is_live new_life current live
unauthorized-live before is n code r found alive fetching refused calm =
    Dead-none (live (step s (moves (replies code) n)) is) (
      live-Dead is (step s (moves (replies code) n)) calm (record {
        running = live-either before new_life refl ∙ ground arith;
        gone =
            let one = (live-Sound before new_life new_life-Sound).single in
            let less =
              refused-move_at n code s.runs s r found fetching (code_refused code refused) in
            let same : s.run_token ≡ r.token = (==_iff _ _).0 (ground arith) in
            let one' : current r.token s.runs ≤ 1 = rw same at one in rw same (omega arith);
      }))
  where
    s : Life
    s = live new_life before
