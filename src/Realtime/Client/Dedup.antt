-- ===== src/Realtime/Client/Dedup.antt =====
-- The window of recent ids of `RealtimeClient`.
use mathlib.Core.List.{append_assoc}
use wa_ops.Base.{
  ℕ, suc, ◌+◌, ◌≤◌, ◌<◌, ◌≡◌, refl, ap, ◌∙◌, true, false, List, [], ◌∷◌, ◌++◌, arith, length,
  length-append, Bool-cases, inl, inr, ◌⊎◌, ltb,
}
use wa_ops.Base.Text.{Text, text_eq, text_eq_iff}
use wa_ops.Realtime.Client.{dedup_window, Seen, has, remove, shift_oldest, remember, is_duplicate}

-- The set and the queue hold the same ids, at most `dedup_window` of them.
pub record IsWindow (s : Seen) : Type 0 where
  pub same : s.recent ≡ s.queue
  pub bounded : length s.queue ≤ dedup_window

-- `x` is in the list, with at most `k` ids behind it.
pub record Held (x : Text) (k : ℕ) (xs : List Text) : Type 0 where
  pub before : List Text
  pub behind : List Text
  pub split : xs ≡ before ++ x ∷ behind
  pub near : length behind ≤ k

text_eq_refl : (x : Text) → text_eq x x ≡ true
text_eq_refl x = (text_eq_iff x x).1 refl

has-append : (xs ys : List Text) (x : Text) → has (xs ++ x ∷ ys) x ≡ true
unfolding has
has-append [] ys x = rw (text_eq_refl x) refl
has-append (y ∷ xs) ys x = ground (arith, has-append xs ys x)

Held-has : {x : Text} {k : ℕ} {xs : List Text} → Held x k xs → has xs x ≡ true
Held-has h = rw h.split (has-append h.before h.behind _)

remove_head : (x : Text) (xs : List Text) → remove x (x ∷ xs) ≡ xs
unfolding remove
remove_head x xs = rw (text_eq_refl x) refl

shift_oldest-IsWindow :
    (xs : List Text) → length xs ≤ suc dedup_window → IsWindow (shift_oldest xs xs)
shift_oldest-IsWindow [] h = record { same = refl; bounded = omega arith }
shift_oldest-IsWindow (x ∷ xs) h = record { same = remove_head x xs; bounded = omega arith }

abbrev rest : List Text → List Text
rest [] = []
rest (x ∷ xs) = xs

queue-shift_oldest : (recent queue : List Text) → (shift_oldest recent queue).queue ≡ rest queue
queue-shift_oldest recent [] = refl
queue-shift_oldest recent (x ∷ xs) = refl

-- The queue after `remember`, whether or not it was full.
queue-remember :
    (s : Seen) (id : Text)
    → ((length (s.queue ++ id ∷ []) ≤ dedup_window)
        × (remember s id ≡ record { recent = s.recent ++ id ∷ []; queue = s.queue ++ id ∷ [] }))
      ⊎ ((dedup_window < length (s.queue ++ id ∷ []))
          × (remember s id ≡ shift_oldest (s.recent ++ id ∷ []) (s.queue ++ id ∷ [])))
unfolding remember
queue-remember s id = elim (Bool-cases (ltb dedup_window (length (s.queue ++ id ∷ [])))) [
  | inl e ↦ inr (ground arith, rw (e, remember))
  | inr e ↦ inl (ground arith, rw (e, remember))
]

remember-IsWindow : (s : Seen) (id : Text) → IsWindow s → IsWindow (remember s id)
remember-IsWindow s id w = elim (queue-remember s id) [
  | inl (fits, e) ↦ rw e (record { same = ap (λ q. q ++ id ∷ []) w.same; bounded = fits })
  | inr (over, e) ↦
      rw (e, w.same)
        (shift_oldest-IsWindow (s.queue ++ id ∷ [])
          (omega (arith, w.bounded, length-append {0} s.queue (id ∷ []))))
]

Held-rest :
    (x : Text) (k : ℕ) (xs : List Text) → k + 1 < length xs → Held x k xs → Held x k (rest xs)
Held-rest x k xs h held = drop held.before held.split
  where
    drop : (before : List Text) → xs ≡ before ++ x ∷ held.behind → Held x k (rest xs)
    drop [] e = absurd (omega (arith, ap length e, held.near))
    drop (y ∷ before) e = record {
      before = before;
      behind = held.behind;
      split = ap rest e;
      near = held.near;
    }

remember-Held :
    (s : Seen) (id x : Text) (k : ℕ)
    → k < dedup_window
    → Held x k (s.queue ++ id ∷ [])
    → Held x k (remember s id).queue
remember-Held s id x k h held = elim (queue-remember s id) [
  | inl (fits, e) ↦ rw e held
  | inr (over, e) ↦
      rw (e, queue-shift_oldest (s.recent ++ id ∷ []) (s.queue ++ id ∷ []))
        (Held-rest x k (s.queue ++ id ∷ []) (omega arith) held)
]

Held-newest : (xs : List Text) (id : Text) → Held id 0 (xs ++ id ∷ [])
Held-newest xs id = record { before = xs; behind = []; split = refl; near = omega arith }

Held-older : (x id : Text) (k : ℕ) (xs : List Text) → Held x k xs → Held x (k + 1) (xs ++ id ∷ [])
Held-older x id k xs h = record {
  before = h.before;
  behind = h.behind ++ id ∷ [];
  split = ap (λ q. q ++ id ∷ []) h.split ∙ append_assoc h.before (x ∷ h.behind) (id ∷ []);
  near = omega (arith, h.near, length-append {0} h.behind (id ∷ []));
}

-- The ids of frames, in order, and the window behind them.
pub see_all : Seen → List Text → Seen
see_all s [] = s
see_all s (id ∷ ids) = see_all (is_duplicate s id).1 ids

pub is_duplicate-IsWindow : (s : Seen) (id : Text) → IsWindow s → IsWindow (is_duplicate s id).1
unfolding is_duplicate
is_duplicate-IsWindow s [] w = w
is_duplicate-IsWindow s (c ∷ id) w = elim (Bool-cases (has s.recent (c ∷ id))) [
  | inl e ↦ rw (e, is_duplicate) w
  | inr e ↦ rw (e, is_duplicate) (remember-IsWindow s (c ∷ id) w)
]

Held-weaken : {x : Text} {k : ℕ} {xs : List Text} → Held x k xs → Held x (k + 1) xs
Held-weaken h = record {
  before = h.before;
  behind = h.behind;
  split = h.split;
  near = omega (arith, h.near);
}

is_duplicate-Held :
    (s : Seen) (id x : Text) (k : ℕ)
    → k + 1 < dedup_window
    → Held x k s.queue
    → Held x (k + 1) (is_duplicate s id).1.queue
unfolding is_duplicate
is_duplicate-Held s [] x k h held = Held-weaken held
is_duplicate-Held s (c ∷ id) x k h held = elim (Bool-cases (has s.recent (c ∷ id))) [
  | inl e ↦ rw (e, is_duplicate) (Held-weaken held)
  | inr e ↦
      rw (e, is_duplicate)
        (remember-Held s (c ∷ id) x (k + 1) h (Held-older x (c ∷ id) k s.queue held))
]

see_all-Held :
    (s : Seen) (ids : List Text) (x : Text) (k : ℕ)
    → IsWindow s
    → k + length ids < dedup_window
    → Held x k s.queue
    → has (see_all s ids).recent x ≡ true
unfolding see_all
see_all-Held s [] x k w h held = rw w.same (Held-has held)
see_all-Held s (id ∷ ids) x k w h held =
    see_all-Held (is_duplicate s id).1 ids x (k + 1) (is_duplicate-IsWindow s id w) (omega arith)
      (is_duplicate-Held s id x k (omega arith) held)

is_duplicate-has :
    (s : Seen) (c : ℕ) (id : Text) → (is_duplicate s (c ∷ id)).0 ≡ has s.recent (c ∷ id)
unfolding is_duplicate
is_duplicate-has s c id = ground arith

first_seen :
    (s : Seen) (c : ℕ) (id : Text)
    → IsWindow s
    → (is_duplicate s (c ∷ id)).0 ≡ false
    → Held (c ∷ id) 0 (is_duplicate s (c ∷ id)).1.queue
unfolding is_duplicate
first_seen s c id w e = elim (Bool-cases (has s.recent (c ∷ id))) [
  | inl p ↦ absurd (cc (is_duplicate-has s c id, p, e))
  | inr p ↦
      rw (p, is_duplicate)
        (remember-Held s (c ∷ id) (c ∷ id) 0 (omega arith) (Held-newest s.queue (c ∷ id)))
]

-- A frame with an id that has been let through is dropped when it comes again, if fewer than 64 other
-- frames came in between: within that window each id is handed to the page at most once.
pub is_duplicate_again :
    (s : Seen) (c : ℕ) (id : Text) (ids : List Text)
    → IsWindow s
    → (is_duplicate s (c ∷ id)).0 ≡ false
    → length ids < dedup_window
    → (is_duplicate (see_all (is_duplicate s (c ∷ id)).1 ids) (c ∷ id)).0 ≡ true
is_duplicate_again s c id ids w e h =
    let held =
      see_all-Held (is_duplicate s (c ∷ id)).1 ids (c ∷ id) 0 (is_duplicate-IsWindow s (c ∷ id) w)
        (omega arith) (first_seen s c id w e) in
    is_duplicate-has (see_all (is_duplicate s (c ∷ id)).1 ids) c id ∙ held
