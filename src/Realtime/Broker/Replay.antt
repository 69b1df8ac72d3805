-- ===== src/Realtime/Broker/Replay.antt =====
-- What a client that comes back with a cursor is sent.
use wa_ops.Base.{
  ℕ, zero, suc, ◌≤◌, ◌<◌, ◌≡◌, refl, ap, ◌∙◌, ◌↔◌, ◌⊎◌, inl, inr, Option, some, List, [], ◌∷◌, map,
  arith, ltb, take, All, Bool-cases,
}
use wa_ops.Realtime.Broker.{Event, retained_max, insert, sort, newer, retained_after, ring_of}

abbrev pub IsIn : Event → List Event → Type 0
IsIn e [] = ⊥
IsIn e (x ∷ xs) = (e ≡ x) ⊎ IsIn e xs

-- In the order of the ids.
abbrev pub IsSorted : List Event → Type 0
IsSorted [] = Unit
IsSorted (x ∷ xs) = All (λ y. x.id ≤ y.id) xs × IsSorted xs

IsIn-insert : (e x : Event) (xs : List Event) → IsIn e (insert x xs) ↔ ((e ≡ x) ⊎ IsIn e xs)
unfolding insert
IsIn-insert e x [] = (λ h. h, λ h. h)
IsIn-insert e x (y ∷ ys) = elim (Bool-cases (ltb x.id y.id)) [
  | inl p ↦ rw p (λ h. h, λ h. h)
  | inr p ↦
      (let (down, up) = IsIn-insert e x ys in
        rw p (
          λ h. elim h [
            | inl q ↦ inr (inl q)
            | inr q ↦ elim (down q) [ inl r ↦ inl r | inr r ↦ inr (inr r) ]
          ],
          λ h. elim h [
            | inl q ↦ inr (up (inl q))
            | inr q ↦ elim q [ inl r ↦ inl r | inr r ↦ inr (up (inr r)) ]
          ],
        ))
]

IsIn-sort : (e : Event) (xs : List Event) → IsIn e (sort xs) ↔ IsIn e xs
unfolding sort
IsIn-sort e [] = (λ h. h, λ h. h)
IsIn-sort e (x ∷ xs) =
    let (down, up) = IsIn-insert e x (sort xs) in
    let (down', up') = IsIn-sort e xs in
    (
      λ h. elim (down h) [ inl q ↦ inl q | inr q ↦ inr (down' q) ],
      λ h. elim h [ inl q ↦ up (inl q) | inr q ↦ up (inr (up' q)) ],
    )

All-le : (m n : ℕ) (xs : List Event) → m ≤ n → All (λ y. n ≤ y.id) xs → All (λ y. m ≤ y.id) xs
All-le m n [] h a = tt
All-le m n (x ∷ xs) h (p, a) = (omega arith, All-le m n xs h a)

All-insert :
    (m : ℕ) (e : Event) (xs : List Event)
    → m ≤ e.id
    → All (λ y. m ≤ y.id) xs
    → All (λ y. m ≤ y.id) (insert e xs)
unfolding insert
All-insert m e [] h a = (h, tt)
All-insert m e (x ∷ xs) h (p, a) = elim (Bool-cases (ltb e.id x.id)) [
  | inl q ↦ rw q (h, (p, a))
  | inr q ↦ rw q (p, All-insert m e xs h a)
]

IsSorted-insert : (e : Event) (xs : List Event) → IsSorted xs → IsSorted (insert e xs)
unfolding insert
IsSorted-insert e [] h = (tt, tt)
IsSorted-insert e (x ∷ xs) (a, h) = elim (Bool-cases (ltb e.id x.id)) [
  | inl q ↦
      (let less : e.id ≤ x.id = ground arith in rw q ((less, All-le e.id x.id xs less a), (a, h)))
  | inr q ↦
      (let more : x.id ≤ e.id = ground arith in
        rw q (All-insert x.id e xs more a, IsSorted-insert e xs h))
]

sort-IsSorted : (xs : List Event) → IsSorted (sort xs)
unfolding sort
sort-IsSorted [] = tt
sort-IsSorted (x ∷ xs) = IsSorted-insert x (sort xs) (sort-IsSorted xs)

take-take : {A : Type 0} (n m : ℕ) (xs : List A) → n ≤ m → take n (take m xs) ≡ take n xs
take-take zero m xs h = refl
take-take (suc n) zero xs h = absurd (omega arith)
take-take (suc n) (suc m) [] h = refl
take-take (suc n) (suc m) (x ∷ xs) h = ap (◌∷◌ x) (take-take n m xs (omega arith))

module _ (Raw : Type 0) (stringify : Event → Raw) (parse : Raw → Option Event)
    (parse-stringify : (e : Event) → parse (stringify e) ≡ some e) where
  -- The list holds the newest events.
  ring_of-take :
      (es : List Event) → ring_of Raw stringify parse es ≡ take retained_max (map stringify es)
  unfolding ring_of
  ring_of-take [] = refl
  ring_of-take (e ∷ older) =
      ap (λ ring. stringify e ∷ take 199 ring) (ring_of-take older)
      ∙ ap (◌∷◌ (stringify e)) (take-take 199 200 (map stringify older) (omega arith))

  IsIn-newer :
      (after_id n : ℕ) (e : Event) (es : List Event)
      → IsIn e (newer Raw stringify parse after_id (take n (map stringify es)))
        ↔ (IsIn e (take n es) × (after_id < e.id))
  unfolding newer
  IsIn-newer after_id zero e es = (λ h. absurd h, λ h. h.0)
  IsIn-newer after_id (suc n) e [] = (λ h. absurd h, λ h. h.0)
  IsIn-newer after_id (suc n) e (x ∷ xs) =
      let (down, up) = IsIn-newer after_id n e xs in
      elim (Bool-cases (ltb after_id x.id)) [
        | inl p ↦
            (let less : after_id < x.id = ground arith in
              rw (parse-stringify x, p)
                (
                  λ h. elim h [
                    | inl q ↦ (inl q, rw q less)
                    | inr q ↦ (let (a, b) = down q in (inr a, b))
                  ],
                  λ (h, b). elim h [ inl q ↦ inl q | inr q ↦ inr (up (q, b)) ],
                ))
        | inr p ↦
            (let more : x.id ≤ after_id = ground arith in
              rw (parse-stringify x, p)
                (
                  λ h. let (a, b) = down h in (inr a, b),
                  λ (h, b). elim h [
                    | inl q ↦ (let b' : after_id < x.id = rw (← q) b in absurd (omega arith))
                    | inr q ↦ up (q, b)
                  ],
                ))
      ]

  -- After any events have been published, the replay behind a cursor is in the order of the ids, and
  -- holds exactly those of the newest 200 events whose id is above the cursor. Asked: `JSON.parse`
  -- undoes `JSON.stringify` on events.
  pub retained_after-IsSorted :
      (es : List Event) (after_id : ℕ) (e : Event)
      → IsSorted (retained_after Raw stringify parse (ring_of Raw stringify parse es) after_id)
        × (IsIn e (retained_after Raw stringify parse (ring_of Raw stringify parse es) after_id)
            ↔ (IsIn e (take retained_max es) × (after_id < e.id)))
  unfolding retained_after
  retained_after-IsSorted es after_id e =
      let (down, up) = IsIn-newer after_id retained_max e es in
      let (in', out) =
        IsIn-sort e (newer Raw stringify parse after_id (take retained_max (map stringify es))) in
      (
        sort-IsSorted (newer Raw stringify parse after_id (ring_of Raw stringify parse es)),
        rw (ring_of-take es) (λ h. down (in' h), λ h. out (up h)),
      )
