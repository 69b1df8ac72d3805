-- ===== src/Metrics/Buckets/Thinning.antt =====
-- Which points of a long series of apps/api/src/metrics/metrics.controller.ts are left.
use native.Mathlib.Nat.{mod-lt, mod-eq_of_lt, mod_self, suc-mod, mul-le-mul_right, mul_comm}
use wa_ops.Base.{
  ℕ, zero, suc, refl, sym, true, false, ◌+◌, ◌-◌, ◌*◌, ◌%◌, ◌≤◌, ◌<◌, ◌≡◌, ap, ◌∙◌, List, [], ◌∷◌,
  ◌==◌, leb, length, get_elem?, arith, if◌then◌else◌, Bool-cases, inl, inr,
}
use wa_ops.RateLimit.Bucket.Retry.{ceil_div_iff}
use wa_ops.Metrics.Buckets.{every, step_of, downsample}

-- How far back the last kept index lies, at most.
abbrev reach : ℕ → ℕ → ℕ
reach step r = if r == 0 then step else r

reach-suc : (step r : ℕ) → r < step → reach step (suc r % step) ≡ suc r
reach-suc step r h = elim (Bool-cases (suc r == step)) [
  | inl p ↦ let last : suc r ≡ step = ground arith in rw (last, mod_self step) (omega arith)
  | inr p ↦ let inside : suc r < step = ground arith in rw (mod-eq_of_lt inside) (ground arith)
]

reach-next : (step i : ℕ) → 0 < step → reach step (suc i % step) ≡ suc (i % step)
reach-next step i h = ap (reach step) (suc-mod i step) ∙ reach-suc step (i % step) (mod-lt i h)

every_count {ℓ} :
    {A : Type ℓ} (step i : ℕ) (xs : List A)
    → 0 < step
    → length (every step i xs) * step < length xs + reach step (i % step)
unfolding every
every_count step i [] h = ground arith
every_count step i (x ∷ xs) h =
    let rest = every_count step (suc i) xs h in
    let next = reach-next step i h in
    elim (Bool-cases (i % step == 0)) [
      | inl p ↦
          let zero_now : i % step ≡ 0 = ground arith in rw p (omega (arith, rest, next, zero_now))
      | inr p ↦ rw p (omega (arith, rest, next))
    ]

pub step_of_pos : (count buckets : ℕ) → 0 < step_of count buckets
unfolding step_of
step_of_pos count buckets = omega arith

pub step_of_wide : (count buckets : ℕ) → 0 < buckets → count ≤ step_of count buckets * buckets
unfolding step_of
step_of_wide count buckets h =
    (ceil_div_iff count buckets (step_of count buckets) h).0 (omega arith)

-- It is the least step that will do.
pub step_of_least :
    (count buckets s : ℕ) → 0 < buckets → 0 < s → count ≤ s * buckets → step_of count buckets ≤ s
unfolding step_of
step_of_least count buckets s h pos wide =
    let up = (ceil_div_iff count buckets s h).1 wide in omega arith

reach-le : (step r : ℕ) → r < step → reach step r ≤ step
reach-le step r h = ground arith

pub at_most : (step n m : ℕ) → n * step < m * step + step → n ≤ m
at_most step n m h = elim (Bool-cases (leb n m)) [
  | inl p ↦ ground arith
  | inr p ↦
      let more : suc m ≤ n = ground arith in
      absurd (omega (arith, mul-le-mul_right {m = suc m} {n = n} step more))
]

module _ {ℓ} {A : Type ℓ} (step i : ℕ) (h : 0 < step) (x : A) (xs ys : List A)
    (next : (m : ℕ)
      → get_elem? ys m ≡ get_elem? xs (m * step + (step - reach step (suc i % step)))) where
  get-kept :
      (n : ℕ)
      → i % step ≡ 0
      → get_elem? (x ∷ ys) n ≡ get_elem? (x ∷ xs) (n * step + (step - reach step (i % step)))
  get-kept zero z =
      let first : 0 * step + (step - reach step (i % step)) ≡ 0 = rw z (omega arith) in
      sym (ap (get_elem? (x ∷ xs)) first)
  get-kept (suc n) z =
      let index : suc (n * step + (step - reach step (suc i % step)))
          ≡ suc n * step + (step - reach step (i % step)) =
        rw (reach-next step i h, z) (omega arith) in
      next n ∙ ap (get_elem? (x ∷ xs)) index

  get-dropped :
      (n : ℕ)
      → (i % step == 0) ≡ false
      → get_elem? ys n ≡ get_elem? (x ∷ xs) (n * step + (step - reach step (i % step)))
  get-dropped n p =
      let inside = mod-lt i h in
      let index : suc (n * step + (step - reach step (suc i % step)))
          ≡ n * step + (step - reach step (i % step)) =
        rw (reach-next step i h, p) (omega arith) in
      next n ∙ ap (get_elem? (x ∷ xs)) index

get-every {ℓ} :
    {A : Type ℓ} (step i : ℕ) (xs : List A) (n : ℕ)
    → 0 < step
    → get_elem? (every step i xs) n ≡ get_elem? xs (n * step + (step - reach step (i % step)))
unfolding every
get-every step i [] n h = refl
get-every step i (x ∷ xs) n h =
    let next = λ (m : ℕ). get-every step (suc i) xs m h in
    elim (Bool-cases (i % step == 0)) [
      | inl p ↦
          ap (λ l. get_elem? l n) (kept p)
          ∙ get-kept step i h x xs (every step (suc i) xs) next n (ground arith)
      | inr p ↦
          ap (λ l. get_elem? l n) (dropped p)
          ∙ get-dropped step i h x xs (every step (suc i) xs) next n p
    ]
  where
    kept : (i % step == 0) ≡ true → every step i (x ∷ xs) ≡ x ∷ every step (suc i) xs
    kept p = rw p refl

    dropped : (i % step == 0) ≡ false → every step i (x ∷ xs) ≡ every step (suc i) xs
    dropped p = rw p refl

pub downsample-le {ℓ} :
    {A : Type ℓ} (buckets : ℕ) (pts : List A)
    → 0 < buckets
    → length (downsample buckets pts) ≤ buckets
unfolding downsample
downsample-le buckets pts h =
    let step = step_of (length pts) buckets in
    let kept = length (every step 0 pts) in
    let count : kept * step < length pts + step = omega (
      arith,
      every_count step 0 pts (step_of_pos (length pts) buckets),
      reach-le step (0 % step) (mod-lt 0 (step_of_pos (length pts) buckets)),
    ) in
    let wide = step_of_wide (length pts) buckets h in
    at_most step kept buckets (omega (arith, mul_comm step buckets))

-- A long series is thinned to at most as many points as the query asks for: those at the multiples of
-- one step, the first point among them.
pub downsample_spaced {ℓ} :
    {A : Type ℓ} (buckets : ℕ) (pts : List A)
    → 0 < buckets
    → (length (downsample buckets pts) ≤ buckets)
      × ((n : ℕ)
          → get_elem? (downsample buckets pts) n ≡ get_elem? pts (n * step_of (length pts) buckets))
unfolding downsample
downsample_spaced buckets pts h =
    let pos = step_of_pos (length pts) buckets in
    let step = step_of (length pts) buckets in
    (
      downsample-le buckets pts h,
      λ n.
          let index : n * step + (step - reach step (0 % step)) ≡ n * step =
            rw (mod-eq_of_lt pos) (omega arith) in
          get-every step 0 pts n pos ∙ ap (get_elem? pts) index,
    )
