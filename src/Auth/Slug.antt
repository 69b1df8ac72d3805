-- ===== src/Auth/Slug.antt =====
-- `slugify` of apps/api/src/auth/auth.controller.ts. `toLowerCase` is an argument.
use wa_ops.Base.{
  ℕ, zero, suc, ◌≤◌, ◌≡◌, refl, Bool, true, false, ◌&&◌, ◌||◌, [], ◌∷◌, ◌==◌, leb, All, arith,
  length, take, length-take, Bool-cases, inl, inr, if◌then◌else◌,
}
use wa_ops.Base.Text.{Text, codes}

-- `[a-z0-9]`
unfoldable pub is_alnum : ℕ → Bool
is_alnum c = (leb 97 c && leb c 122) || (leb 48 c && leb c 57)

-- `replace(/[^a-z0-9]+/g, '-')`; the flag says whether the character before was replaced.
unfoldable pub dash_runs : Bool → Text → Text
unfolding is_alnum
dash_runs inside [] = []
dash_runs inside (c ∷ s) =
    let kept = dash_runs false s in
    let run = dash_runs true s in
    if is_alnum c then c ∷ kept else (if inside then run else 45 ∷ run)

abbrev pub drop_dashes : Text → Text
drop_dashes [] = []
drop_dashes (c ∷ s) = let rest = drop_dashes s in if c == 45 then rest else c ∷ s

abbrev pub dash_last : ℕ → Text → Text
dash_last c [] = if c == 45 then [] else c ∷ []
dash_last c (d ∷ s) = c ∷ d ∷ s

abbrev pub drop_last_dashes : Text → Text
drop_last_dashes [] = []
drop_last_dashes (c ∷ s) = dash_last c (drop_last_dashes s)

-- `|| 'tenant'`
abbrev pub or_tenant : Text → Text
or_tenant [] = codes "tenant"
or_tenant (c ∷ s) = c ∷ s

unfoldable pub slugify : (Text → Text) → Text → Text
unfolding dash_runs
slugify to_lower_case input =
    or_tenant (take 40 (drop_last_dashes (drop_dashes (dash_runs false (to_lower_case input)))))

abbrev pub IsSlugChar : ℕ → Type 0
IsSlugChar c = (is_alnum c || c == 45) ≡ true

dash_runs-All : (inside : Bool) (s : Text) → All IsSlugChar (dash_runs inside s)
unfolding dash_runs is_alnum
dash_runs-All inside [] = tt
dash_runs-All inside (c ∷ s) = elim (Bool-cases (is_alnum c)) [
  | inl e ↦ rw e (ground arith, dash_runs-All false s)
  | inr e ↦ elim (Bool-cases inside) [
    | inl i ↦ rw (e, i) (dash_runs-All true s)
    | inr i ↦ rw (e, i) (refl, dash_runs-All true s)
  ]
]

drop_dashes-All : (s : Text) → All IsSlugChar s → All IsSlugChar (drop_dashes s)
drop_dashes-All [] h = tt
drop_dashes-All (c ∷ s) (p, h) = elim (Bool-cases (c == 45)) [
  | inl e ↦ rw e (drop_dashes-All s h)
  | inr e ↦ rw e (p, h)
]

dash_last-All :
    (c : ℕ) (s : Text) → IsSlugChar c → All IsSlugChar s → All IsSlugChar (dash_last c s)
dash_last-All c [] p h = elim (Bool-cases (c == 45)) [ inl e ↦ rw e tt | inr e ↦ rw e (p, tt) ]
dash_last-All c (d ∷ s) p h = (p, h)

drop_last_dashes-All : (s : Text) → All IsSlugChar s → All IsSlugChar (drop_last_dashes s)
drop_last_dashes-All [] h = tt
drop_last_dashes-All (c ∷ s) (p, h) =
    dash_last-All c (drop_last_dashes s) p (drop_last_dashes-All s h)

take-All : (n : ℕ) (s : Text) → All IsSlugChar s → All IsSlugChar (take n s)
take-All zero s h = tt
take-All (suc n) [] h = tt
take-All (suc n) (c ∷ s) (p, h) = (p, take-All n s h)

or_tenant-All : (s : Text) → All IsSlugChar s → All IsSlugChar (or_tenant s)
unfolding is_alnum
or_tenant-All [] h = (refl, (refl, (refl, (refl, (refl, (refl, tt))))))
or_tenant-All (c ∷ s) h = h

or_tenant-length :
    (s : Text) → length s ≤ 40 → (1 ≤ length (or_tenant s)) × (length (or_tenant s) ≤ 40)
or_tenant-length [] h = (omega arith, omega arith)
or_tenant-length (c ∷ s) h = (omega arith, h)

-- A slug has from 1 to 40 characters, each a small letter, a digit or a dash, whatever the name.
pub slugify_bounds :
    (to_lower_case : Text → Text) (input : Text)
    → (1 ≤ length (slugify to_lower_case input))
      × (length (slugify to_lower_case input) ≤ 40)
      × All IsSlugChar (slugify to_lower_case input)
unfolding slugify
slugify_bounds to_lower_case input =
    let s = dash_runs false (to_lower_case input) in
    let t = drop_last_dashes (drop_dashes s) in
    let (least, most) = or_tenant-length (take 40 t) (omega (arith, length-take 40 t)) in
    (
      least,
      most,
      or_tenant-All (take 40 t) (
          take-All 40 t (
            drop_last_dashes-All (drop_dashes s)
              (drop_dashes-All s (dash_runs-All false (to_lower_case input))))),
    )
