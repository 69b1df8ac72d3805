-- ===== src/Base/Text.antt =====
-- Text that a program walks: the list of its code units.
use Prim.Native.Nat.{ℕ, ◌<◌}
use Prim.Native.Char.{code}
use Prim.Native.String.{String}
use mathlib.Core.Path.{◌≡◌, refl}
use mathlib.Core.Logic.{◌↔◌, inl, inr}
use mathlib.Core.Bool.{Bool, true, false, ◌&&◌, ◌||◌}
use mathlib.Core.List.{List, [], ◌∷◌, ◌++◌}
use mathlib.Core.Option.{Option, none, some}
use native.Mathlib.Omega.{arith}
use wa_ops.Base.Tests.{◌==◌, if◌then◌else◌, Option-cases}
use wa_ops.Base.Lists.{length}

abbrev pub Text : Type 0
Text = List ℕ

abbrev pub codes : String → Text
codes String.[] = []
codes (String.◌∷◌ c s) = code c ∷ codes s

unfoldable pub text_eq : Text → Text → Bool
text_eq [] [] = true
text_eq (c ∷ s) (d ∷ t) = c == d && text_eq s t
text_eq _ _ = false

pub text_eq_iff : (s t : Text) → (text_eq s t ≡ true) ↔ (s ≡ t)
unfolding text_eq
text_eq_iff [] [] = (λ _. refl, λ _. refl)
text_eq_iff [] (d ∷ t) = ground arith
text_eq_iff (c ∷ s) [] = ground arith
text_eq_iff (c ∷ s) (d ∷ t) = ground (arith, text_eq_iff s t)

-- `includes` of a single character
unfoldable pub includes : ℕ → Text → Bool
includes c [] = false
includes c (d ∷ s) = d == c || includes c s

-- `indexOf` of a character with the two `slice`s around it: what stands before the first occurrence
-- and what stands behind it.
unfoldable pub split_at : ℕ → Text → Option (Text × Text)
split_at c [] = none
split_at c (d ∷ s) =
    if d == c
    then some ([], s)
    else elim (split_at c s) [ none ↦ none | some (before, after) ↦ some (d ∷ before, after) ]

pub split_at-append :
    (c : ℕ) (s t : Text) → includes c s ≡ false → split_at c (s ++ c ∷ t) ≡ some (s, t)
unfolding split_at includes
split_at-append c [] t h = ground arith
split_at-append c (d ∷ s) t h = ground (arith, split_at-append c s t)

pub split_at-append_right :
    (c : ℕ) (s t before after : Text)
    → split_at c s ≡ some (before, after)
    → split_at c (s ++ t) ≡ some (before, after ++ t)
unfolding split_at
split_at-append_right c [] t before after e = cc
split_at-append_right c (d ∷ s) t before after e = elim (Option-cases (split_at c s)) [
  | inl q ↦ ground arith
  | inr ((a, b), q) ↦ ground (arith, split_at-append_right c s t a b q)
]

pub length-split_at :
    (c : ℕ) (s before after : Text) → split_at c s ≡ some (before, after) → length after < length s
unfolding split_at
length-split_at c [] before after e = cc
length-split_at c (d ∷ s) before after e = elim (Option-cases (split_at c s)) [
  | inl q ↦ ground arith
  | inr ((a, b), q) ↦ ground (arith, length-split_at c s a b q)
]
