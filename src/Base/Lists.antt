-- ===== src/Base/Lists.antt =====
-- Lists measured by native numbers, under the library's names.
use Prim.Native.Nat.{ℕ, zero, suc, ◌+◌, min}
use mathlib.Core.Path.{◌≡◌}
use mathlib.Core.List.{List, [], ◌∷◌, ◌++◌, map}
use mathlib.Core.Option.{Option, none, some}
use native.Mathlib.Omega.{arith}

module _ {ℓ} {A : Type ℓ} where
  abbrev pub length : List A → ℕ
  length [] = 0
  length (x ∷ xs) = suc (length xs)

  abbrev pub take : ℕ → List A → List A
  take zero xs = []
  take (suc n) [] = []
  take (suc n) (x ∷ xs) = x ∷ take n xs

  abbrev pub get_elem? : List A → ℕ → Option A
  get_elem? [] i = none
  get_elem? (x ∷ xs) zero = some x
  get_elem? (x ∷ xs) (suc i) = get_elem? xs i

  pub length-append : (xs ys : List A) → length (xs ++ ys) ≡ length xs + length ys
  length-append [] ys = omega arith
  length-append (x ∷ xs) ys = omega (arith, length-append xs ys)

  pub length-take : (n : ℕ) (xs : List A) → length (take n xs) ≡ min n (length xs)
  length-take zero xs = omega arith
  length-take (suc n) [] = omega arith
  length-take (suc n) (x ∷ xs) = omega (arith, length-take n xs)

module _ {ℓ κ} {A : Type ℓ} (P : A → Type κ) where
  abbrev pub All : List A → Type κ
  All [] = Unit
  All (x ∷ xs) = P x × All xs

module _ {ℓ κ μ} {A : Type ℓ} {B : Type κ} {P : A → Type μ} where
  pub All-map :
      (Q : B → Type μ) (f : A → B)
      → ((a : A) → P a → Q (f a))
      → (xs : List A) → All P xs
      → All Q (map f xs)
  All-map Q f h [] all = tt
  All-map Q f h (x ∷ xs) (p, all) = (h x p, All-map Q f h xs all)

module _ {ℓ κ} {A : Type ℓ} (P : A → Type κ) where
  pub All-append_last : (xs : List A) (y : A) → All P xs → P y → All P (xs ++ y ∷ [])
  All-append_last [] y all p = (p, tt)
  All-append_last (x ∷ xs) y (q, all) p = (q, All-append_last xs y all p)

module _ {ℓ κ} {A : Type ℓ} {P : A → Type κ} where
  pub All-mono {μ} : (Q : A → Type μ) → ((a : A) → P a → Q a) → (xs : List A) → All P xs → All Q xs
  All-mono Q h [] all = tt
  All-mono Q h (x ∷ xs) (p, all) = (h x p, All-mono Q h xs all)

module _ {ℓ} {A : Type ℓ} where
  abbrev pub flatten : List (List A) → List A
  flatten [] = []
  flatten (xs ∷ xss) = xs ++ flatten xss
