-- ===== src/Base/Dict.antt =====
-- JavaScript's `Map` with string keys: entries in the order of insertion, and an entry that is set
-- again keeps its place.
use Prim.Native.String.{String}
use mathlib.Core.Path.{◌≡◌, refl}
use mathlib.Core.List.{List, [], ◌∷◌}
use mathlib.Core.Option.{Option, none, some}
use native.Mathlib.Omega.{arith}
use text.Mathlib.Text.{◌==◌}
use text.Mathlib.TextEquality.{eq_iff}
use wa_ops.Base.Tests.{if◌then◌else◌}

abbrev pub Dict {ℓ} : Type ℓ → Type ℓ
Dict V = List (String × V)

module _ {ℓ} {V : Type ℓ} where
  unfoldable pub get : String → Dict V → Option V
  get k [] = none
  get k ((j, v) ∷ d) = if j == k then some v else get k d

  unfoldable pub put : String → V → Dict V → Dict V
  put k v [] = (k, v) ∷ []
  put k v ((j, w) ∷ d) = if j == k then (j, v) ∷ d else (j, w) ∷ put k v d

  unfoldable pub delete : String → Dict V → Dict V
  delete k [] = []
  delete k ((j, w) ∷ d) = let rest = delete k d in if j == k then rest else (j, w) ∷ rest

  pub get-put :
      (k j : String) (v : V) (d : Dict V) → get j (put k v d) ≡ (if k == j then some v else get j d)
  unfolding get put
  get-put k j v [] = refl
  get-put k j v ((i, w) ∷ d) = ground (arith, eq_iff k j, eq_iff i k, eq_iff i j, get-put k j v d)

  pub get-delete :
      (k j : String) (d : Dict V) → get j (delete k d) ≡ (if k == j then none else get j d)
  unfolding get delete
  get-delete k j [] = ground arith
  get-delete k j ((i, w) ∷ d) = ground (arith, eq_iff k j, eq_iff i k, eq_iff i j, get-delete k j d)

pub ruleset dict_laws = (get-put, get-delete)
