-- ===== src/Metrics/Series/Grouping.antt =====
-- How the rows of a long query of apps/api/src/metrics/metrics.controller.ts become series.
use mathlib.Core.List.{append-nil, append_assoc}
use wa_ops.Base.{
  ℕ, ◌≡◌, refl, sym, ap, ◌∙◌, inl, inr, true, false, String, Option, none, some, List, [], ◌∷◌,
  ◌++◌, map, arith, Bool-cases, if◌then◌else◌, str_eq, eq_iff,
}
use wa_ops.Base.Dict.{Dict, get, put, get-put}
use wa_ops.Metrics.Buckets.{downsample}
use wa_ops.Metrics.Series.{
  Point, Rolled, or_value, push_at, group, keyed_raw, with_last, reshape, thin, long_points,
}

other : (j k : String) → str_eq j k ≡ false → str_eq k j ≡ false
other j k p = ground (arith, eq_iff j k, eq_iff k j)

module _ {ℓ} {A : Type ℓ} where
  -- What stands under a key, in order.
  abbrev pub under : String → List (String × A) → List A
  under k [] = []
  under k ((j, a) ∷ rows) = if str_eq j k then a ∷ under k rows else under k rows

  abbrev joined : Option (List A) → List A → Option (List A)
  joined none [] = none
  joined none (x ∷ xs) = some (x ∷ xs)
  joined (some ys) xs = some (ys ++ xs)

  joined_none : (xs : List A) (y : A) → joined (some (y ∷ [])) xs ≡ some (y ∷ xs)
  joined_none xs y = refl

  joined_push :
      (o : Option (List A)) (a : A) (xs : List A)
      → joined (some (or_value [] o ++ a ∷ [])) xs ≡ joined o (a ∷ xs)
  joined_push none a xs = refl
  joined_push (some ys) a xs = ap some (append_assoc ys (a ∷ []) xs)

  joined_id : (o : Option (List A)) → joined o [] ≡ o
  joined_id none = refl
  joined_id (some ys) = ap some (append-nil ys)

  get-push :
      (j k : String) (a : A) (d : Dict (List A))
      → get k (push_at j a d)
        ≡ (if str_eq j k then some (or_value [] (get j d) ++ a ∷ []) else get k d)
  get-push j k a d = get-put j k (or_value [] (get j d) ++ a ∷ []) d

  get-push_same :
      (j k : String) (a : A) (d : Dict (List A))
      → str_eq j k ≡ true
      → get k (push_at j a d) ≡ some (or_value [] (get k d) ++ a ∷ [])
  get-push_same j k a d p = get-push j k a d ∙ rw (p, (eq_iff j k).0 p) refl

  get-push_other :
      (j k : String) (a : A) (d : Dict (List A))
      → str_eq j k ≡ false
      → get k (push_at j a d) ≡ get k d
  get-push_other j k a d p = get-push j k a d ∙ rw p refl

  get-group :
      (k : String) (d : Dict (List A)) (rows : List (String × A))
      → get k (group d rows) ≡ joined (get k d) (under k rows)
  unfolding group
  get-group k d [] = sym (joined_id (get k d))
  get-group k d ((j, a) ∷ rows) = elim (Bool-cases (str_eq j k)) [
    | inl p ↦ rw p (
        get-group k (push_at j a d) rows
        ∙ ap (λ o. joined o (under k rows)) (get-push_same j k a d p)
        ∙ joined_push (get k d) a (under k rows))
    | inr p ↦ rw p (
        get-group k (push_at j a d) rows
        ∙ ap (λ o. joined o (under k rows)) (get-push_other j k a d p))
  ]

  -- Every key once.
  abbrev Distinct : Dict (List A) → Type ℓ
  Distinct [] = Unit
  Distinct ((k, v) ∷ d) = (get k d ≡ none) × Distinct d

  put-Distinct : (k : String) (v : List A) (d : Dict (List A)) → Distinct d → Distinct (put k v d)
  unfolding put get
  put-Distinct k v [] h = (refl, tt)
  put-Distinct k v ((j, w) ∷ d) (g, h) = elim (Bool-cases (str_eq j k)) [
    | inl p ↦ rw p (g, h)
    | inr p ↦ rw p (get-put k j v d ∙ rw (other j k p) g, put-Distinct k v d h)
  ]

  group-Distinct :
      (d : Dict (List A)) (rows : List (String × A)) → Distinct d → Distinct (group d rows)
  unfolding group
  group-Distinct d [] h = h
  group-Distinct d ((j, a) ∷ rows) h =
      group-Distinct (push_at j a d) rows (put-Distinct j (or_value [] (get j d) ++ a ∷ []) d h)

module _ {V : Type 0} where
  abbrev points_in : V → Option (List (Rolled V)) → List (Point V)
  points_in zero_value none = []
  points_in zero_value (some pts) = with_last zero_value pts

  under-here :
      (k j : String) (xs : List (Point V)) (rest : List (String × Point V))
      → str_eq j k ≡ true
      → under k (map (λ p. (j, p)) xs ++ rest) ≡ xs ++ under k rest
  under-here k j [] rest p = refl
  under-here k j (x ∷ xs) rest p = rw p (ap (λ ys. x ∷ ys) (under-here k j xs rest p))

  under-past :
      (k j : String) (xs : List (Point V)) (rest : List (String × Point V))
      → str_eq j k ≡ false
      → under k (map (λ p. (j, p)) xs ++ rest) ≡ under k rest
  under-past k j [] rest p = refl
  under-past k j (x ∷ xs) rest p = rw p (under-past k j xs rest p)

  under-reshape :
      (zero_value : V) (k : String) (d : Dict (List (Rolled V)))
      → Distinct d
      → under k (reshape zero_value d) ≡ points_in zero_value (get k d)
  unfolding reshape get
  under-reshape zero_value k [] h = refl
  under-reshape zero_value k ((j, pts) ∷ d) (g, h) = elim (Bool-cases (str_eq j k)) [
    | inl p ↦
        let absent : get k d ≡ none = rw ((eq_iff j k).0 p) at g in
        rw p (
          under-here k j (with_last zero_value pts) (reshape zero_value d) p
          ∙ ap (λ ys. with_last zero_value pts ++ ys)
              (under-reshape zero_value k d h ∙ ap (points_in zero_value) absent)
          ∙ append-nil _)
    | inr p ↦ rw p (
        under-past k j (with_last zero_value pts) (reshape zero_value d) p
        ∙ under-reshape zero_value k d h)
  ]

  abbrev thinned : ℕ → Option (List (Point V)) → Option (List (Point V))
  thinned buckets none = none
  thinned buckets (some pts) = some (downsample buckets pts)

  get-thin :
      (buckets : ℕ) (k : String) (d : Dict (List (Point V)))
      → get k (thin buckets d) ≡ thinned buckets (get k d)
  unfolding thin get
  get-thin buckets k [] = refl
  get-thin buckets k ((j, pts) ∷ d) = elim (Bool-cases (str_eq j k)) [
    | inl p ↦ rw p refl
    | inr p ↦ rw p (get-thin buckets k d)
  ]

  -- The rows of a metric, in their order.
  abbrev pub rows_of : String → List (Rolled V) → List (Rolled V)
  rows_of k raw = under k (map keyed_raw raw)

  abbrev pub shown : V → ℕ → List (Rolled V) → Option (List (Point V))
  shown zero_value buckets [] = none
  shown zero_value buckets (r ∷ rs) = some (downsample buckets (with_last zero_value (r ∷ rs)))

  shown_of :
      (zero_value : V) (buckets : ℕ) (rs : List (Rolled V))
      → thinned buckets (joined none (points_in zero_value (joined none rs)))
        ≡ shown zero_value buckets rs
  shown_of zero_value buckets [] = refl
  shown_of zero_value buckets (r ∷ rs) = refl

  pub get-long_points :
      (zero_value : V) (buckets : ℕ) (raw : List (Rolled V)) (k : String)
      → get k (long_points zero_value buckets raw) ≡ shown zero_value buckets (rows_of k raw)
  unfolding long_points get
  get-long_points zero_value buckets raw k =
      let d = group [] (map keyed_raw raw) in
      get-thin buckets k (group [] (reshape zero_value d))
      ∙ ap (thinned buckets) (
          get-group k [] (reshape zero_value d)
          ∙ ap (joined none) (
              under-reshape zero_value k d (group-Distinct [] (map keyed_raw raw) tt)
              ∙ ap (points_in zero_value) (get-group k [] (map keyed_raw raw))))
      ∙ shown_of zero_value buckets (rows_of k raw)
