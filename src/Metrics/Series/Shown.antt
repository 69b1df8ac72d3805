-- ===== src/Metrics/Series/Shown.antt =====
-- Which points a long query of apps/api/src/metrics/metrics.controller.ts shows of the rows of a metric.
use wa_ops.Base.{
  ℕ, zero, suc, ◌*◌, ◌≤◌, ◌<◌, ◌≡◌, refl, ap, ◌∙◌, ◌⊎◌, inl, inr, String, Option, none, some, List,
  [], ◌∷◌, ◌++◌, map, length, get_elem?,
}
use wa_ops.Base.Dict.{get}
use wa_ops.Metrics.Buckets.{step_of, downsample}
use wa_ops.Metrics.Buckets.Thinning.{step_of_pos, step_of_wide, step_of_least, downsample_spaced}
use wa_ops.Metrics.Series.{Point, Rolled, last_avg, with_last, long_points}
use wa_ops.Metrics.Series.Grouping.{rows_of, shown, get-long_points}

module _ {V : Type 0} where
  -- The point of a row, where another row is the newest one.
  abbrev pub point_of : Rolled V → Rolled V → Point V
  point_of newest r = record { t = r.t; avg = r.avg; max = r.max; last = newest.avg }

  abbrev pub point_at : Rolled V → Option (Rolled V) → Option (Point V)
  point_at newest none = none
  point_at newest (some r) = some (point_of newest r)

  -- The points are those of the rows at the multiples of a step, with the average of the newest row as
  -- their `last`; they are at most as many as was asked for, and the step is the least that allows it.
  pub record IsShown (buckets : ℕ) (rows : List (Rolled V)) (pts : List (Point V)) : Type 0 where
    pub older : List (Rolled V)
    pub newest : Rolled V
    pub ends : rows ≡ older ++ newest ∷ []
    pub step : ℕ
    pub points : (n : ℕ) → get_elem? pts n ≡ point_at newest (get_elem? rows (n * step))
    pub few : length pts ≤ buckets
    pub pos : 0 < step
    pub wide : length rows ≤ step * buckets
    pub least : (s : ℕ) → 0 < s → length rows ≤ s * buckets → step ≤ s

  ends_of :
      (zero_value : V) (r : Rolled V) (rs : List (Rolled V))
      → (older : List (Rolled V)) × (newest : Rolled V) × (r ∷ rs ≡ older ++ newest ∷ [])
        × (last_avg zero_value (r ∷ rs) ≡ newest.avg)
  ends_of zero_value r [] = ([], r, refl, refl)
  ends_of zero_value r (q ∷ rs) =
      let (older, newest, e, same) = ends_of zero_value q rs in
      (r ∷ older, newest, ap (◌∷◌ r) e, same)

  get-points :
      (newest : Rolled V) (rows : List (Rolled V)) (i : ℕ)
      → get_elem? (map (point_of newest) rows) i ≡ point_at newest (get_elem? rows i)
  get-points newest [] i = refl
  get-points newest (r ∷ rows) zero = refl
  get-points newest (r ∷ rows) (suc i) = get-points newest rows i

  length-points :
      (newest : Rolled V) (rows : List (Rolled V))
      → length (map (point_of newest) rows) ≡ length rows
  length-points newest [] = refl
  length-points newest (r ∷ rows) = ap suc (length-points newest rows)

  downsample-IsShown :
      (zero_value : V) (buckets : ℕ) (r : Rolled V) (rs : List (Rolled V))
      → 0 < buckets
      → IsShown buckets (r ∷ rs) (downsample buckets (with_last zero_value (r ∷ rs)))
  downsample-IsShown zero_value buckets r rs h =
      let (older, newest, ends, same) = ends_of zero_value r rs in
      let rows = r ∷ rs in
      let made : with_last zero_value rows ≡ map (point_of newest) rows =
        ap (λ (v : V). map (λ p. record { t = p.t; avg = p.avg; max = p.max; last = v }) rows)
          same in
      let (few, spaced) = downsample_spaced buckets (map (point_of newest) rows) h in
      let count = length-points newest rows in
      rw made (record {
        older = older;
        newest = newest;
        ends = ends;
        step = step_of (length rows) buckets;
        points = λ n.
            spaced n
            ∙ ap (λ c. get_elem? (map (point_of newest) rows) (n * step_of c buckets)) count
            ∙ get-points newest rows (n * step_of (length rows) buckets);
        few = few;
        pos = step_of_pos (length rows) buckets;
        wide = step_of_wide (length rows) buckets h;
        least = λ s. step_of_least (length rows) buckets s h;
      })

  -- A metric has a series in the answer exactly if the rollup has rows of it. The points of the series
  -- are then those of these rows at the multiples of one step, in their order from the first, each with
  -- the average of the newest row as its `last`; they are at most as many as were asked for, and the
  -- step is the least that allows it.
  pub long_points-IsShown :
      (zero_value : V) (buckets : ℕ) (raw : List (Rolled V)) (k : String)
      → 0 < buckets
      → ((rows_of k raw ≡ []) × (get k (long_points zero_value buckets raw) ≡ none))
        ⊎ ((pts : List (Point V)) × (get k (long_points zero_value buckets raw) ≡ some pts)
            × IsShown buckets (rows_of k raw) pts)
  long_points-IsShown zero_value buckets raw k h =
      cases (rows_of k raw) (get-long_points zero_value buckets raw k)
    where
      cases :
          (rs : List (Rolled V))
          → get k (long_points zero_value buckets raw) ≡ shown zero_value buckets rs
          → ((rs ≡ []) × (get k (long_points zero_value buckets raw) ≡ none))
            ⊎ ((pts : List (Point V)) × (get k (long_points zero_value buckets raw) ≡ some pts)
                × IsShown buckets rs pts)
      cases [] e = inl (refl, e)
      cases (r ∷ rs) e = inr (_, e, downsample-IsShown zero_value buckets r rs h)
