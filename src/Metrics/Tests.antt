-- ===== src/Metrics/Tests.antt =====
-- Long series of a few rows.
use wa_ops.Base.{ℕ, ◌≡◌, ◌⊎◌, refl, none, some, List, [], ◌∷◌, arith}
use wa_ops.Base.Dict.{get, put}
use wa_ops.Metrics.Buckets.{downsample}
use wa_ops.Metrics.Series.{Point, Rolled, long_points}
use wa_ops.Metrics.Series.Grouping.{rows_of}
use wa_ops.Metrics.Series.Shown.{IsShown, long_points-IsShown}

abbrev seven : List ℕ
seven = 1 ∷ 2 ∷ 3 ∷ 4 ∷ 5 ∷ 6 ∷ 7 ∷ []

-- Three of seven points: the step is 3.
thinned_seven : downsample 3 seven ≡ 1 ∷ 4 ∷ 7 ∷ []
unfolding downsample
thinned_seven = refl

abbrev raw : List (Rolled ℕ)
raw =
    record { metric = "cpu"; t = 1; avg = 10; max = 20 }
    ∷ record { metric = "cpu"; t = 2; avg = 12; max = 18 }
    ∷ record { metric = "mem"; t = 1; avg = 70; max = 70 }
    ∷ []

two_points :
    get "cpu" (long_points 0 288 raw)
    ≡ some (
        record { t = 1; avg = 10; max = 20; last = 12 }
        ∷ record { t = 2; avg = 12; max = 18; last = 12 }
        ∷ [])
unfolding long_points get put downsample
two_points = refl

long_points-IsShown_example :
    ((rows_of "cpu" raw ≡ []) × (get "cpu" (long_points 0 288 raw) ≡ none))
    ⊎ ((pts : List (Point ℕ)) × (get "cpu" (long_points 0 288 raw) ≡ some pts)
        × IsShown 288 (rows_of "cpu" raw) pts)
long_points-IsShown_example = long_points-IsShown 0 288 raw "cpu" (omega arith)
