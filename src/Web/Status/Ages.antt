-- ===== src/Web/Status/Ages.antt =====
-- How exact the times of apps/web/src/lib/status.ts are.
use wa_ops.Base.{
  ℕ, suc, ◌-◌, ◌*◌, ◌/◌, ◌≤◌, ◌<◌, ◌≡◌, refl, inl, inr, Option, none, some, arith, ltb, Bool-cases,
}
use wa_ops.Web.Status.{AgeUnit, seconds, minutes, hours, days, ago, age_of, relative_time}

-- The seconds of a unit.
abbrev pub length_of : AgeUnit → ℕ
length_of seconds = 1
length_of minutes = 60
length_of hours = 3600
length_of days = 86400

-- A count of a unit that describes a number of seconds: it is the number of whole units in it, and a
-- smaller unit would not do.
pub record Describes (s count : ℕ) (unit : AgeUnit) : Type 0 where
  pub below : length_of unit * count ≤ s
  pub above : s < length_of unit * suc count

abbrev pub least : AgeUnit → ℕ
least seconds = 0
least minutes = 1
least hours = 1
least days = 2

abbrev pub most : AgeUnit → Option ℕ
most seconds = some 59
most minutes = some 59
most hours = some 47
most days = none

age_of_lem :
    (s : ℕ)
    → (count : ℕ) × (unit : AgeUnit) × (age_of s ≡ ago count unit)
      × Describes s count unit
      × (least unit ≤ count)
      × ((n : ℕ) → most unit ≡ some n → count ≤ n)
unfolding age_of
age_of_lem s = elim (Bool-cases (ltb s 60)) [
  | inl p ↦ (
    s,
    seconds,
    rw (p, age_of) refl,
    record { below = omega arith; above = omega arith },
    omega arith,
    λ n e. ground arith,
  )
  | inr p ↦ elim (Bool-cases (ltb (s / 60) 60)) [
    | inl q ↦ (
      s / 60,
      minutes,
      rw (p, q, age_of) refl,
      record { below = omega arith; above = omega arith },
      ground arith,
      λ n e. ground arith,
    )
    | inr q ↦ elim (Bool-cases (ltb (s / 60 / 60) 48)) [
      | inl r ↦ (
        s / 60 / 60,
        hours,
        rw (p, q, r, age_of) refl,
        record { below = omega arith; above = omega arith },
        ground arith,
        λ n e. ground arith,
      )
      | inr r ↦ (
        s / 60 / 60 / 24,
        days,
        rw (p, q, r, age_of) refl,
        record { below = omega arith; above = omega arith },
        ground arith,
        λ n e. cc,
      )
    ]
  ]
]

-- What is shown of a time is the number of whole units since then in seconds up to 59, minutes from 1
-- to 59, hours from 1 to 47, or days from 2 on; of a time to come it is 0 seconds.
pub relative_time-Describes :
    (at now : ℕ)
    → (count : ℕ) × (unit : AgeUnit) × (relative_time (some (some at)) now ≡ ago count unit)
      × Describes ((now - at) / 1000) count unit
      × (least unit ≤ count)
      × ((n : ℕ) → most unit ≡ some n → count ≤ n)
unfolding relative_time
relative_time-Describes at now = age_of_lem ((now - at) / 1000)
