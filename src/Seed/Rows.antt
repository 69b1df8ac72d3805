-- ===== src/Seed/Rows.antt =====
-- A table that packages/db/prisma/seed.ts writes: its rows in the order of insertion, with the three
-- kinds of INSERT that it uses and what they keep.
use mathlib.Core.List.{◌++◌}
use wa_ops.Base.{
  ◌≡◌, refl, ◌∙◌, ap, String, Bool, true, Option, none, some, List, [], ◌∷◌, arith, map, Bool-cases,
  Option-cases, inl, inr, if◌then◌else◌,
}

module _ {Row : Type 0} where
  -- The first row that a test takes.
  unfoldable pub find : (Row → Bool) → List Row → Option Row
  find p [] = none
  find p (r ∷ rs) = if p r then some r else find p rs

  -- `INSERT … ON CONFLICT … DO NOTHING`, and `INSERT … SELECT … WHERE NOT EXISTS`: the test is that of
  -- the rows with which the new one is in conflict.
  unfoldable pub insert_absent : (Row → Bool) → Row → List Row → List Row
  unfolding find
  insert_absent p row rows = elim (find p rows) [ none ↦ rows ++ row ∷ [] | some old ↦ rows ]

  unfoldable pub set_where : (Row → Bool) → (Row → Row) → List Row → List Row
  set_where p set [] = []
  set_where p set (r ∷ rs) = (if p r then set r else r) ∷ set_where p set rs

  -- `INSERT … ON CONFLICT … DO UPDATE SET …`, of a row that meets no other unique key than that of the
  -- conflict.
  unfoldable pub upsert : (Row → Bool) → (Row → Row) → Row → List Row → List Row
  unfolding find set_where
  upsert p set row rows = elim (find p rows) [
    | none ↦ rows ++ row ∷ []
    | some old ↦ set_where p set rows
  ]

  -- Later rows hide no earlier one.
  pub find-append :
      (p : Row → Bool) (rows more : List Row) (r : Row)
      → find p rows ≡ some r
      → find p (rows ++ more) ≡ some r
  unfolding find
  find-append p [] more r e = cc
  find-append p (q ∷ rows) more r e = ground (arith, find-append p rows more r)

  pub find-append_none :
      (p : Row → Bool) (rows : List Row) (row : Row)
      → find p rows ≡ none
      → p row ≡ true
      → find p (rows ++ row ∷ []) ≡ some row
  unfolding find
  find-append_none p [] row e h = rw h refl
  find-append_none p (q ∷ rows) row e h = ground (arith, find-append_none p rows row)

  -- A table that has grown: what a test finds first in it, it finds first afterwards.
  abbrev pub Grown : List Row → List Row → Type 0
  Grown rows rows' = (p : Row → Bool) (r : Row) → find p rows ≡ some r → find p rows' ≡ some r

  pub Grown_refl : (rows : List Row) → Grown rows rows
  Grown_refl rows p r e = e

  pub Grown-insert_absent :
      (p : Row → Bool) (row : Row) (rows : List Row) → Grown rows (insert_absent p row rows)
  unfolding insert_absent
  Grown-insert_absent p row rows q r e = elim (Option-cases (find p rows)) [
    | inl none_yet ↦ rw (none_yet, insert_absent) (find-append q rows (row ∷ []) r e)
    | inr (old, there) ↦ rw (there, insert_absent) e
  ]

  -- Behind an insertion there is a row that it would be in conflict with.
  pub find-insert_absent :
      (p : Row → Bool) (row : Row) (rows : List Row)
      → p row ≡ true
      → (r : Row) × (find p (insert_absent p row rows) ≡ some r)
  unfolding insert_absent
  find-insert_absent p row rows h = elim (Option-cases (find p rows)) [
    | inl none_yet ↦ (row, rw (none_yet, insert_absent) (find-append_none p rows row none_yet h))
    | inr (old, there) ↦ (old, rw (there, insert_absent) there)
  ]

  pub insert_absent_there :
      (p : Row → Bool) (row r : Row) (rows : List Row)
      → find p rows ≡ some r
      → insert_absent p row rows ≡ rows
  unfolding insert_absent
  insert_absent_there p row r rows e = rw (e, insert_absent) refl

  pub Grown_eq : (rows rows' : List Row) → rows' ≡ rows → Grown rows rows'
  Grown_eq rows rows' same p r e = rw same e

  -- `RETURNING id`, or the id that a SELECT gives.
  unfoldable pub id_where : (Row → Bool) → (Row → String) → List Row → Option String
  id_where p id [] = none
  id_where p id (r ∷ rs) = if p r then some (id r) else id_where p id rs

  pub id_where-find :
      (p : Row → Bool) (id : Row → String) (rows : List Row) (i : String)
      → id_where p id rows ≡ some i
      → (r : Row) × (find p rows ≡ some r) × (id r ≡ i)
  unfolding id_where find
  id_where-find p id [] i e = cc
  id_where-find p id (r ∷ rows) i e = elim (Bool-cases (p r)) [
    | inl fits ↦ (r, rw fits refl, ground arith)
    | inr misses ↦
        (let (q, found, same) = id_where-find p id rows i (ground arith) in
          (q, rw misses found, same))
  ]

  pub id_where_found :
      (p : Row → Bool) (id : Row → String) (rows : List Row) (r : Row)
      → find p rows ≡ some r
      → id_where p id rows ≡ some (id r)
  unfolding id_where find
  id_where_found p id [] r e = cc
  id_where_found p id (q ∷ rows) r e = ground (arith, id_where_found p id rows r)

  pub id_where-Grown :
      (p : Row → Bool) (id : Row → String) (rows rows' : List Row) (i : String)
      → Grown rows rows'
      → id_where p id rows ≡ some i
      → id_where p id rows' ≡ some i
  id_where-Grown p id rows rows' i grown e =
      let (r, found, same) = id_where-find p id rows i e in
      id_where_found p id rows' r (grown p r found) ∙ ap some same

  -- An update that keeps what a test and an id read of a row.
  pub id_where-set_where :
      (p q : Row → Bool) (id : Row → String) (set : Row → Row) (rows : List Row)
      (keeps : (r : Row) → p (set r) ≡ p r) (keeps_id : (r : Row) → id (set r) ≡ id r)
      → id_where p id (set_where q set rows) ≡ id_where p id rows
  unfolding id_where set_where
  id_where-set_where p q id set [] keeps keeps_id = refl
  id_where-set_where p q id set (r ∷ rows) keeps keeps_id = elim (Bool-cases (q r)) [
    | inl fits ↦
        rw (fits, keeps r, keeps_id r, id_where-set_where p q id set rows keeps keeps_id) refl
    | inr misses ↦ rw (misses, id_where-set_where p q id set rows keeps keeps_id) refl
  ]

  -- An update of a column that `bare` leaves out.
  pub map-set_where :
      (q : Row → Bool) (bare set : Row → Row) (rows : List Row)
      (keeps : (r : Row) → bare (set r) ≡ bare r)
      → map bare (set_where q set rows) ≡ map bare rows
  unfolding set_where
  map-set_where q bare set [] keeps = refl
  map-set_where q bare set (r ∷ rows) keeps = elim (Bool-cases (q r)) [
    | inl fits ↦ rw (fits, keeps r, map-set_where q bare set rows keeps) refl
    | inr misses ↦ rw (misses, map-set_where q bare set rows keeps) refl
  ]

  pub id_where-map :
      (p : Row → Bool) (id : Row → String) (bare : Row → Row) (rows : List Row)
      (keeps : (r : Row) → p (bare r) ≡ p r) (keeps_id : (r : Row) → id (bare r) ≡ id r)
      → id_where p id (map bare rows) ≡ id_where p id rows
  unfolding id_where
  id_where-map p id bare [] keeps keeps_id = refl
  id_where-map p id bare (r ∷ rows) keeps keeps_id =
      rw (keeps r, keeps_id r, id_where-map p id bare rows keeps keeps_id) refl

  -- An update keeps the ids that are found, and behind it there is a row for the test.
  pub id_where-upsert :
      (p q : Row → Bool) (id : Row → String) (set : Row → Row) (row : Row) (rows : List Row)
      (i : String) (keeps : (r : Row) → p (set r) ≡ p r) (keeps_id : (r : Row) → id (set r) ≡ id r)
      → id_where p id rows ≡ some i
      → id_where p id (upsert q set row rows) ≡ some i
  unfolding upsert
  id_where-upsert p q id set row rows i keeps keeps_id e = elim (Option-cases (find q rows)) [
    | inl none_yet ↦
        (let (r, found, same) = id_where-find p id rows i e in
          rw (none_yet, upsert)
            (id_where_found p id (rows ++ row ∷ []) r (find-append p rows (row ∷ []) r found)
              ∙ ap some same))
    | inr (old, there) ↦ rw (there, upsert) (id_where-set_where p q id set rows keeps keeps_id ∙ e)
  ]

  pub id_where-upsert_there :
      (p : Row → Bool) (id : Row → String) (set : Row → Row) (row : Row) (rows : List Row)
      (keeps : (r : Row) → p (set r) ≡ p r) (keeps_id : (r : Row) → id (set r) ≡ id r)
      → p row ≡ true
      → (i : String) × (id_where p id (upsert p set row rows) ≡ some i)
  unfolding upsert
  id_where-upsert_there p id set row rows keeps keeps_id fits = elim (Option-cases (find p rows)) [
    | inl none_yet ↦ (
      id row,
      rw (none_yet, upsert)
          (id_where_found p id (rows ++ row ∷ []) row (find-append_none p rows row none_yet fits)),
    )
    | inr (old, there) ↦ (
      id old,
      rw (there, upsert)
          (id_where-set_where p p id set rows keeps keeps_id ∙ id_where_found p id rows old there),
    )
  ]

  -- An upsert of a row that is there changes only the column that `bare` leaves out.
  pub map-upsert :
      (p : Row → Bool) (bare set : Row → Row) (id : Row → String) (row : Row) (rows : List Row)
      (i : String) (keeps : (r : Row) → bare (set r) ≡ bare r)
      → id_where p id rows ≡ some i
      → map bare (upsert p set row rows) ≡ map bare rows
  unfolding upsert
  map-upsert p bare set id row rows i keeps e =
      let (r, found, same) = id_where-find p id rows i e in
      rw (found, upsert) (map-set_where p bare set rows keeps)
