-- ===== src/Memory.antt =====
-- A table in memory, a list of rows with their ids, which meets the interface `Table` of Database.
-- It shows that what is asked of Prisma can hold, and runs the examples.
use wa_ops.Base.{
  ℕ, suc, ◌+◌, ◌<◌, ◌≡◌, refl, ap, ◌∙◌, Bool, true, false, not, ◌&&◌, Option, none, some, List, [],
  ◌∷◌, arith, if◌then◌else◌, Bool-cases, inl, inr,
}
use wa_ops.Base.Text.{text_eq, text_eq_iff}
use wa_ops.Database.{RowId, Table, change, change_if}

abbrev pub Rows : Type 0 → Type 0
Rows Row = List (RowId × Row)

abbrev head_of : RowId → ℕ
head_of [] = 0
head_of (c ∷ s) = c

module _ {Row : Type 0} where
  -- The first row under an id counts.
  unfoldable pub row_at : Rows Row → RowId → Option Row
  row_at [] j = none
  row_at ((k, r) ∷ s) j = if text_eq k j then some r else row_at s j

  abbrev pub behind : RowId → (RowId → Row → Bool) → RowId → Row → Bool
  behind k p j q = not (text_eq k j) && p j q

  unfoldable pub find_row : (RowId → Row → Bool) → Rows Row → Option (RowId × Row)
  find_row p [] = none
  find_row p ((k, r) ∷ s) =
      let rest = find_row (behind k p) s in if p k r then some (k, r) else rest

  unfoldable pub total : Rows Row → ℕ
  total [] = 0
  total ((k, r) ∷ s) = head_of k + total s

  -- An id that no row has.
  unfoldable pub new_id : Rows Row → RowId
  unfolding total
  new_id s = suc (total s) ∷ []

  unfoldable pub update_rows : (RowId → Row → Bool) → (Row → Row) → Rows Row → Rows Row
  update_rows p f [] = []
  update_rows p f ((k, r) ∷ s) = (k, (if p k r then f r else r)) ∷ update_rows p f s

  abbrev pub is_id : RowId → RowId → Row → Bool
  is_id k j r = text_eq k j

  unfoldable pub count_rows : (RowId → Row → Bool) → Rows Row → ℕ
  count_rows p [] = 0
  count_rows p ((k, r) ∷ s) = (if p k r then 1 else 0) + count_rows (behind k p) s

  pub find_row-some :
      (p : RowId → Row → Bool) (s : Rows Row) (k : RowId) (r : Row)
      → find_row p s ≡ some (k, r)
      → (row_at s k ≡ some r) × (p k r ≡ true)
  unfolding find_row row_at
  find_row-some p [] k r e = cc
  find_row-some p ((j, q) ∷ s) k r e =
      ground (arith, find_row-some (behind j p) s k r, text_eq_iff j k)

  pub find_row-none :
      (p : RowId → Row → Bool) (s : Rows Row) (k : RowId) (r : Row)
      → find_row p s ≡ none
      → row_at s k ≡ some r
      → p k r ≡ false
  unfolding find_row row_at
  find_row-none p [] k r e h = cc
  find_row-none p ((j, q) ∷ s) k r e h =
      ground (arith, find_row-none (behind j p) s k r, text_eq_iff j k)

  pub row_at_high : (s : Rows Row) (n : ℕ) → total s < n → row_at s (n ∷ []) ≡ none
  unfolding row_at total
  row_at_high [] n h = refl
  row_at_high ((k, r) ∷ s) n h = elim (Bool-cases (text_eq k (n ∷ []))) [
    | inl e ↦ absurd (omega (arith, ap head_of ((text_eq_iff k (n ∷ [])).0 e)))
    | inr e ↦ rw e (row_at_high s n (omega arith))
  ]

  pub row_at-update_rows :
      (p : RowId → Row → Bool) (f : Row → Row) (s : Rows Row) (j : RowId)
      → row_at (update_rows p f s) j ≡ change_if (p j) f (row_at s j)
  unfolding update_rows row_at
  row_at-update_rows p f [] j = refl
  row_at-update_rows p f ((k, r) ∷ s) j =
      ground (arith, row_at-update_rows p f s j, text_eq_iff k j)

  pub row_at-update_id :
      (k : RowId) (f : Row → Row) (s : Rows Row) (j : RowId)
      → row_at (update_rows (is_id k) f s) j
        ≡ (if text_eq k j then change f (row_at s j) else row_at s j)
  row_at-update_id k f s j = row_at-update_rows (is_id k) f s j ∙ same (row_at s j)
    where
      same : (o : Option Row) → change_if (is_id k j) f o ≡ (if text_eq k j then change f o else o)
      same none = ground arith
      same (some r) = refl

  pub count_rows-none :
      (p : RowId → Row → Bool) (s : Rows Row) (k : RowId) (r : Row)
      → count_rows p s ≡ 0
      → row_at s k ≡ some r
      → p k r ≡ false
  unfolding count_rows row_at
  count_rows-none p [] k r e h = cc
  count_rows-none p ((j, q) ∷ s) k r e h =
      ground (arith, count_rows-none (behind j p) s k r, text_eq_iff j k)

  pub count_rows-some :
      (p : RowId → Row → Bool) (s : Rows Row)
      → 0 < count_rows p s
      → (k : RowId) × (r : Row) × (row_at s k ≡ some r) × (p k r ≡ true)
  unfolding count_rows row_at
  count_rows-some p [] h = absurd (omega arith)
  count_rows-some p ((j, q) ∷ s) h = elim (Bool-cases (p j q)) [
    | inl e ↦ (j, q, rw ((text_eq_iff j j).1 refl) refl, e)
    | inr e ↦
        (let later : 0 < count_rows (behind j p) s = ground arith in
          let (k, r, found, fits) = count_rows-some (behind j p) s later in
          (k, r, ground arith, ground arith))
  ]

pub row_at_new : {Row : Type 0} (s : Rows Row) → row_at s (new_id s) ≡ none
unfolding new_id
row_at_new s = row_at_high s (suc (total s)) (omega arith)

pub row_at_cons :
    {Row : Type 0} (s : Rows Row) (k j : RowId) (r : Row)
    → row_at ((k, r) ∷ s) j ≡ (if text_eq k j then some r else row_at s j)
unfolding row_at
row_at_cons s k j r = refl

abbrev pub memory : (Row : Type 0) → Table Row
memory Row = record {
  State = Rows Row;
  at = row_at;
  find_first = find_row;
  create = λ r s. (new_id s, (new_id s, r) ∷ s);
  update = λ k. update_rows (is_id k);
  update_many = λ p f s. (update_rows p f s, count_rows p s);
  find_first-some = find_row-some;
  find_first-none = find_row-none;
  create-fresh = λ r s. row_at_new s;
  at-create = λ r s j. row_at_cons s (new_id s) j r;
  at-update = row_at-update_id;
  at-update_many = row_at-update_rows;
  update_many-none = λ p f s k r. count_rows-none p s k r;
  update_many-some = λ p f s. count_rows-some p s;
}
