-- ===== src/Database/Changes.antt =====
-- Where the rows of a table come from, after a row is made or changed.
use wa_ops.Base.{◌≡◌, some, ◌⊎◌, inl, inr, arith, Bool-cases, Option-cases}
use wa_ops.Base.Text.{text_eq, text_eq_iff}
use wa_ops.Database.{RowId, Table}

module _ {Row : Type 0} (tb : Table Row) where
  open tb use {State, at, create, update}

  pub at_created :
      (n : Row) (s : State) (j : RowId) (q : Row)
      → at (create n s).1 j ≡ some q
      → (((create n s).0 ≡ j) × (q ≡ n)) ⊎ (at s j ≡ some q)
  at_created n s j q e = elim (Bool-cases (text_eq (create n s).0 j)) [
    | inl p ↦ inl ((text_eq_iff _ _).0 p, ground (arith, tb.at-create n s j))
    | inr p ↦ inr (ground (arith, tb.at-create n s j))
  ]

  -- A row is the change of the row at `k`, or is as it was.
  abbrev pub Was : State → RowId → (Row → Row) → Row → Row → Type 0
  Was s k f q q₀ = ((at s k ≡ some q₀) × (q ≡ f q₀)) ⊎ (q ≡ q₀)

  pub at_updated :
      (s : State) (k : RowId) (f : Row → Row) (i : RowId) (q : Row)
      → at (update k f s) i ≡ some q
      → (q₀ : Row) × (at s i ≡ some q₀) × Was s k f q q₀
  at_updated s k f i q e = elim (Option-cases (at s i)) [
    | inl p ↦ ground (arith, tb.at-update k f s i)
    | inr (q₀, p) ↦ (
      q₀,
      p,
      elim (Bool-cases (text_eq k i)) [
        | inl same ↦ inl (rw ((text_eq_iff k i).0 same) p, ground (arith, tb.at-update k f s i))
        | inr other ↦ inr (ground (arith, tb.at-update k f s i))
      ],
    )
  ]

  -- A row that stands stays when another is made.
  pub at_kept_create :
      (n : Row) (s : State) (j : RowId) (q : Row) → at s j ≡ some q → at (create n s).1 j ≡ some q
  at_kept_create n s j q e =
      ground (arith, tb.at-create n s j, tb.create-fresh n s, text_eq_iff (create n s).0 j)

  pub at_kept_update :
      (s : State) (k : RowId) (f : Row → Row) (j : RowId) (q r : Row)
      → at s k ≡ some r
      → (at s j ≡ some q)
      → (k ≡ j → ⊥)
      → at (update k f s) j ≡ some q
  at_kept_update s k f j q r a e h = ground (arith, tb.at-update k f s j, text_eq_iff k j)
