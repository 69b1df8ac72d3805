-- ===== src/Database.antt =====
-- What the program asks of a table behind Prisma (`prisma.<model>.findFirst`, `create`, `update`,
-- `updateMany`), as an interface: the operations, and what Prisma's reference documents of them. A
-- table is seen through the rows that stand under its ids; no order of rows is assumed.
-- The module Memory beside this one meets the interface.
pub mod Changes
use wa_ops.Base.{ℕ, ◌<◌, ◌≡◌, Bool, true, false, Option, none, some, if◌then◌else◌}
use wa_ops.Base.Text.{Text, text_eq}

-- Ids are opaque texts.
abbrev pub RowId : Type 0
RowId = Text

abbrev pub change {ℓ} : {Row : Type ℓ} → (Row → Row) → Option Row → Option Row
change f none = none
change f (some r) = some (f r)

abbrev pub change_if {ℓ} : {Row : Type ℓ} → (Row → Bool) → (Row → Row) → Option Row → Option Row
change_if p f none = none
change_if p f (some r) = if p r then some (f r) else some r

pub record Table (Row : Type 0) : Type 1 where
  pub State : Type 0
  -- the row under an id
  pub at : State → RowId → Option Row
  -- `findFirst({ where })`
  pub find_first : (RowId → Row → Bool) → State → Option (RowId × Row)
  -- `create({ data })`, which makes the id
  pub create : Row → State → RowId × State
  -- `update({ where: { id }, data })`
  pub update : RowId → (Row → Row) → State → State
  -- `updateMany({ where, data })`, with the count that it returns
  pub update_many : (RowId → Row → Bool) → (Row → Row) → State → State × ℕ
  pub find_first-some :
      (p : RowId → Row → Bool) (s : State) (k : RowId) (r : Row)
      → find_first p s ≡ some (k, r)
      → (at s k ≡ some r) × (p k r ≡ true)
  pub find_first-none :
      (p : RowId → Row → Bool) (s : State) (k : RowId) (r : Row)
      → find_first p s ≡ none
      → at s k ≡ some r
      → p k r ≡ false
  pub create-fresh : (r : Row) (s : State) → at s (create r s).0 ≡ none
  pub at-create :
      (r : Row) (s : State) (j : RowId)
      → at (create r s).1 j ≡ (if text_eq (create r s).0 j then some r else at s j)
  pub at-update :
      (k : RowId) (f : Row → Row) (s : State) (j : RowId)
      → at (update k f s) j ≡ (if text_eq k j then change f (at s j) else at s j)
  pub at-update_many :
      (p : RowId → Row → Bool) (f : Row → Row) (s : State) (j : RowId)
      → at (update_many p f s).0 j ≡ change_if (p j) f (at s j)
  pub update_many-none :
      (p : RowId → Row → Bool) (f : Row → Row) (s : State) (k : RowId) (r : Row)
      → (update_many p f s).1 ≡ 0
      → at s k ≡ some r
      → p k r ≡ false
  pub update_many-some :
      (p : RowId → Row → Bool) (f : Row → Row) (s : State)
      → 0 < (update_many p f s).1
      → (k : RowId) × (r : Row) × (at s k ≡ some r) × (p k r ≡ true)
