-- ===== src/Outbox.antt =====
-- apps/worker/src/outbox.dispatcher.ts. The table is the list of its rows in the order of
-- `created_at`; the claim is the `UPDATE ... RETURNING` of `tick`, by one dispatcher. Whether
-- `publisher.publish` throws for a row is an argument.
pub mod Attempts
pub mod Settling
pub mod Sharing
mod Tests
use wa_ops.Base.{
  ℕ, zero, suc, ◌+◌, ◌≡◌, refl, Bool, true, false, not, ◌&&◌, ◌||◌, Option, none, some, List, [],
  ◌∷◌, map, leb, length, if◌then◌else◌,
}
use wa_ops.Base.Text.{Text, text_eq}
use wa_ops.Contracts.{Envelope}
use wa_ops.Database.{RowId}

pub data Status : Type 0 where
  pending sent failed : Status

pub record Row : Type 0 where
  pub id : RowId
  pub tenant_id : Text
  pub payload : Envelope
  pub status : Status
  pub attempts : ℕ
  pub available_at : ℕ
  pub sent_at : Option ℕ

abbrev pub is_pending : Status → Bool
is_pending pending = true
is_pending _ = false

-- `status = 'pending' AND available_at <= $1`
abbrev pub is_due : ℕ → Row → Bool
is_due now r = is_pending r.status && leb r.available_at now

abbrev pub bumped : Row → Row
bumped r = record r { attempts = r.attempts + 1 }

-- The claim of at most so many rows, oldest first: the table after it, and the rows that it returns.
unfoldable pub claim : ℕ → ℕ → List Row → List Row × List Row
claim now size [] = ([], [])
claim now zero (r ∷ rs) = (r ∷ rs, [])
claim now (suc size) (r ∷ rs) =
    let (taken, batch) = claim now size rs in
    let (passed, batch') = claim now (suc size) rs in
    if is_due now r then (bumped r ∷ taken, bumped r ∷ batch) else (r ∷ passed, batch')

abbrev pub has_id : List RowId → RowId → Bool
has_id [] k = false
has_id (j ∷ js) k = text_eq j k || has_id js k

-- `updateMany({ where: { id: { in: ids } }, data })`
abbrev pub mark : List RowId → (Row → Row) → List Row → List Row
mark ids f = map (λ r. if has_id ids r.id then f r else r)

abbrev pub as_sent : ℕ → Row → Row
as_sent now r = record r { status = sent; sent_at = some now }

abbrev pub as_failed : Row → Row
as_failed r = record r { status = failed }

module _ (publishes : Row → Bool) where
  -- `sentIds`
  unfoldable pub sent_ids : List Row → List RowId
  sent_ids [] = []
  sent_ids (r ∷ rs) = let rest = sent_ids rs in if publishes r then r.id ∷ rest else rest

  -- `failedIds`
  unfoldable pub failed_ids : ℕ → List Row → List RowId
  failed_ids max_attempts [] = []
  failed_ids max_attempts (r ∷ rs) =
      let rest = failed_ids max_attempts rs in
      if not (publishes r) && leb max_attempts r.attempts then r.id ∷ rest else rest

  -- The table after a tick, and the number that it returns. An `updateMany` for no ids, which the
  -- source leaves out, changes no row.
  unfoldable pub tick : ℕ → ℕ → ℕ → List Row → List Row × ℕ
  unfolding claim sent_ids failed_ids
  tick batch_size max_attempts now rows =
      let (rows', batch) = claim now batch_size rows in
      let sents = sent_ids batch in
      (
        mark (failed_ids max_attempts batch) as_failed (mark sents (as_sent now) rows'),
        length sents,
      )
