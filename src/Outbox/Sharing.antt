-- ===== src/Outbox/Sharing.antt =====
-- Two dispatchers on one table, or one that stops between its claim and its marks. The `UPDATE` of the
-- claim is a transaction of its own, so that its locks are gone when it returns.
use wa_ops.Base.{ℕ, zero, suc, ◌≡◌, refl, ap, List, [], ◌∷◌, map, Bool-cases, inl, inr}
use wa_ops.Outbox.{Row, is_due, bumped, claim}

-- A dispatcher that claims while another is publishing is given the same rows once more, each with one
-- more attempt.
pub claim-again :
    (now size : ℕ) (rows : List Row)
    → (claim now size (claim now size rows).0).1 ≡ map bumped (claim now size rows).1
unfolding claim
claim-again now size [] = refl
claim-again now zero (r ∷ rs) = refl
claim-again now (suc size) (r ∷ rs) = elim (Bool-cases (is_due now r)) [
  | inl p ↦ rw (p, claim, p) (ap (◌∷◌ (bumped (bumped r))) (claim-again now size rs))
  | inr p ↦ rw (p, claim, p) (claim-again now (suc size) rs)
]
