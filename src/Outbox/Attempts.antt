-- ===== src/Outbox/Attempts.antt =====
-- How often a row of the outbox is tried, and when it counts as sent.
use mathlib.Core.List.{Memᴰ}
use mathlib.Core.List.Memᴰ.{head, tail, not-nil}
use wa_ops.Base.{
  ℕ, zero, suc, ◌<◌, ◌≡◌, refl, sym, ap, ◌∙◌, ◌⊎◌, inl, inr, Bool, true, false, List, [], ◌∷◌, map,
  All, arith, Bool-cases, if◌then◌else◌,
}
use wa_ops.Base.Text.{text_eq, text_eq_iff}
use wa_ops.Database.{RowId}
use wa_ops.Outbox.{
  Row, sent, is_pending, is_due, bumped, claim, has_id, mark, as_sent, as_failed, sent_ids,
  failed_ids, tick,
}

-- A row that waits has tries left.
abbrev pub HasTries : ℕ → Row → Type 0
HasTries max_attempts r = is_pending r.status ≡ true → r.attempts < max_attempts

-- A row of the batch that has tries left or is marked.
abbrev Settled : ℕ → List RowId → List RowId → Row → Type 0
Settled m sents faileds r =
    (has_id sents r.id ≡ false) → (has_id faileds r.id ≡ false) → r.attempts < m

abbrev pub marked : List RowId → List RowId → ℕ → Row → Row
marked sents faileds now r =
    let r' = if has_id sents r.id then as_sent now r else r in
    if has_id faileds r'.id then as_failed r' else r'

module _ (publishes : Row → Bool) where
  Settled-All :
      (m : ℕ) (batch : List Row)
      → All (Settled m (sent_ids publishes batch) (failed_ids publishes m batch)) batch
  unfolding sent_ids failed_ids
  Settled-All m [] = tt
  Settled-All m (r ∷ rs) =
      (λ a b. ground (arith, text_eq_iff r.id r.id), weaken rs (Settled-All m rs))
    where
      weaken :
          (qs : List Row)
          → All (Settled m (sent_ids publishes rs) (failed_ids publishes m rs)) qs
          → All (Settled m (sent_ids publishes (r ∷ rs)) (failed_ids publishes m (r ∷ rs))) qs
      weaken [] h = tt
      weaken (q ∷ qs) (h, hs) = ((λ a b. ground arith), weaken qs hs)

  sent_published :
      (batch : List Row) (k : RowId)
      → has_id (sent_ids publishes batch) k ≡ true
      → (r : Row) × Memᴰ r batch × (r.id ≡ k) × (publishes r ≡ true)
  unfolding sent_ids
  sent_published [] k h = cc
  sent_published (r ∷ rs) k h = elim (Bool-cases (publishes r)) [
    | inl p ↦ elim (Bool-cases (text_eq r.id k)) [
      | inl e ↦ (r, head refl, (text_eq_iff r.id k).0 e, p)
      | inr e ↦
          (let (q, among, same, f) = sent_published rs k (ground arith) in (q, tail among, same, f))
    ]
    | inr p ↦
        (let (q, among, same, f) = sent_published rs k (ground arith) in (q, tail among, same, f))
  ]

  -- The rows of a batch are due rows of the table, with one more attempt.
  abbrev IsClaim : ℕ → List Row → List Row → Type 0
  IsClaim now table batch =
      (r : Row) → Memᴰ r batch → (q : Row) × Memᴰ q table × (is_due now q ≡ true) × (r ≡ bumped q)

  claimed_due : (now size : ℕ) (rows : List Row) → IsClaim now rows (claim now size rows).1
  unfolding claim
  claimed_due now size [] r h = absurd (not-nil h)
  claimed_due now zero (q ∷ qs) r h = absurd (not-nil h)
  claimed_due now (suc size) (q ∷ qs) r h = elim (Bool-cases (is_due now q)) [
    | inl due ↦ first due (claimed_due now size qs) (rw (due, claim) at h)
    | inr early ↦
        (let (p, among, due, e) = claimed_due now (suc size) qs r (rw (early, claim) at h) in
          (p, tail among, due, e))
  ]
    where
      first :
          is_due now q ≡ true
          → IsClaim now qs (claim now size qs).1
          → Memᴰ r (bumped q ∷ (claim now size qs).1)
          → (p : Row) × Memᴰ p (q ∷ qs) × (is_due now p ≡ true) × (r ≡ bumped p)
      first due ih (head e) = (q, head refl, due, e)
      first due ih (tail m) = let (p, among, due', e) = ih r m in (p, tail among, due', e)

  marked-HasTries :
      (m now : ℕ) (sents faileds : List RowId) (r : Row)
      → HasTries m r
      → HasTries m (marked sents faileds now r)
  marked-HasTries m now sents faileds r h = ground arith

  marked-Settled :
      (m now : ℕ) (sents faileds : List RowId) (r : Row)
      → Settled m sents faileds r
      → HasTries m (marked sents faileds now r)
  marked-Settled m now sents faileds r h = ground arith

  rows-HasTries :
      (m now : ℕ) (sents faileds : List RowId) (rows : List Row)
      → All (HasTries m) rows
      → All (λ r. HasTries m (marked sents faileds now r)) rows
  rows-HasTries m now sents faileds [] h = tt
  rows-HasTries m now sents faileds (r ∷ rs) (h, hs) =
      (marked-HasTries m now sents faileds r h, rows-HasTries m now sents faileds rs hs)

  claim-HasTries :
      (m now now' size : ℕ) (sents faileds : List RowId) (rows : List Row)
      → All (HasTries m) rows
      → All (Settled m sents faileds) (claim now size rows).1
      → All (λ r. HasTries m (marked sents faileds now' r)) (claim now size rows).0
  unfolding claim
  claim-HasTries m now now' size sents faileds [] h s = tt
  claim-HasTries m now now' zero sents faileds (r ∷ rs) h s =
      rows-HasTries m now' sents faileds (r ∷ rs) h
  claim-HasTries m now now' (suc size) sents faileds (r ∷ rs) (h, hs) s =
      elim (Bool-cases (is_due now r)) [
        | inl e ↦
            (let s' = rw (e, claim) at s in
              rw (e, claim)
                (
                  marked-Settled m now' sents faileds (bumped r) s'.0,
                  claim-HasTries m now now' size sents faileds rs hs s'.1,
                ))
        | inr e ↦
            (let s' = rw (e, claim) at s in
              rw (e, claim)
                (
                  marked-HasTries m now' sents faileds r h,
                  claim-HasTries m now now' (suc size) sents faileds rs hs s',
                ))
      ]

  mark_twice :
      (P : Row → Type 0) (now : ℕ) (sents faileds : List RowId) (rows : List Row)
      → All (λ r. P (marked sents faileds now r)) rows
      → All P (mark faileds as_failed (mark sents (as_sent now) rows))
  mark_twice P now sents faileds [] h = tt
  mark_twice P now sents faileds (r ∷ rs) (h, hs) = (h, mark_twice P now sents faileds rs hs)

  -- If every row that waits has been tried fewer than `maxAttempts` times, then so it is after a tick,
  -- whatever the publisher does: no row is ever tried more often than that.
  pub tick-HasTries :
      (batch_size max_attempts now : ℕ) (rows : List Row)
      → All (HasTries max_attempts) rows
      → All (HasTries max_attempts) (tick publishes batch_size max_attempts now rows).0
  unfolding tick
  tick-HasTries batch_size max_attempts now rows h =
      let batch = (claim now batch_size rows).1 in
      mark_twice (HasTries max_attempts) now (sent_ids publishes batch)
        (failed_ids publishes max_attempts batch) (claim now batch_size rows).0
        (claim-HasTries max_attempts now now batch_size (sent_ids publishes batch)
          (failed_ids publishes max_attempts batch) rows h (Settled-All max_attempts batch))

  -- Every row of the table, beside what a tick has made of it.
  abbrev pub Pairs : (Row → Row → Type 0) → List Row → List Row → Type 0
  Pairs R [] [] = Unit
  Pairs R (a ∷ as') (b ∷ bs) = R a b × Pairs R as' bs
  Pairs R _ _ = ⊥

  -- A row keeps its id, its tenant and its envelope, and is marked as sent only if it was so before, or
  -- a row of the table with its id was due and has been published with its attempt counted.
  pub record Honest (now : ℕ) (table : List Row) (a b : Row) : Type 0 where
    pub same : (b.id ≡ a.id) × (b.tenant_id ≡ a.tenant_id) × (b.payload ≡ a.payload)
    pub vouched :
        b.status ≡ sent
        → (a.status ≡ sent)
          ⊎ ((r : Row) × Memᴰ r table
              × (is_due now r ≡ true)
              × (r.id ≡ a.id)
              × (publishes (bumped r) ≡ true))

  -- A row as it was, but for its attempts.
  record IsFrom (a b : Row) : Type 0 where
    same : (b.id ≡ a.id) × (b.tenant_id ≡ a.tenant_id) × (b.payload ≡ a.payload)
    status : b.status ≡ a.status

  marked-Honest :
      (now : ℕ) (table batch : List Row) (faileds : List RowId) (a b : Row)
      → IsClaim now table batch
      → IsFrom a b
      → Honest now table a (marked (sent_ids publishes batch) faileds now b)
  marked-Honest now table batch faileds a b claims h =
      elim (Bool-cases (has_id (sent_ids publishes batch) b.id)) [
        | inl p ↦
            (let (r, among, e, q) = sent_published batch b.id p in
              let (t, stands, due, made) = claims r among in
              rw p (elim (Bool-cases (has_id faileds b.id)) [
                | inl f ↦ rw f (record { same = h.same; vouched = λ x. cc })
                | inr f ↦ rw f (record {
                  same = h.same;
                  vouched = λ _. inr (
                    t,
                    stands,
                    due,
                    ap (λ (x : Row). x.id) (sym made) ∙ e ∙ h.same.0,
                    ap publishes (sym made) ∙ q,
                  );
                })
              ]))
        | inr p ↦ rw p (elim (Bool-cases (has_id faileds b.id)) [
          | inl f ↦ rw f (record { same = h.same; vouched = λ x. cc })
          | inr f ↦ rw f (record { same = h.same; vouched = λ x. inl (sym h.status ∙ x) })
        ])
      ]

  itself : (a : Row) → IsFrom a a
  itself a = record { same = (refl, refl, refl); status = refl }

  tried : (a : Row) → IsFrom a (bumped a)
  tried a = record { same = (refl, refl, refl); status = refl }

  rows-Honest :
      (now : ℕ) (table batch : List Row) (faileds : List RowId) (rows : List Row)
      → IsClaim now table batch
      → Pairs (Honest now table) rows (map (marked (sent_ids publishes batch) faileds now) rows)
  rows-Honest now table batch faileds [] claims = tt
  rows-Honest now table batch faileds (r ∷ rs) claims = (
    marked-Honest now table batch faileds r r claims (itself r),
    rows-Honest now table batch faileds rs claims,
  )

  claim-Honest :
      (now size : ℕ) (table batch : List Row) (faileds : List RowId) (rows : List Row)
      → IsClaim now table batch
      → Pairs
          (Honest now table)
          rows
          (map (marked (sent_ids publishes batch) faileds now) (claim now size rows).0)
  unfolding claim
  claim-Honest now size table batch faileds [] claims = tt
  claim-Honest now zero table batch faileds (r ∷ rs) claims =
      rows-Honest now table batch faileds (r ∷ rs) claims
  claim-Honest now (suc size) table batch faileds (r ∷ rs) claims =
      elim (Bool-cases (is_due now r)) [
        | inl e ↦
            rw (e, claim)
              (
                marked-Honest now table batch faileds r (bumped r) claims (tried r),
                claim-Honest now size table batch faileds rs claims,
              )
        | inr e ↦
            rw (e, claim)
              (
                marked-Honest now table batch faileds r r claims (itself r),
                claim-Honest now (suc size) table batch faileds rs claims,
              )
      ]

  pub mark-mark :
      (now : ℕ) (sents faileds : List RowId) (rows : List Row)
      → map (marked sents faileds now) rows ≡ mark faileds as_failed (mark sents (as_sent now) rows)
  mark-mark now sents faileds [] = refl
  mark-mark now sents faileds (r ∷ rs) =
      ap (◌∷◌ (marked sents faileds now r)) (mark-mark now sents faileds rs)

  -- A tick loses no row and makes none: every row keeps its place, its id, its tenant and its envelope,
  -- and is marked as sent only if it was so before, or a row of the table with its id was due and the
  -- publisher has taken it, with the attempt counted.
  pub tick-Honest :
      (batch_size max_attempts now : ℕ) (rows : List Row)
      → Pairs (Honest now rows) rows (tick publishes batch_size max_attempts now rows).0
  unfolding tick
  tick-Honest batch_size max_attempts now rows =
      let batch = (claim now batch_size rows).1 in
      let faileds = failed_ids publishes max_attempts batch in
      rw (← mark-mark now (sent_ids publishes batch) faileds (claim now batch_size rows).0)
        (claim-Honest now batch_size rows batch faileds rows (claimed_due now batch_size rows))
