-- ===== src/Outbox/Settling.antt =====
-- The outbox comes to rest: every row is sent, or has failed, after so many ticks.
use native.Mathlib.Nat.{mul-suc}
use wa_ops.Base.{
  ℕ, zero, suc, ◌+◌, ◌-◌, ◌*◌, ◌≤◌, ◌<◌, ◌≡◌, refl, Bool, true, false, ◌||◌, List, [], ◌∷◌, map,
  All, arith, length, Bool-cases, inl, inr, if◌then◌else◌,
}
use wa_ops.Database.{RowId}
use wa_ops.Outbox.{Row, is_pending, is_due, bumped, claim, sent_ids, failed_ids, tick}
use wa_ops.Outbox.Attempts.{HasTries, marked, mark-mark, tick-HasTries}

-- The tries that are left to a row, and to a table.
abbrev pub tries_of : ℕ → Row → ℕ
tries_of m r = if is_pending r.status then m - r.attempts else 0

pub tries : ℕ → List Row → ℕ
tries m [] = 0
tries m (r ∷ rs) = tries_of m r + tries m rs

-- Whether some row waits that has been due at a time.
abbrev pub any_due : ℕ → List Row → Bool
any_due t [] = false
any_due t (r ∷ rs) = is_due t r || any_due t rs

-- A tick: its time, and what the publisher does in it.
abbrev pub Tick : Type 0
Tick = ℕ × (Row → Bool)

abbrev pub AllFrom : ℕ → List Tick → Type 0
AllFrom t [] = Unit
AllFrom t ((now, _) ∷ ts) = (t ≤ now) × AllFrom t ts

module _ (batch_size max_attempts : ℕ) where
  -- The rounds of the dispatch loop of apps/worker/src/main.ts.
  unfoldable pub run_ticks : List Tick → List Row → List Row
  run_ticks [] rows = rows
  run_ticks ((now, publishes) ∷ ts) rows =
      run_ticks ts (tick publishes batch_size max_attempts now rows).0

marked-tries :
    (m now : ℕ) (s f : List RowId) (r : Row) → tries_of m (marked s f now r) ≤ tries_of m r
marked-tries m now s f r = ground arith

bumped-tries :
    (m now t : ℕ) (s f : List RowId) (r : Row)
    → HasTries m r
    → is_due t r ≡ true
    → tries_of m (marked s f now (bumped r)) + 1 ≤ tries_of m r
bumped-tries m now t s f r h d = ground arith

rows-tries :
    (m now : ℕ) (s f : List RowId) (rows : List Row)
    → tries m (map (marked s f now) rows) ≤ tries m rows
unfolding tries
rows-tries m now s f [] = omega arith
rows-tries m now s f (r ∷ rs) = omega (arith, marked-tries m now s f r, rows-tries m now s f rs)

-- Every row that is claimed costs a try.
claim-tries :
    (m now t size : ℕ) (s f : List RowId) (rows : List Row)
    → All (HasTries m) rows
    → tries m (map (marked s f now) (claim t size rows).0) + length (claim t size rows).1
      ≤ tries m rows
unfolding tries claim
claim-tries m now t size s f [] h = omega arith
claim-tries m now t zero s f (r ∷ rs) h = omega (arith, rows-tries m now s f (r ∷ rs))
claim-tries m now t (suc size) s f (r ∷ rs) (h, hs) = elim (Bool-cases (is_due t r)) [
  | inl e ↦
      rw (e, claim)
        (omega (arith, bumped-tries m now t s f r h e, claim-tries m now t size s f rs hs))
  | inr e ↦
      rw (e, claim)
        (omega (arith, marked-tries m now s f r, claim-tries m now t (suc size) s f rs hs))
]

claims_some :
    (t₀ t size : ℕ) (rows : List Row)
    → t₀ ≤ t
    → any_due t₀ rows ≡ true
    → 0 < length (claim t (suc size) rows).1
unfolding claim
claims_some t₀ t size [] h d = absurd (cc)
claims_some t₀ t size (r ∷ rs) h d = elim (Bool-cases (is_due t r)) [
  | inl e ↦ rw (e, claim) (omega arith)
  | inr e ↦ rw (e, claim) (claims_some t₀ t size rs h (ground arith))
]

-- A row that does not wait, or is not due, stays so.
marked-due :
    (t now : ℕ) (s f : List RowId) (r : Row)
    → is_due t r ≡ false
    → is_due t (marked s f now r) ≡ false
marked-due t now s f r h = ground arith

rows-due :
    (t now : ℕ) (s f : List RowId) (rows : List Row)
    → any_due t rows ≡ false
    → any_due t (map (marked s f now) rows) ≡ false
rows-due t now s f [] h = refl
rows-due t now s f (r ∷ rs) h = ground (arith, marked-due t now s f r, rows-due t now s f rs)

claim-due :
    (t now t' size : ℕ) (s f : List RowId) (rows : List Row)
    → any_due t rows ≡ false
    → any_due t (map (marked s f now) (claim t' size rows).0) ≡ false
unfolding claim
claim-due t now t' size s f [] h = refl
claim-due t now t' zero s f (r ∷ rs) h = rows-due t now s f (r ∷ rs) h
claim-due t now t' (suc size) s f (r ∷ rs) h = elim (Bool-cases (is_due t' r)) [
  | inl e ↦
      rw (e, claim)
        (ground (arith, marked-due t now s f (bumped r), claim-due t now t' size s f rs))
  | inr e ↦
      rw (e, claim) (ground (arith, marked-due t now s f r, claim-due t now t' (suc size) s f rs))
]

no_tries :
    (m t : ℕ) (rows : List Row) → All (HasTries m) rows → tries m rows ≤ 0 → any_due t rows ≡ false
unfolding tries
no_tries m t [] h e = refl
no_tries m t (r ∷ rs) (h, hs) e = ground (arith, no_tries m t rs hs)

tries_of-le : (m : ℕ) (r : Row) → tries_of m r ≤ m
tries_of-le m r = ground arith

tries-le : (m : ℕ) (rows : List Row) → tries m rows ≤ m * length rows
unfolding tries
tries-le m [] = omega arith
tries-le m (r ∷ rs) = omega (arith, tries_of-le m r, tries-le m rs, mul-suc m (length rs))

module _ (publishes : Row → Bool) (size max_attempts now : ℕ) (rows : List Row) where
  after : List Row
  after = (tick publishes (suc size) max_attempts now rows).0

  tick-tries :
      (t₀ : ℕ)
      → t₀ ≤ now
      → All (HasTries max_attempts) rows
      → any_due t₀ rows ≡ true
      → tries max_attempts after < tries max_attempts rows
  unfolding after tick
  tick-tries t₀ past h d =
      let batch = (claim now (suc size) rows).1 in
      let s = sent_ids publishes batch in
      let f = failed_ids publishes max_attempts batch in
      rw (← mark-mark publishes now s f (claim now (suc size) rows).0) (
        omega (
          arith,
          claim-tries max_attempts now now (suc size) s f rows h,
          claims_some t₀ now size rows past d,
        ))

  tick-due : (t₀ : ℕ) → any_due t₀ rows ≡ false → any_due t₀ after ≡ false
  unfolding after tick
  tick-due t₀ d =
      let batch = (claim now (suc size) rows).1 in
      let s = sent_ids publishes batch in
      let f = failed_ids publishes max_attempts batch in
      rw (← mark-mark publishes now s f (claim now (suc size) rows).0)
        (claim-due t₀ now now (suc size) s f rows d)

module _ (size max_attempts : ℕ) where
  stays :
      (t₀ : ℕ) (ts : List Tick) (rows : List Row)
      → any_due t₀ rows ≡ false
      → any_due t₀ (run_ticks (suc size) max_attempts ts rows) ≡ false
  unfolding run_ticks after
  stays t₀ [] rows d = d
  stays t₀ ((now, publishes) ∷ ts) rows d =
      stays t₀ ts _ (tick-due publishes size max_attempts now rows t₀ d)

  settles :
      (t₀ : ℕ) (ts : List Tick) (rows : List Row)
      → AllFrom t₀ ts
      → All (HasTries max_attempts) rows
      → tries max_attempts rows ≤ length ts
      → any_due t₀ (run_ticks (suc size) max_attempts ts rows) ≡ false
  unfolding run_ticks after
  settles t₀ [] rows past h enough = no_tries max_attempts t₀ rows h (omega arith)
  settles t₀ ((now, publishes) ∷ ts) rows (past, more) h enough =
      elim (Bool-cases (any_due t₀ rows)) [
        | inr d ↦ stays t₀ ts _ (tick-due publishes size max_attempts now rows t₀ d)
        | inl d ↦
            settles t₀ ts _ more (tick-HasTries publishes (suc size) max_attempts now rows h)
              (omega (arith, tick-tries publishes size max_attempts now rows t₀ past h d))
      ]

  -- Whatever the publisher does, after `maxAttempts` ticks for each row no row waits any more that was
  -- due when they began: it has been sent, or has failed. Asked: a batch takes at least one row, and no
  -- row that waits has used up its tries.
  pub run_ticks-settles :
      (t₀ : ℕ) (ts : List Tick) (rows : List Row)
      → AllFrom t₀ ts
      → All (HasTries max_attempts) rows
      → max_attempts * length rows ≤ length ts
      → any_due t₀ (run_ticks (suc size) max_attempts ts rows) ≡ false
  run_ticks-settles t₀ ts rows past h enough =
      settles t₀ ts rows past h (omega (arith, tries-le max_attempts rows))
