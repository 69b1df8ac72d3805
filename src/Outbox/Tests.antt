-- ===== src/Outbox/Tests.antt =====
-- A tick over two rows, of which one is not published.
use wa_ops.Base.{ℕ, ◌≡◌, refl, Bool, false, not, none, List, [], ◌∷◌, All, arith}
use wa_ops.Base.Text.{Text, codes, text_eq}
use wa_ops.Contracts.{high}
use wa_ops.Outbox.{Row, pending, tick}
use wa_ops.Outbox.Settling.{Tick, run_ticks, any_due, run_ticks-settles}
use wa_ops.Outbox.Attempts.{HasTries, Pairs, Honest, tick-Honest}

abbrev waiting : Text → ℕ → Row
waiting id attempts = record {
  id = id;
  tenant_id = codes "t1";
  payload = record {
    event_id = id;
    tenant_id = codes "t1";
    source = codes "worker";
    resource_id = none;
    event_type = codes "x";
    severity = high;
    fingerprint = none;
    observed_at = 5;
  };
  status = pending;
  attempts = attempts;
  available_at = 3;
  sent_at = none;
}

abbrev rows : List Row
rows = waiting (codes "a") 9 ∷ waiting (codes "b") 2 ∷ []

-- All but the row `a`.
abbrev publishes : Row → Bool
publishes r = not (text_eq r.id (codes "a"))

rows-HasTries : All (HasTries 10) rows
rows-HasTries = (λ p. omega arith, (λ p. omega arith, tt))

tick-Honest_example : Pairs publishes (Honest publishes 7 rows) rows (tick publishes 50 10 7 rows).0
tick-Honest_example = tick-Honest publishes 50 10 7 rows

one_sent : (tick publishes 50 10 7 rows).1 ≡ 1
unfolding tick text_eq
one_sent = refl

-- Two rows with three tries each: six ticks, in which `a` is never published.
abbrev fresh : List Row
fresh = waiting (codes "a") 0 ∷ waiting (codes "b") 0 ∷ []

fresh-HasTries : All (HasTries 3) fresh
fresh-HasTries = (λ p. omega arith, (λ p. omega arith, tt))

abbrev six : List Tick
six =
    (7, publishes)
    ∷ (8, publishes)
    ∷ (9, publishes)
    ∷ (10, publishes)
    ∷ (11, publishes)
    ∷ (12, publishes)
    ∷ []

run_ticks-settles_example : any_due 7 (run_ticks 1 3 six fresh) ≡ false
run_ticks-settles_example =
    run_ticks-settles 0 3 7 six fresh (omega arith) fresh-HasTries (omega arith)
