-- ===== src/Incidents/Race.antt =====
-- Two calls of `openFromEvent` (apps/worker/src/incident.service.ts) at the same time: the worker handles
-- four envelopes at once, and nothing in the database forbids a second open incident.
use mathlib.Core.Path.{subst}
use wa_ops.Base.{◌≡◌, refl, Option, none, some, arith}
use wa_ops.Base.Text.{Text, text_eq_iff}
use wa_ops.Contracts.{Envelope}
use wa_ops.Database.{RowId, Table}
use wa_ops.Database.Changes.{at_kept_create}
use wa_ops.Incidents.{Incident, Db, new_incident, find_open, open_found}
use wa_ops.Incidents.OneOpen.{OneOpen}

module _ (tb : Table Incident) where
  open tb use {State, at, find_first, create}

  -- The first write of a call that has found `a`, and then the write of one that has found `b`.
  abbrev pub both_write : Db tb → (e e' : Envelope) → Text → (a b : Option RowId) → Db tb
  both_write db e e' fp a b = (open_found tb (open_found tb db e fp a).0 e' fp b).0

  created-at : (n : Incident) (s : State) → at (create n s).1 (create n s).0 ≡ some n
  created-at n s =
      ground (arith, tb.at-create n s (create n s).0, text_eq_iff (create n s).0 (create n s).0)

  -- Two events of a tenant with one fingerprint, for which no incident is open, leave two open
  -- incidents for it if both calls look for one before either of them writes.
  pub both_write-not-OneOpen :
      (db : Db tb) (e e' : Envelope) (fp : Text)
      → e'.tenant_id ≡ e.tenant_id
      → find_open tb db e fp ≡ none
      → find_open tb db e' fp ≡ none
      → ¬ OneOpen tb
          (both_write db e e' fp (find_open tb db e fp) (find_open tb db e' fp)).incidents
  unfolding open_found
  both_write-not-OneOpen db e e' fp own p p' h = twice (
      subst
        (λ (x : Option RowId × Option RowId). OneOpen tb (both_write db e e' fp x.0 x.1).incidents)
        (λ i. (p i, p' i)) h)
    where
      n : Incident
      n = new_incident tb e fp

      n' : Incident
      n' = new_incident tb e' fp

      one : State
      one = (create n db.incidents).1

      twice : ¬ OneOpen tb (create n' one).1
      twice t =
          let kept = at_kept_create tb n' one _ n (created-at n db.incidents) in
          let same : (create n' one).0 ≡ (create n db.incidents).0 =
            t.same _ _ n' n fp (created-at n' one) kept refl refl own refl refl in
          let gone = tb.create-fresh n' one in
          let there = created-at n db.incidents in cc (same, gone, there)
