-- ===== src/Incidents/Alarms.antt =====
-- The incidents as a set of alarms: a tenant and a fingerprint are in it while an incident is open for
-- them. This is what the rest of the program promises its users, with the rows left out.
use mathlib.Core.Path.{subst}
use mathlib.Core.Bool.{false≢true}
use wa_ops.Base.{ℕ, ◌≡◌, sym, ap, ◌∙◌, ◌↔◌, ◌⊎◌, inl, inr, true, Option, some, arith, Option-cases}
use wa_ops.Base.Text.{Text, text_eq_iff}
use wa_ops.Contracts.{Envelope, truthy}
use wa_ops.Database.{RowId, Table}
use wa_ops.Database.Changes.{Was, at_created, at_updated, at_kept_create, at_kept_update}
use wa_ops.Errors.{returned, >>=-eq-returned, guard-eq-returned}
use wa_ops.Incidents.{
  Incident, is_open, matches, Db, new_incident, find_open, open_found, open_or_reuse,
  open_from_event, require, resolve, to_resolved,
}
use wa_ops.Incidents.OneOpen.{matches_iff, require-eq-returned, incidents_of_returned}

module _ (tb : Table Incident) where
  open tb use {State, at, find_first, create, update}

  -- An incident is open for a tenant and a fingerprint.
  abbrev pub IsRaised : State → Text → Text → Type 0
  IsRaised s tenant fp =
      (k : RowId) × (r : Incident) × (at s k ≡ some r) × (matches tenant fp r ≡ true)

  -- The alarm of an event.
  abbrev pub IsAlarm : Envelope → Text → Text → Text → Type 0
  IsAlarm e fp tenant fp' = (tenant ≡ e.tenant_id) × (fp' ≡ fp)

  new-matches : (e : Envelope) (fp : Text) → matches e.tenant_id fp (new_incident tb e fp) ≡ true
  new-matches e fp = ground (arith, text_eq_iff e.tenant_id e.tenant_id, text_eq_iff fp fp)

  IsRaised-by_reuse :
      (s : State) (e : Envelope) (fp : Text) (k : RowId) (r : Incident) (t f : Text)
      → find_first (λ _. matches e.tenant_id fp) s ≡ some (k, r)
      → IsAlarm e fp t f
      → IsRaised s t f
  IsRaised-by_reuse s e fp k r t f p (a, b) =
      let (stands, m) = tb.find_first-some (λ _. matches e.tenant_id fp) s k r p in
      (k, r, stands, rw (a, b) m)

  IsRaised-by_create :
      (s : State) (e : Envelope) (fp t f : Text)
      → IsRaised (create (new_incident tb e fp) s).1 t f ↔ (IsRaised s t f ⊎ IsAlarm e fp t f)
  IsRaised-by_create s e fp t f = (down, up)
    where
      n : Incident
      n = new_incident tb e fp

      split :
          (k : RowId) (r : Incident)
          → matches t f r ≡ true
          → (((create n s).0 ≡ k) × (r ≡ n)) ⊎ (at s k ≡ some r)
          → IsRaised s t f ⊎ IsAlarm e fp t f
      split k r m (inl (_, same)) =
          let (own, print, _) = matches_iff tb t f n (rw same at m) in inr (sym own, cc)
      split k r m (inr stands) = inl (k, r, stands, m)

      down : IsRaised (create n s).1 t f → IsRaised s t f ⊎ IsAlarm e fp t f
      down (k, r, stands, m) = split k r m (at_created tb n s k r stands)

      up : IsRaised s t f ⊎ IsAlarm e fp t f → IsRaised (create n s).1 t f
      up (inl (k, r, stands, m)) = (k, r, at_kept_create tb n s k r stands, m)
      up (inr (a, b)) = (
        (create n s).0,
        n,
        ground (arith, tb.at-create n s (create n s).0, text_eq_iff (create n s).0 (create n s).0),
        rw (a, b) (new-matches e fp),
      )

  open_or_reuse-refines :
      (db : Db tb) (e : Envelope) (fp t f : Text)
      → IsRaised (open_or_reuse tb db e fp).0.incidents t f
        ↔ (IsRaised db.incidents t f ⊎ IsAlarm e fp t f)
  unfolding open_or_reuse find_open open_found
  open_or_reuse-refines db e fp t f =
      elim (Option-cases (find_first (λ _. matches e.tenant_id fp) db.incidents)) [
        | inl q ↦
            rw (q, open_or_reuse, find_open, open_found) (IsRaised-by_create db.incidents e fp t f)
        | inr ((k, r), q) ↦
            rw (q, open_or_reuse, find_open, open_found)
              (
                λ h. inl h,
                λ h. elim h [ inl a ↦ a | inr a ↦ IsRaised-by_reuse db.incidents e fp k r t f q a ],
              )
      ]

  -- On the set of alarms, an event adds its own and changes no other: an alarm is raised after it
  -- exactly if it was raised before, or is the alarm of the event.
  pub open_from_event-refines :
      (db : Db tb) (e : Envelope) (fp : Text)
      → truthy e.fingerprint ≡ some fp
      → (t f : Text)
      → IsRaised (open_from_event tb db e).0.incidents t f
        ↔ (IsRaised db.incidents t f ⊎ IsAlarm e fp t f)
  unfolding open_from_event
  open_from_event-refines db e fp p t f =
      rw (p, open_from_event) (open_or_reuse-refines db e fp t f)

  resolved_is_shut :
      (s : State) (k : RowId) (now : ℕ) (i : RowId) (q q₀ : Incident) (t f : Text)
      → Was tb s k (to_resolved tb now) q q₀
      → at s i ≡ some q₀
      → matches t f q ≡ true
      → q ≡ q₀
  resolved_is_shut s k now i q q₀ t f (inl (a, e)) b m =
      let (_, _, o) = matches_iff tb t f (to_resolved tb now q₀) (rw e at m) in cc
  resolved_is_shut s k now i q q₀ t f (inr e) b m = e

  resolved_at_key :
      (s : State) (k : RowId) (now : ℕ) (r q : Incident) (t f : Text)
      → at s k ≡ some r
      → at (update k (to_resolved tb now) s) k ≡ some q
      → matches t f q ≡ true
      → ⊥
  resolved_at_key s k now r q t f a b m =
      let there : at (update k (to_resolved tb now) s) k ≡ some (to_resolved tb now r) =
        ground (arith, tb.at-update k (to_resolved tb now) s k, text_eq_iff k k) in
      let same : q ≡ to_resolved tb now r = cc in
      let (_, _, o) = matches_iff tb t f (to_resolved tb now r) (rw same at m) in false≢true o

  -- No incident but `k` is open for the tenant and the fingerprint.
  abbrev pub IsOnly : State → RowId → Text → Text → Type 0
  IsOnly s k tenant fp =
      (i : RowId) (q : Incident) → at s i ≡ some q → matches tenant fp q ≡ true → i ≡ k

  update-refines :
      (s : State) (k : RowId) (now : ℕ) (r : Incident) (tenant fp t f : Text)
      → IsOnly s k tenant fp
      → at s k ≡ some r
      → r.tenant_id ≡ tenant
      → r.fingerprint ≡ some fp
      → is_open r.status ≡ true
      → IsRaised (update k (to_resolved tb now) s) t f
        ↔ (IsRaised s t f × ¬ ((t ≡ tenant) × (f ≡ fp)))
  update-refines s k now r tenant fp t f one a own print o = (down, up)
    where
      mine : (q : Incident) → at s k ≡ some q → matches t f q ≡ true → (t ≡ tenant) × (f ≡ fp)
      mine q b m =
          let (x, y, _) = matches_iff tb t f q m in
          let same : q ≡ r = cc in (sym x ∙ ap (λ (z : Incident). z.tenant_id) same ∙ own, cc)

      only :
          (i : RowId) (q : Incident)
          → at s i ≡ some q
          → matches t f q ≡ true
          → (t ≡ tenant) × (f ≡ fp)
          → i ≡ k
      only i q b m (x, y) = one i q b (rw (x, y) at m)

      down :
          IsRaised (update k (to_resolved tb now) s) t f
          → IsRaised s t f × ¬ ((t ≡ tenant) × (f ≡ fp))
      down (i, q, b, m) =
          let (q₀, c, w) = at_updated tb s k (to_resolved tb now) i q b in
          let m' = rw (resolved_is_shut s k now i q q₀ t f w c m) at m in
          (
            (i, q₀, c, m'),
            λ h.
                resolved_at_key s k now r q t f a
                  (subst (λ x. at (update k (to_resolved tb now) s) x ≡ some q) (only i q₀ c m' h)
                    b)
                  m,
          )

      up :
          IsRaised s t f × ¬ ((t ≡ tenant) × (f ≡ fp))
          → IsRaised (update k (to_resolved tb now) s) t f
      up ((i, q, b, m), ne) = (
        i,
        q,
        at_kept_update tb s k (to_resolved tb now) i q r a b (λ e. ne (mine q (rw e b) m)),
        m,
      )

  -- Resolving an incident with a fingerprint takes exactly its alarm out of the set, if no other
  -- incident is open for this tenant and fingerprint; whatever is open for others does not matter.
  pub resolve-refines :
      (db db' : Db tb) (tenant user_id : Text) (id : RowId) (remark : Option Text) (now : ℕ)
      (r : Incident) (fp : Text)
      → resolve tb db tenant user_id id remark now ≡ returned db'
      → IsOnly db.incidents id tenant fp
      → at db.incidents id ≡ some r
      → r.fingerprint ≡ some fp
      → (t f : Text)
      → IsRaised db'.incidents t f ↔ (IsRaised db.incidents t f × ¬ ((t ≡ tenant) × (f ≡ fp)))
  unfolding resolve
  resolve-refines db db' tenant user_id id remark now r fp e one stands print t f =
      let ((k, r'), found, rest) = >>=-eq-returned (require tb db tenant id) _ e in
      let (open_now, last) = guard-eq-returned _ _ _ rest in
      let (a, here, own) = require-eq-returned tb db tenant id (k, r') found in
      let same : r' ≡ r = cc in
      let incidents : update k (to_resolved tb now) db.incidents ≡ db'.incidents =
        incidents_of_returned tb last in
      let print' : r'.fingerprint ≡ some fp = ap (λ (x : Incident). x.fingerprint) same ∙ print in
      subst (λ s. IsRaised s t f ↔ (IsRaised db.incidents t f × ¬ ((t ≡ tenant) × (f ≡ fp))))
        incidents
        (update-refines db.incidents k now r' tenant fp t f (rw (sym here) at one) a own print'
          open_now)
