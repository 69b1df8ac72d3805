-- ===== src/Incidents/OneOpen.antt =====
-- A fingerprint has at most one open incident in a tenant.
use mathlib.Core.Path.{subst}
use mathlib.Core.Bool.{false≢true}
use wa_ops.Base.{
  ℕ, ◌≡◌, ◌≢◌, refl, sym, ap, ◌∙◌, Bool, true, Option, none, some, arith, Option-cases, ◌⊎◌, inl,
  inr,
}
use wa_ops.Base.Text.{Text, text_eq_iff}
use wa_ops.Contracts.{Envelope, truthy}
use wa_ops.Database.{RowId, Table}
use wa_ops.Database.Changes.{Was, at_created, at_updated}
use wa_ops.Errors.{
  returned, or_throw-eq-returned, >>=-eq-returned, guard-eq-returned, returned-injective,
}
use wa_ops.Incidents.{
  Incident, Status, is_open, matches, Db, new_incident, find_open, open_found, open_or_reuse,
  open_from_event, owned, require, acknowledge, resolve, reopen, to_acknowledged, to_resolved,
  to_reopened, is_detected,
}

module _ (tb : Table Incident) where
  open tb use {State, at, find_first, create, update}

  -- Two open incidents of a tenant with one fingerprint are the same incident.
  pub record OneOpen (s : State) : Type 0 where
    pub same :
        (j k : RowId) (q r : Incident) (fp : Text)
        → at s j ≡ some q
        → at s k ≡ some r
        → is_open q.status ≡ true
        → is_open r.status ≡ true
        → q.tenant_id ≡ r.tenant_id
        → q.fingerprint ≡ some fp
        → r.fingerprint ≡ some fp
        → j ≡ k

  pub matches_of :
      (e : Envelope) (fp : Text) (r : Incident)
      → r.tenant_id ≡ e.tenant_id
      → r.fingerprint ≡ some fp
      → is_open r.status ≡ true
      → matches e.tenant_id fp r ≡ true
  matches_of e fp r t f o = ground (arith, text_eq_iff r.tenant_id e.tenant_id, text_eq_iff fp fp)

  clash :
      (s : State) (e : Envelope) (fp fp' : Text) (k : RowId) (r : Incident)
      → find_first (λ _. matches e.tenant_id fp) s ≡ none
      → at s k ≡ some r
      → is_open r.status ≡ true
      → r.tenant_id ≡ e.tenant_id
      → ◌≡◌ {A = Option Text} (some fp) (some fp')
      → r.fingerprint ≡ some fp'
      → ⊥
  clash s e fp fp' k r missing a o t f g = cc (
    tb.find_first-none (λ _. matches e.tenant_id fp) s k r missing a,
    matches_of e fp r t (g ∙ sym f) o,
  )

  create-OneOpen :
      (s : State) (e : Envelope) (fp : Text)
      → find_first (λ _. matches e.tenant_id fp) s ≡ none
      → OneOpen s
      → OneOpen (create (new_incident tb e fp) s).1
  create-OneOpen s e fp missing h = record {
    same = λ j k q r fp' a b. pick j k q r fp' (at_created tb _ s j q a) (at_created tb _ s k r b);
  }
    where
      n : Incident
      n = new_incident tb e fp

      pick :
          (j k : RowId) (q r : Incident) (fp' : Text)
          → (((create n s).0 ≡ j) × (q ≡ n)) ⊎ (at s j ≡ some q)
          → (((create n s).0 ≡ k) × (r ≡ n)) ⊎ (at s k ≡ some r)
          → is_open q.status ≡ true
          → is_open r.status ≡ true
          → q.tenant_id ≡ r.tenant_id
          → q.fingerprint ≡ some fp'
          → r.fingerprint ≡ some fp'
          → j ≡ k
      pick j k q r fp' (inl (a, _)) (inl (b, _)) oq or' t f g = sym a ∙ b
      pick j k q r fp' (inl (_, a)) (inr b) oq or' t f g = absurd (
          clash s e fp fp' k r missing b or' (sym t ∙ ap (λ (x : Incident). x.tenant_id) a)
            (sym (ap (λ (x : Incident). x.fingerprint) a) ∙ f) g)
      pick j k q r fp' (inr a) (inl (_, b)) oq or' t f g = absurd (
          clash s e fp fp' j q missing a oq (t ∙ ap (λ (x : Incident). x.tenant_id) b)
            (sym (ap (λ (x : Incident). x.fingerprint) b) ∙ g) f)
      pick j k q r fp' (inr a) (inr b) oq or' t f g = h.same j k q r fp' a b oq or' t f g

  -- A change of one incident that opens nothing and keeps whose incident it is.
  record IsTame (s : State) (k : RowId) (f : Incident → Incident) : Type 0 where
    no_open :
        (r : Incident) → at s k ≡ some r → is_open (f r).status ≡ true → is_open r.status ≡ true
    tenant : (r : Incident) → (f r).tenant_id ≡ r.tenant_id
    fingerprint : (r : Incident) → (f r).fingerprint ≡ r.fingerprint

  before :
      (s : State) (k : RowId) (f : Incident → Incident) (q q₀ : Incident)
      → IsTame s k f
      → Was tb s k f q q₀
      → is_open q.status ≡ true
      → (is_open q₀.status ≡ true) × (q.tenant_id ≡ q₀.tenant_id) × (q.fingerprint ≡ q₀.fingerprint)
  before s k f q q₀ tame (inl (a, e)) o =
      rw e (tame.no_open q₀ a (rw e at o), tame.tenant q₀, tame.fingerprint q₀)
  before s k f q q₀ tame (inr e) o = rw e (rw e at o, refl, refl)

  update-OneOpen :
      (s : State) (k : RowId) (f : Incident → Incident)
      → IsTame s k f
      → OneOpen s
      → OneOpen (update k f s)
  update-OneOpen s k f tame h = record {
    same = λ i j q r fp a b oq or' t fq fr.
        let (q₀, a₀, eq) = at_updated tb s k f i q a in
        let (r₀, b₀, er) = at_updated tb s k f j r b in
        let (oq₀, tq, gq) = before s k f q q₀ tame eq oq in
        let (or₀, tr, gr) = before s k f r r₀ tame er or' in
        h.same i j q₀ r₀ fp a₀ b₀ oq₀ or₀ (sym tq ∙ t ∙ tr) (sym gq ∙ fq) (sym gr ∙ fr);
  }

  open_or_reuse-OneOpen :
      (db : Db tb) (e : Envelope) (fp : Text)
      → OneOpen db.incidents
      → OneOpen (open_or_reuse tb db e fp).0.incidents
  unfolding open_or_reuse find_open open_found
  open_or_reuse-OneOpen db e fp h =
      elim (Option-cases (find_first (λ _. matches e.tenant_id fp) db.incidents)) [
        | inl missing ↦
            rw (missing, open_or_reuse, find_open, open_found)
              (create-OneOpen db.incidents e fp missing h)
        | inr (found, p) ↦ rw (p, open_or_reuse, find_open, open_found) h
      ]

  -- An event never leaves a tenant with two open incidents of one fingerprint.
  pub open_from_event-OneOpen :
      (db : Db tb) (e : Envelope)
      → OneOpen db.incidents
      → OneOpen (open_from_event tb db e).0.incidents
  unfolding open_from_event
  open_from_event-OneOpen db e h = elim (Option-cases (truthy e.fingerprint)) [
    | inl p ↦ rw (p, open_from_event) h
    | inr (fp, p) ↦ rw (p, open_from_event) (open_or_reuse-OneOpen db e fp h)
  ]

  pub matches_iff :
      (tenant fp : Text) (r : Incident)
      → matches tenant fp r ≡ true
      → (r.tenant_id ≡ tenant) × (r.fingerprint ≡ some fp) × (is_open r.status ≡ true)
  matches_iff tenant fp r m = elim (Option-cases r.fingerprint) [
    | inl p ↦ ground arith
    | inr (fp', p) ↦ ground (arith, text_eq_iff r.tenant_id tenant, text_eq_iff fp' fp)
  ]

  -- the incident that `openFromEvent` finds is the open one under `k`
  finds :
      (s : State) (tenant fp : Text) (k : RowId) (r : Incident)
      → OneOpen s
      → at s k ≡ some r
      → matches tenant fp r ≡ true
      → (r' : Incident) × (find_first (λ _. matches tenant fp) s ≡ some (k, r'))
  finds s tenant fp k r h a m = elim (Option-cases (find_first (λ _. matches tenant fp) s)) [
    | inl p ↦ absurd (cc (tb.find_first-none (λ _. matches tenant fp) s k r p a, m))
    | inr ((j, q), p) ↦
        (let (b, n) = tb.find_first-some (λ _. matches tenant fp) s j q p in
          let (t, f, o) = matches_iff tenant fp r m in
          let (t', f', o') = matches_iff tenant fp q n in
          let e : j ≡ k = h.same j k q r fp b a o' o (t' ∙ sym t) f' f in (q, rw (← e) p))
  ]

  is_detected-is_open : (t : Status) → is_detected tb t ≡ true → is_open t ≡ true
  is_detected-is_open t h = ground arith

  -- A handler that ends well has found the tenant's incident.
  pub require-eq-returned :
      (db : Db tb) (tenant : Text) (id : RowId) (found : RowId × Incident)
      → require tb db tenant id ≡ returned found
      → (at db.incidents found.0 ≡ some found.1) × (found.0 ≡ id) × (found.1.tenant_id ≡ tenant)
  require-eq-returned db tenant id (k, r) e =
      let p = or_throw-eq-returned _ (find_first (owned tb tenant id) db.incidents) (k, r) e in
      let (a, m) = tb.find_first-some (owned tb tenant id) db.incidents k r p in
      (a, ground (arith, text_eq_iff k id), ground (arith, text_eq_iff r.tenant_id tenant))

  pub carry :
      {s : State} {k : RowId} {r q : Incident} (p : Incident → Bool)
      → at s k ≡ some r
      → at s k ≡ some q
      → p r ≡ true
      → p q ≡ true
  carry {r} {q} p a b h = let same : r ≡ q = cc in subst (λ x. p x ≡ true) same h

  pub incidents_of_returned : {d d' : Db tb} → returned d ≡ returned d' → d.incidents ≡ d'.incidents
  incidents_of_returned h = ap (λ (d : Db tb). d.incidents) (returned-injective h)

  pub acknowledge-OneOpen :
      (db db' : Db tb) (tenant user_id : Text) (id : RowId) (remark : Option Text) (now : ℕ)
      → acknowledge tb db tenant user_id id remark now ≡ returned db'
      → OneOpen db.incidents
      → OneOpen db'.incidents
  unfolding acknowledge
  acknowledge-OneOpen db db' tenant user_id id remark now e h =
      let ((k, r), found, rest) = >>=-eq-returned (require tb db tenant id) _ e in
      let (fresh, last) = guard-eq-returned _ _ _ rest in
      let (a, _, _) = require-eq-returned db tenant id (k, r) found in
      subst OneOpen (incidents_of_returned last) (
        update-OneOpen db.incidents k (to_acknowledged tb now)
          (record {
            no_open = λ q b _.
                is_detected-is_open q.status (carry (λ x. is_detected tb x.status) a b fresh);
            tenant = λ q. refl;
            fingerprint = λ q. refl;
          })
          h)

  resolve-OneOpen :
      (db db' : Db tb) (tenant user_id : Text) (id : RowId) (remark : Option Text) (now : ℕ)
      → resolve tb db tenant user_id id remark now ≡ returned db'
      → OneOpen db.incidents
      → OneOpen db'.incidents
  unfolding resolve
  resolve-OneOpen db db' tenant user_id id remark now e h =
      let ((k, r), found, rest) = >>=-eq-returned (require tb db tenant id) _ e in
      let (_, last) = guard-eq-returned _ _ _ rest in
      subst OneOpen (incidents_of_returned last) (
        update-OneOpen db.incidents k (to_resolved tb now)
          (record {
            no_open = λ q b o. absurd (false≢true o);
            tenant = λ q. refl;
            fingerprint = λ q. refl;
          })
          h)

  -- What happens to the incidents, but for `reopen`, where no call of `openFromEvent` begins before
  -- the one before it has ended.
  pub data Step : Db tb → Db tb → Type 0 where
    event : (db : Db tb) (e : Envelope) → Step db (open_from_event tb db e).0
    acknowledges :
        {db db' : Db tb} (tenant user_id : Text) (id : RowId) (remark : Option Text) (now : ℕ)
        → acknowledge tb db tenant user_id id remark now ≡ returned db'
        → Step db db'
    resolves :
        {db db' : Db tb} (tenant user_id : Text) (id : RowId) (remark : Option Text) (now : ℕ)
        → resolve tb db tenant user_id id remark now ≡ returned db'
        → Step db db'

  pub data Reach (db : Db tb) : Db tb → Type 0 where
    here : Reach db db
    next : {a b : Db tb} → Reach db a → Step a b → Reach db b

  Step-OneOpen : {a b : Db tb} → Step a b → OneOpen a.incidents → OneOpen b.incidents
  Step-OneOpen (event db e) h = open_from_event-OneOpen db e h
  Step-OneOpen (acknowledges {db = a} {db' = b} t u i r n e) h =
      acknowledge-OneOpen a b t u i r n e h
  Step-OneOpen (resolves {db = a} {db' = b} t u i r n e) h = resolve-OneOpen a b t u i r n e h

  -- However events, acknowledgements and resolutions follow one another, no tenant ever has two open
  -- incidents with one fingerprint, if it has none to begin with. Asked: each event is handled to its
  -- end before the next change begins.
  pub Reach-OneOpen : {a b : Db tb} → Reach a b → OneOpen a.incidents → OneOpen b.incidents
  Reach-OneOpen here h = h
  Reach-OneOpen (next r s) h = Step-OneOpen s (Reach-OneOpen r h)

  -- While an incident is open, each further event of its tenant with its fingerprint is added to that
  -- very incident: it is reported as a duplicate under its id, and no incident is made or changed.
  pub open_from_event-reuses :
      (db : Db tb) (e : Envelope) (fp : Text) (k : RowId) (r : Incident)
      → OneOpen db.incidents
      → at db.incidents k ≡ some r
      → matches e.tenant_id fp r ≡ true
      → truthy e.fingerprint ≡ some fp
      → ((open_from_event tb db e).1 ≡ some k)
        × ((open_from_event tb db e).2 ≡ true)
        × ((open_from_event tb db e).0.incidents ≡ db.incidents)
  unfolding open_from_event open_or_reuse find_open open_found
  open_from_event-reuses db e fp k r h a m p =
      let (r', q) = finds db.incidents e.tenant_id fp k r h a m in
      (ground (arith, p, q), ground (arith, p, q), ground (arith, p, q))

  -- `reopen` breaks this: if a tenant has an open incident, and another one with the same fingerprint
  -- that has been resolved, then reopening the second leaves two open.
  pub reopen-not-OneOpen :
      (db db' : Db tb) (tenant user_id fp : Text) (j k : RowId) (q r : Incident)
      → reopen tb db tenant user_id j ≡ returned db'
      → j ≢ k
      → at db.incidents j ≡ some q
      → at db.incidents k ≡ some r
      → q.fingerprint ≡ some fp
      → r.fingerprint ≡ some fp
      → q.tenant_id ≡ r.tenant_id
      → is_open r.status ≡ true
      → ¬ OneOpen db'.incidents
  unfolding reopen
  reopen-not-OneOpen db db' tenant user_id fp j k q r e ne a b fq fr t o h' =
      let (found, got, last) = >>=-eq-returned (require tb db tenant j) _ e in
      let (_, same, _) = require-eq-returned db tenant j found got in
      let moved : update j (to_reopened tb) db.incidents ≡ db'.incidents =
        rw (← same) (incidents_of_returned last) in
      let now_open : at (update j (to_reopened tb) db.incidents) j ≡ some (to_reopened tb q) =
        ground (arith, tb.at-update j (to_reopened tb) db.incidents j, text_eq_iff j j) in
      let kept : at (update j (to_reopened tb) db.incidents) k ≡ some r =
        ground (arith, tb.at-update j (to_reopened tb) db.incidents k, text_eq_iff j k) in
      ne (
        h'.same j k (to_reopened tb q) r fp (rw moved at now_open) (rw moved at kept) refl o t fq
          fr)
