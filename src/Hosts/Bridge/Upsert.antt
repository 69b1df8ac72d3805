-- ===== src/Hosts/Bridge/Upsert.antt =====
-- The upsert of a host in apps/worker/src/identity-bridge.ts, and what stays true of the table and of the
-- links of its map.
use mathlib.Core.Bool.{false≢true}
use wa_ops.Base.{
  ◌≡◌, refl, sym, ap, ◌∙◌, ◌⊎◌, inl, inr, true, Option, none, some, ◌++◌, arith, Option-cases,
  Bool-cases,
}
use wa_ops.Base.Text.{Text, codes, text_eq, text_eq_iff}
use wa_ops.Database.{RowId, Table}
use wa_ops.Database.Changes.{Was, at_created, at_updated, at_kept_create}
use wa_ops.Gateway.Credential.{Agent}
use wa_ops.Hosts.{Host, online}
use wa_ops.Hosts.Bridge.{Container, has_machine, at_machine, bridged_host, to_online, upsert_host}

module _ (ht : Table Host) (ta : Table Agent) (tc : Table Container) where
  -- A machine of a tenant has at most one host.
  pub record OneHost (s : ht.State) : Type 0 where
    pub same :
        (j k : RowId) (q r : Host) (m : Text)
        → ht.at s j ≡ some q
        → ht.at s k ≡ some r
        → q.tenant_id ≡ r.tenant_id
        → q.machine_id ≡ some m
        → r.machine_id ≡ some m
        → j ≡ k

  -- What a link of the map says of the table: the machine's host stands in the tenant, online.
  pub record IsLink (s : ht.State) (tenant m : Text) (entry : Text × RowId) : Type 0 where
    pub row : Host
    pub named : entry.0 ≡ codes "host_" ++ m
    pub stands : ht.at s entry.1 ≡ some row
    pub of_tenant : row.tenant_id ≡ tenant
    pub of_machine : row.machine_id ≡ some m
    pub is_online : row.status ≡ online

  -- Rows may only have been set online, and only in the tenant.
  abbrev pub Kept : Text → ht.State → ht.State → Type 0
  Kept tenant s s' =
      (j : RowId) (q : Host)
      → ht.at s j ≡ some q
      → (q' : Host) × (ht.at s' j ≡ some q')
        × ((q' ≡ q) ⊎ ((q.tenant_id ≡ tenant) × (q' ≡ to_online q)))

  at_machine-true :
      (tenant m : Text) (k : RowId) (h : Host)
      → at_machine tenant m k h ≡ true
      → (h.tenant_id ≡ tenant) × (h.machine_id ≡ some m)
  at_machine-true tenant m k h e =
      ((text_eq_iff h.tenant_id tenant).0 (ground arith), machine h.machine_id (ground arith))
    where
      machine : (o : Option Text) → has_machine m o ≡ true → o ≡ some m
      machine none e = cc
      machine (some n) e = ap some ((text_eq_iff n m).0 e)

  at_machine_self :
      (tenant m : Text) (k : RowId) (h : Host)
      → h.tenant_id ≡ tenant
      → h.machine_id ≡ some m
      → at_machine tenant m k h ≡ true
  at_machine_self tenant m k h t e =
      rw (t, e, (text_eq_iff tenant tenant).1 refl, (text_eq_iff m m).1 refl) refl

  -- One upsert, in either case.
  pub record IsUpsert (tenant m : Text) (s : ht.State) (made : RowId × ht.State) : Type 0 where
    pub once : OneHost s → OneHost made.1
    pub link : IsLink made.1 tenant m (codes "host_" ++ m, made.0)
    pub kept : Kept tenant s made.1

  module _ (tenant m : Text) (s : ht.State) where
    abbrev host : Host
    host = bridged_host tenant m

    -- No row that was there is the new one's.
    create_once :
        ht.find_first (at_machine tenant m) s ≡ none → OneHost s → OneHost (ht.create host s).1
    create_once p one = record {
      same =
          λ j k q r n a b. pick j k q r n (at_created ht host s j q a) (at_created ht host s k r b);
    }
      where
        clash :
            (k : RowId) (r : Host)
            → ht.at s k ≡ some r
            → r.tenant_id ≡ tenant
            → r.machine_id ≡ some m
            → ⊥
        clash k r b t e = false≢true (
            sym (ht.find_first-none (at_machine tenant m) s k r p b)
            ∙ at_machine_self tenant m k r t e)

        pick :
            (j k : RowId) (q r : Host) (n : Text)
            → (((ht.create host s).0 ≡ j) × (q ≡ host)) ⊎ (ht.at s j ≡ some q)
            → (((ht.create host s).0 ≡ k) × (r ≡ host)) ⊎ (ht.at s k ≡ some r)
            → q.tenant_id ≡ r.tenant_id
            → q.machine_id ≡ some n
            → r.machine_id ≡ some n
            → j ≡ k
        pick j k q r n (inl (a, _)) (inl (b, _)) t f g = sym a ∙ b
        pick j k q r n (inl (_, a)) (inr b) t f g = absurd (
            clash k r b (sym t ∙ ap (λ (x : Host). x.tenant_id) a)
              (g ∙ sym f ∙ ap (λ (x : Host). x.machine_id) a))
        pick j k q r n (inr a) (inl (_, b)) t f g = absurd (
            clash j q a (t ∙ ap (λ (x : Host). x.tenant_id) b)
              (f ∙ sym g ∙ ap (λ (x : Host). x.machine_id) b))
        pick j k q r n (inr a) (inr b) t f g = one.same j k q r n a b t f g

    create-IsUpsert :
        ht.find_first (at_machine tenant m) s ≡ none → IsUpsert tenant m s (ht.create host s)
    create-IsUpsert p = record {
      once = create_once p;
      link = record {
        row = host;
        named = refl;
        stands =
            ht.at-create host s (ht.create host s).0
            ∙ ground (arith, text_eq_iff (ht.create host s).0 (ht.create host s).0);
        of_tenant = refl;
        of_machine = refl;
        is_online = refl;
      };
      kept = λ j q a. (q, at_kept_create ht host s j q a, inl refl);
    }

    module _ (k : RowId) (h : Host) (stands : ht.at s k ≡ some h) (of_tenant : h.tenant_id ≡ tenant)
        (of_machine : h.machine_id ≡ some m) where
      online_same :
          (q q₀ : Host)
          → Was ht s k to_online q q₀
          → (q.tenant_id ≡ q₀.tenant_id) × (q.machine_id ≡ q₀.machine_id)
      online_same q q₀ (inl (_, e)) = rw e (refl, refl)
      online_same q q₀ (inr e) = rw e (refl, refl)

      update_once : OneHost s → OneHost (ht.update k to_online s)
      update_once one = record {
        same = λ i j q r n a b t f g.
            let (q₀, a₀, eq) = at_updated ht s k to_online i q a in
            let (r₀, b₀, er) = at_updated ht s k to_online j r b in
            let (tq, mq) = online_same q q₀ eq in
            let (tr, mr) = online_same r r₀ er in
            one.same i j q₀ r₀ n a₀ b₀ (sym tq ∙ t ∙ tr) (sym mq ∙ f) (sym mr ∙ g);
      }

      there : ht.at (ht.update k to_online s) k ≡ some (to_online h)
      there = ht.at-update k to_online s k ∙ rw ((text_eq_iff k k).1 refl, stands) refl

      update_Kept : Kept tenant s (ht.update k to_online s)
      update_Kept j q a = elim (Bool-cases (text_eq k j)) [
        | inl p ↦
            let here : k ≡ j = (text_eq_iff k j).0 p in
            let same : h ≡ q = same_row stands (rw here a) in
            (
              to_online q,
              ht.at-update k to_online s j ∙ rw (p, a) refl,
              inr (sym (ap (λ (x : Host). x.tenant_id) same) ∙ of_tenant, refl),
            )
        | inr p ↦ (q, ht.at-update k to_online s j ∙ rw p a, inl refl)
      ]
        where
          same_row : {o : Option Host} {a b : Host} → o ≡ some a → o ≡ some b → a ≡ b
          same_row e f = cc

      update-IsUpsert : IsUpsert tenant m s (k, ht.update k to_online s)
      update-IsUpsert = record {
        once = update_once;
        link = record {
          row = to_online h;
          named = refl;
          stands = there;
          of_tenant = of_tenant;
          of_machine = of_machine;
          is_online = refl;
        };
        kept = update_Kept;
      }

  pub upsert_host-IsUpsert :
      (tenant m : Text) (s : ht.State) → IsUpsert tenant m s (upsert_host ht ta tc tenant m s)
  unfolding upsert_host
  upsert_host-IsUpsert tenant m s = elim (Option-cases (ht.find_first (at_machine tenant m) s)) [
    | inl p ↦ rw (p, upsert_host) (create-IsUpsert tenant m s p)
    | inr ((k, h), p) ↦
        let (stands, fits) = ht.find_first-some (at_machine tenant m) s k h p in
        let (t, e) = at_machine-true tenant m k h fits in
        rw (p, upsert_host) (update-IsUpsert tenant m s k h stands t e)
  ]

  pub Kept-trans :
      (tenant : Text) (s t u : ht.State) → Kept tenant s t → Kept tenant t u → Kept tenant s u
  Kept-trans tenant s t u h k j q a =
      let (q₁, a₁, c₁) = h j q a in let (q₂, a₂, c₂) = k j q₁ a₁ in (q₂, a₂, both c₁ c₂)
    where
      both :
          {q₁ q₂ : Host}
          → (q₁ ≡ q) ⊎ ((q.tenant_id ≡ tenant) × (q₁ ≡ to_online q))
          → (q₂ ≡ q₁) ⊎ ((q₁.tenant_id ≡ tenant) × (q₂ ≡ to_online q₁))
          → (q₂ ≡ q) ⊎ ((q.tenant_id ≡ tenant) × (q₂ ≡ to_online q))
      both (inl a) (inl b) = inl (b ∙ a)
      both (inl a) (inr (t, b)) = inr (rw a at t, b ∙ ap to_online a)
      both (inr (t, a)) (inl b) = inr (t, b ∙ a)
      both (inr (t, a)) (inr (_, b)) = inr (t, b ∙ ap to_online a)

  -- A link stays true.
  pub IsLink-kept :
      (tenant m : Text) (s s' : ht.State) (entry : Text × RowId)
      → Kept tenant s s'
      → IsLink s tenant m entry
      → IsLink s' tenant m entry
  IsLink-kept tenant m s s' entry kept link =
      let (q', stands, c) = kept entry.1 link.row link.stands in
      let (t, e, o) = fields c in
      record {
        row = q';
        named = link.named;
        stands = stands;
        of_tenant = t ∙ link.of_tenant;
        of_machine = e ∙ link.of_machine;
        is_online = o;
      }
    where
      fields :
          {q' : Host}
          → (q' ≡ link.row) ⊎ ((link.row.tenant_id ≡ tenant) × (q' ≡ to_online link.row))
          → (q'.tenant_id ≡ link.row.tenant_id)
            × (q'.machine_id ≡ link.row.machine_id)
            × (q'.status ≡ online)
      fields (inl e) = rw e (refl, refl, link.is_online)
      fields (inr (_, e)) = rw e (refl, refl, refl)

  -- The machine of a link gets its host again.
  pub upsert_host-again :
      (tenant m : Text) (s : ht.State) (entry : Text × RowId)
      → OneHost s
      → IsLink s tenant m entry
      → (codes "host_" ++ m, (upsert_host ht ta tc tenant m s).0) ≡ entry
  upsert_host-again tenant m s entry one link =
      let u = upsert_host-IsUpsert tenant m s in
      let again = IsLink-kept tenant m s (upsert_host ht ta tc tenant m s).1 entry u.kept link in
      let host =
        (u.once one).same _ _ u.link.row again.row m u.link.stands again.stands
          (u.link.of_tenant ∙ sym again.of_tenant) u.link.of_machine again.of_machine in
      pair (sym link.named) host
    where
      pair : {a b : Text} {j k : RowId} → a ≡ b → j ≡ k → ◌≡◌ {A = Text × RowId} (a, j) (b, k)
      pair p q = cc
