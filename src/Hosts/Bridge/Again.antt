-- ===== src/Hosts/Bridge/Again.antt =====
-- The bridge of apps/worker/src/identity-bridge.ts run again: it comes to the same hosts.
use mathlib.Core.List.{append-nil, append_assoc}
use wa_ops.Base.{◌≡◌, refl, sym, ap, ◌∙◌, inl, Bool, false, List, [], ◌∷◌, ◌++◌}
use wa_ops.Base.Text.{Text, codes}
use wa_ops.Database.{RowId, Table}
use wa_ops.Gateway.Credential.{Agent}
use wa_ops.Hosts.{Host}
use wa_ops.Hosts.Bridge.{
  SampleLike, Container, machine_ids, upsert_host, Bridged, bridge_machine, bridge_machines,
  bridge_identity,
}
use wa_ops.Hosts.Bridge.Upsert.{
  OneHost, IsLink, IsLink-kept, Kept, Kept-trans, upsert_host-IsUpsert, upsert_host-again,
}
use wa_ops.Hosts.Bridge.Unique.{bridge_identity-IsBridged}

abbrev pub no_fault : Text → Bool
no_fault m = false

module _ (ht : Table Host) (ta : Table Agent) (tc : Table Container) where
  -- The links of a list of machines, one by one.
  abbrev Linked : ht.State → Text → List Text → List (Text × RowId) → Type 0
  Linked s tenant [] [] = Unit
  Linked s tenant [] (e ∷ es) = ⊥
  Linked s tenant (m ∷ ms) [] = ⊥
  Linked s tenant (m ∷ ms) (e ∷ es) = IsLink ht ta tc s tenant m e × Linked s tenant ms es

  Linked-kept :
      (tenant : Text) (s s' : ht.State) (ms : List Text) (es : List (Text × RowId))
      → Kept ht ta tc tenant s s'
      → Linked s tenant ms es
      → Linked s' tenant ms es
  Linked-kept tenant s s' [] [] kept h = tt
  Linked-kept tenant s s' [] (e ∷ es) kept h = h
  Linked-kept tenant s s' (m ∷ ms) [] kept h = h
  Linked-kept tenant s s' (m ∷ ms) (e ∷ es) kept (link, links) =
      (IsLink-kept ht ta tc tenant m s s' e kept link, Linked-kept tenant s s' ms es kept links)

  abbrev after : Text → RowId → List Text → Bridged ht ta tc → Bridged ht ta tc
  after tenant agent ms b = bridge_machines ht ta tc no_fault tenant agent ms b

  -- What the loop adds to the map.
  record Adds (tenant : Text) (agent : RowId) (ms : List Text) (b : Bridged ht ta tc) : Type 0 where
    added : List (Text × RowId)
    map : (after tenant agent ms b).resource_to_host ≡ b.resource_to_host ++ added
    linked : Linked (after tenant agent ms b).hosts tenant ms added
    kept : Kept ht ta tc tenant b.hosts (after tenant agent ms b).hosts

  bridge_machines-Adds :
      (tenant : Text) (agent : RowId) (ms : List Text) (b : Bridged ht ta tc)
      → Adds tenant agent ms b
  unfolding bridge_machines bridge_machine
  bridge_machines-Adds tenant agent [] b = record {
    added = [];
    map = sym (append-nil _);
    linked = tt;
    kept = λ j q a. (q, a, inl refl);
  }
  bridge_machines-Adds tenant agent (m ∷ ms) b =
      let u = upsert_host-IsUpsert ht ta tc tenant m b.hosts in
      let rest = bridge_machines-Adds tenant agent ms (bridge_machine ht ta tc tenant agent m b) in
      record {
        added = (codes "host_" ++ m, (upsert_host ht ta tc tenant m b.hosts).0) ∷ rest.added;
        map =
            rest.map
            ∙ append_assoc b.resource_to_host
                ((codes "host_" ++ m, (upsert_host ht ta tc tenant m b.hosts).0) ∷ []) rest.added;
        linked = (IsLink-kept ht ta tc tenant m _ _ _ rest.kept u.link, rest.linked);
        kept = Kept-trans ht ta tc tenant _ _ _ u.kept rest.kept;
      }

  linked_again :
      (tenant : Text) (agent : RowId) (ms : List Text) (es : List (Text × RowId))
      (b : Bridged ht ta tc)
      → OneHost ht ta tc b.hosts
      → Linked b.hosts tenant ms es
      → (after tenant agent ms b).resource_to_host ≡ b.resource_to_host ++ es
  unfolding bridge_machines bridge_machine
  linked_again tenant agent [] [] b one h = sym (append-nil _)
  linked_again tenant agent [] (e ∷ es) b one h = absurd h
  linked_again tenant agent (m ∷ ms) [] b one h = absurd h
  linked_again tenant agent (m ∷ ms) (e ∷ es) b one (link, links) =
      let u = upsert_host-IsUpsert ht ta tc tenant m b.hosts in
      let b' = bridge_machine ht ta tc tenant agent m b in
      linked_again tenant agent ms es b' (u.once one)
        (Linked-kept tenant b.hosts b'.hosts ms es u.kept links)
      ∙ append_assoc b.resource_to_host
          ((codes "host_" ++ m, (upsert_host ht ta tc tenant m b.hosts).0) ∷ []) es
      ∙ ap (λ x. b.resource_to_host ++ (x ∷ es))
          (upsert_host-again ht ta tc tenant m b.hosts e one link)

  -- If no machine of a tenant has two hosts and no upsert fails, then samples that are bridged a second
  -- time, by whatever agent, get the same hosts.
  pub bridge_identity-again :
      (tenant : Text) (agent agent' : RowId) (samples : List SampleLike) (hosts : ht.State)
      (agents agents' : ta.State)
      → OneHost ht ta tc hosts
      → (bridge_identity ht ta tc no_fault tenant agent' samples
          (bridge_identity ht ta tc no_fault tenant agent samples hosts agents).hosts
          agents').resource_to_host
        ≡ (bridge_identity ht ta tc no_fault tenant agent samples hosts agents).resource_to_host
  unfolding bridge_identity
  bridge_identity-again tenant agent agent' samples hosts agents agents' one =
      let begun : Bridged ht ta tc = record {
        hosts = hosts;
        agents = agents;
        resource_to_host = [];
      } in
      let first = bridge_machines-Adds tenant agent (machine_ids [] samples) begun in
      let b = bridge_identity-IsBridged ht ta tc no_fault tenant agent samples hosts agents one in
      linked_again tenant agent' (machine_ids [] samples) first.added _ b.once first.linked
      ∙ sym first.map
