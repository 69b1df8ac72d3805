-- ===== src/Hosts/Bridge/Unique.antt =====
-- What apps/worker/src/identity-bridge.ts leaves in the table of hosts: one host for a machine of a
-- tenant, linked under its resource id.
use wa_ops.Base.{refl, inl, inr, Bool, List, [], ◌∷◌, All, All-append_last, All-mono, Bool-cases}
use wa_ops.Base.Text.{Text}
use wa_ops.Database.{RowId, Table}
use wa_ops.Gateway.Credential.{Agent}
use wa_ops.Hosts.{Host}
use wa_ops.Hosts.Bridge.{
  SampleLike, Container, machine_ids, Bridged, bridge_machine, bridge_machines, bridge_identity,
}
use wa_ops.Hosts.Bridge.Upsert.{
  OneHost, IsLink, Kept, upsert_host-IsUpsert, IsLink-kept, Kept-trans,
}

module _ (ht : Table Host) (ta : Table Agent) (tc : Table Container) where
  -- The state of the loop, begun with the hosts `s`.
  pub record IsBridged (s : ht.State) (tenant : Text) (b : Bridged ht ta tc) : Type 0 where
    pub once : OneHost ht ta tc b.hosts
    pub links :
        All (λ entry. (m : Text) × IsLink ht ta tc b.hosts tenant m entry) b.resource_to_host
    pub kept : Kept ht ta tc tenant s b.hosts

  pub bridge_machine-IsBridged :
      (s : ht.State) (tenant m : Text) (agent : RowId) (b : Bridged ht ta tc)
      → IsBridged s tenant b
      → IsBridged s tenant (bridge_machine ht ta tc tenant agent m b)
  unfolding bridge_machine
  bridge_machine-IsBridged s tenant m agent b h =
      let u = upsert_host-IsUpsert ht ta tc tenant m b.hosts in
      record {
        once = u.once h.once;
        links =
            All-append_last (λ entry. (n : Text) × IsLink ht ta tc _ tenant n entry)
              b.resource_to_host _
              (All-mono _
                (λ entry (n, link). (n, IsLink-kept ht ta tc tenant n b.hosts _ entry u.kept link))
                b.resource_to_host h.links)
              (m, u.link);
        kept = Kept-trans ht ta tc tenant s b.hosts _ h.kept u.kept;
      }

  bridge_machines-IsBridged :
      (fault : Text → Bool) (s : ht.State) (tenant : Text) (agent : RowId) (ms : List Text)
      (b : Bridged ht ta tc)
      → IsBridged s tenant b
      → IsBridged s tenant (bridge_machines ht ta tc fault tenant agent ms b)
  unfolding bridge_machines
  bridge_machines-IsBridged fault s tenant agent [] b h = h
  bridge_machines-IsBridged fault s tenant agent (m ∷ ms) b h = elim (Bool-cases (fault m)) [
    | inl p ↦ rw p (bridge_machines-IsBridged fault s tenant agent ms b h)
    | inr p ↦ rw p (
        bridge_machines-IsBridged fault s tenant agent ms _
          (bridge_machine-IsBridged s tenant m agent b h))
  ]

  -- If no machine of a tenant has two hosts, so it is after the bridge, whatever samples come and
  -- whichever upserts fail: each entry of the map is the resource id of a machine with its host, which
  -- is online and in the tenant, and of the hosts that were there none is lost, and none is changed but
  -- that some of the tenant are set online.
  pub bridge_identity-IsBridged :
      (fault : Text → Bool) (tenant : Text) (agent : RowId) (samples : List SampleLike)
      (hosts : ht.State) (agents : ta.State)
      → OneHost ht ta tc hosts
      → IsBridged hosts tenant (bridge_identity ht ta tc fault tenant agent samples hosts agents)
  unfolding bridge_identity
  bridge_identity-IsBridged fault tenant agent samples hosts agents one =
      bridge_machines-IsBridged fault hosts tenant agent (machine_ids [] samples) _
        (record { once = one; links = tt; kept = λ j q a. (q, a, inl refl) })
