-- ===== src/Hosts/Bridge.antt =====
-- apps/worker/src/identity-bridge.ts. `upsert` is the find of the row under the unique key with the update
-- or the create; whether the database throws for a machine is an argument.
pub mod Upsert
pub mod Unique
pub mod Again
use wa_ops.Base.{
  ℕ, suc, ◌+◌, Bool, true, false, not, ◌&&◌, ◌||◌, Option, none, some, List, [], ◌∷◌, ◌++◌, leb,
  length, take, if◌then◌else◌,
}
use wa_ops.Base.Text.{Text, codes, text_eq}
use wa_ops.Contracts.{truthy}
use wa_ops.Database.{RowId, Table}
use wa_ops.Gateway.Credential.{Agent, strip_prefix}
use wa_ops.Hosts.{Host, HostStatus, online}

-- SampleLike, with the two dimensions that are read.
pub record SampleLike : Type 0 where
  pub metric : Text
  pub resource_id : Text
  pub observed_at : ℕ
  pub dim_name : Option Text
  pub dim_image : Option Text

abbrev checked_machine : Option Text → Option Text
checked_machine none = none
checked_machine (some id) = if leb 8 (length id) && leb (length id) 128 then some id else none

unfoldable pub machine_id_from_resource : Text → Option Text
unfolding strip_prefix
machine_id_from_resource resource_id = checked_machine (strip_prefix (codes "host_") resource_id)

abbrev pub is_among : Text → List Text → Bool
is_among s [] = false
is_among s (t ∷ ts) = text_eq t s || is_among s ts

-- `add` of a `Set`, in the order of insertion
abbrev pub add_to : List Text → Option Text → List Text
add_to seen none = seen
add_to seen (some id) = if is_among id seen then seen else seen ++ id ∷ []

unfoldable pub machine_ids : List Text → List SampleLike → List Text
unfolding machine_id_from_resource
machine_ids seen [] = seen
machine_ids seen (s ∷ ss) = machine_ids (add_to seen (machine_id_from_resource s.resource_id)) ss

abbrev has_machine : Text → Option Text → Bool
has_machine m none = false
has_machine m (some n) = text_eq n m

-- `{ tenantId_machineId: { tenantId, machineId } }`
abbrev pub at_machine : Text → Text → RowId → Host → Bool
at_machine tenant machine k h = text_eq h.tenant_id tenant && has_machine machine h.machine_id

abbrev pub bridged_host : Text → Text → Host
bridged_host tenant machine = record {
  tenant_id = tenant;
  name = codes "host-" ++ take 12 machine;
  os_type = none;
  os_version = none;
  arch = none;
  environment = none;
  status = online;
  machine_id = some machine;
}

abbrev pub to_online : Host → Host
to_online h = record h { status = online }

abbrev pub link_agent : RowId → Text → Agent → Agent
link_agent host machine a = record a { host_id = some host; machine_id = some machine }

-- A row of the containers, and its unique key.
pub record Container : Type 0 where
  pub tenant_id : Text
  pub host_id : RowId
  pub runtime_id : Text
  pub name : Text
  pub image : Option Text
  pub last_seen_at : ℕ

abbrev pub at_container : Text → RowId → Text → RowId → Container → Bool
at_container tenant host runtime k c =
    text_eq c.tenant_id tenant && (text_eq c.host_id host && text_eq c.runtime_id runtime)

abbrev short_text : Option Text → Option Text
short_text none = none
short_text (some s) = if leb (length s) 200 then some s else none

abbrev or_text : Option Text → Text → Text
or_text none t = t
or_text (some s) t = s

abbrev or_kept : Option Text → Option Text → Option Text
or_kept none kept = kept
or_kept (some s) kept = some s

abbrev pub seen_again : Text → Option Text → ℕ → Container → Container
seen_again name image observed_at c = record c {
  name = name;
  image = or_kept image c.image;
  last_seen_at = observed_at;
}

abbrev is_container : Text → Bool
is_container metric = elim (strip_prefix (codes "container.") metric) [
  | none ↦ false
  | some s ↦ true
]

module _ (hosts_table : Table Host) (agents_table : Table Agent)
    (containers_table : Table Container) where
  abbrev upsert_into :
      Option (RowId × Host) → Text → Text → hosts_table.State → RowId × hosts_table.State
  upsert_into none tenant machine s = hosts_table.create (bridged_host tenant machine) s
  upsert_into (some (k, h)) tenant machine s = (k, hosts_table.update k to_online s)

  unfoldable pub upsert_host : Text → Text → hosts_table.State → RowId × hosts_table.State
  upsert_host tenant machine s =
      upsert_into (hosts_table.find_first (at_machine tenant machine) s) tenant machine s

  -- The tables, and `resourceToHost`.
  pub record Bridged : Type 0 where
    pub hosts : hosts_table.State
    pub agents : agents_table.State
    pub resource_to_host : List (Text × RowId)

  abbrev is_agent : RowId → Text → RowId → Agent → Bool
  is_agent id tenant k a = text_eq k id && text_eq a.tenant_id tenant

  -- One round of the loop over the machines.
  unfoldable pub bridge_machine : Text → RowId → Text → Bridged → Bridged
  unfolding upsert_host
  bridge_machine tenant agent machine b =
      let (host, hosts) = upsert_host tenant machine b.hosts in
      record {
        hosts = hosts;
        agents =
            (agents_table.update_many (is_agent agent tenant) (link_agent host machine) b.agents).0;
        resource_to_host = b.resource_to_host ++ (codes "host_" ++ machine, host) ∷ [];
      }

  unfoldable pub bridge_machines :
      (fault : Text → Bool) → Text → RowId → List Text → Bridged → Bridged
  unfolding bridge_machine
  bridge_machines fault tenant agent [] b = b
  bridge_machines fault tenant agent (m ∷ ms) b =
      bridge_machines fault tenant agent ms (if fault m then b else bridge_machine tenant agent m b)

  unfoldable pub bridge_identity :
      (fault : Text → Bool)
      → Text
      → RowId
      → List SampleLike
      → hosts_table.State
      → agents_table.State
      → Bridged
  unfolding bridge_machines machine_ids
  bridge_identity fault tenant agent samples hosts agents =
      bridge_machines fault tenant agent (machine_ids [] samples)
        (record { hosts = hosts; agents = agents; resource_to_host = [] })

  abbrev upsert_container_into :
      Option (RowId × Container)
      → Container
      → Option Text
      → containers_table.State
      → containers_table.State
  upsert_container_into none c image s = (containers_table.create c s).1
  upsert_container_into (some (k, old)) c image s =
      containers_table.update k (seen_again c.name image c.last_seen_at) s

  unfoldable pub bridge_container :
      Text → RowId → SampleLike → containers_table.State → containers_table.State
  bridge_container tenant host s rows =
      let runtime = take 200 s.resource_id in
      let image = short_text s.dim_image in
      upsert_container_into (containers_table.find_first (at_container tenant host runtime) rows)
        (record {
          tenant_id = tenant;
          host_id = host;
          runtime_id = runtime;
          name = or_text (short_text s.dim_name) runtime;
          image = image;
          last_seen_at = s.observed_at;
        })
        image rows

  -- The rows and the number of those that have been written.
  unfoldable pub bridge_samples :
      (fault : Text → Bool)
      → Text
      → RowId
      → List SampleLike
      → containers_table.State × ℕ
      → containers_table.State × ℕ
  unfolding bridge_container strip_prefix
  bridge_samples fault tenant host [] done = done
  bridge_samples fault tenant host (s ∷ ss) (rows, upserts) = bridge_samples fault tenant host ss (
      if is_container s.metric && not (fault s.resource_id)
      then (bridge_container tenant host s rows, upserts + 1)
      else (rows, upserts))

  unfoldable pub bridge_containers :
      (fault : Text → Bool)
      → Text
      → List SampleLike
      → List (Text × RowId)
      → containers_table.State
      → containers_table.State × ℕ
  unfolding bridge_samples
  bridge_containers fault tenant samples [] rows = (rows, 0)
  bridge_containers fault tenant samples ((resource, host) ∷ others) rows =
      bridge_samples fault tenant host samples (rows, 0)
