-- ===== src/Hosts.antt =====
-- The hosts of a tenant: `create` of apps/api/src/hosts/hosts.controller.ts, the resource id by which
-- apps/api/src/metrics/metrics.controller.ts reads samples, and in `Bridge`
-- apps/worker/src/identity-bridge.ts.
pub mod Bridge
mod Tests
use wa_ops.Base.{
  ℕ, Bool, true, false, ◌&&◌, Option, none, some, List, [], ◌∷◌, ◌++◌, leb, length, if◌then◌else◌,
}
use wa_ops.Base.Text.{Text, codes, text_eq}
use wa_ops.Contracts.{truthy}
use wa_ops.Database.{RowId, Table}
use wa_ops.Errors.{
  Result, returned, raised, not_found_error, validation, or_throw, guard, ◌>>=◌, ◌>>◌,
}

pub data HostStatus : Type 0 where
  pending online : HostStatus

pub record Host : Type 0 where
  pub tenant_id : Text
  pub name : Text
  pub os_type : Option Text
  pub os_version : Option Text
  pub arch : Option Text
  pub environment : Option Text
  pub status : HostStatus
  pub machine_id : Option Text

-- CreateHostSchema
pub record CreateHost : Type 0 where
  pub name : Text
  pub os_type : Option Text
  pub os_version : Option Text
  pub arch : Option Text
  pub environment : Option Text

abbrev short : ℕ → Option Text → Bool
short most none = true
short most (some s) = leb (length s) most

abbrev pub fit_host : CreateHost → Bool
fit_host i =
    (leb 1 (length i.name) && leb (length i.name) 120)
    && (short 40 i.os_type
        && (short 80 i.os_version && (short 40 i.arch && short 40 i.environment)))

abbrev pub new_host : Text → CreateHost → Host
new_host tenant i = record {
  tenant_id = tenant;
  name = i.name;
  os_type = i.os_type;
  os_version = i.os_version;
  arch = i.arch;
  environment = i.environment;
  status = pending;
  machine_id = none;
}

-- The audit row of a new host.
pub record HostAudit : Type 0 where
  pub resource_id : RowId
  pub after : Host
  pub actor_id : Option Text

-- `host.machineId ? `host_${host.machineId}` : host.id`
abbrev resource_or : RowId → Option Text → Text
resource_or id none = id
resource_or id (some m) = codes "host_" ++ m

abbrev pub resource_of : RowId → Host → Text
resource_of id h = resource_or id (truthy h.machine_id)

module _ (hosts_table : Table Host) where
  pub record Db : Type 0 where
    pub hosts : hosts_table.State
    pub audits : List HostAudit

  abbrev pub owned : Text → RowId → RowId → Host → Bool
  owned tenant id k h = text_eq k id && text_eq h.tenant_id tenant

  -- `findFirst({ where: { id, tenantId } })` with the 404
  abbrev pub require_host : hosts_table.State → Text → RowId → Result (RowId × Host)
  require_host hosts tenant id =
      or_throw (not_found_error "Host") (hosts_table.find_first (owned tenant id) hosts)

  unfoldable pub create_host : Db → Text → (actor : Option Text) → CreateHost → Result (Db × RowId)
  create_host db tenant actor input = do
    guard (fit_host input) (validation "Validation failed")
    let (k, hosts) = hosts_table.create (new_host tenant input) db.hosts
    returned (
      record {
        hosts = hosts;
        audits =
            db.audits
            ++ record { resource_id = k; after = new_host tenant input; actor_id = actor } ∷ [];
      },
      k,
    )
