-- ===== src/Contracts/EventTypes.antt =====
-- packages/contracts/src/event-types.ts: the open registry of event types and its first catalog.
pub mod Registry
mod Tests
use Prim.Native.String.{◌++◌}
use wa_ops.Base.{String, Bool, true, false, Option, none, some, List, [], ◌∷◌, map}
use wa_ops.Base.Dict.{Dict, get, put}
use wa_ops.Contracts.{Severity, info, warning, high, critical}

pub data FingerprintRule : Type 0 where
  tenant_host_container tenant_host tenant_resource tenant_monitor : FingerprintRule
  tenant_issue tenant_database : FingerprintRule

-- EventTypeDefinition; `kind` is its `type`.
pub record EventType : Type 0 where
  pub kind : String
  pub default_severity : Severity
  pub fingerprint_rule : FingerprintRule
  pub incident_by_default : Bool
  pub module_key : String

abbrev pub Registry : Type 0
Registry = Dict EventType

-- What a registration comes to: the message of the Error that it throws, or the registry.
pub data Registered : Type 0 where
  refused : (message : String) → Registered
  registered : Registry → Registered

unfoldable pub register_event_type : EventType → Registry → Registered
register_event_type def registry = elim (get def.kind registry) [
  | none ↦ registered (put def.kind def registry)
  | some other ↦ refused ("event type already registered: " ++ def.kind)
]

unfoldable pub get_event_type : String → Registry → Option EventType
get_event_type kind registry = get kind registry

abbrev value_of : String × EventType → EventType
value_of (kind, def) = def

unfoldable pub list_event_types : Registry → List EventType
list_event_types registry = map value_of registry

-- EVENT_CATALOG_V1
unfoldable pub event_catalog : List EventType
event_catalog =
    (record {
      kind = "container.down";
      default_severity = high;
      fingerprint_rule = tenant_host_container;
      incident_by_default = true;
      module_key = "wamonitor";
    })
    ∷ (record {
      kind = "container.oom";
      default_severity = critical;
      fingerprint_rule = tenant_host_container;
      incident_by_default = true;
      module_key = "wamonitor";
    })
    ∷ (record {
      kind = "container.health_failed";
      default_severity = high;
      fingerprint_rule = tenant_host_container;
      incident_by_default = true;
      module_key = "wamonitor";
    })
    ∷ (record {
      kind = "host.unreachable";
      default_severity = critical;
      fingerprint_rule = tenant_host;
      incident_by_default = true;
      module_key = "wamonitor";
    })
    ∷ (record {
      kind = "infra.cpu.high";
      default_severity = warning;
      fingerprint_rule = tenant_host;
      incident_by_default = true;
      module_key = "wamonitor";
    })
    ∷ (record {
      kind = "infra.memory.high";
      default_severity = warning;
      fingerprint_rule = tenant_host;
      incident_by_default = true;
      module_key = "wamonitor";
    })
    ∷ (record {
      kind = "infra.disk.high";
      default_severity = high;
      fingerprint_rule = tenant_host;
      incident_by_default = true;
      module_key = "wamonitor";
    })
    ∷ (record {
      kind = "notification.failed";
      default_severity = warning;
      fingerprint_rule = tenant_resource;
      incident_by_default = false;
      module_key = "wanotify";
    })
    ∷ []

unfoldable pub register_new : EventType → Registry → Registry
register_new def registry = elim (get def.kind registry) [
  | none ↦ put def.kind def registry
  | some other ↦ registry
]

-- The loop of registerEventCatalogV1.
unfoldable pub register_all : List EventType → Registry → Registry
unfolding register_new
register_all [] registry = registry
register_all (def ∷ defs) registry = register_all defs (register_new def registry)

unfoldable pub register_event_catalog : Registry → Registry
unfolding register_all event_catalog
register_event_catalog registry = register_all event_catalog registry
