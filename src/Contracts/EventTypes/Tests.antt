-- ===== src/Contracts/EventTypes/Tests.antt =====
-- A registry in which one type of the catalog has been registered differently.
use wa_ops.Base.{◌≡◌, false, [], ◌∷◌}
use wa_ops.Contracts.{info}
use wa_ops.Contracts.EventTypes.{
  EventType, Registry, tenant_host, get_event_type, register_event_catalog, event_catalog,
}
use wa_ops.Contracts.EventTypes.Registry.{or_first, first_of, get_event_type-register_event_catalog}

abbrev quiet : EventType
quiet = record {
  kind = "infra.cpu.high";
  default_severity = info;
  fingerprint_rule = tenant_host;
  incident_by_default = false;
  module_key = "wamonitor";
}

abbrev registry : Registry
registry = ("infra.cpu.high", quiet) ∷ []

get_event_type-register_event_catalog_example :
    (get_event_type "infra.cpu.high" (register_event_catalog registry)
      ≡ or_first
          (get_event_type "infra.cpu.high" registry)
          (first_of "infra.cpu.high" event_catalog))
    × (register_event_catalog (register_event_catalog registry) ≡ register_event_catalog registry)
get_event_type-register_event_catalog_example =
    get_event_type-register_event_catalog "infra.cpu.high" registry
