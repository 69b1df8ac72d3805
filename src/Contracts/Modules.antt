-- ===== src/Contracts/Modules.antt =====
-- packages/contracts/src/modules.ts: the modules that a tenant may be entitled to, with their features.
use wa_ops.Base.{String, List, [], ◌∷◌, map}

-- ModuleDefinition
pub record Module : Type 0 where
  pub key : String
  pub name : String
  pub features : List String

-- MODULES_V1
unfoldable pub modules : List Module
modules =
    (record {
      key = "wamonitor";
      name = "WaMonitor";
      features =
          "host_monitoring" ∷ "docker_monitoring" ∷ "synthetic_checks" ∷ "application_templates"
          ∷ [];
    })
    ∷ (record {
      key = "wasupport";
      name = "WaSupport";
      features =
          "tickets" ∷ "kanban" ∷ "sla" ∷ "customer_portal" ∷ "auto_ticket_from_incident" ∷ [];
    })
    ∷ (record {
      key = "wantry";
      name = "Wantry";
      features = "error_ingestion" ∷ "issue_grouping" ∷ "release_context" ∷ [];
    })
    ∷ (record {
      key = "wadatabase";
      name = "WaDatabase";
      features = "postgres" ∷ "mysql" ∷ "mariadb" ∷ "query_analysis" ∷ [];
    })
    ∷ (record {
      key = "wabackup";
      name = "WaBackup";
      features = "backup_jobs" ∷ "managed_storage" ∷ "customer_storage" ∷ "restore_tests" ∷ [];
    })
    ∷ (record {
      key = "waknowledge";
      name = "WaKnowledge";
      features = "documents" ∷ "runbooks" ∷ "change_management" ∷ [];
    })
    ∷ (record {
      key = "wanotify";
      name = "WaNotify";
      features = "email" ∷ "webhook" ∷ "whatsapp" ∷ "slack" ∷ "ntfy" ∷ [];
    })
    ∷ (record { key = "warelease"; name = "WaRelease"; features = "github" ∷ [] })
    ∷ (record {
      key = "waai";
      name = "WaAI";
      features = "chat" ∷ "contextual_popover" ∷ "byok" ∷ [];
    })
    ∷ []

-- MODULE_KEYS_V1
unfoldable pub module_keys : List String
unfolding modules
module_keys = map (λ m. m.key) modules

-- QUOTA_METRIC_KEYS
unfoldable pub quota_metric_keys : List String
quota_metric_keys =
    "agents" ∷ "hosts" ∷ "monitors" ∷ "users" ∷ "subtenants" ∷ "databases" ∷ "storage" ∷ "backups"
    ∷ "retention_days" ∷ "tickets" ∷ "emails" ∷ "whatsapp_sessions" ∷ []
