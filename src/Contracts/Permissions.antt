-- ===== src/Contracts/Permissions.antt =====
-- packages/contracts/src/permissions.ts: the keys of the permissions, the roles of the system, and the
-- keys that each role starts with.
pub mod Roles
mod Tests
use text.Mathlib.Text.{starts_with}
use wa_ops.Base.{String, Bool, true, false, not, ◌&&◌, ◌||◌, List, [], ◌∷◌, str_eq, if◌then◌else◌}

-- PERMISSION_KEYS_V1
unfoldable pub permission_keys : List String
permission_keys =
    "tenants.read" ∷ "tenants.manage" ∷ "users.read" ∷ "users.manage" ∷ "roles.read"
    ∷ "roles.manage" ∷ "billing.read" ∷ "billing.manage" ∷ "agents.read" ∷ "agents.enroll"
    ∷ "agents.revoke" ∷ "hosts.read" ∷ "hosts.manage" ∷ "monitors.read" ∷ "monitors.manage"
    ∷ "incidents.read" ∷ "incidents.ack" ∷ "incidents.resolve" ∷ "tickets.read" ∷ "tickets.create"
    ∷ "tickets.assign" ∷ "tickets.resolve" ∷ "knowledge.read" ∷ "knowledge.edit"
    ∷ "knowledge.publish" ∷ "databases.read" ∷ "databases.manage" ∷ "contracts.read"
    ∷ "contracts.manage" ∷ "backups.read" ∷ "backups.manage" ∷ "notifications.read"
    ∷ "notifications.manage" ∷ "integrations.read" ∷ "integrations.manage" ∷ "secrets.manage"
    ∷ "ai.use" ∷ "ai.configure" ∷ []

-- SystemRole
pub data SystemRole : Type 0 where
  platform_root tenant_owner tenant_admin technical_admin operator : SystemRole
  support_agent customer_user viewer : SystemRole

-- SYSTEM_ROLES
unfoldable pub system_roles : List SystemRole
system_roles =
    platform_root ∷ tenant_owner ∷ tenant_admin ∷ technical_admin ∷ operator ∷ support_agent
    ∷ customer_user ∷ viewer ∷ []

unfoldable pub name_of_role : SystemRole → String
name_of_role platform_root = "platform_root"
name_of_role tenant_owner = "tenant_owner"
name_of_role tenant_admin = "tenant_admin"
name_of_role technical_admin = "technical_admin"
name_of_role operator = "operator"
name_of_role support_agent = "support_agent"
name_of_role customer_user = "customer_user"
name_of_role viewer = "viewer"

unfoldable pub filter : (String → Bool) → List String → List String
filter test [] = []
filter test (k ∷ ks) = let rest = filter test ks in if test k then k ∷ rest else rest

-- The tests of the three roles that are filtered.
unfoldable pub is_owner_key : String → Bool
is_owner_key k = not (str_eq k "tenants.manage")

unfoldable pub is_admin_key : String → Bool
is_admin_key k = not (str_eq k "tenants.manage") && not (starts_with k "billing.")

unfoldable pub is_technical_key : String → Bool
is_technical_key k =
    starts_with k "hosts."
    || starts_with k "agents."
    || starts_with k "monitors."
    || starts_with k "incidents."
    || starts_with k "databases."
    || starts_with k "backups."
    || starts_with k "notifications."
    || starts_with k "integrations."
    || str_eq k "secrets.manage"

-- ROLE_PERMISSIONS
unfoldable pub role_permissions : SystemRole → List String
unfolding permission_keys filter is_owner_key is_admin_key is_technical_key
role_permissions platform_root = permission_keys
role_permissions tenant_owner = filter is_owner_key permission_keys
role_permissions tenant_admin = filter is_admin_key permission_keys
role_permissions technical_admin = filter is_technical_key permission_keys
role_permissions operator =
    "tenants.read" ∷ "hosts.read" ∷ "agents.read" ∷ "monitors.read" ∷ "incidents.read"
    ∷ "incidents.ack" ∷ "incidents.resolve" ∷ "tickets.read" ∷ "tickets.create"
    ∷ "notifications.read" ∷ []
role_permissions support_agent =
    "tenants.read" ∷ "hosts.read" ∷ "incidents.read" ∷ "tickets.read" ∷ "tickets.create"
    ∷ "tickets.assign" ∷ "tickets.resolve" ∷ "knowledge.read" ∷ []
role_permissions customer_user = "tickets.read" ∷ "tickets.create" ∷ "knowledge.read" ∷ []
role_permissions viewer =
    "tenants.read" ∷ "hosts.read" ∷ "agents.read" ∷ "monitors.read" ∷ "incidents.read"
    ∷ "notifications.read" ∷ []
