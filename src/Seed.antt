-- ===== src/Seed.antt =====
-- packages/db/prisma/seed.ts: the seed of the database, over its tables as lists of rows. Where the
-- source reads a table into a `Map` the table itself is read, since nobody writes it in between.
-- `uuidv4`, argon2, the clock and the environment are arguments: a `Run` says what they give at each
-- place of one run. The extension, the hypertable and its retention are statements of TimescaleDB and
-- left out, and so is the connection.
pub mod Rows
pub mod Running
pub mod Stable
pub mod Slots
pub mod Inserts
pub mod Again
mod Tests
use mathlib.Core.List.{◌++◌}
use wa_ops.Base.{
  ℕ, Bool, true, false, ◌&&◌, String, Option, none, some, List, [], ◌∷◌, str_eq, if◌then◌else◌,
}
use wa_ops.Contracts.Permissions.{
  SystemRole, permission_keys, system_roles, name_of_role, role_permissions,
}
use wa_ops.Contracts.Modules.{Module, modules}
use wa_ops.Seed.Rows.{insert_absent, upsert, id_where}

pub record PermissionRow : Type 0 where
  pub id : String
  pub key : String

pub record RoleRow : Type 0 where
  pub id : String
  pub tenant_id : Option String
  pub name : String
  pub is_system : Bool

pub record GrantRow : Type 0 where
  pub role_id : String
  pub permission_id : String

pub record ModuleRow : Type 0 where
  pub id : String
  pub key : String
  pub name : String
  pub status : String

pub record PlanRow : Type 0 where
  pub id : String
  pub code : String
  pub name : String
  pub status : String
  pub metadata_json : String

pub record PlanEntitlementRow : Type 0 where
  pub plan_id : String
  pub module_id : String
  pub feature_key : String
  pub enabled : Bool

pub record TenantRow : Type 0 where
  pub id : String
  pub slug : String
  pub name : String
  pub status : String
  pub trial_ends_at : ℕ

pub record UserRow : Type 0 where
  pub id : String
  pub email : String
  pub email_normalized : String
  pub password_hash : String
  pub name : String
  pub status : String

pub record MembershipRow : Type 0 where
  pub id : String
  pub tenant_id : String
  pub user_id : String
  pub organization_id : Option String
  pub role_id : String
  pub status : String

pub record SubscriptionRow : Type 0 where
  pub id : String
  pub tenant_id : String
  pub provider : String
  pub plan_id : String
  pub status : String
  pub current_period_start : ℕ
  pub current_period_end : ℕ

pub record EntitlementRow : Type 0 where
  pub id : String
  pub tenant_id : String
  pub module_id : String
  pub feature_key : String
  pub enabled : Bool
  pub source : String

pub record Tables : Type 0 where
  pub permissions : List PermissionRow
  pub roles : List RoleRow
  pub grants : List GrantRow
  pub modules : List ModuleRow
  pub plans : List PlanRow
  pub plan_entitlements : List PlanEntitlementRow
  pub tenants : List TenantRow
  pub users : List UserRow
  pub memberships : List MembershipRow
  pub subscriptions : List SubscriptionRow
  pub entitlements : List EntitlementRow

-- What one run is given. Each insert happens once in a run, so that an id is that of its place. An id of
-- `uuidv4` is taken to be new: no row of its table has it.
pub record Run : Type 0 where
  pub uuid : List String → String
  pub password_hash : String
  pub trial_metadata : String
  pub trial_end : ℕ
  pub now : ℕ
  pub period_end : ℕ

-- A part of the seed: the tables behind it, or `none` where it throws.
abbrev pub Step : Type 0
Step = Tables → Option Tables

abbrev pub then_step : Option Tables → Step → Option Tables
then_step none g = none
then_step (some t) g = g t

-- `await f; await g`
infixr 5 ◌>>>◌
unfoldable pub ◌>>>◌ : Step → Step → Step
(f >>> g) t = then_step (f t) g

abbrev pub with_id : Option String → (String → Step) → Step
with_id none k t = none
with_id (some id) k t = k id t

-- A lookup whose result the rest needs.
unfoldable pub given : (Tables → Option String) → (String → Step) → Step
given lookup k t = with_id (lookup t) k t

-- `for (const a of list) await step(a)`
unfoldable pub each {ℓ} : {A : Type ℓ} → (A → Step) → List A → Step
each step [] t = some t
each step (a ∷ list) t = then_step (step a t) (each step list)

-- The rows with which a new one is in conflict.
abbrev pub has_key : String → PermissionRow → Bool
has_key key r = str_eq r.key key

abbrev is_missing : Option String → Bool
is_missing none = true
is_missing (some id) = false

abbrev pub has_role_name : String → RoleRow → Bool
has_role_name name r = is_missing r.tenant_id && str_eq r.name name

abbrev pub is_grant : String → String → GrantRow → Bool
is_grant role_id permission_id r = str_eq r.role_id role_id && str_eq r.permission_id permission_id

abbrev pub has_module_key : String → ModuleRow → Bool
has_module_key key r = str_eq r.key key

abbrev pub has_code : String → PlanRow → Bool
has_code code r = str_eq r.code code

abbrev pub is_plan_feature : String → String → String → PlanEntitlementRow → Bool
is_plan_feature plan_id module_id feature r =
    str_eq r.plan_id plan_id && (str_eq r.module_id module_id && str_eq r.feature_key feature)

abbrev pub has_slug : String → TenantRow → Bool
has_slug slug r = str_eq r.slug slug

abbrev pub has_email : String → UserRow → Bool
has_email email r = str_eq r.email_normalized email

abbrev pub is_subscribed : String → SubscriptionRow → Bool
is_subscribed tenant_id r = str_eq r.tenant_id tenant_id

abbrev pub is_feature : String → String → String → EntitlementRow → Bool
is_feature tenant_id module_id feature r =
    str_eq r.tenant_id tenant_id && (str_eq r.module_id module_id && str_eq r.feature_key feature)
