-- ===== src/Seed/Running.antt =====
-- The statements of packages/db/prisma/seed.ts, in their order.
use mathlib.Core.List.{◌++◌}
use wa_ops.Base.{
  Bool, true, false, str_eq, if◌then◌else◌, String, Option, none, some, List, [], ◌∷◌,
}
use wa_ops.Contracts.Permissions.{
  SystemRole, permission_keys, system_roles, name_of_role, role_permissions,
}
use wa_ops.Contracts.Modules.{Module, modules}
use wa_ops.Seed.Rows.{find, insert_absent, upsert, id_where}
use wa_ops.Seed.{
  TenantRow, UserRow, MembershipRow, Tables, Run, Step, ◌>>>◌, given, each, has_key, has_role_name,
  is_grant, has_module_key, has_code, is_plan_feature, has_slug, has_email, is_subscribed,
  is_feature,
}

-- The ids that are looked up.
abbrev pub permission_id : String → Tables → Option String
permission_id key t = id_where (has_key key) (λ r. r.id) t.permissions

abbrev pub role_id : String → Tables → Option String
role_id name t = id_where (has_role_name name) (λ r. r.id) t.roles

abbrev pub module_id : String → Tables → Option String
module_id key t = id_where (has_module_key key) (λ r. r.id) t.modules

abbrev pub plan_id : String → Tables → Option String
plan_id code t = id_where (has_code code) (λ r. r.id) t.plans

abbrev pub tenant_id : String → Tables → Option String
tenant_id slug t = id_where (has_slug slug) (λ r. r.id) t.tenants

abbrev pub user_id : String → Tables → Option String
user_id email t = id_where (has_email email) (λ r. r.id) t.users

-- A demo tenant; `normalized` is `email.toLowerCase()`.
pub record Demo : Type 0 where
  pub slug : String
  pub name : String
  pub email : String
  pub normalized : String

-- demoTenants
unfoldable pub demo_tenants : List Demo
demo_tenants =
    (record {
      slug = "tenant-a";
      name = "Tenant A (demo)";
      email = "owner@tenant-a.local";
      normalized = "owner@tenant-a.local";
    })
    ∷ (record {
      slug = "tenant-b";
      name = "Tenant B (demo)";
      email = "owner@tenant-b.local";
      normalized = "owner@tenant-b.local";
    })
    ∷ []

-- No row has the normalized address, but some row has the address.
unfoldable pub is_refused : Demo → List UserRow → Bool
unfolding find
is_refused d rows = elim (find (has_email d.normalized) rows) [
  | none ↦ elim (find (λ r. str_eq r.email d.email) rows) [ none ↦ false | some other ↦ true ]
  | some old ↦ false
]

abbrev pub set_name : Demo → TenantRow → TenantRow
set_name d r = record r { name = d.name }

module _ (run : Run) where
  unfoldable pub insert_permission : String → Step
  insert_permission key t = some (record t {
    permissions =
        insert_absent (has_key key) (record { id = run.uuid ("permissions" ∷ key ∷ []); key = key })
          t.permissions;
  })

  unfoldable pub insert_role : String → Step
  insert_role name t = some (record t {
    roles =
        insert_absent (has_role_name name)
          (record {
            id = run.uuid ("roles" ∷ name ∷ []);
            tenant_id = none;
            name = name;
            is_system = true;
          })
          t.roles;
  })

  unfoldable pub insert_grant : String → String → Step
  insert_grant role permission t = some (record t {
    grants =
        insert_absent (is_grant role permission)
          (record { role_id = role; permission_id = permission }) t.grants;
  })

  -- `if (!permId) throw`
  unfoldable pub grant : String → String → Step
  unfolding given insert_grant
  grant role key = given (permission_id key) (insert_grant role)

  unfoldable pub seed_role : SystemRole → Step
  unfolding ◌>>>◌ given each insert_role grant
  seed_role role =
      insert_role (name_of_role role)
      >>> given (role_id (name_of_role role)) (λ id. each (grant id) (role_permissions role))

  unfoldable pub insert_module : Module → Step
  insert_module m t = some (record t {
    modules =
        insert_absent (has_module_key m.key)
          (record {
            id = run.uuid ("modules" ∷ m.key ∷ []);
            key = m.key;
            name = m.name;
            status = "active";
          })
          t.modules;
  })

  unfoldable pub insert_plan : String → String → String → Step
  insert_plan code name metadata t = some (record t {
    plans =
        insert_absent (has_code code)
          (record {
            id = run.uuid ("plans" ∷ code ∷ []);
            code = code;
            name = name;
            status = "active";
            metadata_json = metadata;
          })
          t.plans;
  })

  unfoldable pub insert_plan_feature : String → String → String → Step
  insert_plan_feature plan m feature t = some (record t {
    plan_entitlements =
        insert_absent (is_plan_feature plan m feature)
          (record { plan_id = plan; module_id = m; feature_key = feature; enabled = true })
          t.plan_entitlements;
  })

  -- A module without an id would put NULL into a column that takes none.
  unfoldable pub plan_feature : String → String → String → Step
  unfolding given insert_plan_feature
  plan_feature plan key feature = given (module_id key) (λ m. insert_plan_feature plan m feature)

  unfoldable pub plan_module : String → Module → Step
  unfolding each plan_feature
  plan_module plan m = each (plan_feature plan m.key) m.features

  abbrev pub new_demo_tenant : Demo → TenantRow
  new_demo_tenant d = record {
    id = run.uuid ("tenants" ∷ d.slug ∷ []);
    slug = d.slug;
    name = d.name;
    status = "active";
    trial_ends_at = run.trial_end;
  }

  unfoldable pub upsert_tenant : Demo → Step
  upsert_tenant d t =
      some
        (record t { tenants = upsert (has_slug d.slug) (set_name d) (new_demo_tenant d) t.tenants })

  abbrev pub new_demo_user : Demo → UserRow
  new_demo_user d = record {
    id = run.uuid ("users" ∷ d.slug ∷ []);
    email = d.email;
    email_normalized = d.normalized;
    password_hash = run.password_hash;
    name = d.name;
    status = "active";
  }

  abbrev pub set_hash : UserRow → UserRow
  set_hash r = record r { password_hash = run.password_hash }

  -- It throws where it inserts a user whose address another row has: the address is a unique key of its
  -- own, beside its normalized form.
  unfoldable pub upsert_user : Demo → Step
  unfolding is_refused
  upsert_user d t =
      if is_refused d t.users
      then none
      else some
          (record t { users = upsert (has_email d.normalized) set_hash (new_demo_user d) t.users })

  abbrev pub new_membership : String → String → String → String → MembershipRow
  new_membership slug tenant user role = record {
    id = run.uuid ("memberships" ∷ slug ∷ []);
    tenant_id = tenant;
    user_id = user;
    organization_id = none;
    role_id = role;
    status = "active";
  }

  -- The unique key of memberships has the organization, which is NULL here; PostgreSQL takes NULLs for
  -- different from each other, so that `ON CONFLICT DO NOTHING` meets no conflict.
  unfoldable pub insert_membership : String → String → String → String → Step
  insert_membership slug tenant user role t =
      some (record t { memberships = t.memberships ++ new_membership slug tenant user role ∷ [] })

  unfoldable pub insert_subscription : String → String → String → Step
  insert_subscription slug tenant plan t = some (record t {
    subscriptions =
        insert_absent (is_subscribed tenant)
          (record {
            id = run.uuid ("subscriptions" ∷ slug ∷ []);
            tenant_id = tenant;
            provider = "manual";
            plan_id = plan;
            status = "active";
            current_period_start = run.now;
            current_period_end = run.period_end;
          })
          t.subscriptions;
  })

  unfoldable pub insert_feature : String → String → String → Step
  insert_feature tenant m feature t = some (record t {
    entitlements =
        insert_absent (is_feature tenant m feature)
          (record {
            id = run.uuid ("tenant_entitlements" ∷ tenant ∷ m ∷ feature ∷ []);
            tenant_id = tenant;
            module_id = m;
            feature_key = feature;
            enabled = true;
            source = "seed";
          })
          t.entitlements;
  })

  unfoldable pub tenant_feature : String → String → String → Step
  unfolding given insert_feature
  tenant_feature tenant key feature = given (module_id key) (λ m. insert_feature tenant m feature)

  unfoldable pub tenant_module : String → Module → Step
  unfolding each tenant_feature
  tenant_module tenant m = each (tenant_feature tenant m.key) m.features

  -- What is written of a demo tenant once it has its id and its owner.
  unfoldable pub subscribe : String → String → String → Step
  unfolding ◌>>>◌ insert_subscription each tenant_module
  subscribe slug plan tenant =
      insert_subscription slug tenant plan >>> each (tenant_module tenant) modules

  unfoldable pub seed_tenant : String → Demo → Step
  unfolding ◌>>>◌ given upsert_tenant upsert_user insert_membership subscribe
  seed_tenant plan d =
      upsert_tenant d
      >>> given (tenant_id d.slug) (λ tenant.
        upsert_user d
        >>> given (user_id d.normalized) (λ user.
          given (role_id "tenant_owner") (insert_membership d.slug tenant user)
          >>> subscribe d.slug plan tenant))

  unfoldable pub seed_plan : String → Step
  unfolding ◌>>>◌ each plan_module seed_tenant
  seed_plan plan = each (plan_module plan) modules >>> each (seed_tenant plan) demo_tenants

  -- `main`
  unfoldable pub seed : Step
  unfolding ◌>>>◌ given each insert_permission seed_role insert_module insert_plan seed_plan
  seed =
      each insert_permission permission_keys
      >>> (each seed_role system_roles
          >>> (each insert_module modules
              >>> (insert_plan "free-trial" "Free Trial" run.trial_metadata
                  >>> (insert_plan "demo-pro" "Demo Pro"
                        "{\"note\":\"local demo plan with all modules enabled\"}"
                      >>> given (plan_id "demo-pro") seed_plan))))
