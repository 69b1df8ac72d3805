-- ===== src/Seed/Again.antt =====
-- What packages/db/prisma/seed.ts does when it is run again, whatever the second run is given.
use wa_ops.Base.{◌≡◌, String, some}
use wa_ops.Contracts.Permissions.{
  SystemRole, permission_keys, system_roles, name_of_role, role_permissions,
}
use wa_ops.Contracts.Modules.{Module, modules}
use wa_ops.Seed.{Tables, Run}
use wa_ops.Seed.Running.{
  Demo, demo_tenants, permission_id, role_id, module_id, plan_id, tenant_id, user_id,
  insert_permission, insert_role, grant, seed_role, insert_module, plan_feature, plan_module,
  upsert_tenant, upsert_user, insert_subscription, tenant_feature, tenant_module, subscribe,
  seed_tenant, seed_plan, seed,
}
use wa_ops.Seed.Stable.{
  Grows-refl, Same, Stable, >>>-Stable, given-Stable, each-Stable, each-Stable_none,
}
use wa_ops.Seed.Inserts.{
  insert_permission-Stable, insert_role-Stable, insert_grant-Stable, insert_module-Stable,
  insert_plan_feature-Stable, insert_subscription-Stable, insert_feature-Stable, insert_plan-Stable,
  upsert_tenant-Stable, upsert_user-Stable, insert_membership-Stable, permission_id-kept,
  role_id-kept, module_id-kept, plan_id-kept,
}

module _ (run run' : Run) where
  -- The parts of the seed.
  seed_role-Stable : (role : SystemRole) → Stable 0 (seed_role run role) (seed_role run' role)
  unfolding seed_role grant
  seed_role-Stable role =
      >>>-Stable 0 0 (insert_role run (name_of_role role)) (insert_role run' (name_of_role role)) _
        _ ((insert_role-Stable run run') (name_of_role role))
        (given-Stable 0 (role_id (name_of_role role)) _ _ (role_id-kept (name_of_role role)) λ id.
          each-Stable_none (grant run id) (grant run' id) (role_permissions role) λ key.
            given-Stable 0 (permission_id key) _ _ (permission_id-kept key)
              ((insert_grant-Stable run run') id))

  plan_module-Stable :
      (plan : String) (m : Module) → Stable 0 (plan_module run plan m) (plan_module run' plan m)
  unfolding plan_module plan_feature
  plan_module-Stable plan m =
      each-Stable_none (plan_feature run plan m.key) (plan_feature run' plan m.key) m.features
        λ feature.
          given-Stable 0 (module_id m.key) _ _ (module_id-kept m.key)
            λ id. (insert_plan_feature-Stable run run') plan id feature

  tenant_module-Stable :
      (tenant : String) (m : Module)
      → Stable 0 (tenant_module run tenant m) (tenant_module run' tenant m)
  unfolding tenant_module tenant_feature
  tenant_module-Stable tenant m =
      each-Stable_none (tenant_feature run tenant m.key) (tenant_feature run' tenant m.key)
        m.features
        λ feature.
          given-Stable 0 (module_id m.key) _ _ (module_id-kept m.key)
            λ id. (insert_feature-Stable run run') tenant id feature

  subscribe-Stable :
      (slug plan tenant : String)
      → Stable 0 (subscribe run slug plan tenant) (subscribe run' slug plan tenant)
  unfolding subscribe
  subscribe-Stable slug plan tenant =
      >>>-Stable 0 0 (insert_subscription run slug tenant plan)
        (insert_subscription run' slug tenant plan) _ _
        ((insert_subscription-Stable run run') slug tenant plan)
        (each-Stable_none (tenant_module run tenant) (tenant_module run' tenant) modules
          (tenant_module-Stable tenant))

  seed_tenant-Stable :
      (plan : String) (d : Demo) → Stable 1 (seed_tenant run plan d) (seed_tenant run' plan d)
  unfolding seed_tenant
  seed_tenant-Stable plan d =
      >>>-Stable 0 1 (upsert_tenant run d) (upsert_tenant run' d) _ _
        ((upsert_tenant-Stable run run') d)
        (given-Stable 1 (tenant_id d.slug) _ _ (λ t t' i g. g.tenants d.slug i)
          λ tenant.
            >>>-Stable 0 1 (upsert_user run d) (upsert_user run' d) _ _
              ((upsert_user-Stable run run') d)
              (given-Stable 1 (user_id d.normalized) _ _ (λ t t' i g. g.users d.normalized i)
                λ user.
                  >>>-Stable 1 0 _ _ _ _
                    (given-Stable 1 (role_id "tenant_owner") _ _ (role_id-kept "tenant_owner")
                      ((insert_membership-Stable run run') d.slug tenant user))
                    (subscribe-Stable d.slug plan tenant)))

  seed_plan-Stable : (plan : String) → Stable 2 (seed_plan run plan) (seed_plan run' plan)
  unfolding seed_plan demo_tenants
  seed_plan-Stable plan =
      >>>-Stable 0 2 _ _ _ _
        (each-Stable_none (plan_module run plan) (plan_module run' plan) modules
          (plan_module-Stable plan))
        (each-Stable 1 (seed_tenant run plan) (seed_tenant run' plan) demo_tenants
          (seed_tenant-Stable plan))

  pub seed-Stable : Stable 2 (seed run) (seed run')
  unfolding seed
  seed-Stable =
      >>>-Stable 0 2 _ _ _ _
        (each-Stable_none (insert_permission run) (insert_permission run') permission_keys
          (insert_permission-Stable run run'))
        (>>>-Stable 0 2 _ _ _ _
          (each-Stable_none (seed_role run) (seed_role run') system_roles seed_role-Stable)
          (>>>-Stable 0 2 _ _ _ _
            (each-Stable_none (insert_module run) (insert_module run') modules
              (insert_module-Stable run run'))
            (>>>-Stable 0 2 _ _ _ _
              ((insert_plan-Stable run run') "free-trial" "Free Trial" run.trial_metadata
                run'.trial_metadata)
              (>>>-Stable 0 2 _ _ _ _ ((insert_plan-Stable run run') "demo-pro" "Demo Pro" _ _) (
                given-Stable 2 (plan_id "demo-pro") _ _ (plan_id-kept "demo-pro")
                  seed_plan-Stable)))))

-- Where the seed has returned, a second run on what it left returns too, whatever it is given: it leaves
-- eight tables as they are, the tenants but for their names and the users but for their password hashes,
-- and it adds two memberships behind those that are there. Asked of `uuidv4`: its ids are new.
pub seed_again :
    (run run' : Run) (t t' : Tables)
    → seed run t ≡ some t'
    → (last : Tables) × (seed run' t' ≡ some last) × Same 2 t' last
seed_again run run' t t' e =
    let (_, repeats) = seed-Stable run run' t t' e in repeats t' (Grows-refl t')
