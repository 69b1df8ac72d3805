-- ===== src/Seed/Tests.antt =====
-- Two runs of the seed on empty tables.
use wa_ops.Base.{◌≡◌, refl, String, none, some, []}
use Prim.Native.String.{◌++◌}
use wa_ops.Access.Ambient.{join_keys}
use wa_ops.Seed.{Tables, Run}
use wa_ops.Contracts.Permissions.{permission_keys, system_roles, name_of_role, role_permissions}
use wa_ops.Contracts.Modules.{modules}
use wa_ops.Seed.Rows.{id_where, insert_absent, upsert}
use wa_ops.Seed.Running.{seed, demo_tenants}
use wa_ops.Seed.Stable.{Same}
use wa_ops.Seed.Again.{seed_again}

abbrev empty : Tables
empty = record {
  permissions = [];
  roles = [];
  grants = [];
  modules = [];
  plans = [];
  plan_entitlements = [];
  tenants = [];
  users = [];
  memberships = [];
  subscriptions = [];
  entitlements = [];
}

abbrev run : String → Run
run name = record {
  uuid = λ site. name ++ join_keys site;
  password_hash = name;
  trial_metadata = "{}";
  trial_end = 3;
  now = 0;
  period_end = 30;
}

abbrev seeded : Tables
seeded = elim (seed (run "first") empty) [ some t ↦ t | none ↦ empty ]

seeds : seed (run "first") empty ≡ some seeded
unfolding seed permission_keys system_roles id_where insert_absent name_of_role role_permissions
    modules demo_tenants upsert
seeds = refl

seed_again_example : (last : Tables) × (seed (run "second") seeded ≡ some last) × Same 2 seeded last
seed_again_example = seed_again (run "first") (run "second") empty seeded seeds
