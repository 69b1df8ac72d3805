-- ===== src/Contracts/Permissions/Tests.antt =====
-- A viewer at a route that reads.
use text.Mathlib.Text.{starts_with}
use wa_ops.Base.{◌≡◌, ◌≢◌, refl, ◌⊎◌, true, some, String}
use wa_ops.Errors.{returned}
use wa_ops.Access.{can_activate, has}
use wa_ops.Contracts.Permissions.{platform_root, tenant_owner, viewer, role_permissions}
use wa_ops.Contracts.Permissions.Roles.{is_read_key, can_activate-role_permissions}

is_filled : ◌≢◌ {A = String} "hosts.read" ""
is_filled e = cc

enters : can_activate (some "hosts.read") true (some (role_permissions viewer)) ≡ returned tt
unfolding can_activate role_permissions has
enters = refl

can_activate-role_permissions_example :
    (◌≡◌ {A = String} "hosts.read" "tenants.manage" → viewer ≡ platform_root)
    × (starts_with "hosts.read" "billing." ≡ true
        → (viewer ≡ platform_root) ⊎ (viewer ≡ tenant_owner))
    × (viewer ≡ viewer → is_read_key "hosts.read" ≡ true)
can_activate-role_permissions_example =
    can_activate-role_permissions viewer "hosts.read" is_filled enters
