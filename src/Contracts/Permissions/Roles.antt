-- ===== src/Contracts/Permissions/Roles.antt =====
-- What the roles of packages/contracts/src/permissions.ts let their holders do behind the guard of
-- apps/api/src/auth/permissions.guard.ts.
use text.Mathlib.Text.{starts_with}
use wa_ops.Base.Text.{codes, text_eq, split_at}
use wa_ops.Base.{
  ◌≡◌, refl, ◌≢◌, ◌⊎◌, inl, inr, Bool, true, String, some, List, [], ◌∷◌, arith, str_eq, eq_iff,
  sym, not, ◌++◌, Bool-cases, ◌&&◌,
}
use wa_ops.Errors.{returned}
use wa_ops.Access.{has, has_all, can_activate, can_activate_iff, permission_namespace}
use wa_ops.Contracts.Permissions.{
  SystemRole, platform_root, tenant_owner, tenant_admin, technical_admin, operator, support_agent,
  customer_user, viewer, permission_keys, filter, role_permissions, is_owner_key, is_admin_key,
  is_technical_key,
}

-- A filtered list has the keys of the list that pass the test.
pub has-filter :
    (test : String → Bool) (keys : List String) (k : String)
    → has (filter test keys) k ≡ (has keys k && test k)
unfolding has filter
has-filter test [] k = refl
has-filter test (j ∷ keys) k = elim (Bool-cases (str_eq j k)) [
  | inl same ↦ rw ((eq_iff j k).0 same) ground (arith, has-filter test keys k)
  | inr other ↦ ground (arith, has-filter test keys k)
]

unfoldable all_pass : (String → Bool) → List String → Bool
all_pass test [] = true
all_pass test (k ∷ ks) = test k && all_pass test ks

all_pass-has :
    (test : String → Bool) (keys : List String) (k : String)
    → all_pass test keys ≡ true
    → has keys k ≡ true
    → test k ≡ true
unfolding all_pass has
all_pass-has test [] k pass held = cc
all_pass-has test (j ∷ keys) k pass held = elim (Bool-cases (str_eq j k)) [
  | inl same ↦ rw (sym ((eq_iff j k).0 same)) ground arith
  | inr other ↦ all_pass-has test keys k (ground arith) (ground arith)
]

enters-has :
    (role : SystemRole) (key : String)
    → key ≢ ""
    → can_activate (some key) true (some (role_permissions role)) ≡ returned tt
    → has (role_permissions role) key ≡ true
enters-has role key filled entered =
    let (_, permissions, same, held) =
      (can_activate_iff key true (some (role_permissions role)) filled).0 entered in
    cc

-- A key that ends as `hosts.read` does behind its namespace.
unfoldable pub is_read_key : String → Bool
unfolding permission_namespace
is_read_key k = text_eq (permission_namespace (codes k) ++ codes "read") (codes k)

abbrev is_free_key : String → Bool
is_free_key k = not (starts_with k "billing.")

-- The roles by what all their keys pass.
viewer-reads : all_pass is_read_key (role_permissions viewer) ≡ true
unfolding all_pass role_permissions is_read_key text_eq split_at
viewer-reads = refl

owner_keys :
    (role : SystemRole)
    → (role ≡ platform_root) ⊎ (all_pass is_owner_key (role_permissions role) ≡ true)
unfolding all_pass role_permissions filter permission_keys is_owner_key is_admin_key
    is_technical_key
owner_keys platform_root = inl refl
owner_keys tenant_owner = inr refl
owner_keys tenant_admin = inr refl
owner_keys technical_admin = inr refl
owner_keys operator = inr refl
owner_keys support_agent = inr refl
owner_keys customer_user = inr refl
owner_keys viewer = inr refl

free_keys :
    (role : SystemRole)
    → ((role ≡ platform_root) ⊎ (role ≡ tenant_owner))
      ⊎ (all_pass is_free_key (role_permissions role) ≡ true)
unfolding all_pass role_permissions filter permission_keys is_owner_key is_admin_key
    is_technical_key
free_keys platform_root = inl (inl refl)
free_keys tenant_owner = inl (inr refl)
free_keys tenant_admin = inr refl
free_keys technical_admin = inr refl
free_keys operator = inr refl
free_keys support_agent = inr refl
free_keys customer_user = inr refl
free_keys viewer = inr refl

-- What the guard makes of a key that only some roles have.
manages_tenants :
    (role : SystemRole) (key : String)
    → has (role_permissions role) key ≡ true
    → key ≡ "tenants.manage"
    → role ≡ platform_root
unfolding is_owner_key
manages_tenants role key held same = elim (owner_keys role) [
  | inl root ↦ root
  | inr pass ↦
      (let test = all_pass-has is_owner_key (role_permissions role) key pass held in
        absurd (ground (arith, eq_iff key "tenants.manage")))
]

sees_bills :
    (role : SystemRole) (key : String)
    → has (role_permissions role) key ≡ true
    → starts_with key "billing." ≡ true
    → (role ≡ platform_root) ⊎ (role ≡ tenant_owner)
sees_bills role key held bill = elim (free_keys role) [
  | inl few ↦ few
  | inr pass ↦
      (let test = all_pass-has is_free_key (role_permissions role) key pass held in
        absurd (ground arith))
]

-- With the permissions that the system's roles start with, the guard lets only the platform's root
-- into a route of `tenants.manage`, only the root and a tenant's owner into a route of billing, and
-- the viewer only into routes whose key ends in `read`.
pub can_activate-role_permissions :
    (role : SystemRole) (key : String)
    → key ≢ ""
    → can_activate (some key) true (some (role_permissions role)) ≡ returned tt
    → (key ≡ "tenants.manage" → role ≡ platform_root)
      × (starts_with key "billing." ≡ true → (role ≡ platform_root) ⊎ (role ≡ tenant_owner))
      × (role ≡ viewer → is_read_key key ≡ true)
can_activate-role_permissions role key filled entered =
    let held = enters-has role key filled entered in
    (
      manages_tenants role key held,
      sees_bills role key held,
      λ same.
          all_pass-has is_read_key (role_permissions viewer) key viewer-reads (rw (sym same) held),
    )

-- Every key of a role is one of the permission keys.
pub has_all-role_permissions :
    (role : SystemRole) → has_all permission_keys (role_permissions role) ≡ true
unfolding has_all has role_permissions filter permission_keys is_owner_key is_admin_key
    is_technical_key
has_all-role_permissions platform_root = refl
has_all-role_permissions tenant_owner = refl
has_all-role_permissions tenant_admin = refl
has_all-role_permissions technical_admin = refl
has_all-role_permissions operator = refl
has_all-role_permissions support_agent = refl
has_all-role_permissions customer_user = refl
has_all-role_permissions viewer = refl
