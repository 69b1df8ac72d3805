-- ===== src/Access.antt =====
-- Who may do what: `PermissionService` of packages/authz/src/index.ts, and `PermissionsGuard` of
-- apps/api/src/auth/permissions.guard.ts, with the answers that apps/api/src/http-exception.filter.ts
-- makes of what they throw.
mod Tests
pub mod Ambient
use wa_ops.Base.{
  ℕ, ◌≡◌, refl, ◌↔◌, ◌≢◌, ◌⊎◌, inl, inr, Bool, true, false, not, ◌&&◌, ◌||◌, String, Option, none,
  some, List, [], ◌∷◌, arith, All, str_eq, eq_iff, if◌then◌else◌, Option-cases, Bool-cases, ◌++◌,
}
use wa_ops.Base.Text.{Text, codes, split_at}
use wa_ops.Errors.{
  Result, returned, raised, authentication_required, simple_error, permission_denied_error,
}

-- A `Set` of permission keys.
abbrev pub Permissions : Type 0
Permissions = List String

unfoldable pub has : Permissions → String → Bool
has [] required = false
has (p ∷ ps) required = str_eq p required || has ps required

-- `required.every(...)`
unfoldable pub has_all : Permissions → List String → Bool
unfolding has
has_all permissions [] = true
has_all permissions (p ∷ ps) = has permissions p && has_all permissions ps

-- `required.some(...)`
unfoldable pub has_any : Permissions → List String → Bool
unfolding has
has_any permissions [] = false
has_any permissions (p ∷ ps) = has permissions p || has_any permissions ps

-- What the guard makes of a route: the permission that it declares, whether the request has claims,
-- and the permissions of the tenant context.
abbrev pub truthy_key : Option String → Option String
truthy_key none = none
truthy_key (some key) = if str_eq key "" then none else some key

abbrev unauthorized : Result (Unit {0})
unauthorized = raised (simple_error authentication_required "authentication required" 401)

abbrev check_permission : String → Bool → Option Permissions → Result (Unit {0})
check_permission required auth none = unauthorized
check_permission required false (some permissions) = unauthorized
check_permission required true (some permissions) =
    if has permissions required then returned tt else raised permission_denied_error

unfoldable pub can_activate : Option String → Bool → Option Permissions → Result (Unit {0})
can_activate required auth ctx = elim (truthy_key required) [
  | none ↦ returned tt
  | some key ↦ check_permission key auth ctx
]

check_permission_iff :
    (key : String) (auth : Bool) (ctx : Option Permissions)
    → (check_permission key auth ctx ≡ returned tt) ↔ (
        (auth ≡ true)
        × (permissions : Permissions) × (ctx ≡ some permissions)
        × (has permissions key ≡ true))
check_permission_iff key true none = (λ h. cc, λ (_, _, h, _). cc)
check_permission_iff key false none = (λ h. cc, λ (_, _, h, _). cc)
check_permission_iff key false (some permissions) = (λ h. cc, λ (h, _, _, _). cc)
check_permission_iff key true (some permissions) = elim (Bool-cases (has permissions key)) [
  | inl p ↦ rw p (λ _. (refl, permissions, refl, p), λ _. refl)
  | inr p ↦ rw p (λ h. cc, λ (_, q, e, h). cc)
]

-- A route that declares a permission is entered exactly by a request with claims whose tenant context
-- has that permission.
pub can_activate_iff :
    (key : String) (auth : Bool) (ctx : Option Permissions)
    → key ≢ ""
    → (can_activate (some key) auth ctx ≡ returned tt) ↔ (
        (auth ≡ true)
        × (permissions : Permissions) × (ctx ≡ some permissions)
        × (has permissions key ≡ true))
unfolding can_activate
can_activate_iff key auth ctx filled = elim (Bool-cases (str_eq key "")) [
  | inl p ↦ absurd (filled ((eq_iff key "").0 p))
  | inr p ↦ rw (p, can_activate) (check_permission_iff key auth ctx)
]

-- All of some permissions are there exactly when each of them is.
pub has_all_iff :
    (permissions : Permissions) (required : List String)
    → (has_all permissions required ≡ true) ↔ All (λ p. has permissions p ≡ true) required
unfolding has_all
has_all_iff permissions [] = (λ _. tt, λ _. refl)
has_all_iff permissions (p ∷ ps) =
    let (down, up) = has_all_iff permissions ps in
    (λ h. (ground arith, down (ground arith)), λ (a, h). let b = up h in ground arith)

-- permissionNamespace: `${key.split('.')[0]}.`
unfoldable pub permission_namespace : Text → Text
permission_namespace key = elim (split_at 46 key) [
  | none ↦ key ++ codes "."
  | some (before, after) ↦ before ++ codes "."
]
