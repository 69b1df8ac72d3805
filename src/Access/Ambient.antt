-- ===== src/Access/Ambient.antt =====
-- The ambient context of packages/tenancy/src/index.ts, and what `PermissionService` of
-- packages/authz/src/index.ts asks of it. `AsyncLocalStorage` gives a computation the context that it
-- was run with, if any: a computation is a function of that.
use Prim.Native.String.{◌++◌}
use wa_ops.Base.{
  ◌≡◌, refl, ◌↔◌, ◌≢◌, true, false, String, Option, none, some, List, [], ◌∷◌, str_eq,
  if◌then◌else◌, Bool-cases, inl, inr,
}
use wa_ops.Errors.{returned}
use wa_ops.Access.{Permissions, has, has_any, can_activate, can_activate_iff}

pub data ActorType : Type 0 where
  user agent system : ActorType

-- TenantContext
pub record TenantContext : Type 0 where
  pub user_id : String
  pub tenant_id : String
  pub organization_scope : Option String
  pub permissions : Permissions
  pub entitlements : List String
  pub request_id : String
  pub actor_type : ActorType

-- What these functions throw: an `Error` with its message, or a PermissionDeniedError with the
-- permission that it asks for.
pub data Thrown : Type 0 where
  plain : (message : String) → Thrown
  permission_denied : (required_permission : String) → Thrown

pub data Outcome {ℓ} (Answer : Type ℓ) : Type ℓ where
  thrown : Thrown → Outcome Answer
  done : Answer → Outcome Answer

abbrev pub Ambient {ℓ} : Type ℓ → Type ℓ
Ambient Answer = Option TenantContext → Outcome Answer

-- runWithTenantContext; what `fn` does sees this context, and not the one around it.
abbrev pub run_with_tenant_context {ℓ} :
    {Answer : Type ℓ} → TenantContext → Ambient Answer → Ambient Answer
run_with_tenant_context ctx fn outer = fn (some ctx)

-- getTenantContext
abbrev pub get_tenant_context : Ambient (Option TenantContext)
get_tenant_context store = done store

unfoldable pub require_tenant_context : Ambient TenantContext
require_tenant_context none =
    thrown (plain "TenantContext missing: operation must run inside an authenticated request scope")
require_tenant_context (some ctx) = done ctx

abbrev pub map_outcome {ℓ κ} :
    {First : Type ℓ} {Second : Type κ} → (First → Outcome Second) → Outcome First → Outcome Second
map_outcome rest (thrown e) = thrown e
map_outcome rest (done x) = rest x

unfoldable pub require_tenant_id : Ambient String
unfolding require_tenant_context
require_tenant_id store = map_outcome (λ ctx. done ctx.tenant_id) (require_tenant_context store)

abbrev pub job_context : String → TenantContext
job_context tenant_id = record {
  user_id = "system";
  tenant_id = tenant_id;
  organization_scope = none;
  permissions = [];
  entitlements = [];
  request_id = "job_" ++ tenant_id;
  actor_type = system;
}

unfoldable pub run_tenant_job {ℓ} :
    {Answer : Type ℓ} → String → (TenantContext → Ambient Answer) → Ambient Answer
run_tenant_job tenant_id fn =
    run_with_tenant_context (job_context tenant_id) (fn (job_context tenant_id))

-- tenantScope: undefined, null and the empty string are refused.
unfoldable pub tenant_scope : Option String → Outcome String
tenant_scope none = thrown (plain "tenant-scoped query requires explicit non-null tenantId")
tenant_scope (some tenant_id) =
    if str_eq tenant_id ""
    then thrown (plain "tenant-scoped query requires explicit non-null tenantId")
    else done tenant_id

unfoldable pub authorize : String → Ambient (Unit {0})
unfolding require_tenant_context
authorize required store =
    map_outcome
      (λ ctx. if has ctx.permissions required then done tt else thrown (permission_denied required))
      (require_tenant_context store)

-- `required.join('|')`
unfoldable pub join_keys : List String → String
join_keys [] = ""
join_keys (k ∷ ks) = elim ks [ [] ↦ k | j ∷ js ↦ k ++ ("|" ++ join_keys ks) ]

unfoldable pub authorize_any : List String → Ambient (Unit {0})
unfolding require_tenant_context join_keys
authorize_any required store =
    map_outcome
      (λ ctx.
        if has_any ctx.permissions required
        then done tt
        else thrown (permission_denied (join_keys required)))
      (require_tenant_context store)

-- A permission that is authorized is one that the ambient context has.
pub authorize_iff :
    (required : String) (store : Option TenantContext)
    → (authorize required store ≡ done tt)
      ↔ ((ctx : TenantContext) × (store ≡ some ctx) × (has ctx.permissions required ≡ true))
unfolding authorize require_tenant_context
authorize_iff required none = (λ h. cc, λ (_, e, _). cc)
authorize_iff required (some ctx) = elim (Bool-cases (has ctx.permissions required)) [
  | inl p ↦ (λ _. (ctx, refl, p), λ _. rw p refl)
  | inr p ↦ rw p (λ h. cc, λ (c, e, h). cc)
]

abbrev pub permissions_of : Option TenantContext → Option Permissions
permissions_of none = none
permissions_of (some ctx) = some ctx.permissions

-- For a request with claims, the guard of a route and `authorize` let the same contexts through, for
-- every key that is not empty.
pub can_activate-authorize_iff :
    (key : String) (store : Option TenantContext)
    → key ≢ ""
    → (can_activate (some key) true (permissions_of store) ≡ returned tt)
      ↔ (authorize key store ≡ done tt)
can_activate-authorize_iff key none filled =
    let (down, _) = can_activate_iff key true none filled in
    let (out, _) = authorize_iff key none in
    (λ h. let (_, _, e, _) = down h in absurd cc, λ h. let (_, e, _) = out h in absurd cc)
can_activate-authorize_iff key (some ctx) filled =
    let (down, up) = can_activate_iff key true (some ctx.permissions) filled in
    let (out, back) = authorize_iff key (some ctx) in
    (
      λ h. let (_, p, e, held) = down h in back (ctx, refl, cc),
      λ h. let (c, e, held) = out h in up (refl, ctx.permissions, refl, cc),
    )

has_any_nothing : (keys : List String) → has_any [] keys ≡ false
unfolding has_any has
has_any_nothing [] = refl
has_any_nothing (k ∷ keys) = has_any_nothing keys

-- Inside a job of a tenant, whatever the context around it: the tenant is the job's, and every
-- permission is refused, alone or among others.
pub run_tenant_job-denies :
    (tenant_id required : String) (keys : List String) (outer : Option TenantContext)
    → (run_tenant_job tenant_id (λ _. require_tenant_id) outer ≡ done tenant_id)
      × (run_tenant_job tenant_id (λ _. authorize required) outer
          ≡ thrown (permission_denied required))
      × (run_tenant_job tenant_id (λ _. authorize_any keys) outer
          ≡ thrown (permission_denied (join_keys keys)))
unfolding run_tenant_job require_tenant_id require_tenant_context authorize authorize_any has
run_tenant_job-denies tenant_id required keys outer = (refl, refl, rw (has_any_nothing keys) refl)
