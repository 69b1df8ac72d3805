-- ===== src/Seed/Inserts.antt =====
-- The statements of packages/db/prisma/seed.ts one by one: each is stable, and the ids that it looks
-- up are kept.
use mathlib.Core.Path.{subst}
use mathlib.Core.Option.{some-injective}
use mathlib.Core.List.{◌++◌, append-nil}
use wa_ops.Base.{
  ◌≡◌, refl, sym, Bool, true, false, ◌&&◌, String, some, [], ◌∷◌, arith, str_eq, eq_iff, Bool-cases,
  inl, inr,
}
use wa_ops.Contracts.Modules.{Module}
use wa_ops.Seed.Rows.{
  id_where-Grown, id_where-find, id_where-upsert, id_where-upsert_there, map-upsert, upsert,
}
use wa_ops.Seed.{
  Tables, Run, has_key, has_role_name, is_grant, has_module_key, has_code, is_plan_feature,
  has_slug, has_email, is_subscribed, is_feature,
}
use wa_ops.Seed.Running.{
  Demo, new_demo_tenant, new_demo_user, new_membership, set_name, set_hash, is_refused, user_id,
  permission_id, role_id, module_id, plan_id, insert_permission, insert_role, insert_grant,
  insert_module, insert_plan, insert_plan_feature, upsert_tenant, upsert_user, insert_membership,
  insert_subscription, insert_feature,
}
use wa_ops.Seed.Stable.{Grows, Stable, bare_tenant, bare_user}
use wa_ops.Seed.Slots.{
  insert_into-Stable, permissions_slot, roles_slot, grants_slot, modules_slot, plans_slot,
  plan_entitlements_slot, subscriptions_slot, entitlements_slot,
}

pub str_eq_refl : (s : String) → str_eq s s ≡ true
str_eq_refl s = (eq_iff s s).1 refl

both : {a b : Bool} → a ≡ true → b ≡ true → (a && b) ≡ true
both h k = ground arith

-- The lookups.
pub permission_id-kept :
    (key : String) (t t' : Tables) (i : String)
    → Grows t t'
    → permission_id key t ≡ some i
    → permission_id key t' ≡ some i
permission_id-kept key t t' i g =
    id_where-Grown (has_key key) (λ r. r.id) t.permissions t'.permissions i g.permissions

pub role_id-kept :
    (name : String) (t t' : Tables) (i : String)
    → Grows t t'
    → role_id name t ≡ some i
    → role_id name t' ≡ some i
role_id-kept name t t' i g =
    id_where-Grown (has_role_name name) (λ r. r.id) t.roles t'.roles i g.roles

pub module_id-kept :
    (key : String) (t t' : Tables) (i : String)
    → Grows t t'
    → module_id key t ≡ some i
    → module_id key t' ≡ some i
module_id-kept key t t' i g =
    id_where-Grown (has_module_key key) (λ r. r.id) t.modules t'.modules i g.modules

pub plan_id-kept :
    (code : String) (t t' : Tables) (i : String)
    → Grows t t'
    → plan_id code t ≡ some i
    → plan_id code t' ≡ some i
plan_id-kept code t t' i g = id_where-Grown (has_code code) (λ r. r.id) t.plans t'.plans i g.plans

module _ (run run' : Run) where
  -- The inserts.
  pub insert_permission-Stable :
      (key : String) → Stable 0 (insert_permission run key) (insert_permission run' key)
  unfolding insert_permission
  insert_permission-Stable key =
      insert_into-Stable permissions_slot (has_key key) _ _ (str_eq_refl key)

  pub insert_role-Stable : (name : String) → Stable 0 (insert_role run name) (insert_role run' name)
  unfolding insert_role
  insert_role-Stable name =
      insert_into-Stable roles_slot (has_role_name name) _ _ (str_eq_refl name)

  pub insert_grant-Stable :
      (role permission : String)
      → Stable 0 (insert_grant run role permission) (insert_grant run' role permission)
  unfolding insert_grant
  insert_grant-Stable role permission =
      insert_into-Stable grants_slot (is_grant role permission) _ _
        (both (str_eq_refl role) (str_eq_refl permission))

  pub insert_module-Stable : (m : Module) → Stable 0 (insert_module run m) (insert_module run' m)
  unfolding insert_module
  insert_module-Stable m =
      insert_into-Stable modules_slot (has_module_key m.key) _ _ (str_eq_refl m.key)

  pub insert_plan_feature-Stable :
      (plan m feature : String)
      → Stable 0 (insert_plan_feature run plan m feature) (insert_plan_feature run' plan m feature)
  unfolding insert_plan_feature
  insert_plan_feature-Stable plan m feature =
      insert_into-Stable plan_entitlements_slot (is_plan_feature plan m feature) _ _
        (both (str_eq_refl plan) (both (str_eq_refl m) (str_eq_refl feature)))

  pub insert_subscription-Stable :
      (slug tenant plan : String)
      → Stable 0
          (insert_subscription run slug tenant plan)
          (insert_subscription run' slug tenant plan)
  unfolding insert_subscription
  insert_subscription-Stable slug tenant plan =
      insert_into-Stable subscriptions_slot (is_subscribed tenant) _ _ (str_eq_refl tenant)

  pub insert_feature-Stable :
      (tenant m feature : String)
      → Stable 0 (insert_feature run tenant m feature) (insert_feature run' tenant m feature)
  unfolding insert_feature
  insert_feature-Stable tenant m feature =
      insert_into-Stable entitlements_slot (is_feature tenant m feature) _ _
        (both (str_eq_refl tenant) (both (str_eq_refl m) (str_eq_refl feature)))

  pub insert_plan-Stable :
      (code name metadata metadata' : String)
      → Stable 0 (insert_plan run code name metadata) (insert_plan run' code name metadata')
  unfolding insert_plan
  insert_plan-Stable code name metadata metadata' =
      insert_into-Stable plans_slot (has_code code) _ _ (str_eq_refl code)

  pub upsert_tenant-Stable : (d : Demo) → Stable 0 (upsert_tenant run d) (upsert_tenant run' d)
  unfolding upsert_tenant
  upsert_tenant-Stable d t t' e =
      let rows = upsert (has_slug d.slug) (set_name d) (new_demo_tenant run d) t.tenants in
      let made : (record t { tenants = rows }) ≡ t' = cc in
      let (i, there) =
        id_where-upsert_there (has_slug d.slug) (λ r. r.id) (set_name d) (new_demo_tenant run d)
          t.tenants (λ r. refl) (λ r. refl) (str_eq_refl d.slug) in
      (
        subst (Grows t) made (record {
          permissions = λ p r e. e;
          roles = λ p r e. e;
          grants = λ p r e. e;
          modules = λ p r e. e;
          plans = λ p r e. e;
          plan_entitlements = λ p r e. e;
          subscriptions = λ p r e. e;
          entitlements = λ p r e. e;
          tenants = λ k i.
              id_where-upsert (has_slug k) (has_slug d.slug) (λ r. r.id) (set_name d)
                (new_demo_tenant run d) t.tenants i (λ r. refl) (λ r. refl);
          users = λ k i e. e;
        }),
        λ t'' later.
            let found = later.tenants d.slug i (rw (sym made) there) in
            (
              record t'' {
                tenants =
                    upsert (has_slug d.slug) (set_name d) (new_demo_tenant run' d) t''.tenants;
              },
              refl,
              record {
                permissions = refl;
                roles = refl;
                grants = refl;
                modules = refl;
                plans = refl;
                plan_entitlements = refl;
                subscriptions = refl;
                entitlements = refl;
                tenants =
                    map-upsert (has_slug d.slug) bare_tenant (set_name d) (λ r. r.id)
                      (new_demo_tenant run' d) t''.tenants i (λ r. refl) found;
                users = refl;
                added = [];
                memberships = sym (append-nil t''.memberships);
                counted = refl;
              },
            ),
      )

  pub upsert_user-Stable : (d : Demo) → Stable 0 (upsert_user run d) (upsert_user run' d)
  unfolding upsert_user is_refused
  upsert_user-Stable d t t' e = elim (Bool-cases (is_refused d t.users)) [
    | inl bad ↦ absurd (cc (rw (bad, upsert_user) at e))
    | inr fine ↦
        let rows = upsert (has_email d.normalized) (set_hash run) (new_demo_user run d) t.users in
        let made : (record t { users = rows }) ≡ t' =
          some-injective _ t' (rw (fine, upsert_user) at e) in
        let (i, there) =
          id_where-upsert_there (has_email d.normalized) (λ r. r.id) (set_hash run)
            (new_demo_user run d) t.users (λ r. refl) (λ r. refl) (str_eq_refl d.normalized) in
        (
          subst (Grows t) made (record {
            permissions = λ p r e. e;
            roles = λ p r e. e;
            grants = λ p r e. e;
            modules = λ p r e. e;
            plans = λ p r e. e;
            plan_entitlements = λ p r e. e;
            subscriptions = λ p r e. e;
            entitlements = λ p r e. e;
            tenants = λ k i e. e;
            users = λ k i.
                id_where-upsert (has_email k) (has_email d.normalized) (λ r. r.id) (set_hash run)
                  (new_demo_user run d) t.users i (λ r. refl) (λ r. refl);
          }),
          λ t'' later.
              let found = later.users d.normalized i (rw (sym made) there) in
              (
                record t'' {
                  users =
                      upsert (has_email d.normalized) (set_hash run') (new_demo_user run' d)
                        t''.users;
                },
                rw (there_now t'' i found, upsert_user) refl,
                record {
                  permissions = refl;
                  roles = refl;
                  grants = refl;
                  modules = refl;
                  plans = refl;
                  plan_entitlements = refl;
                  subscriptions = refl;
                  entitlements = refl;
                  tenants = refl;
                  users =
                      map-upsert (has_email d.normalized) bare_user (set_hash run') (λ r. r.id)
                        (new_demo_user run' d) t''.users i (λ r. refl) found;
                  added = [];
                  memberships = sym (append-nil t''.memberships);
                  counted = refl;
                },
              ),
        )
  ]
    where
      there_now :
          (t'' : Tables) (i : String)
          → user_id d.normalized t'' ≡ some i
          → is_refused d t''.users ≡ false
      there_now t'' i found =
          let (r, stands, _) =
            id_where-find (has_email d.normalized) (λ x. x.id) t''.users i found in
          rw (stands, is_refused) refl

  pub insert_membership-Stable :
      (slug tenant user role : String)
      → Stable 1
          (insert_membership run slug tenant user role)
          (insert_membership run' slug tenant user role)
  unfolding insert_membership
  insert_membership-Stable slug tenant user role t t' e =
      let rows = t.memberships ++ new_membership run slug tenant user role ∷ [] in
      let made : (record t { memberships = rows }) ≡ t' = cc in
      (
        subst (Grows t) made (record {
          permissions = λ p r e. e;
          roles = λ p r e. e;
          grants = λ p r e. e;
          modules = λ p r e. e;
          plans = λ p r e. e;
          plan_entitlements = λ p r e. e;
          subscriptions = λ p r e. e;
          entitlements = λ p r e. e;
          tenants = λ k i e. e;
          users = λ k i e. e;
        }),
        λ t'' later. (
          record t'' {
            memberships = t''.memberships ++ new_membership run' slug tenant user role ∷ [];
          },
          refl,
          record {
            permissions = refl;
            roles = refl;
            grants = refl;
            modules = refl;
            plans = refl;
            plan_entitlements = refl;
            subscriptions = refl;
            entitlements = refl;
            tenants = refl;
            users = refl;
            added = new_membership run' slug tenant user role ∷ [];
            memberships = refl;
            counted = refl;
          },
        ),
      )
