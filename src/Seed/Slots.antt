-- ===== src/Seed/Slots.antt =====
-- The tables that packages/db/prisma/seed.ts only inserts into: how each lies among the others.
use mathlib.Core.Path.{subst}
use wa_ops.Base.{◌≡◌, refl, sym, Bool, true, some, List}
use wa_ops.Seed.{
  PermissionRow, RoleRow, GrantRow, ModuleRow, PlanRow, PlanEntitlementRow, SubscriptionRow,
  EntitlementRow, Tables, Step,
}
use wa_ops.Seed.Rows.{
  Grown, insert_absent, Grown-insert_absent, find-insert_absent, insert_absent_there,
}
use wa_ops.Seed.Stable.{Grows, Same-refl, Stable}

-- A table among the others: reading it, writing it, and that writing it touches no other.
pub record Slot (Row : Type 0) : Type 0 where
  pub read : Tables → List Row
  pub write : List Row → Tables → Tables
  pub read-write : (rows : List Row) (t : Tables) → read (write rows t) ≡ rows
  pub write-read : (t : Tables) → write (read t) t ≡ t
  pub grows : (t : Tables) (rows : List Row) → Grown (read t) rows → Grows t (write rows t)
  pub grown : (t t' : Tables) → Grows t t' → Grown (read t) (read t')

abbrev pub insert_into : {Row : Type 0} → Slot Row → (Row → Bool) → Row → Step
insert_into slot p row t = some (slot.write (insert_absent p row (slot.read t)) t)

-- An insertion is stable, whatever else the two rows say.
pub insert_into-Stable :
    {Row : Type 0} (slot : Slot Row) (p : Row → Bool) (row row' : Row)
    → p row ≡ true
    → Stable 0 (insert_into slot p row) (insert_into slot p row')
insert_into-Stable slot p row row' fits t t' e =
    let rows = insert_absent p row (slot.read t) in
    let made : slot.write rows t ≡ t' = cc in
    let grown = Grown-insert_absent p row (slot.read t) in
    let (r, there) = find-insert_absent p row (slot.read t) fits in
    (
      subst (Grows t) made (slot.grows t rows grown),
      λ t'' later.
          let found = slot.grown t' t'' later p r (rw (sym made, slot.read-write rows t) there) in
          let kept = insert_absent_there p row' r (slot.read t'') found in
          (
            slot.write (insert_absent p row' (slot.read t'')) t'',
            refl,
            rw (kept, slot.write-read t'') (Same-refl t''),
          ),
    )

abbrev pub permissions_slot : Slot PermissionRow
permissions_slot = record {
  read = λ t. t.permissions;
  write = λ rows t. record t { permissions = rows };
  read-write = λ rows t. refl;
  write-read = λ t. refl;
  grows = λ t rows g. record {
    permissions = g;
    roles = λ p r e. e;
    grants = λ p r e. e;
    modules = λ p r e. e;
    plans = λ p r e. e;
    plan_entitlements = λ p r e. e;
    subscriptions = λ p r e. e;
    entitlements = λ p r e. e;
    tenants = λ slug i e. e;
    users = λ email i e. e;
  };
  grown = λ t t' g. g.permissions;
}

abbrev pub roles_slot : Slot RoleRow
roles_slot = record {
  read = λ t. t.roles;
  write = λ rows t. record t { roles = rows };
  read-write = λ rows t. refl;
  write-read = λ t. refl;
  grows = λ t rows g. record {
    permissions = λ p r e. e;
    roles = g;
    grants = λ p r e. e;
    modules = λ p r e. e;
    plans = λ p r e. e;
    plan_entitlements = λ p r e. e;
    subscriptions = λ p r e. e;
    entitlements = λ p r e. e;
    tenants = λ slug i e. e;
    users = λ email i e. e;
  };
  grown = λ t t' g. g.roles;
}

abbrev pub grants_slot : Slot GrantRow
grants_slot = record {
  read = λ t. t.grants;
  write = λ rows t. record t { grants = rows };
  read-write = λ rows t. refl;
  write-read = λ t. refl;
  grows = λ t rows g. record {
    permissions = λ p r e. e;
    roles = λ p r e. e;
    grants = g;
    modules = λ p r e. e;
    plans = λ p r e. e;
    plan_entitlements = λ p r e. e;
    subscriptions = λ p r e. e;
    entitlements = λ p r e. e;
    tenants = λ slug i e. e;
    users = λ email i e. e;
  };
  grown = λ t t' g. g.grants;
}

abbrev pub modules_slot : Slot ModuleRow
modules_slot = record {
  read = λ t. t.modules;
  write = λ rows t. record t { modules = rows };
  read-write = λ rows t. refl;
  write-read = λ t. refl;
  grows = λ t rows g. record {
    permissions = λ p r e. e;
    roles = λ p r e. e;
    grants = λ p r e. e;
    modules = g;
    plans = λ p r e. e;
    plan_entitlements = λ p r e. e;
    subscriptions = λ p r e. e;
    entitlements = λ p r e. e;
    tenants = λ slug i e. e;
    users = λ email i e. e;
  };
  grown = λ t t' g. g.modules;
}

abbrev pub plans_slot : Slot PlanRow
plans_slot = record {
  read = λ t. t.plans;
  write = λ rows t. record t { plans = rows };
  read-write = λ rows t. refl;
  write-read = λ t. refl;
  grows = λ t rows g. record {
    permissions = λ p r e. e;
    roles = λ p r e. e;
    grants = λ p r e. e;
    modules = λ p r e. e;
    plans = g;
    plan_entitlements = λ p r e. e;
    subscriptions = λ p r e. e;
    entitlements = λ p r e. e;
    tenants = λ slug i e. e;
    users = λ email i e. e;
  };
  grown = λ t t' g. g.plans;
}

abbrev pub plan_entitlements_slot : Slot PlanEntitlementRow
plan_entitlements_slot = record {
  read = λ t. t.plan_entitlements;
  write = λ rows t. record t { plan_entitlements = rows };
  read-write = λ rows t. refl;
  write-read = λ t. refl;
  grows = λ t rows g. record {
    permissions = λ p r e. e;
    roles = λ p r e. e;
    grants = λ p r e. e;
    modules = λ p r e. e;
    plans = λ p r e. e;
    plan_entitlements = g;
    subscriptions = λ p r e. e;
    entitlements = λ p r e. e;
    tenants = λ slug i e. e;
    users = λ email i e. e;
  };
  grown = λ t t' g. g.plan_entitlements;
}

abbrev pub subscriptions_slot : Slot SubscriptionRow
subscriptions_slot = record {
  read = λ t. t.subscriptions;
  write = λ rows t. record t { subscriptions = rows };
  read-write = λ rows t. refl;
  write-read = λ t. refl;
  grows = λ t rows g. record {
    permissions = λ p r e. e;
    roles = λ p r e. e;
    grants = λ p r e. e;
    modules = λ p r e. e;
    plans = λ p r e. e;
    plan_entitlements = λ p r e. e;
    subscriptions = g;
    entitlements = λ p r e. e;
    tenants = λ slug i e. e;
    users = λ email i e. e;
  };
  grown = λ t t' g. g.subscriptions;
}

abbrev pub entitlements_slot : Slot EntitlementRow
entitlements_slot = record {
  read = λ t. t.entitlements;
  write = λ rows t. record t { entitlements = rows };
  read-write = λ rows t. refl;
  write-read = λ t. refl;
  grows = λ t rows g. record {
    permissions = λ p r e. e;
    roles = λ p r e. e;
    grants = λ p r e. e;
    modules = λ p r e. e;
    plans = λ p r e. e;
    plan_entitlements = λ p r e. e;
    subscriptions = λ p r e. e;
    entitlements = g;
    tenants = λ slug i e. e;
    users = λ email i e. e;
  };
  grown = λ t t' g. g.entitlements;
}
