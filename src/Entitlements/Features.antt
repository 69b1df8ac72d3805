-- ===== src/Entitlements/Features.antt =====
-- Who is entitled to a feature of a module.
use wa_ops.Base.{
  ◌≡◌, refl, ◌↔◌, true, String, Option, some, arith, Bool-cases, Option-cases, inl, inr,
}
use wa_ops.Entitlements.{Registry, has_feature, Entitlement, entitled, check, assert_entitled}

module _ (module_id : String → Option String)
    (entitlement : String → String → String → Option Entitlement) where
  -- A tenant passes exactly when the registry has the feature, the database has the module, and the
  -- tenant has a row for that feature of it that is enabled; without a row it does not.
  pub assert_entitled_iff :
      (registry : Registry) (tenant module_key feature : String)
      → (assert_entitled module_id entitlement registry tenant module_key feature ≡ entitled) ↔ (
          (has_feature registry module_key feature ≡ true)
          × (id : String) × (row : Entitlement) × (module_id module_key ≡ some id)
          × (entitlement tenant id feature ≡ some row)
          × (row.enabled ≡ true))
  unfolding assert_entitled check
  assert_entitled_iff registry tenant module_key feature =
      elim (Bool-cases (has_feature registry module_key feature)) [
        | inr p ↦ rw p (λ h. cc, λ h. cc)
        | inl p ↦ elim (Option-cases (module_id module_key)) [
          | inl q ↦ rw (p, q, check) (λ h. cc, λ (_, _, _, e, _, _). cc)
          | inr (id, q) ↦ elim (Option-cases (entitlement tenant id feature)) [
            | inl r ↦
                rw (p, q, r, check) (λ h. cc, λ (_, id', row, e, f, _). ground (arith, e, f, r))
            | inr (row, r) ↦
                rw (p, q, r, check)
                  (
                    λ h. (refl, id, row, refl, r, ground (arith, h)),
                    λ (_, id', row', e, f, g). ground (arith, e, f, g, r),
                  )
          ]
        ]
      ]
