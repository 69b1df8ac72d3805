-- ===== src/Entitlements.antt =====
-- packages/entitlements/src/index.ts: entitlements of modules, and quotas over the usage counters. The
-- starts of the month that `Date` computes, in UTC and in the server's zone, are arguments.
pub mod Features
pub mod Usage
mod Tests
use wa_ops.Base.{
  ℕ, ◌+◌, ◌≡◌, refl, ◌↔◌, Bool, true, false, ◌&&◌, ◌||◌, String, Option, none, some, List, [], ◌∷◌,
  ◌==◌, leb, arith, str_eq, if◌then◌else◌, Bool-cases, Option-cases, inl, inr,
}
use wa_ops.Base.Dict.{Dict, get, put}

-- ModuleDefinition
pub record ModuleDefinition : Type 0 where
  pub key : String
  pub features : List String

-- ModuleRegistry
abbrev pub Registry : Type 0
Registry = Dict ModuleDefinition

unfoldable pub registry_of : Registry → List ModuleDefinition → Registry
registry_of by_key [] = by_key
registry_of by_key (m ∷ ms) = registry_of (put m.key m by_key) ms

abbrev pub has_string : List String → String → Bool
has_string [] s = false
has_string (x ∷ xs) s = str_eq x s || has_string xs s

unfoldable pub has_feature : Registry → String → String → Bool
has_feature by_key module_key feature_key = elim (get module_key by_key) [
  | none ↦ false
  | some m ↦ has_string m.features feature_key
]

-- A row of tenant_entitlements.
pub record Entitlement : Type 0 where
  pub enabled : Bool
  pub limit_value : Option ℕ

-- How `assertEntitled` ends; all but the first are thrown.
pub data Verdict : Type 0 where
  entitled unknown_feature module_not_in_db entitlement_required : Verdict

-- The table of modules by key, and that of entitlements by tenant, module and feature.
module _ (module_id : String → Option String)
    (entitlement : String → String → String → Option Entitlement) where
  -- `none` is the error of `compositeKey`.
  unfoldable pub check : String → String → String → Option Entitlement
  check tenant_id module_key feature_key = elim (module_id module_key) [
    | none ↦ none
    | some id ↦ elim (entitlement tenant_id id feature_key) [
      | none ↦ some (record { enabled = false; limit_value = none })
      | some row ↦ some row
    ]
  ]

  abbrev verdict_of : Option Entitlement → Verdict
  verdict_of none = module_not_in_db
  verdict_of (some row) = if row.enabled then entitled else entitlement_required

  unfoldable pub assert_entitled : Registry → String → String → String → Verdict
  unfolding check has_feature
  assert_entitled registry tenant_id module_key feature_key =
      let verdict = verdict_of (check tenant_id module_key feature_key) in
      if has_feature registry module_key feature_key then verdict else unknown_feature

-- A row of usage_counters, by its unique key.
pub record Counter : Type 0 where
  pub tenant_id : String
  pub metric_key : String
  pub period_start : ℕ
  pub value : ℕ

abbrev pub at_key : String → String → ℕ → Counter → Bool
at_key tenant_id metric_key period c =
    str_eq c.tenant_id tenant_id && (str_eq c.metric_key metric_key && c.period_start == period)

unfoldable pub read : List Counter → String → String → ℕ → ℕ
read [] tenant_id metric_key period = 0
read (c ∷ cs) tenant_id metric_key period =
    let rest = read cs tenant_id metric_key period in
    if at_key tenant_id metric_key period c then c.value else rest

-- `upsert`, with what it makes of a value that is there.
unfoldable pub upsert : (ℕ → ℕ) → ℕ → String → String → ℕ → List Counter → List Counter
upsert f new tenant_id metric_key period [] =
    record { tenant_id = tenant_id; metric_key = metric_key; period_start = period; value = new }
    ∷ []
upsert f new tenant_id metric_key period (c ∷ cs) =
    let rest = upsert f new tenant_id metric_key period cs in
    if at_key tenant_id metric_key period c then record c { value = f c.value } ∷ cs else c ∷ rest

module _ (utc_month local_month : ℕ → ℕ) where
  -- The period is `new Date(year, month, 1)`.
  unfoldable pub current_usage : List Counter → ℕ → String → String → ℕ
  unfolding read
  current_usage counters now tenant_id metric_key =
      read counters tenant_id metric_key (local_month now)

  -- `none` is no limit; `true` is that nothing is thrown.
  unfoldable pub within_quota : List Counter → ℕ → String → String → Option ℕ → Bool
  unfolding current_usage
  within_quota counters now tenant_id metric_key none = true
  within_quota counters now tenant_id metric_key (some limit) =
      if leb limit (current_usage counters now tenant_id metric_key) then false else true

  -- The period is `new Date(Date.UTC(year, month, 1))`.
  unfoldable pub record_usage : List Counter → ℕ → String → String → ℕ → List Counter
  unfolding upsert
  record_usage counters now tenant_id metric_key value =
      upsert (λ _. value) value tenant_id metric_key (utc_month now) counters

  unfoldable pub increment : List Counter → ℕ → String → String → ℕ → List Counter
  unfolding upsert
  increment counters now tenant_id metric_key delta =
      upsert (λ n. n + delta) delta tenant_id metric_key (utc_month now) counters
