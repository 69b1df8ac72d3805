-- ===== src/Rules.antt =====
-- apps/worker/src/rules.engine.ts, and the evaluation loop of `consumeMetrics` in
-- apps/worker/src/main.ts. A JavaScript number is an argument of the model, a type with its `<`.
pub mod Streak
pub mod Ingest
mod Tests
use Prim.Native.String.{◌++◌ as append}
use wa_ops.Base.{
  ℕ, ◌+◌, Bool, true, false, not, ◌&&◌, String, Option, none, some, List, [], ◌∷◌, ◌++◌, leb,
  if◌then◌else◌, str_eq,
}
use wa_ops.Base.Dict.{Dict, get, put, delete}
use wa_ops.Contracts.{Severity}

pub data Comparator : Type 0 where
  above below : Comparator

module _ (Num : Type 0) (lt : Num → Num → Bool) where
  -- ThresholdRule
  pub record Rule : Type 0 where
    pub metric : String
    pub comparator : Comparator
    pub threshold : Num
    pub consecutive_samples : ℕ
    pub severity : Severity
    pub event_type : String

  -- RuleEvaluation; `eventType` and `severity` are there when the rule has fired.
  pub record Evaluation : Type 0 where
    pub fired : Bool
    pub event_type : Option String
    pub severity : Option Severity
    pub value : Num
    pub consecutive_count : ℕ

  abbrev compare_to : Comparator → Num → Num → Bool
  compare_to above value threshold = lt threshold value
  compare_to below value threshold = lt value threshold

  unfoldable pub violates : Rule → Num → Bool
  violates r value = compare_to r.comparator value r.threshold

  unfoldable pub evaluate_threshold_rule : Rule → ℕ → Num → Evaluation
  evaluate_threshold_rule r prior value =
      let count = if violates r value then prior + 1 else 0 in
      if leb r.consecutive_samples count
      then record {
        fired = true;
        event_type = some r.event_type;
        severity = some r.severity;
        value = value;
        consecutive_count = count;
      }
      else record {
        fired = false;
        event_type = none;
        severity = none;
        value = value;
        consecutive_count = count;
      }

  -- A string, and a severity, that a condition tests.
  abbrev is_named : Option String → Bool
  is_named none = false
  is_named (some s) = not (str_eq s "")

  abbrev is_given : Option Severity → Bool
  is_given none = false
  is_given (some s) = true

  -- RuleStateTracker
  abbrev pub Tracker : Type 0
  Tracker = Dict ℕ

  unfoldable pub key : String → String → String
  key rule_id resource_id = append rule_id (append ":" resource_id)

  abbrev or_zero : Option ℕ → ℕ
  or_zero none = 0
  or_zero (some n) = n

  unfoldable pub track : Tracker → String → String → Num → Rule → Tracker × Evaluation
  track t rule_id resource_id value r =
      let k = key rule_id resource_id in
      let result = evaluate_threshold_rule r (or_zero (get k t)) value in
      (put k result.consecutive_count t, result)

  unfoldable pub reset : Tracker → String → String → Tracker
  reset t rule_id resource_id = delete (key rule_id resource_id) t

  pub record Sample : Type 0 where
    pub metric : String
    pub resource_id : String
    pub value : Num

  -- What is published for a sample: the rule, with the count at which it fired.
  pub record Alert : Type 0 where
    pub rule : Rule
    pub resource_id : String
    pub value : Num
    pub consecutive_count : ℕ

  -- One round of the inner loop.
  unfoldable pub check_rule : Tracker → Sample → Rule → Tracker × List Alert
  check_rule t s r =
      if str_eq r.metric s.metric
      then (let (t', e) = track t r.event_type s.resource_id s.value r in
          (
            t',
            if e.fired && (is_named e.event_type && is_given e.severity)
                then record {
                  rule = r;
                  resource_id = s.resource_id;
                  value = s.value;
                  consecutive_count = e.consecutive_count;
                }
                  ∷ []
                else [],
          ))
      else (t, [])

  unfoldable pub check_rules : Tracker → Sample → List Rule → Tracker × List Alert
  unfolding check_rule
  check_rules t s [] = (t, [])
  check_rules t s (r ∷ rs) =
      let (t', alerts) = check_rule t s r in
      let (t'', more) = check_rules t' s rs in (t'', alerts ++ more)

  -- `dbRules.length > 0 ? dbRules : [DEFAULT_CPU_RULE]`
  abbrev pub effective_rules : Rule → List Rule → List Rule
  effective_rules default [] = default ∷ []
  effective_rules default (r ∷ rs) = r ∷ rs

  unfoldable pub check_samples : Tracker → List Rule → List Sample → Tracker × List Alert
  unfolding check_rules
  check_samples t rs [] = (t, [])
  check_samples t rs (s ∷ ss) =
      let (t', alerts) = check_rules t s rs in
      let (t'', more) = check_samples t' rs ss in (t'', alerts ++ more)
