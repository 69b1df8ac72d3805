-- ===== src/Rules/Ingest.antt =====
-- The job of `consumeMetrics` in apps/worker/src/main.ts, behind the identity bridge and the insert of
-- the samples: `loadRules` with its cache, and the envelopes that are published. Random ids and the
-- clock are arguments; a number of a rule that JavaScript does not take for finite is none.
pub mod Tenants
pub mod Firing
use Prim.Native.String.{◌++◌ as append}
use wa_ops.Base.{
  ℕ, ◌+◌, Bool, true, false, not, ◌&&◌, String, Option, none, some, List, [], ◌∷◌, ◌++◌, ltb,
  length, if◌then◌else◌, str_eq,
}
use wa_ops.Base.Text.{Text, codes}
use wa_ops.Contracts.{Severity, Envelope, build_event_envelope}
use wa_ops.Contracts.Fingerprint.{compose_fingerprint}
use wa_ops.Rules.{
  Comparator, above, below, Rule, Tracker, Alert, Sample, check_rule, effective_rules,
}

module _ (Num : Type 0) (lt : Num → Num → Bool) where
  -- alertRule, with what is read of `conditionJson`: `consecutive_samples` is `Number(...)` of what is
  -- there, and a natural number here.
  pub record RuleRow : Type 0 where
    pub tenant_id : Text
    pub enabled : Bool
    pub severity : Severity
    pub event_type : String
    pub metric : Option String
    pub comparator : Option String
    pub threshold : Option Num
    pub consecutive_samples : Option ℕ

  abbrev or_empty : Option String → String
  or_empty none = ""
  or_empty (some s) = s

  -- `c.comparator === '<' ? '<' : '>'`
  abbrev comparator_of : Option String → Comparator
  comparator_of none = above
  comparator_of (some s) = if str_eq s "<" then below else above

  -- `c.consecutive_samples ?? 6`
  abbrev samples_or_six : Option ℕ → ℕ
  samples_or_six none = 6
  samples_or_six (some n) = n

  -- The rule of a row, or none where the loop goes on.
  unfoldable pub rule_of : RuleRow → Option (Rule Num lt)
  rule_of r = elim r.threshold [
    | none ↦ none
    | some threshold ↦
        if str_eq (or_empty r.metric) ""
        then none
        else some (record {
          metric = or_empty r.metric;
          comparator = comparator_of r.comparator;
          threshold = threshold;
          consecutive_samples = samples_or_six r.consecutive_samples;
          severity = r.severity;
          event_type = r.event_type;
        })
  ]

  abbrev cons_some : Option (Rule Num lt) → List (Rule Num lt) → List (Rule Num lt)
  cons_some none rules = rules
  cons_some (some r) rules = r ∷ rules

  -- `findMany({ where: { enabled: true } })` with the loop over the rows
  unfoldable pub rules_of : List RuleRow → List (Rule Num lt)
  unfolding rule_of
  rules_of [] = []
  rules_of (r ∷ rows) =
      let rest = rules_of rows in if r.enabled then cons_some (rule_of r) rest else rest

  -- `rulesCache`
  pub record Cache : Type 0 where
    pub rules : List (Rule Num lt)
    pub loaded_at : ℕ

  unfoldable pub load_rules : List RuleRow → ℕ → Cache → Cache
  unfolding rules_of
  load_rules rows now cache =
      if ltb now (cache.loaded_at + 30000)
      then cache
      else record { rules = rules_of rows; loaded_at = now }

  -- An element of `samples`.
  pub record JobSample : Type 0 where
    pub sample : Sample Num lt
    pub observed_at : Option ℕ

  -- The tracker, what the job has published, and whether an envelope was refused, which ends it.
  pub record Run : Type 0 where
    pub tracker : Tracker Num lt
    pub published : List Envelope
    pub refused : Bool

  module _ (sha256_hex : Text → Text) (uuid : ℕ → Text) where
    abbrev pub fingerprint_of : Text → Text → Text
    fingerprint_of tenant resource = compose_fingerprint sha256_hex (codes "tenant_host") (record {
      tenant_id = tenant;
      host_id = none;
      container_id = none;
      resource_id = some resource;
    })

    unfoldable pub envelope_of : Text → ℕ → Option ℕ → Alert Num lt → Option Envelope
    envelope_of tenant n observed_at a =
        build_event_envelope (codes "evt_" ++ uuid n) tenant (codes "rules-engine")
          (codes a.rule.event_type) a.rule.severity observed_at (some (codes a.resource_id))
          (some (fingerprint_of tenant (codes a.resource_id)))

    unfoldable pub publish_alerts : Text → Option ℕ → List (Alert Num lt) → Run → Run
    publish_alerts tenant observed_at [] run = run
    publish_alerts tenant observed_at (a ∷ later) run =
        elim (envelope_of tenant (length run.published) observed_at a) [
          | none ↦ record run { refused = true }
          | some e ↦
              publish_alerts tenant observed_at later
                (record run { published = run.published ++ e ∷ [] })
        ]

    -- One rule for one sample.
    unfoldable pub judge_rule : Text → JobSample → Run → Rule Num lt → Run
    unfolding publish_alerts
    judge_rule tenant s run r =
        let (t, alerts) = check_rule Num lt run.tracker s.sample r in
        if run.refused
        then run
        else publish_alerts tenant s.observed_at alerts (record run { tracker = t })

    unfoldable pub judge_rules : Text → JobSample → Run → List (Rule Num lt) → Run
    judge_rules tenant s run [] = run
    judge_rules tenant s run (r ∷ rs) = judge_rules tenant s (judge_rule tenant s run r) rs

    unfoldable pub judge_samples : Text → List (Rule Num lt) → Run → List JobSample → Run
    judge_samples tenant rules run [] = run
    judge_samples tenant rules run (s ∷ ss) =
        judge_samples tenant rules (judge_rules tenant s run rules) ss

    -- A job of a tenant: the cache after it, and its run.
    unfoldable pub consume_job :
        Rule Num lt
        → List RuleRow
        → (now : ℕ) → Cache
        → Tracker Num lt
        → (tenant : Text) → List JobSample
        → Cache × Run
    consume_job default rows now cache tracker tenant samples =
        let cache' = load_rules rows now cache in
        (
          cache',
          judge_samples tenant (effective_rules Num lt default cache'.rules)
              (record { tracker = tracker; published = []; refused = false }) samples,
        )
