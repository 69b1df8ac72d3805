-- ===== src/Rules/Ingest/Tenants.antt =====
-- What a job makes of tenants: its own, and those of the rules.
use wa_ops.Base.{
  ℕ, ◌≡◌, refl, Bool, Option, some, List, [], ◌∷◌, ◌++◌, map, All, All-append_last, Option-cases,
  Bool-cases, inl, inr, length,
}
use wa_ops.Base.Text.{Text, codes}
use wa_ops.Contracts.{Envelope, build_event_envelope-keeps}
use wa_ops.Rules.{Rule, Tracker, Alert}
use wa_ops.Rules.Ingest.{
  RuleRow, rules_of, rule_of, Cache, load_rules, JobSample, Run, fingerprint_of, envelope_of,
  publish_alerts, judge_rule, judge_rules, judge_samples, consume_job,
}

module _ (Num : Type 0) (lt : Num → Num → Bool) where
  -- The row under another tenant.
  abbrev pub give_to : (RuleRow Num lt → Text) → RuleRow Num lt → RuleRow Num lt
  give_to owner r = record r { tenant_id = owner r }

  rules_of-give_to :
      (owner : RuleRow Num lt → Text) (rows : List (RuleRow Num lt))
      → rules_of Num lt (map (give_to owner) rows) ≡ rules_of Num lt rows
  unfolding rules_of rule_of
  rules_of-give_to owner [] = refl
  rules_of-give_to owner (r ∷ rows) = rw (rules_of-give_to owner rows) refl

  module _ (sha256_hex : Text → Text) (uuid : ℕ → Text) where
    -- It does not matter to a job whose the rules are: with every rule given to any other tenant, it
    -- publishes and counts the same.
    pub consume_job-give_to :
        (owner : RuleRow Num lt → Text) (default : Rule Num lt) (rows : List (RuleRow Num lt))
        (now : ℕ) (cache : Cache Num lt) (tracker : Tracker Num lt) (tenant : Text)
        (samples : List (JobSample Num lt))
        → consume_job Num lt sha256_hex uuid default
            (map (give_to owner) rows)
            now
            cache
            tracker
            tenant
            samples
          ≡ consume_job Num lt sha256_hex uuid default rows now cache tracker tenant samples
    unfolding consume_job load_rules
    consume_job-give_to owner default rows now cache tracker tenant samples =
        rw (rules_of-give_to owner rows) refl

    -- An envelope of the tenant that names a resource, with the fingerprint of the two.
    pub record IsOf (tenant : Text) (e : Envelope) : Type 0 where
      pub own : e.tenant_id ≡ tenant
      pub resource : Text
      pub names : e.resource_id ≡ some resource
      pub marked : e.fingerprint ≡ some (fingerprint_of Num lt sha256_hex uuid tenant resource)

    pub envelope_of-IsOf :
        (tenant : Text) (n : ℕ) (observed_at : Option ℕ) (a : Alert Num lt) (e : Envelope)
        → envelope_of Num lt sha256_hex uuid tenant n observed_at a ≡ some e
        → IsOf tenant e
    unfolding envelope_of
    envelope_of-IsOf tenant n observed_at a e h =
        let (own, names, marked) =
          build_event_envelope-keeps (codes "evt_" ++ uuid n) tenant (codes "rules-engine")
            (codes a.rule.event_type) a.rule.severity observed_at (some (codes a.resource_id))
            (some (fingerprint_of Num lt sha256_hex uuid tenant (codes a.resource_id))) e h in
        record { own = own; resource = codes a.resource_id; names = names; marked = marked }

    abbrev pub AllOf : Text → Run Num lt → Type 0
    AllOf tenant run = All (IsOf tenant) run.published

    publish_alerts-AllOf :
        (tenant : Text) (observed_at : Option ℕ) (alerts : List (Alert Num lt)) (run : Run Num lt)
        → AllOf tenant run
        → AllOf tenant (publish_alerts Num lt sha256_hex uuid tenant observed_at alerts run)
    unfolding publish_alerts
    publish_alerts-AllOf tenant observed_at [] run all = all
    publish_alerts-AllOf tenant observed_at (a ∷ later) run all =
        elim (Option-cases
          (envelope_of Num lt sha256_hex uuid tenant (length run.published) observed_at a)) [
            | inl p ↦ rw (p, publish_alerts) all
            | inr (e, p) ↦
                rw (p, publish_alerts)
                  (publish_alerts-AllOf tenant observed_at later
                    (record run { published = run.published ++ e ∷ [] })
                    (All-append_last (IsOf tenant) run.published e all
                      (envelope_of-IsOf tenant (length run.published) observed_at a e p)))
          ]

    judge_rule-AllOf :
        (tenant : Text) (s : JobSample Num lt) (run : Run Num lt) (r : Rule Num lt)
        → AllOf tenant run
        → AllOf tenant (judge_rule Num lt sha256_hex uuid tenant s run r)
    unfolding judge_rule
    judge_rule-AllOf tenant s run r all = elim (Bool-cases run.refused) [
      | inl p ↦ rw p all
      | inr p ↦ rw p (publish_alerts-AllOf tenant s.observed_at _ _ all)
    ]

    judge_rules-AllOf :
        (tenant : Text) (s : JobSample Num lt) (rs : List (Rule Num lt)) (run : Run Num lt)
        → AllOf tenant run
        → AllOf tenant (judge_rules Num lt sha256_hex uuid tenant s run rs)
    unfolding judge_rules
    judge_rules-AllOf tenant s [] run all = all
    judge_rules-AllOf tenant s (r ∷ rs) run all =
        judge_rules-AllOf tenant s rs _ (judge_rule-AllOf tenant s run r all)

    judge_samples-AllOf :
        (tenant : Text) (rules : List (Rule Num lt)) (ss : List (JobSample Num lt))
        (run : Run Num lt)
        → AllOf tenant run
        → AllOf tenant (judge_samples Num lt sha256_hex uuid tenant rules run ss)
    unfolding judge_samples
    judge_samples-AllOf tenant rules [] run all = all
    judge_samples-AllOf tenant rules (s ∷ ss) run all =
        judge_samples-AllOf tenant rules ss _ (judge_rules-AllOf tenant s rules run all)

    -- All that a job publishes is of the tenant of the job, names the resource of a sample, and has the
    -- fingerprint of the two, whichever rule has fired.
    pub consume_job-AllOf :
        (default : Rule Num lt) (rows : List (RuleRow Num lt)) (now : ℕ) (cache : Cache Num lt)
        (tracker : Tracker Num lt) (tenant : Text) (samples : List (JobSample Num lt))
        → AllOf tenant
            (consume_job Num lt sha256_hex uuid default rows now cache tracker tenant samples).1
    unfolding consume_job
    consume_job-AllOf default rows now cache tracker tenant samples =
        judge_samples-AllOf tenant _ samples _ tt
