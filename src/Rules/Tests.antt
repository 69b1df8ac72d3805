-- ===== src/Rules/Tests.antt =====
-- A rule that fires at its third sample in a row.
use wa_ops.Base.{
  ℕ, ◌≡◌, ◌≤◌, ◌↔◌, refl, true, some, none, map, List, [], ◌∷◌, All, length, take, ltb,
}
use wa_ops.Base.Dict.{get, put}
use wa_ops.Base.Text.{Text, codes}
use wa_ops.Contracts.{Envelope, build_event_envelope, high}
use wa_ops.Rules.Ingest.{
  RuleRow, JobSample, Cache, Run, rule_of, rules_of, load_rules, envelope_of, judge_rule,
  judge_rules, judge_samples, consume_job,
}
use wa_ops.Rules.Ingest.Tenants.{give_to, consume_job-give_to}
use wa_ops.Rules.{Rule, above, Tracker, track, evaluate_threshold_rule, violates, key, check_rule}
use wa_ops.Rules.Streak.{Call, call_key, make, after, history, IsTrue, make-fired_iff}

abbrev cpu : Rule ℕ ltb
cpu = record {
  metric = "cpu.usage";
  comparator = above;
  threshold = 85;
  consecutive_samples = 3;
  severity = high;
  event_type = "host.cpu_high";
}

abbrev sample : ℕ → Call ℕ ltb
sample v = record { rule = cpu; resource_id = "host"; value = v }

abbrev untouched : Tracker ℕ ltb
untouched = []

no_count : get (call_key ℕ ltb (sample 95)) untouched ≡ none
unfolding get
no_count = refl

abbrev older : List (Call ℕ ltb)
older = sample 90 ∷ sample 91 ∷ sample 10 ∷ []

third_fires : (make ℕ ltb (after ℕ ltb untouched older) (sample 95)).1.fired ≡ true
unfolding make after track evaluate_threshold_rule violates get put key
third_fires = refl

make-fired_iff_example : ((make ℕ ltb (after ℕ ltb untouched older) (sample 95)).1.fired ≡ true) ↔ (
    (3 ≤ length (history ℕ ltb (call_key ℕ ltb (sample 95)) (sample 95 ∷ older)))
    × All (IsTrue ℕ ltb) (take 3 (history ℕ ltb (call_key ℕ ltb (sample 95)) (sample 95 ∷ older))))
make-fired_iff_example = make-fired_iff ℕ ltb untouched (sample 95) older no_count

-- The rule of another tenant, which fires at its first sample.
abbrev cpu_row : RuleRow ℕ ltb
cpu_row = record {
  tenant_id = codes "acme";
  enabled = true;
  severity = high;
  event_type = "infra.cpu.high";
  metric = some "cpu.usage";
  comparator = none;
  threshold = some 85;
  consecutive_samples = some 1;
}

abbrev busy : JobSample ℕ ltb
busy = record {
  sample = record { metric = "cpu.usage"; resource_id = "host_m1"; value = 95 };
  observed_at = some 7;
}

abbrev unloaded : Cache ℕ ltb
unloaded = record { rules = []; loaded_at = 0 }

-- In place of a hash: the text itself.
abbrev itself : Text → Text
itself s = s

abbrev numbered : ℕ → Text
numbered n = n ∷ []

abbrev job : List (RuleRow ℕ ltb) → Run ℕ ltb
job rows =
    (consume_job ℕ ltb itself numbered cpu rows 40000 unloaded untouched (codes "bolt")
      (busy ∷ [])).1

one_published :
    map (λ (e : Envelope). e.tenant_id) (job (cpu_row ∷ [])).published ≡ codes "bolt" ∷ []
unfolding consume_job load_rules rules_of rule_of judge_samples judge_rules judge_rule check_rule
    track evaluate_threshold_rule violates get envelope_of build_event_envelope
one_published = refl

abbrev owner : RuleRow ℕ ltb → Text
owner r = codes "bolt"

consume_job-give_to_example :
    consume_job ℕ ltb itself numbered cpu
      (map (give_to ℕ ltb owner) (cpu_row ∷ []))
      40000
      unloaded
      untouched
      (codes "bolt")
      (busy ∷ [])
    ≡ consume_job ℕ ltb itself numbered cpu
        (cpu_row ∷ [])
        40000
        unloaded
        untouched
        (codes "bolt")
        (busy ∷ [])
consume_job-give_to_example =
    consume_job-give_to ℕ ltb itself numbered owner cpu (cpu_row ∷ []) 40000 unloaded untouched
      (codes "bolt") (busy ∷ [])
