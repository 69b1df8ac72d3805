-- ===== src/Pipeline/Tests.antt =====
-- A sample that opens an incident over tables in memory.
use wa_ops.Base.{ℕ, ◌≡◌, refl, false, ◌↔◌, ◌⊎◌, some, List, [], ◌∷◌, ltb}
use wa_ops.Base.Dict.{get}
use wa_ops.Base.Text.{Text, codes}
use wa_ops.Memory.{memory}
use wa_ops.Contracts.{Envelope, build_event_envelope, high}
use wa_ops.Incidents.{Incident}
use wa_ops.Incidents.Alarms.{IsRaised}
use wa_ops.Incidents.Events.{Store, handle_all}
use wa_ops.Rules.{
  Rule, above, Tracker, track, evaluate_threshold_rule, violates, check_rule, effective_rules,
}
use wa_ops.Rules.Ingest.{
  JobSample, Cache, rules_of, load_rules, envelope_of, judge_rule, judge_rules, judge_samples,
  fingerprint_of, consume_job,
}
use wa_ops.Pipeline.{AreNew, IsAlarmOf, consume_job-raises}

abbrev cpu : Rule ℕ ltb
cpu = record {
  metric = "cpu.usage";
  comparator = above;
  threshold = 85;
  consecutive_samples = 1;
  severity = high;
  event_type = "infra.cpu.high";
}

abbrev busy : JobSample ℕ ltb
busy = record {
  sample = record { metric = "cpu.usage"; resource_id = "host_m1"; value = 95 };
  observed_at = some 7;
}

abbrev unloaded : Cache ℕ ltb
unloaded = record { rules = []; loaded_at = 0 }

abbrev untouched : Tracker ℕ ltb
untouched = []

-- In place of a hash: the text itself.
abbrev itself : Text → Text
itself s = s

abbrev numbered : ℕ → Text
numbered n = n ∷ []

abbrev published : List Envelope
published =
    (consume_job ℕ ltb itself numbered cpu [] 40000 unloaded untouched (codes "bolt")
      (busy ∷ [])).1.published

abbrev quiet : Store (memory Incident)
quiet = record {
  db = record { incidents = []; links = []; timeline = []; audits = [] };
  events = [];
}

published-AreNew : AreNew [] published
unfolding consume_job load_rules rules_of judge_samples judge_rules judge_rule check_rule track
    evaluate_threshold_rule violates get envelope_of build_event_envelope
published-AreNew = (refl, tt)

abbrev print : Text
print = fingerprint_of ℕ ltb itself numbered (codes "bolt") (codes "host_m1")

none_refused :
    (consume_job ℕ ltb itself numbered cpu [] 40000 unloaded untouched
      (codes "bolt")
      (busy ∷ [])).1.refused
    ≡ false
unfolding consume_job load_rules rules_of judge_samples judge_rules judge_rule check_rule track
    evaluate_threshold_rule violates get envelope_of build_event_envelope
none_refused = refl

consume_job-raises_example :
    IsRaised
      (memory Incident)
      (handle_all (memory Incident) [] quiet published).db.incidents
      (codes "bolt")
      print
    ↔ (IsRaised (memory Incident) quiet.db.incidents (codes "bolt") print
        ⊎ IsAlarmOf ℕ ltb itself numbered
            (memory Incident)
            (codes "bolt")
            untouched
            (effective_rules ℕ ltb cpu (load_rules ℕ ltb [] 40000 unloaded).rules)
            (busy ∷ [])
            (codes "bolt")
            print)
consume_job-raises_example =
    consume_job-raises ℕ ltb itself numbered (memory Incident) cpu [] 40000 unloaded untouched
      (codes "bolt") (busy ∷ []) [] quiet none_refused published-AreNew (codes "bolt") print
