-- ===== src/Rules/Ingest/Firing.antt =====
-- For which resources the rules of a job fire, and what the job publishes for it: apps/worker/src/main.ts.
use mathlib.Core.Path.{subst}
use mathlib.Core.Option.{some-injective}
use wa_ops.Base.{
  ℕ, ◌≡◌, refl, sym, ap, ◌∙◌, ◌↔◌, ◌⊎◌, Bool, true, false, String, Option, some, List, [], ◌∷◌,
  ◌++◌, Option-cases, Bool-cases, inl, inr, str_eq, eq_iff, length, ◌+◌, leb, if◌then◌else◌,
}
use wa_ops.Base.Text.{Text, codes}
use wa_ops.Contracts.{Envelope, build_event_envelope-keeps}
use wa_ops.Rules.{
  Rule, Tracker, Alert, Evaluation, violates, check_rule, track, evaluate_threshold_rule,
}
use wa_ops.Rules.Ingest.{
  JobSample, Run, fingerprint_of, envelope_of, publish_alerts, judge_rule, judge_rules,
  judge_samples,
}

-- One of the envelopes names the resource.
abbrev pub Names : Text → List Envelope → Type 0
Names x [] = ⊥
Names x (e ∷ es) = (e.resource_id ≡ some x) ⊎ Names x es

Names-append_last :
    (x : Text) (es : List Envelope) (e : Envelope)
    → Names x (es ++ e ∷ []) ↔ (Names x es ⊎ (e.resource_id ≡ some x))
Names-append_last x [] e = (
  λ h. elim h [ inl a ↦ inr a | inr b ↦ absurd b ],
  λ h. elim h [ inl a ↦ absurd a | inr b ↦ inl b ],
)
Names-append_last x (d ∷ es) e =
    let (down, up) = Names-append_last x es e in
    (
      λ h. elim h [
        | inl a ↦ inl (inl a)
        | inr b ↦ elim (down b) [ inl c ↦ inl (inr c) | inr c ↦ inr c ]
      ],
      λ h. elim h [
        | inl a ↦ elim a [ inl b ↦ inl b | inr b ↦ inr (up (inl b)) ]
        | inr c ↦ inr (up (inr c))
      ],
    )

module _ (Num : Type 0) (lt : Num → Num → Bool) where
  -- A rule fires for a sample: it is about the metric of the sample, names a type of events, and its
  -- evaluation at the tracker's count fires.
  abbrev pub Fires : Tracker Num lt → JobSample Num lt → Rule Num lt → Type 0
  Fires t s r =
      (r.metric ≡ s.sample.metric)
      × (str_eq r.event_type "" ≡ false)
      × ((track Num lt t r.event_type s.sample.resource_id s.sample.value r).1.fired ≡ true)

  -- The rules, in their order, fire for a sample of the resource.
  abbrev pub FiresOf : Text → Tracker Num lt → JobSample Num lt → List (Rule Num lt) → Type 0
  FiresOf x t s [] = ⊥
  FiresOf x t s (r ∷ rs) =
      (Fires t s r × (x ≡ codes s.sample.resource_id))
      ⊎ FiresOf x (check_rule Num lt t s.sample r).0 s rs

  -- What an evaluation says.
  abbrev Said : Evaluation Num lt → Rule Num lt → Type 0
  Said e r =
      ((e.fired ≡ true) × (e.event_type ≡ some r.event_type) × (e.severity ≡ some r.severity))
      ⊎ (e.fired ≡ false)

  evaluate_lem : (r : Rule Num lt) (n : ℕ) (v : Num) → Said (evaluate_threshold_rule Num lt r n v) r
  unfolding evaluate_threshold_rule
  evaluate_lem r n v =
      elim (Bool-cases (leb r.consecutive_samples (if violates Num lt r v then n + 1 else 0))) [
        | inl p ↦ rw (p, evaluate_threshold_rule) (inl (refl, refl, refl))
        | inr p ↦ rw (p, evaluate_threshold_rule) (inr refl)
      ]

  track_lem :
      (t : Tracker Num lt) (rule_id resource_id : String) (v : Num) (r : Rule Num lt)
      → Said (track Num lt t rule_id resource_id v r).1 r
  unfolding track
  track_lem t rule_id resource_id v r = evaluate_lem r _ v

  -- The alerts of a rule for a sample.
  check_rule_lem :
      (t : Tracker Num lt) (s : JobSample Num lt) (r : Rule Num lt)
      → (Fires t s r
          × (a : Alert Num lt) × ((check_rule Num lt t s.sample r).1 ≡ a ∷ [])
          × (a.resource_id ≡ s.sample.resource_id))
        ⊎ (¬ Fires t s r × ((check_rule Num lt t s.sample r).1 ≡ []))
  unfolding check_rule
  check_rule_lem t s r = elim (Bool-cases (str_eq r.metric s.sample.metric)) [
    | inr other ↦ inr (
      λ (same, _, _). cc ((eq_iff r.metric s.sample.metric).1 same, other),
      rw (other, check_rule) refl,
    )
    | inl same ↦ elim (track_lem t r.event_type s.sample.resource_id s.sample.value r) [
      | inr calm ↦ inr (λ (_, _, fired). cc, rw (same, check_rule, calm) refl)
      | inl (fired, kind, grave) ↦ elim (Bool-cases (str_eq r.event_type "")) [
        | inl blank ↦
            inr (λ (_, filled, _). cc, rw (same, check_rule, fired, kind, grave, blank) refl)
        | inr filled ↦ inl (
          ((eq_iff r.metric s.sample.metric).0 same, filled, fired),
          record {
            rule = r;
            resource_id = s.sample.resource_id;
            value = s.sample.value;
            consecutive_count =
                (track Num lt t r.event_type s.sample.resource_id s.sample.value
                  r).1.consecutive_count;
          },
          rw (same, check_rule, fired, kind, grave, filled) refl,
          refl,
        )
      ]
    ]
  ]

  -- The tracker behind the rules.
  abbrev pub after_rules : Tracker Num lt → JobSample Num lt → List (Rule Num lt) → Tracker Num lt
  after_rules t s [] = t
  after_rules t s (r ∷ rs) = after_rules (check_rule Num lt t s.sample r).0 s rs

  -- The rules fire for one of the samples, and it is of the resource.
  abbrev pub FiresIn : Text → Tracker Num lt → List (Rule Num lt) → List (JobSample Num lt) → Type 0
  FiresIn x t rules [] = ⊥
  FiresIn x t rules (s ∷ ss) = FiresOf x t s rules ⊎ FiresIn x (after_rules t s rules) rules ss

  module _ (sha256_hex : Text → Text) (uuid : ℕ → Text) where
    envelope_of-names :
        (tenant : Text) (n : ℕ) (observed_at : Option ℕ) (a : Alert Num lt) (e : Envelope)
        → envelope_of Num lt sha256_hex uuid tenant n observed_at a ≡ some e
        → e.resource_id ≡ some (codes a.resource_id)
    unfolding envelope_of
    envelope_of-names tenant n observed_at a e h =
        (build_event_envelope-keeps (codes "evt_" ++ uuid n) tenant (codes "rules-engine")
          (codes a.rule.event_type) a.rule.severity observed_at (some (codes a.resource_id))
          (some (fingerprint_of Num lt sha256_hex uuid tenant (codes a.resource_id))) e h).1

    -- A run that is not refused, after one that was not: what it has published.
    publish_one :
        (tenant x : Text) (observed_at : Option ℕ) (a : Alert Num lt) (run : Run Num lt)
        → (publish_alerts Num lt sha256_hex uuid tenant observed_at (a ∷ []) run).refused ≡ false
        → ((publish_alerts Num lt sha256_hex uuid tenant observed_at (a ∷ []) run).tracker
            ≡ run.tracker)
          × (Names x
                (publish_alerts Num lt sha256_hex uuid tenant observed_at (a ∷ []) run).published
              ↔ (Names x run.published ⊎ (x ≡ codes a.resource_id)))
    unfolding publish_alerts
    publish_one tenant x observed_at a run fine =
        elim (Option-cases
          (envelope_of Num lt sha256_hex uuid tenant (length run.published) observed_at a)) [
            | inl p ↦ (let bad : true ≡ false = rw (p, publish_alerts) at fine in absurd (cc bad))
            | inr (e, p) ↦
                (let names = envelope_of-names tenant (length run.published) observed_at a e p in
                  let (down, up) = Names-append_last x run.published e in
                  rw (p, publish_alerts)
                    (
                      refl,
                      (
                        λ h. elim (down h) [
                          | inl old ↦ inl old
                          | inr new ↦ inr (some-injective _ _ (sym new ∙ names))
                        ],
                        λ h. elim h [
                          | inl old ↦ up (inl old)
                          | inr new ↦ up (inr (names ∙ ap some (sym new)))
                        ],
                      ),
                    ))
          ]

    judge_rule_refused :
        (tenant : Text) (s : JobSample Num lt) (run : Run Num lt) (r : Rule Num lt)
        → run.refused ≡ true
        → (judge_rule Num lt sha256_hex uuid tenant s run r).refused ≡ true
    unfolding judge_rule
    judge_rule_refused tenant s run r h = simp (h, judge_rule) refl

    judge_rules_refused :
        (tenant : Text) (s : JobSample Num lt) (rs : List (Rule Num lt)) (run : Run Num lt)
        → run.refused ≡ true
        → (judge_rules Num lt sha256_hex uuid tenant s run rs).refused ≡ true
    unfolding judge_rules
    judge_rules_refused tenant s [] run h = h
    judge_rules_refused tenant s (r ∷ rs) run h =
        judge_rules_refused tenant s rs _ (judge_rule_refused tenant s run r h)

    judge_samples_refused :
        (tenant : Text) (rules : List (Rule Num lt)) (ss : List (JobSample Num lt))
        (run : Run Num lt)
        → run.refused ≡ true
        → (judge_samples Num lt sha256_hex uuid tenant rules run ss).refused ≡ true
    unfolding judge_samples
    judge_samples_refused tenant rules [] run h = h
    judge_samples_refused tenant rules (s ∷ ss) run h =
        judge_samples_refused tenant rules ss _ (judge_rules_refused tenant s rules run h)

    -- What one rule, the rules for one sample, and the rules for all samples publish, if none of the
    -- envelopes is refused.
    judge_rule-Names :
        (tenant x : Text) (s : JobSample Num lt) (run : Run Num lt) (r : Rule Num lt)
        → run.refused ≡ false
        → (judge_rule Num lt sha256_hex uuid tenant s run r).refused ≡ false
        → ((judge_rule Num lt sha256_hex uuid tenant s run r).tracker
            ≡ (check_rule Num lt run.tracker s.sample r).0)
          × (Names x (judge_rule Num lt sha256_hex uuid tenant s run r).published ↔ (
              Names x run.published ⊎ (Fires run.tracker s r × (x ≡ codes s.sample.resource_id))))
    unfolding judge_rule
    judge_rule-Names tenant x s run r open_now fine = elim (check_rule_lem run.tracker s r) [
      | inr (calm, quiet) ↦
          simp (open_now, judge_rule, quiet)
            (refl, (λ h. inl h, λ h. elim h [ inl a ↦ a | inr (f, _) ↦ absurd (calm f) ]))
      | inl (fires, a, loud, of) ↦
          (let fine' = simp (open_now, judge_rule, loud) at fine in
            let (t, (down, up)) = publish_one tenant x s.observed_at a _ fine' in
            simp (open_now, judge_rule, loud)
              (
                t,
                (
                  λ h. elim (down h) [
                    | inl old ↦ inl old
                    | inr new ↦ inr (fires, new ∙ ap codes of)
                  ],
                  λ h. elim h [
                    | inl old ↦ up (inl old)
                    | inr (_, new) ↦ up (inr (new ∙ ap codes (sym of)))
                  ],
                ),
              ))
    ]

    judge_rules-Names :
        (tenant x : Text) (s : JobSample Num lt) (rs : List (Rule Num lt)) (run : Run Num lt)
        → run.refused ≡ false
        → (judge_rules Num lt sha256_hex uuid tenant s run rs).refused ≡ false
        → ((judge_rules Num lt sha256_hex uuid tenant s run rs).tracker
            ≡ after_rules run.tracker s rs)
          × (Names x (judge_rules Num lt sha256_hex uuid tenant s run rs).published
              ↔ (Names x run.published ⊎ FiresOf x run.tracker s rs))
    unfolding judge_rules
    judge_rules-Names tenant x s [] run open_now fine =
        (refl, (λ h. inl h, λ h. elim h [ inl a ↦ a | inr b ↦ absurd b ]))
    judge_rules-Names tenant x s (r ∷ rs) run open_now fine =
        let next = judge_rule Num lt sha256_hex uuid tenant s run r in
        elim (Bool-cases next.refused) [
          | inl bad ↦ absurd (cc (judge_rules_refused tenant s rs next bad, fine))
          | inr still ↦
              (let (t, (down, up)) = judge_rule-Names tenant x s run r open_now still in
                let (t', (down', up')) = judge_rules-Names tenant x s rs next still fine in
                (
                  t' ∙ ap (λ z. after_rules z s rs) t,
                  (
                    λ h. elim (down' h) [
                      | inl a ↦ elim (down a) [ inl old ↦ inl old | inr new ↦ inr (inl new) ]
                      | inr later ↦ inr (inr (subst (λ z. FiresOf x z s rs) t later))
                    ],
                    λ h. elim h [
                      | inl old ↦ up' (inl (up (inl old)))
                      | inr now ↦ elim now [
                        | inl new ↦ up' (inl (up (inr new)))
                        | inr later ↦ up' (inr (subst (λ z. FiresOf x z s rs) (sym t) later))
                      ]
                    ],
                  ),
                ))
        ]

    pub judge_samples-Names :
        (tenant x : Text) (rules : List (Rule Num lt)) (ss : List (JobSample Num lt))
        (run : Run Num lt)
        → run.refused ≡ false
        → (judge_samples Num lt sha256_hex uuid tenant rules run ss).refused ≡ false
        → Names x (judge_samples Num lt sha256_hex uuid tenant rules run ss).published
          ↔ (Names x run.published ⊎ FiresIn x run.tracker rules ss)
    unfolding judge_samples
    judge_samples-Names tenant x rules [] run open_now fine =
        (λ h. inl h, λ h. elim h [ inl a ↦ a | inr b ↦ absurd b ])
    judge_samples-Names tenant x rules (s ∷ ss) run open_now fine =
        let next = judge_rules Num lt sha256_hex uuid tenant s run rules in
        elim (Bool-cases next.refused) [
          | inl bad ↦ absurd (cc (judge_samples_refused tenant rules ss next bad, fine))
          | inr still ↦
              (let (t, (down, up)) = judge_rules-Names tenant x s rules run open_now still in
                let (down', up') = judge_samples-Names tenant x rules ss next still fine in
                (
                  λ h. elim (down' h) [
                    | inl a ↦ elim (down a) [ inl old ↦ inl old | inr new ↦ inr (inl new) ]
                    | inr later ↦ inr (inr (subst (λ z. FiresIn x z rules ss) t later))
                  ],
                  λ h. elim h [
                    | inl old ↦ up' (inl (up (inl old)))
                    | inr now ↦ elim now [
                      | inl new ↦ up' (inl (up (inr new)))
                      | inr later ↦ up' (inr (subst (λ z. FiresIn x z rules ss) (sym t) later))
                    ]
                  ],
                ))
        ]
