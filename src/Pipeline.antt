-- ===== src/Pipeline.antt =====
-- The way of a sample through apps/worker/src/main.ts: the job of `consumeMetrics` publishes envelopes,
-- and `handleEventEnvelope` takes them one after the other.
mod Tests
use mathlib.Core.Option.{some-injective}
use wa_ops.Base.{
  ℕ, ◌≡◌, refl, sym, ap, ◌∙◌, ◌↔◌, ◌⊎◌, inl, inr, Bool, false, Option, some, List, [], ◌∷◌, All,
}
use wa_ops.Base.Text.{Text, codes}
use wa_ops.Contracts.{Envelope, truthy}
use wa_ops.Contracts.Fingerprint.{compose_fingerprint}
use wa_ops.Database.{Table}
use wa_ops.Incidents.{Incident, open_from_event}
use wa_ops.Incidents.Alarms.{IsRaised, IsAlarm, open_from_event-refines}
use wa_ops.Incidents.Events.{Channel, Store, is_stored, handle_event_envelope, handle_all}
use wa_ops.Rules.{Rule, Tracker, effective_rules}
use wa_ops.Rules.Ingest.{RuleRow, Cache, JobSample, fingerprint_of, load_rules, consume_job}
use wa_ops.Rules.Ingest.Firing.{Names, FiresIn, judge_samples-Names}
use wa_ops.Rules.Ingest.Tenants.{IsOf, AllOf, consume_job-AllOf}

-- No envelope has an id that is stored, and no two have one id.
abbrev pub AreNew : List Text → List Envelope → Type 0
AreNew ids [] = Unit
AreNew ids (e ∷ es) = (is_stored ids e.event_id ≡ false) × AreNew (e.event_id ∷ ids) es

module _ (Num : Type 0) (lt : Num → Num → Bool) (sha256_hex : Text → Text) (uuid : ℕ → Text)
    (tb : Table Incident) where
  -- The alarm of a resource that one of the envelopes names.
  abbrev pub IsFired : Text → List Envelope → Text → Text → Type 0
  IsFired tenant es t f =
      (t ≡ tenant) × (r : Text) × (f ≡ fingerprint_of Num lt sha256_hex uuid tenant r) × Names r es

  truthy_fingerprint :
      (tenant r : Text)
      → truthy (some (fingerprint_of Num lt sha256_hex uuid tenant r))
        ≡ some (fingerprint_of Num lt sha256_hex uuid tenant r)
  unfolding compose_fingerprint
  truthy_fingerprint tenant r = refl

  handle-opens :
      (channels : List Channel) (s : Store tb) (e : Envelope)
      → is_stored s.events e.event_id ≡ false
      → (handle_event_envelope tb channels s e).0
        ≡ record { db = (open_from_event tb s.db e).0; events = e.event_id ∷ s.events }
  unfolding handle_event_envelope
  handle-opens channels s e h = rw (h, handle_event_envelope) refl

  -- One envelope raises its alarm.
  handle-raises :
      (channels : List Channel) (s : Store tb) (tenant : Text) (e : Envelope)
      → is_stored s.events e.event_id ≡ false
      → IsOf Num lt sha256_hex uuid tenant e
      → (t f : Text)
      → IsRaised tb (handle_event_envelope tb channels s e).0.db.incidents t f
        ↔ (IsRaised tb s.db.incidents t f ⊎ IsFired tenant (e ∷ []) t f)
  handle-raises channels s tenant e h of t f =
      let fp = fingerprint_of Num lt sha256_hex uuid tenant of.resource in
      let given : truthy e.fingerprint ≡ some fp =
        ap truthy of.marked ∙ truthy_fingerprint tenant of.resource in
      let (down, up) = open_from_event-refines tb s.db e fp given t f in
      let names : (r : Text) → Names r (e ∷ []) → of.resource ≡ r =
        λ r n. elim n [ inl q ↦ some-injective _ r (sym of.names ∙ q) | inr n' ↦ absurd n' ] in
      rw (handle-opens channels s e h) (
        λ x. elim (down x) [
          | inl a ↦ inl a
          | inr (own, same) ↦ inr (own ∙ of.own, of.resource, same, inl of.names)
        ],
        λ x. elim x [
          | inl a ↦ up (inl a)
          | inr (own, r, same, n) ↦ up (
              inr (
                own ∙ sym of.own,
                same ∙ ap (fingerprint_of Num lt sha256_hex uuid tenant) (sym (names r n)),
              ))
        ],
      )

  -- All of them raise their alarms and no other.
  handle_all-raises :
      (channels : List Channel) (tenant : Text) (es : List Envelope) (s : Store tb)
      → AreNew s.events es
      → All (IsOf Num lt sha256_hex uuid tenant) es
      → (t f : Text)
      → IsRaised tb (handle_all tb channels s es).db.incidents t f
        ↔ (IsRaised tb s.db.incidents t f ⊎ IsFired tenant es t f)
  unfolding handle_all
  handle_all-raises channels tenant [] s new all t f =
      (λ x. inl x, λ x. elim x [ inl a ↦ a | inr (own, r, same, n) ↦ absurd n ])
  handle_all-raises channels tenant (e ∷ es) s (h, new) (of, all) t f =
      let (first, first') = handle-raises channels s tenant e h of t f in
      let next = (handle_event_envelope tb channels s e).0 in
      let stored : next.events ≡ e.event_id ∷ s.events =
        ap (λ (x : Store tb). x.events) (handle-opens channels s e h) in
      let new' : AreNew next.events es = rw stored new in
      let (rest, rest') = handle_all-raises channels tenant es next new' all t f in
      (
        λ x. elim (rest x) [
          | inl a ↦ elim (first a) [
            | inl b ↦ inl b
            | inr (own, r, same, n) ↦
                inr (own, r, same, elim n [ inl q ↦ inl q | inr n' ↦ absurd n' ])
          ]
          | inr (own, r, same, n) ↦ inr (own, r, same, inr n)
        ],
        λ x. elim x [
          | inl a ↦ rest' (inl (first' (inl a)))
          | inr (own, r, same, n) ↦ elim n [
            | inl q ↦ rest' (inl (first' (inr (own, r, same, inl q))))
            | inr n' ↦ rest' (inr (own, r, same, n'))
          ]
        ],
      )

  -- The alarm of a resource of a sample for which a rule fires.
  abbrev pub IsAlarmOf :
      (tenant : Text)
      → Tracker Num lt
      → List (Rule Num lt)
      → List (JobSample Num lt)
      → Text
      → Text
      → Type 0
  IsAlarmOf tenant tracker rules samples t f =
      (t ≡ tenant)
      × (r : Text) × (f ≡ fingerprint_of Num lt sha256_hex uuid tenant r)
      × FiresIn Num lt r tracker rules samples

  -- Handling what a job has published raises one alarm for each resource for whose samples one of the
  -- rules that the job goes by has fired, that of the tenant of the job and that resource, whichever and
  -- however many these rules are, and no other; no alarm ends. Asked: no envelope was refused, the ids
  -- of the envelopes are new, and the envelopes are handled one after the other.
  pub consume_job-raises :
      (default : Rule Num lt) (rows : List (RuleRow Num lt)) (now : ℕ) (cache : Cache Num lt)
      (tracker : Tracker Num lt) (tenant : Text) (samples : List (JobSample Num lt))
      (channels : List Channel) (s : Store tb)
      → (consume_job Num lt sha256_hex uuid default rows now cache tracker tenant samples).1.refused
        ≡ false
      → AreNew s.events
          (consume_job Num lt sha256_hex uuid default rows now cache tracker tenant
            samples).1.published
      → (t f : Text)
      → IsRaised tb
          (handle_all tb channels s
            (consume_job Num lt sha256_hex uuid default rows now cache tracker tenant
              samples).1.published).db.incidents
          t
          f
        ↔ (IsRaised tb s.db.incidents t f
            ⊎ IsAlarmOf tenant tracker
                (effective_rules Num lt default (load_rules Num lt rows now cache).rules)
                samples
                t
                f)
  unfolding consume_job
  consume_job-raises default rows now cache tracker tenant samples channels s fine new t f =
      let names : (r : Text) → _ = λ r.
        judge_samples-Names Num lt sha256_hex uuid tenant r
          (effective_rules Num lt default (load_rules Num lt rows now cache).rules) samples
          (record { tracker = tracker; published = []; refused = false }) refl fine in
      let (down, up) =
        handle_all-raises channels tenant _ s new
          (consume_job-AllOf Num lt sha256_hex uuid default rows now cache tracker tenant samples) t
          f in
      (
        λ h. elim (down h) [
          | inl old ↦ inl old
          | inr (own, r, same, n) ↦
              inr (own, r, same, elim ((names r).0 n) [ inl a ↦ absurd a | inr b ↦ b ])
        ],
        λ h. elim h [
          | inl old ↦ up (inl old)
          | inr (own, r, same, n) ↦ up (inr (own, r, same, (names r).1 (inr n)))
        ],
      )
