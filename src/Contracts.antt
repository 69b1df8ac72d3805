-- ===== src/Contracts.antt =====
-- packages/contracts/src/event-envelope.ts: the event envelope. Times are numbers; `schema_version`,
-- `source_type`, `received_at`, `trace_id` and the attributes are left out, since no rule reads them.
pub mod Fingerprint
pub mod Permissions
pub mod Modules
pub mod EventTypes
use wa_ops.Base.{ℕ, ◌≡◌, arith, Bool, true, false, ◌&&◌, Option, none, some, [], ◌∷◌, if◌then◌else◌}
use wa_ops.Base.Text.{Text}

-- EventSeverity
pub data Severity : Type 0 where
  info warning high critical : Severity

-- EventEnvelopeV1
pub record Envelope : Type 0 where
  pub event_id : Text
  pub tenant_id : Text
  pub source : Text
  pub resource_id : Option Text
  pub event_type : Text
  pub severity : Severity
  pub fingerprint : Option Text
  pub observed_at : ℕ

-- A string or null that a condition tests: the empty string counts as missing.
abbrev pub truthy : Option Text → Option Text
truthy none = none
truthy (some []) = none
truthy (some (c ∷ s)) = some (c ∷ s)

-- `buildEventEnvelope`, which throws where the schema does not take the envelope: a text that has to be
-- there is empty, or `observed_at` is not a time.
abbrev pub is_filled : Text → Bool
is_filled [] = false
is_filled (c ∷ s) = true

unfoldable pub build_event_envelope :
    (event_id tenant_id source event_type : Text)
    → Severity
    → (observed_at : Option ℕ) → (resource_id fingerprint : Option Text) → Option Envelope
build_event_envelope event_id tenant_id source event_type severity none resource_id fingerprint =
    none
build_event_envelope event_id tenant_id source event_type severity (some observed_at) resource_id
      fingerprint =
    if is_filled event_id && (is_filled tenant_id && is_filled event_type)
    then some (record {
      event_id = event_id;
      tenant_id = tenant_id;
      source = source;
      resource_id = resource_id;
      event_type = event_type;
      severity = severity;
      fingerprint = fingerprint;
      observed_at = observed_at;
    })
    else none

-- What an envelope that is built has from what it was built of.
pub build_event_envelope-keeps :
    (event_id tenant_id source event_type : Text) (severity : Severity) (observed_at : Option ℕ)
    (resource_id fingerprint : Option Text) (env : Envelope)
    → build_event_envelope event_id tenant_id source event_type severity observed_at resource_id
        fingerprint
      ≡ some env
    → (env.tenant_id ≡ tenant_id)
      × (env.resource_id ≡ resource_id)
      × (env.fingerprint ≡ fingerprint)
unfolding build_event_envelope
build_event_envelope-keeps event_id tenant_id source event_type severity none resource_id
      fingerprint env e =
    cc
build_event_envelope-keeps event_id tenant_id source event_type severity (some t) resource_id
      fingerprint env e =
    (ground arith, ground arith, ground arith)
