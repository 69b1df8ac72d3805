-- ===== src/Gateway/Protocol.antt =====
-- packages/contracts/src/agent-protocol.ts: what an agent sends, and the tests of its schemas. The test
-- of a time is an argument; counts that are natural numbers here pass their tests.
use wa_ops.Base.{ℕ, Bool, true, ◌&&◌, Option, none, some, List, [], ◌∷◌, ◌==◌, leb, length}
use wa_ops.Base.Text.{Text}

-- `z.string().min(least).max(most)`
abbrev pub sized : ℕ → ℕ → Text → Bool
sized least most s = leb least (length s) && leb (length s) most

abbrev pub sized_if : ℕ → ℕ → Option Text → Bool
sized_if least most none = true
sized_if least most (some s) = sized least most s

abbrev pub all_sized : ℕ → ℕ → List Text → Bool
all_sized least most [] = true
all_sized least most (s ∷ ss) = sized least most s && all_sized least most ss

-- HeartbeatV1
pub record Heartbeat : Type 0 where
  pub machine_id : Option Text
  pub protocol_version : ℕ
  pub agent_id : Text
  pub agent_version : Text
  pub sent_at : Text
  pub capabilities : List Text

-- A value of `dimensions`; numbers and Booleans are kept as they are written.
pub data Dimension : Type 0 where
  text : Text → Dimension
  other : Text → Dimension

-- MetricSampleV1; the value is a finite number as it is written.
pub record MetricSample : Type 0 where
  pub metric : Text
  pub resource_id : Text
  pub observed_at : Text
  pub value : Text
  pub dimensions : List (Text × Dimension)

-- MetricsBatchV1
pub record MetricsBatch : Type 0 where
  pub protocol_version : ℕ
  pub agent_id : Text
  pub sequence : ℕ
  pub samples : List MetricSample

abbrev fit_dimension : Dimension → Bool
fit_dimension (text s) = leb (length s) 256
fit_dimension (other s) = true

abbrev fit_dimensions : List (Text × Dimension) → Bool
fit_dimensions [] = true
fit_dimensions ((key, d) ∷ ds) = (leb (length key) 64 && fit_dimension d) && fit_dimensions ds

module _ (is_datetime : Text → Bool) where
  -- `HeartbeatV1.safeParse(...).success`
  unfoldable pub fit_heartbeat : Heartbeat → Bool
  fit_heartbeat h =
      sized_if 8 128 h.machine_id
      && (h.protocol_version == 1
          && (sized 1 128 h.agent_id
              && (sized 1 64 h.agent_version
                  && (is_datetime h.sent_at
                      && (leb (length h.capabilities) 32 && all_sized 0 64 h.capabilities)))))

  abbrev fit_sample : MetricSample → Bool
  fit_sample s =
      sized 1 128 s.metric
      && (sized 1 256 s.resource_id
          && (is_datetime s.observed_at
              && (leb (length s.dimensions) 16 && fit_dimensions s.dimensions)))

  abbrev fit_samples : List MetricSample → Bool
  fit_samples [] = true
  fit_samples (s ∷ ss) = fit_sample s && fit_samples ss

  -- `MetricsBatchV1.safeParse(...).success`
  unfoldable pub fit_batch : MetricsBatch → Bool
  fit_batch b =
      b.protocol_version == 1
      && (leb 1 (length b.agent_id) && (leb (length b.samples) 5000 && fit_samples b.samples))
