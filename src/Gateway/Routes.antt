-- ===== src/Gateway/Routes.antt =====
-- The routes for heartbeats, metrics and container events of apps/collector-gateway/src/main.ts. A body
-- that has not the fields of its schema is none. What is published and queued are acts, and a sending
-- that fails is not seen by the route or is the server's error.
pub mod Order
mod Tests
pub mod Isolation
use wa_ops.Base.{
  ℕ, ◌≡◌, refl, Bool, true, false, ◌&&◌, String, Option, none, some, List, [], ◌∷◌, ◌++◌, ◌==◌, leb,
  length, if◌then◌else◌,
}
use wa_ops.Base.Text.{Text, codes, text_eq}
use wa_ops.Base.Dict.{Dict}
use wa_ops.Contracts.{Envelope, Severity, high, critical, build_event_envelope}
use wa_ops.Contracts.Fingerprint.{Parts, compose_fingerprint}
use wa_ops.Database.{RowId, Table}
use wa_ops.RateLimit.Window.{Window, rate_limited}
use wa_ops.Gateway.Credential.{Agent, online, Identity, authenticate_agent}
use wa_ops.Gateway.Protocol.{
  Heartbeat, MetricSample, MetricsBatch, sized_if, fit_heartbeat, fit_batch,
}

pub data Reply : Type 0 where
  invalid_credential retry_later schema_mismatch id_mismatch server_error : Reply
  ack : (agent_id : Text) → Reply
  acked : (sequence : ℕ) → Reply
  took : (count : ℕ) → Reply

pub data Act : Type 0 where
  -- `publishAgentEvent(tenantId, 'agent.heartbeat', ...)`
  heartbeat_event : (tenant_id : Text) → (agent_id name : Text) → Act
  -- The job of a batch with its id.
  ingest : (job_id tenant_id agent_id : Text) → List MetricSample → Act
  -- The job of an event, under the event's id.
  domain_event : Envelope → Act

-- An element of `events`.
pub record AgentEvent : Type 0 where
  pub event_type : Text
  pub resource_id : Text
  pub host_id : Option Text
  pub observed_at : Option ℕ

-- `machineId` of a heartbeat, if its length fits.
abbrev pub given_machine : Option Text → Option Text
given_machine none = none
given_machine (some m) = if leb 8 (length m) && leb (length m) 128 then some m else none

abbrev pub or_kept : Option Text → Option Text → Option Text
or_kept none kept = kept
or_kept (some m) kept = some m

abbrev pub beat : Heartbeat → ℕ → Agent → Agent
beat h now a = record a {
  last_seen_at = some now;
  status = online;
  version = some h.agent_version;
  protocol_version = some h.protocol_version;
  machine_id = or_kept (given_machine h.machine_id) a.machine_id;
}

abbrev pub severity_of : Text → Severity
severity_of event_type = if text_eq event_type (codes "container.oom") then critical else high

-- The default arguments of `rateLimited`.
abbrev pub limit : ℕ
limit = 120

abbrev pub window_ms : ℕ
window_ms = 60000

module _ (agents_table : Table Agent) (sha256_hex unhex : Text → Text) (is_datetime : Text → Bool)
    (name : RowId → String) (digits : ℕ → Text) where
  pub record Store : Type 0 where
    pub agents : agents_table.State
    pub buckets : Dict Window

  -- The checks that the first two routes share: who it is, and whether the window is full.
  abbrev pub enter :
      Store
      → Option Identity
      → ℕ
      → (Store → Identity → Store × Reply × List Act)
      → Store × Reply × List Act
  enter s none now go = (s, invalid_credential, [])
  enter s (some who) now go =
      let (buckets, limited) = rate_limited limit window_ms s.buckets (name who.agent_id) now in
      let s' = record s { buckets = buckets } in
      if limited then (s', retry_later, []) else go s' who

  abbrev pub on_heartbeat : ℕ → Option Heartbeat → Store → Identity → Store × Reply × List Act
  on_heartbeat now none s who = (s, schema_mismatch, [])
  on_heartbeat now (some h) s who =
      if fit_heartbeat is_datetime h
      then (
        record s { agents = agents_table.update who.agent_id (beat h now) s.agents },
        ack h.agent_id,
        heartbeat_event who.tenant_id who.agent_id h.agent_id ∷ [],
      )
      else (s, schema_mismatch, [])

  unfoldable pub heartbeat :
      Store → (authorization : Option Text) → Option Heartbeat → ℕ → Store × Reply × List Act
  heartbeat s authorization body now =
      enter s (authenticate_agent sha256_hex unhex agents_table s.agents authorization) now
        (on_heartbeat now body)

  -- `metrics_${agentId}_${sequence}`
  abbrev pub job_id : RowId → ℕ → Text
  job_id agent_id sequence = codes "metrics_" ++ (agent_id ++ (95 ∷ digits sequence))

  abbrev pub on_metrics : Option MetricsBatch → Store → Identity → Store × Reply × List Act
  on_metrics none s who = (s, schema_mismatch, [])
  on_metrics (some b) s who =
      if fit_batch is_datetime b
      then (if text_eq b.agent_id who.agent_id
          then (
            s,
            acked b.sequence,
            ingest (job_id who.agent_id b.sequence) who.tenant_id who.agent_id b.samples ∷ [],
          )
          else (s, id_mismatch, []))
      else (s, schema_mismatch, [])

  unfoldable pub metrics :
      Store → (authorization : Option Text) → Option MetricsBatch → ℕ → Store × Reply × List Act
  metrics s authorization body now =
      enter s (authenticate_agent sha256_hex unhex agents_table s.agents authorization) now
        (on_metrics body)

  abbrev pub envelope_of : Identity → Text → AgentEvent → Option Envelope
  envelope_of who uuid e =
      build_event_envelope (codes "evt_" ++ uuid) who.tenant_id (codes "waagent") e.event_type
        (severity_of e.event_type) e.observed_at (some e.resource_id)
        (some (
          compose_fingerprint sha256_hex (codes "tenant_host_container") (record {
            tenant_id = who.tenant_id;
            host_id = e.host_id;
            container_id = some e.resource_id;
            resource_id = none;
          })))

  -- The loop over the events, each with its random id: what has been queued, and whether the loop came to
  -- its end.
  unfoldable pub queue_events : Identity → List (Text × AgentEvent) → List Act × Bool
  unfolding build_event_envelope compose_fingerprint
  queue_events who [] = ([], true)
  queue_events who ((uuid, e) ∷ es) =
      let (later, ended) = queue_events who es in
      elim (envelope_of who uuid e) [
        | none ↦ ([], false)
        | some env ↦ (domain_event env ∷ later, ended)
      ]

  abbrev pub answer_events : ℕ → List Act × Bool → Reply × List Act
  answer_events count (acts, true) = (took count, acts)
  answer_events count (acts, false) = (server_error, acts)

  unfoldable pub events :
      Store → (authorization : Option Text) → List (Text × AgentEvent) → Reply × List Act
  unfolding queue_events
  events s authorization es =
      elim (authenticate_agent sha256_hex unhex agents_table s.agents authorization) [
        | none ↦ (invalid_credential, [])
        | some who ↦ answer_events (length es) (queue_events who es)
      ]
