-- ===== src/Gateway/Routes/Tests.antt =====
-- Runs of the gateway's routes, and of a heartbeat that meets a revocation.
use wa_ops.Base.{ℕ, ◌≡◌, refl, Bool, true, String, Option, none, some, [], ◌∷◌, All}
use wa_ops.Base.Text.{Text, codes, text_eq}
use wa_ops.Memory.{memory, row_at, find_row}
use wa_ops.Gateway.Credential.{
  is_space, Identity, Agent, parse_credential_header, authenticate_agent,
}
use wa_ops.Errors.{returned, raised}
use wa_ops.Gateway.Protocol.{Heartbeat, MetricsBatch, fit_heartbeat}
use wa_ops.Gateway.Routes.{heartbeat, metrics, events, AgentEvent, Store, on_heartbeat}
use wa_ops.Gateway.Routes.Order.{on_heartbeat-revives}
use wa_ops.Gateway.Routes.Isolation.{IsOwn, tenant_of, routes-IsOwn}
use wa_ops.Gateway.Revocation
use wa_ops.Gateway.Revocation.{revoke, revoke-shuts_out}
use wa_ops.Gateway.Tests.{itself, agents, a1_enters, pair}

-- The routes, for a server on which every text is a time, and ids are counted under one name.
abbrev any_time : Text → Bool
any_time s = true

abbrev one_name : Text → String
one_name id = "agent"

abbrev digits : ℕ → Text
digits n = n ∷ []

abbrev gate : Store (memory Agent) itself itself any_time one_name digits
gate = record { agents = agents; buckets = [] }

abbrev beat : Heartbeat
beat = record {
  machine_id = none;
  protocol_version = 1;
  agent_id = codes "a1";
  agent_version = codes "2";
  sent_at = codes "now";
  capabilities = [];
}

abbrev batch : MetricsBatch
batch = record { protocol_version = 1; agent_id = codes "a1"; sequence = 3; samples = [] }

abbrev oom : AgentEvent
oom = record {
  event_type = codes "container.oom";
  resource_id = codes "c1";
  host_id = none;
  observed_at = some 4;
}

abbrev a1_header : Option Text
a1_header = some (codes "Bearer waops_a1_s3cret")

abbrev a1 : Identity
a1 = record { agent_id = codes "a1"; tenant_id = codes "t1" }

routes-IsOwn_example :
    IsOwn
      (memory Agent)
      itself
      itself
      any_time
      one_name
      digits
      a1
      gate
      (heartbeat (memory Agent) itself itself any_time one_name digits gate a1_header (some beat) 5)
    × IsOwn (memory Agent) itself itself any_time one_name digits a1 gate (
        metrics (memory Agent) itself itself any_time one_name digits gate a1_header (some batch) 5)
    × All
        (λ act. tenant_of act ≡ codes "t1")
        (events
          (memory Agent)
          itself
          itself
          any_time
          one_name
          digits
          gate
          a1_header
          ((codes "u1", oom) ∷ [])).1
routes-IsOwn_example =
    routes-IsOwn (memory Agent) itself itself any_time one_name digits gate a1_header a1 (some beat)
      (some batch) ((codes "u1", oom) ∷ []) 5 a1_enters

-- The agent of the table, revoked between the check of its header and the write of its heartbeat.
abbrev shut_a1 : Revocation.Db (memory Agent)
shut_a1 = elim (revoke (memory Agent) pair (codes "t1") (codes "a1")) [
  | returned d ↦ d
  | raised e ↦ pair
]

revokes_a1 : revoke (memory Agent) pair (codes "t1") (codes "a1") ≡ returned shut_a1
unfolding revoke find_row text_eq
revokes_a1 = refl

a1_enters_pair : authenticate_agent itself itself (memory Agent) pair.agents a1_header ≡ some a1
unfolding authenticate_agent parse_credential_header row_at text_eq is_space
a1_enters_pair = refl

beat_fits : fit_heartbeat any_time beat ≡ true
unfolding fit_heartbeat
beat_fits = refl

abbrev gate_after : Store (memory Agent) itself itself any_time one_name digits
gate_after = record { agents = shut_a1.agents; buckets = [] }

on_heartbeat-revives_example :
    authenticate_agent itself itself
      (memory Agent)
      (on_heartbeat
        (memory Agent)
        itself
        itself
        any_time
        one_name
        digits
        5
        (some beat)
        gate_after
        a1).0.agents
      a1_header
    ≡ some a1
on_heartbeat-revives_example =
    on_heartbeat-revives (memory Agent) itself itself any_time one_name digits pair shut_a1
      (codes "t1") a1_header a1 beat 5 gate_after a1_enters_pair revokes_a1 refl beat_fits
