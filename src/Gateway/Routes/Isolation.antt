-- ===== src/Gateway/Routes/Isolation.antt =====
-- The routes of apps/collector-gateway/src/main.ts act for the agent that is authenticated, and for its
-- tenant only.
use wa_ops.Base.{
  ℕ, ◌≡◌, ◌≢◌, refl, ◌∙◌, Bool, true, false, String, Option, none, some, List, [], ◌∷◌, ◌++◌, All,
  length, Bool-cases, Option-cases, inl, inr, arith,
}
use wa_ops.Base.Text.{Text, codes, text_eq, text_eq_iff}
use wa_ops.Contracts.{Envelope, build_event_envelope-keeps}
use wa_ops.Contracts.Fingerprint.{compose_fingerprint}
use wa_ops.Database.{RowId, Table}
use wa_ops.RateLimit.Window.{rate_limited}
use wa_ops.Gateway.Credential.{Agent, Identity, authenticate_agent}
use wa_ops.Gateway.Protocol.{Heartbeat, MetricsBatch, fit_heartbeat, fit_batch}
use wa_ops.Gateway.Routes.{
  Reply, Act, severity_of, heartbeat_event, ingest, domain_event, AgentEvent, Store, beat, limit,
  window_ms, enter, on_heartbeat, heartbeat, on_metrics, metrics, envelope_of, queue_events,
  answer_events, events,
}

abbrev pub tenant_of : Act → Text
tenant_of (heartbeat_event tenant_id agent_id name) = tenant_id
tenant_of (ingest job_id tenant_id agent_id samples) = tenant_id
tenant_of (domain_event env) = env.tenant_id

module _ (ta : Table Agent) (sha256_hex unhex : Text → Text) (is_datetime : Text → Bool)
    (name : RowId → String) (digits : ℕ → Text) where
  abbrev State : Type 0
  State = Store ta sha256_hex unhex is_datetime name digits

  -- What a route leaves: the other agents' rows as they were, and acts for one tenant.
  abbrev pub IsOwn : Identity → State → State × Reply × List Act → Type 0
  IsOwn who s (s', reply, acts) =
      ((j : RowId) → j ≢ who.agent_id → ta.at s'.agents j ≡ ta.at s.agents j)
      × All (λ act. tenant_of act ≡ who.tenant_id) acts

  on_heartbeat-IsOwn :
      (now : ℕ) (body : Option Heartbeat) (s : State) (who : Identity)
      → IsOwn who s (on_heartbeat ta sha256_hex unhex is_datetime name digits now body s who)
  on_heartbeat-IsOwn now none s who = (λ j h. refl, tt)
  on_heartbeat-IsOwn now (some b) s who = elim (Bool-cases (fit_heartbeat is_datetime b)) [
    | inl p ↦ rw p (
      λ j h.
          ta.at-update who.agent_id (beat b now) s.agents j
          ∙ ground (arith, text_eq_iff who.agent_id j),
      (refl, tt),
    )
    | inr p ↦ rw p (λ j h. refl, tt)
  ]

  on_metrics-IsOwn :
      (body : Option MetricsBatch) (s : State) (who : Identity)
      → IsOwn who s (on_metrics ta sha256_hex unhex is_datetime name digits body s who)
  on_metrics-IsOwn none s who = (λ j h. refl, tt)
  on_metrics-IsOwn (some b) s who = elim (Bool-cases (fit_batch is_datetime b)) [
    | inl p ↦ elim (Bool-cases (text_eq b.agent_id who.agent_id)) [
      | inl q ↦ rw (p, q) (λ j h. refl, (refl, tt))
      | inr q ↦ rw (p, q) (λ j h. refl, tt)
    ]
    | inr p ↦ rw p (λ j h. refl, tt)
  ]

  enter-IsOwn :
      (s : State) (who : Identity) (now : ℕ) (go : State → Identity → State × Reply × List Act)
      → ((s' : State) → IsOwn who s' (go s' who))
      → IsOwn who s (enter ta sha256_hex unhex is_datetime name digits s (some who) now go)
  enter-IsOwn s who now go h =
      elim (Bool-cases (rate_limited limit window_ms s.buckets (name who.agent_id) now).1) [
        | inl p ↦ rw p (λ j other. refl, tt)
        | inr p ↦ rw p (
            h (record s {
              buckets = (rate_limited limit window_ms s.buckets (name who.agent_id) now).0;
            }))
      ]

  envelope_of-tenant :
      (who : Identity) (uuid : Text) (e : AgentEvent) (env : Envelope)
      → envelope_of ta sha256_hex unhex is_datetime name digits who uuid e ≡ some env
      → env.tenant_id ≡ who.tenant_id
  envelope_of-tenant who uuid e env p =
      (build_event_envelope-keeps (codes "evt_" ++ uuid) who.tenant_id (codes "waagent")
        e.event_type (severity_of e.event_type) e.observed_at (some e.resource_id)
        (some (
          compose_fingerprint sha256_hex (codes "tenant_host_container") (record {
            tenant_id = who.tenant_id;
            host_id = e.host_id;
            container_id = some e.resource_id;
            resource_id = none;
          })))
        env p).0

  queue_events-All :
      (who : Identity) (es : List (Text × AgentEvent))
      → All
          (λ act. tenant_of act ≡ who.tenant_id)
          (queue_events ta sha256_hex unhex is_datetime name digits who es).0
  unfolding queue_events
  queue_events-All who [] = tt
  queue_events-All who ((uuid, e) ∷ es) =
      elim (Option-cases (envelope_of ta sha256_hex unhex is_datetime name digits who uuid e)) [
        | inl p ↦ rw (p, All) tt
        | inr (env, p) ↦ rw (p, All) (envelope_of-tenant who uuid e env p, queue_events-All who es)
      ]

  answer_events-acts :
      (count : ℕ) (r : List Act × Bool)
      → (answer_events ta sha256_hex unhex is_datetime name digits count r).1 ≡ r.0
  answer_events-acts count (acts, true) = refl
  answer_events-acts count (acts, false) = refl

  -- Whatever an authenticated agent sends, the routes leave the rows of the other agents as they are,
  -- and all that they publish and queue is for the tenant of that agent: a tenant in the body has no
  -- effect.
  pub routes-IsOwn :
      (s : State) (header : Option Text) (who : Identity) (body : Option Heartbeat)
      (batch : Option MetricsBatch) (es : List (Text × AgentEvent)) (now : ℕ)
      → authenticate_agent sha256_hex unhex ta s.agents header ≡ some who
      → IsOwn who s (heartbeat ta sha256_hex unhex is_datetime name digits s header body now)
        × IsOwn who s (metrics ta sha256_hex unhex is_datetime name digits s header batch now)
        × All
            (λ act. tenant_of act ≡ who.tenant_id)
            (events ta sha256_hex unhex is_datetime name digits s header es).1
  unfolding heartbeat metrics events
  routes-IsOwn s header who body batch es now e = (
    rw (e, heartbeat)
        (enter-IsOwn s who now (on_heartbeat ta sha256_hex unhex is_datetime name digits now body)
          (λ s'. on_heartbeat-IsOwn now body s' who)),
    rw (e, metrics)
        (enter-IsOwn s who now (on_metrics ta sha256_hex unhex is_datetime name digits batch)
          (λ s'. on_metrics-IsOwn batch s' who)),
    rw
        (
          e,
          events,
          answer_events-acts (length es)
              (queue_events ta sha256_hex unhex is_datetime name digits who es),
        )
        (queue_events-All who es),
  )
