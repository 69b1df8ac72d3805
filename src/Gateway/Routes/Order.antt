-- ===== src/Gateway/Routes/Order.antt =====
-- What the routes of apps/collector-gateway/src/main.ts refuse, and a heartbeat that comes too late.
use wa_ops.Base.{
  ℕ, ◌≡◌, ◌≢◌, refl, sym, ap, ◌∙◌, Bool, true, String, Option, none, some, List, [], Bool-cases,
  inl, inr,
}
use wa_ops.Base.Text.{Text, text_eq_iff}
use wa_ops.Database.{RowId, Table}
use wa_ops.Errors.{returned}
use wa_ops.RateLimit.Window.{rate_limited}
use wa_ops.Gateway.Credential.{
  Agent, Identity, authenticate_agent, authenticate_agent_sound, authenticate_agent_complete,
}
use wa_ops.Gateway.Protocol.{Heartbeat, fit_heartbeat}
use wa_ops.Gateway.Revocation
use wa_ops.Gateway.Revocation.{revoke, revoke-at, to_revoked}
use wa_ops.Gateway.Routes.{
  Reply, ack, Act, Store, beat, limit, window_ms, enter, on_heartbeat, heartbeat,
}

module _ (ta : Table Agent) (sha256_hex unhex : Text → Text) (is_datetime : Text → Bool)
    (name : RowId → String) (digits : ℕ → Text) where
  abbrev State : Type 0
  State = Store ta sha256_hex unhex is_datetime name digits

  abbrev Refused : State → State × Reply × List Act → Type 0
  Refused s (s', reply, acts) = (agent_id : Text) → reply ≢ ack agent_id

  abbrev Nothing : State → State × Reply × List Act → Type 0
  Nothing s (s', reply, acts) = (s'.agents ≡ s.agents) × (acts ≡ [])

  on_heartbeat-Nothing :
      (now : ℕ) (body : Option Heartbeat) (s : State) (who : Identity)
      → Refused s (on_heartbeat ta sha256_hex unhex is_datetime name digits now body s who)
      → Nothing s (on_heartbeat ta sha256_hex unhex is_datetime name digits now body s who)
  on_heartbeat-Nothing now none s who h = (refl, refl)
  on_heartbeat-Nothing now (some b) s who h = elim (Bool-cases (fit_heartbeat is_datetime b)) [
    | inl p ↦ absurd (rw p at h b.agent_id refl)
    | inr p ↦ rw p (refl, refl)
  ]

  enter-Nothing :
      (s : State) (o : Option Identity) (now : ℕ) (body : Option Heartbeat)
      → Refused s (
          enter ta sha256_hex unhex is_datetime name digits s o now
            (on_heartbeat ta sha256_hex unhex is_datetime name digits now body))
      → Nothing s (
          enter ta sha256_hex unhex is_datetime name digits s o now
            (on_heartbeat ta sha256_hex unhex is_datetime name digits now body))
  enter-Nothing s none now body h = (refl, refl)
  enter-Nothing s (some who) now body h =
      elim (Bool-cases (rate_limited limit window_ms s.buckets (name who.agent_id) now).1) [
        | inl p ↦ rw p (refl, refl)
        | inr p ↦ rw p (on_heartbeat-Nothing now body _ who (rw p at h))
      ]

  -- A heartbeat that is not acknowledged, for whatever reason, leaves the agents as they were, and
  -- nothing is published.
  pub heartbeat-refuses :
      (s : State) (authorization : Option Text) (body : Option Heartbeat) (now : ℕ)
      → ((agent_id : Text)
          → (heartbeat ta sha256_hex unhex is_datetime name digits s authorization body now).1
            ≢ ack agent_id)
      → ((heartbeat ta sha256_hex unhex is_datetime name digits s authorization body now).0.agents
          ≡ s.agents)
        × ((heartbeat ta sha256_hex unhex is_datetime name digits s authorization body now).2 ≡ [])
  unfolding heartbeat
  heartbeat-refuses s authorization body now h = enter-Nothing s _ now body h

  revived :
      (agents : ta.State) (id : RowId) (f : Agent → Agent) (a : Agent)
      → ta.at agents id ≡ some a
      → ta.at (ta.update id f agents) id ≡ some (f a)
  revived agents id f a e = ta.at-update id f agents id ∙ rw ((text_eq_iff id id).1 refl, e) refl

  -- A heartbeat that was authenticated before its agent was revoked, and is written after that, undoes
  -- the revocation: the header that it came with is authenticated again.
  pub on_heartbeat-revives :
      (db db' : Revocation.Db ta) (tenant : Text) (header : Option Text) (who : Identity)
      (h : Heartbeat) (now : ℕ) (s : State)
      → authenticate_agent sha256_hex unhex ta db.agents header ≡ some who
      → revoke ta db tenant who.agent_id ≡ returned db'
      → s.agents ≡ db'.agents
      → fit_heartbeat is_datetime h ≡ true
      → authenticate_agent sha256_hex unhex ta
          (on_heartbeat ta sha256_hex unhex is_datetime name digits now (some h) s who).0.agents
          header
        ≡ some who
  on_heartbeat-revives db db' tenant header who h now s e r same fit =
      let v = authenticate_agent_sound sha256_hex unhex ta db.agents header who e in
      let (a, _, before, after) = revoke-at ta db db' tenant who.agent_id r in
      let named : who.agent_id ≡ v.given.agent_id = ap (λ (w : Identity). w.agent_id) v.named in
      let own : a ≡ v.agent = same_row before (ap (ta.at db.agents) named ∙ v.present) in
      let there : ta.at s.agents who.agent_id ≡ some (to_revoked v.agent) =
        ap (λ x. ta.at x who.agent_id) same ∙ after ∙ ap (λ x. some (to_revoked x)) own in
      rw fit (
        authenticate_agent_complete sha256_hex unhex ta _ header v.given
          (beat h now (to_revoked v.agent)) v.stored v.parsed
          (ap (ta.at (ta.update who.agent_id (beat h now) s.agents)) (sym named)
            ∙ revived s.agents who.agent_id (beat h now) (to_revoked v.agent) there)
          refl v.has_hash v.same_hash
        ∙ ap some (sym v.named))
    where
      same_row : {o : Option Agent} {a b : Agent} → o ≡ some a → o ≡ some b → a ≡ b
      same_row p q = cc
