-- ===== src/Gateway/Revocation.antt =====
-- `revoke` of apps/api/src/agents/agents.controller.ts, and what the gateway makes of it.
use mathlib.Core.Bool.{false≢true}
use wa_ops.Base.{◌≡◌, ◌≢◌, refl, sym, ap, ◌∙◌, Bool, ◌&&◌, Option, some, List, [], ◌∷◌, ◌++◌, arith}
use wa_ops.Base.Text.{Text, text_eq, text_eq_iff}
use wa_ops.Database.{RowId, Table}
use wa_ops.Errors.{
  Result, returned, not_found_error, or_throw, or_throw-eq-returned, >>=-eq-returned,
  returned-injective, ◌>>=◌,
}
use wa_ops.Gateway.Credential.{
  Agent, AgentStatus, revoked, is_revoked, Identity, authenticate_agent, authenticate_agent_sound,
}

-- The audit row of a revocation.
pub record Revocation : Type 0 where
  pub agent_id : RowId
  pub before : AgentStatus
  pub after : AgentStatus

-- What is published to the tenant: `agent.revoked`.
pub record Revoked : Type 0 where
  pub tenant_id : Text
  pub agent_id : RowId
  pub name : Text

abbrev pub to_revoked : Agent → Agent
to_revoked a = record a { status = revoked }

module _ (ta : Table Agent) where
  pub record Db : Type 0 where
    pub agents : ta.State
    pub audits : List Revocation
    pub published : List Revoked

  abbrev pub owned : Text → RowId → RowId → Agent → Bool
  owned tenant id k a = text_eq k id && text_eq a.tenant_id tenant

  unfoldable pub revoke : Db → Text → RowId → Result Db
  revoke db tenant id = do
    (k, a) ← or_throw (not_found_error "Agent") (ta.find_first (owned tenant id) db.agents)
    returned (record {
      agents = ta.update k to_revoked db.agents;
      audits = db.audits ++ record { agent_id = k; before = a.status; after = revoked } ∷ [];
      published = db.published ++ record { tenant_id = tenant; agent_id = k; name = a.name } ∷ [];
    })

  pub revoke-at :
      (db db' : Db) (tenant : Text) (id : RowId)
      → revoke db tenant id ≡ returned db'
      → (a : Agent) × (a.tenant_id ≡ tenant)
        × (ta.at db.agents id ≡ some a)
        × (ta.at db'.agents id ≡ some (to_revoked a))
  unfolding revoke
  revoke-at db db' tenant id e =
      let ((k, a), found, last) =
        >>=-eq-returned
          (or_throw (not_found_error "Agent") (ta.find_first (owned tenant id) db.agents)) _ e in
      let p = or_throw-eq-returned _ (ta.find_first (owned tenant id) db.agents) (k, a) found in
      let (stands, m) = ta.find_first-some (owned tenant id) db.agents k a p in
      let same : k ≡ id = ground (arith, text_eq_iff k id) in
      let own : a.tenant_id ≡ tenant = ground (arith, text_eq_iff a.tenant_id tenant) in
      let agents : ta.update k to_revoked db.agents ≡ db'.agents =
        ap (λ (d : Db). d.agents) (returned-injective last) in
      (
        a,
        own,
        rw same at stands,
        rw (← agents, ← same)
            (ta.at-update k to_revoked db.agents k ∙ rw ((text_eq_iff k k).1 refl, stands) refl),
      )

  module _ (sha256_hex unhex : Text → Text) where
    -- After an agent has been revoked, no header authenticates it.
    pub revoke-shuts_out :
        (db db' : Db) (tenant : Text) (id : RowId) (header : Option Text) (who : Identity)
        → revoke db tenant id ≡ returned db'
        → authenticate_agent sha256_hex unhex ta db'.agents header ≡ some who
        → who.agent_id ≢ id
    revoke-shuts_out db db' tenant id header who e h same =
        let v = authenticate_agent_sound sha256_hex unhex ta db'.agents header who h in
        let (a, _, _, shut) = revoke-at db db' tenant id e in
        let named : who.agent_id ≡ v.given.agent_id = ap (λ (w : Identity). w.agent_id) v.named in
        let here : v.given.agent_id ≡ id = sym named ∙ same in
        let row : ta.at db'.agents id ≡ some v.agent = rw here at v.present in
        let it : to_revoked a ≡ v.agent = cc in
        false≢true (sym v.active ∙ sym (ap (λ (x : Agent). is_revoked x.status) it))
