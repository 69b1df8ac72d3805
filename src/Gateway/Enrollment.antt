-- ===== src/Gateway/Enrollment.antt =====
-- The route `/api/v1/agents/enrollment` of apps/collector-gateway/src/main.ts. `randomBytes` and the
-- hash are arguments, and so is whether a call of the database throws after the claim; a transaction
-- that throws leaves its tables as they were.
pub mod Claiming
pub mod OneTime
pub mod RoundTrip
use wa_ops.Base.{
  ℕ, ◌≡◌, refl, Bool, true, false, not, ◌&&◌, ◌||◌, Option, none, some, List, [], ◌∷◌, ◌++◌, ◌==◌,
  ltb, leb, length, if◌then◌else◌,
}
use wa_ops.Base.Text.{Text, codes, text_eq}
use wa_ops.Database.{RowId, Table}
use wa_ops.Gateway.Credential.{Agent, online, hash_agent_credential, hash_enrollment_token}
use wa_ops.Gateway.Credential.Parsing.{credential}

pub data TokenStatus : Type 0 where
  active claiming used : TokenStatus

pub record Token : Type 0 where
  pub token_hash : Text
  pub tenant_id : Text
  pub status : TokenStatus
  pub agent_id : Option RowId
  pub expires_at : ℕ
  pub used_at : Option ℕ

-- The request's body.
pub record Body : Type 0 where
  pub enrollment_token : Option Text
  pub name : Option Text
  pub version : Option Text
  pub capabilities : Option (List Text)

pub data Reply : Type 0 where
  validation_error authentication_required thrown : Reply
  enrolled : (agent_id : RowId) → (cred : Text) → Reply

abbrev pub is_active : TokenStatus → Bool
is_active active = true
is_active _ = false

abbrev pub is_claiming : TokenStatus → Bool
is_claiming claiming = true
is_claiming _ = false

-- `{ tokenHash, status: 'active', expiresAt: { gt: new Date() } }`
abbrev pub claimable : Text → ℕ → RowId → Token → Bool
claimable hash now k t = text_eq t.token_hash hash && (is_active t.status && ltb now t.expires_at)

-- `{ tokenHash, status: 'claiming' }`
abbrev pub claimed : Text → RowId → Token → Bool
claimed hash k t = text_eq t.token_hash hash && is_claiming t.status

abbrev pub to_claiming : Token → Token
to_claiming t = record t { status = claiming }

abbrev pub to_active : Token → Token
to_active t = record t { status = active }

abbrev pub to_used : RowId → ℕ → Token → Token
to_used agent now t = record t { status = used; used_at = some now; agent_id = some agent }

abbrev pub has_hash : Text → RowId → Token → Bool
has_hash hash k t = text_eq t.token_hash hash

abbrev pub set_hash : Text → Agent → Agent
set_hash hash a = record a { credential_hash = some hash }

-- The token of a body, if it passes the test of the handler.
abbrev pub checked_token : Option Text → Option Text
checked_token none = none
checked_token (some t) = if leb 16 (length t) && leb (length t) 256 then some t else none

abbrev or_else {ℓ} : {A : Type ℓ} → Option A → A → A
or_else none a = a
or_else (some b) a = b

module _ (sha256_hex unhex : Text → Text) (agents_table : Table Agent)
    (tokens_table : Table Token) where
  pub record Db : Type 0 where
    pub agents : agents_table.State
    pub tokens : tokens_table.State

  unfoldable pub claim : Text → ℕ → tokens_table.State → tokens_table.State × ℕ
  claim hash now = tokens_table.update_many (claimable hash now) to_claiming

  -- The agent of the transaction's `create`, with the placeholder of a hash.
  abbrev pub new_agent : Body → Text → Text → Agent
  new_agent body tenant_id secret = record {
    tenant_id = tenant_id;
    name = or_else body.name (codes "waagent");
    version = body.version;
    protocol_version = some 1;
    status = online;
    capabilities = or_else body.capabilities [];
    credential_hash = some (hash_agent_credential sha256_hex unhex [] secret);
    last_seen_at = none;
    machine_id = none;
    host_id = none;
  }

  -- The `catch`.
  abbrev pub roll_back : Text → Db → Db × Reply
  roll_back hash db = (
    record db { tokens = (tokens_table.update_many (claimed hash) to_active db.tokens).0 },
    thrown,
  )

  -- The transaction, for the token that stands under `t`.
  unfoldable pub admit : Db → RowId → Token → ℕ → Text → Body → Db × Reply
  unfolding hash_agent_credential
  admit db t token now secret body =
      let (k, agents) = agents_table.create (new_agent body token.tenant_id secret) db.agents in
      (
        record db {
          agents =
              agents_table.update k (set_hash (hash_agent_credential sha256_hex unhex k secret))
                agents;
          tokens = tokens_table.update t (to_used k now) db.tokens;
        },
        enrolled k (credential k secret),
      )

  -- The `try`, for the winner of the claim.
  unfoldable pub settle : Db → Text → ℕ → (fault : Bool) → Text → Body → Db × Reply
  unfolding admit
  settle db hash now fault secret body = elim (tokens_table.find_first (has_hash hash) db.tokens) [
    | none ↦ roll_back hash db
    | some (t, token) ↦
        if fault || not (is_claiming token.status)
        then roll_back hash db
        else admit db t token now secret body
  ]

  unfoldable pub enroll : Db → ℕ → (fault : Bool) → Text → Body → Db × Reply
  unfolding claim settle hash_enrollment_token
  enroll db now fault secret body = elim (checked_token body.enrollment_token) [
    | none ↦ (db, validation_error)
    | some token ↦
        let hash = hash_enrollment_token sha256_hex unhex token in
        let (tokens, count) = claim hash now db.tokens in
        let won = settle (record db { tokens = tokens }) hash now fault secret body in
        if count == 0 then (record db { tokens = tokens }, authentication_required) else won
  ]
