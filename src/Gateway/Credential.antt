-- ===== src/Gateway/Credential.antt =====
-- apps/collector-gateway/src/auth.ts. The hash and the decoding of hexadecimal digits are arguments.
pub mod Parsing
use wa_ops.Base.{
  ℕ, ◌≡◌, ◌≢◌, refl, arith, Option-cases, inl, inr, Bool, true, false, not, ◌&&◌, ◌||◌, Option,
  none, some, List, [], ◌∷◌, ◌++◌, ◌==◌, leb, if◌then◌else◌,
}
use wa_ops.Base.Text.{Text, codes, text_eq, text_eq_iff, split_at}
use wa_ops.Contracts.{truthy}
use wa_ops.Database.{RowId, Table}

-- The white space that `trim` removes.
unfoldable pub is_space : ℕ → Bool
is_space c =
    (leb 9 c && leb c 13)
    || (c == 32
        || (c == 160
            || (c == 5760
                || ((leb 8192 c && leb c 8202)
                    || (c == 8232
                        || (c == 8233
                            || (c == 8239 || (c == 8287 || (c == 12288 || c == 65279)))))))))

unfoldable pub trim_start : Text → Text
trim_start [] = []
trim_start (c ∷ s) = let rest = trim_start s in if is_space c then rest else c ∷ s

abbrev pub trim_last : ℕ → Text → Text
trim_last c [] = if is_space c then [] else c ∷ []
trim_last c (d ∷ s) = c ∷ d ∷ s

unfoldable pub trim_end : Text → Text
trim_end [] = []
trim_end (c ∷ s) = trim_last c (trim_end s)

abbrev pub more : ℕ → List Text → List Text
more c [] = (c ∷ []) ∷ []
more c (part ∷ parts) = (c ∷ part) ∷ parts

-- `split` at a character
unfoldable pub split : ℕ → Text → List Text
split c [] = [] ∷ []
split c (d ∷ s) = let rest = split c s in if d == c then [] ∷ rest else more d rest

-- `startsWith(prefix)` with the `slice` behind it
unfoldable pub strip_prefix : Text → Text → Option Text
strip_prefix [] s = some s
strip_prefix (c ∷ p) [] = none
strip_prefix (c ∷ p) (d ∷ s) = let rest = strip_prefix p s in if c == d then rest else none

pub record Parsed : Type 0 where
  pub agent_id : Text
  pub secret : Text

abbrev pub both : Option Text → Option Text → Option Parsed
both (some a) (some s) = some (record { agent_id = a; secret = s })
both _ _ = none

unfoldable pub parse_parts : List Text → Option Parsed
parse_parts (scheme ∷ agent_id ∷ secret ∷ []) =
    if text_eq scheme (codes "waops")
    then both (truthy (some agent_id)) (truthy (some secret))
    else none
parse_parts _ = none

unfoldable pub parse_raw : Text → Option Parsed
unfolding parse_parts split trim_start trim_end
parse_raw raw = parse_parts (split 95 (trim_end (trim_start raw)))

abbrev pub parse_stripped : Option Text → Option Parsed
parse_stripped none = none
parse_stripped (some raw) = parse_raw raw

unfoldable pub parse_credential_header : Option Text → Option Parsed
unfolding strip_prefix parse_raw
parse_credential_header none = none
parse_credential_header (some header) = parse_stripped (strip_prefix (codes "Bearer ") header)

pub data AgentStatus : Type 0 where
  pending online revoked : AgentStatus

pub record Agent : Type 0 where
  pub tenant_id : Text
  pub name : Text
  pub version : Option Text
  pub protocol_version : Option ℕ
  pub status : AgentStatus
  pub capabilities : List Text
  pub credential_hash : Option Text
  pub last_seen_at : Option ℕ
  pub machine_id : Option Text
  pub host_id : Option Text

pub record Identity : Type 0 where
  pub agent_id : RowId
  pub tenant_id : Text

abbrev pub is_revoked : AgentStatus → Bool
is_revoked revoked = true
is_revoked _ = false

none≢some : {A : Type 0} {a : A} → ◌≡◌ {A = Option A} none (some a) → ⊥
none≢some e = cc

module _ (sha256_hex unhex : Text → Text) where
  unfoldable pub hash_agent_credential : RowId → Text → Text
  hash_agent_credential agent_id secret = sha256_hex (agent_id ++ (58 ∷ secret))

  unfoldable pub hash_enrollment_token : Text → Text
  hash_enrollment_token token = sha256_hex token

  abbrev pub check_hash : RowId → Text → Text → Option Text → Option Identity
  check_hash agent_id tenant_id secret none = none
  check_hash agent_id tenant_id secret (some stored) =
      if text_eq (unhex (hash_agent_credential agent_id secret)) (unhex stored)
      then some (record { agent_id = agent_id; tenant_id = tenant_id })
      else none

  check_hash_sound :
      (id : RowId) (tenant_id secret : Text) (o : Option Text) (who : Identity)
      → check_hash id tenant_id secret o ≡ some who
      → (stored : Text) × (o ≡ some stored)
        × (unhex (hash_agent_credential id secret) ≡ unhex stored)
        × (who ≡ record { agent_id = id; tenant_id = tenant_id })
  check_hash_sound id tenant_id secret none who e = cc
  check_hash_sound id tenant_id secret (some stored) who e =
      let same = text_eq_iff (unhex (hash_agent_credential id secret)) (unhex stored) in
      (stored, refl, ground (arith, same), ground arith)

  module _ (tb : Table Agent) where
    abbrev pub check_agent : RowId → Text → Option Agent → Option Identity
    check_agent id secret none = none
    check_agent id secret (some a) =
        if is_revoked a.status
        then none
        else check_hash id a.tenant_id secret (truthy a.credential_hash)

    unfoldable pub authenticate_agent : tb.State → Option Text → Option Identity
    unfolding hash_agent_credential
    authenticate_agent agents header = elim (parse_credential_header header) [
      | none ↦ none
      | some p ↦ check_agent p.agent_id p.secret (tb.at agents p.agent_id)
    ]

    -- What `authenticate_agent` has found out about whom it lets through.
    pub record Vouched (agents : tb.State) (header : Option Text) (who : Identity) : Type 0 where
      pub given : Parsed
      pub agent : Agent
      pub stored : Text
      pub parsed : parse_credential_header header ≡ some given
      pub present : tb.at agents given.agent_id ≡ some agent
      pub active : is_revoked agent.status ≡ false
      pub has_hash : truthy agent.credential_hash ≡ some stored
      pub same_hash : unhex (hash_agent_credential given.agent_id given.secret) ≡ unhex stored
      pub named : who ≡ record { agent_id = given.agent_id; tenant_id = agent.tenant_id }

    vouch :
        (agents : tb.State) (header : Option Text) (p : Parsed) (o : Option Agent) (who : Identity)
        → parse_credential_header header ≡ some p
        → tb.at agents p.agent_id ≡ o
        → check_agent p.agent_id p.secret o ≡ some who
        → Vouched agents header who
    vouch agents header p none who e q h = cc
    vouch agents header p (some a) who e q h =
        let live : is_revoked a.status ≡ false = ground arith in
        let (stored, n, same, named) =
          check_hash_sound p.agent_id a.tenant_id p.secret (truthy a.credential_hash) who
            (rw live at h) in
        record {
          given = p;
          agent = a;
          stored = stored;
          parsed = e;
          present = q;
          active = live;
          has_hash = n;
          same_hash = same;
          named = named;
        }

    -- Whoever is authenticated is an agent of the table that is not revoked, under the id of the
    -- header and in the tenant of its row, and the header's secret, hashed with the id, gives the
    -- hash that the row holds.
    pub authenticate_agent_sound :
        (agents : tb.State) (header : Option Text) (who : Identity)
        → authenticate_agent agents header ≡ some who
        → Vouched agents header who
    unfolding authenticate_agent
    authenticate_agent_sound agents header who e =
        elim (Option-cases (parse_credential_header header)) [
          | inl q ↦ absurd (none≢some (rw (q, authenticate_agent) at e))
          | inr (p, q) ↦
              vouch agents header p (tb.at agents p.agent_id) who q refl
                (rw (q, authenticate_agent) at e)
        ]

    -- The converse: a row that is not revoked and holds the hash of the header's secret lets it in.
    pub authenticate_agent_complete :
        (agents : tb.State) (header : Option Text) (p : Parsed) (a : Agent) (stored : Text)
        → parse_credential_header header ≡ some p
        → tb.at agents p.agent_id ≡ some a
        → is_revoked a.status ≡ false
        → truthy a.credential_hash ≡ some stored
        → unhex (hash_agent_credential p.agent_id p.secret) ≡ unhex stored
        → authenticate_agent agents header
          ≡ some (record { agent_id = p.agent_id; tenant_id = a.tenant_id })
    unfolding authenticate_agent
    authenticate_agent_complete agents header p a stored parsed present active has_hash same =
        let equal : text_eq (unhex (hash_agent_credential p.agent_id p.secret)) (unhex stored)
            ≡ true =
          (text_eq_iff _ _).1 same in
        rw (parsed, present, active, has_hash, equal, authenticate_agent) refl
