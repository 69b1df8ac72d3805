-- ===== src/Gateway/Tests.antt =====
-- Runs of the authentication and the enrollment of the gateway, and of a revocation, over tables in memory.
use wa_ops.Base.{ℕ, ◌≡◌, ◌≢◌, refl, ◌++◌, false, true, none, some, List, [], ◌∷◌, arith}
use wa_ops.Base.Text.{Text, codes, includes, text_eq}
use wa_ops.Memory.{Rows, memory, row_at, find_row, new_id, update_rows, count_rows}
use wa_ops.Gateway.Credential.{
  is_space, Agent, online, parse_credential_header, authenticate_agent, Vouched,
  authenticate_agent_sound,
}
use wa_ops.Errors.{returned, raised}
use wa_ops.Gateway.Revocation
use wa_ops.Gateway.Revocation.{revoke, revoke-shuts_out}
use wa_ops.Gateway.Enrollment.{Token, active, Body, enrolled, authentication_required, Db, enroll}
use wa_ops.Gateway.Enrollment.OneTime.{Request, enroll_all, enroll-once}
use wa_ops.Gateway.Enrollment.RoundTrip.{IsUsedBy, enroll-authenticates}
use wa_ops.Gateway.Credential.Parsing.{credential, IsPart}

-- The place of a hash and of a decoding: the text itself.
abbrev pub itself : Text → Text
itself s = s

abbrev pub agents : Rows Agent
agents =
    (
      codes "a1",
      record {
        tenant_id = codes "t1";
        name = codes "waagent";
        version = none;
        protocol_version = some 1;
        status = online;
        capabilities = [];
        credential_hash = some (codes "a1:s3cret");
        last_seen_at = none;
        machine_id = none;
        host_id = none;
      },
    )
    ∷ []

filled : (c : ℕ) (s : Text) → c ∷ s ≢ []
filled c s e = cc

a1-IsPart : IsPart (codes "a1")
unfolding includes is_space
a1-IsPart = record { filled = filled _ _; joined = refl; solid = (refl, (refl, tt)) }

s3cret-IsPart : IsPart (codes "s3cret")
unfolding includes is_space
s3cret-IsPart = record {
  filled = filled _ _;
  joined = refl;
  solid = (refl, (refl, (refl, (refl, (refl, (refl, tt))))));
}

pub a1_enters :
    authenticate_agent itself itself (memory Agent) agents (some (codes "Bearer waops_a1_s3cret"))
    ≡ some (record { agent_id = codes "a1"; tenant_id = codes "t1" })
unfolding authenticate_agent parse_credential_header row_at text_eq is_space
a1_enters = refl

wrong_secret :
    authenticate_agent itself itself (memory Agent) agents (some (codes "Bearer waops_a1_other"))
    ≡ none
unfolding authenticate_agent parse_credential_header row_at text_eq is_space
wrong_secret = refl

authenticate_agent_sound_example :
    Vouched itself itself
      (memory Agent)
      agents
      (some (codes "Bearer waops_a1_s3cret"))
      (record { agent_id = codes "a1"; tenant_id = codes "t1" })
authenticate_agent_sound_example =
    authenticate_agent_sound itself itself (memory Agent) agents
      (some (codes "Bearer waops_a1_s3cret"))
      (record { agent_id = codes "a1"; tenant_id = codes "t1" }) a1_enters

-- A hash that is never empty.
abbrev tagged : Text → Text
tagged s = 1 ∷ s

abbrev enr : Text
enr = codes "enr_0123456789abcdef"

abbrev ready : Db tagged itself (memory Agent) (memory Token)
ready = record {
  agents = [];
  tokens =
      (
        codes "k",
        record {
          token_hash = tagged enr;
          tenant_id = codes "t1";
          status = active;
          agent_id = none;
          expires_at = 100;
          used_at = none;
        },
      )
      ∷ [];
}

abbrev body : Body
body = record { enrollment_token = some enr; name = none; version = none; capabilities = none }

abbrev after : Db tagged itself (memory Agent) (memory Token)
after = (enroll tagged itself (memory Agent) (memory Token) ready 5 false (codes "s3cret") body).0

enrolls :
    enroll tagged itself (memory Agent) (memory Token) ready 5 false (codes "s3cret") body
    ≡ (after, enrolled (1 ∷ []) (credential (1 ∷ []) (codes "s3cret")))
unfolding enroll count_rows update_rows find_row new_id text_eq
enrolls = refl

-- The token again, and a token that nobody has made, whose call would fail.
abbrev traffic : List (Request tagged itself (memory Agent) (memory Token))
traffic =
    record { time = 5; fault = false; secret = codes "o"; body = body }
    ∷ record {
      time = 6;
      fault = true;
      secret = codes "p";
      body = record body { enrollment_token = some (codes "enr_0123456789abcdef") };
    }
    ∷ []

enroll-once_example :
    (enroll tagged itself
      (memory Agent)
      (memory Token)
      (enroll_all tagged itself (memory Agent) (memory Token) after traffic)
      7
      false
      (codes "other")
      body).1
    ≡ authentication_required
enroll-once_example =
    enroll-once tagged itself (memory Agent) (memory Token) ready after 5 7 false false
      (codes "s3cret") (codes "other") body body _ _ traffic enrolls refl
      (omega arith, (omega arith, omega arith))

first-IsPart : IsPart (1 ∷ [])
unfolding includes is_space
first-IsPart = record { filled = filled _ _; joined = refl; solid = (refl, tt) }

tagged_filled : (s : Text) → tagged s ≢ []
tagged_filled s = filled 1 s

enroll-authenticates_example :
    (tenant : Text) × (authenticate_agent tagged itself
        (memory Agent)
        after.agents
        (some (codes "Bearer " ++ credential (1 ∷ []) (codes "s3cret")))
      ≡ some (record { agent_id = 1 ∷ []; tenant_id = tenant }))
    × IsUsedBy tagged itself (memory Agent) (memory Token) after.tokens (1 ∷ []) tenant
enroll-authenticates_example =
    enroll-authenticates tagged itself (memory Agent) (memory Token) ready after 5 false
      (codes "s3cret") body (1 ∷ []) _ enrolls first-IsPart s3cret-IsPart tagged_filled

-- Two agents, of which one is revoked.
abbrev pub pair : Revocation.Db (memory Agent)
pair = record {
  agents =
      agents
      ++ (
        codes "a2",
        record {
          tenant_id = codes "t1";
          name = codes "old";
          version = none;
          protocol_version = none;
          status = online;
          capabilities = [];
          credential_hash = some (codes "a2:x");
          last_seen_at = none;
          machine_id = none;
          host_id = none;
        },
      )
        ∷ [];
  audits = [];
  published = [];
}

abbrev shut : Revocation.Db (memory Agent)
shut = elim (revoke (memory Agent) pair (codes "t1") (codes "a2")) [
  | returned d ↦ d
  | raised e ↦ pair
]

revokes : revoke (memory Agent) pair (codes "t1") (codes "a2") ≡ returned shut
unfolding revoke find_row text_eq
revokes = refl

still_enters :
    authenticate_agent itself itself
      (memory Agent)
      shut.agents
      (some (codes "Bearer waops_a1_s3cret"))
    ≡ some (record { agent_id = codes "a1"; tenant_id = codes "t1" })
unfolding revoke find_row update_rows authenticate_agent parse_credential_header row_at text_eq
    is_space
still_enters = refl
