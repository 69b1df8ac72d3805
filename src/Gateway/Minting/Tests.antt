-- ===== src/Gateway/Minting/Tests.antt =====
-- A token that is made over tables in memory, and the agent that enrolls with it.
use wa_ops.Base.{◌≡◌, refl, ◌++◌, false, none, some, [], ◌∷◌, arith}
use wa_ops.Base.Text.{Text, codes}
use wa_ops.Database.{RowId}
use wa_ops.Memory.{memory, row_at, new_id, count_rows}
use wa_ops.Errors.{returned}
use wa_ops.Gateway.Credential.{Agent}
use wa_ops.Gateway.Credential.Parsing.{credential}
use wa_ops.Gateway.Enrollment
use wa_ops.Gateway.Enrollment.{Token, Body, enrolled, enroll}
use wa_ops.Gateway.Minting.{Db, CreateToken, TokenAnswer, create_token}
use wa_ops.Gateway.Minting.Redeeming.{create_token-enrolls}

abbrev tagged : Text → Text
tagged s = 35 ∷ s

abbrev itself : Text → Text
itself s = s

abbrev random : Text
random = codes "0123456789abcdef0123456789abcdef0123456789abcdef"

abbrev no_tokens : Db tagged itself (memory Token) count_rows
no_tokens = record { tokens = []; audits = [] }

abbrev input : CreateToken
input = record { name = none; ttl_minutes = none }

abbrev after : Db tagged itself (memory Token) count_rows
after = record {
  tokens =
      (
        1 ∷ [],
        record {
          token_hash = tagged (codes "enr_" ++ random);
          tenant_id = codes "acme";
          status = Enrollment.active;
          agent_id = none;
          expires_at = 900007;
          used_at = none;
        },
      )
      ∷ [];
  audits = record { resource_id = 1 ∷ []; name = none; ttl_minutes = 15; actor_id = none } ∷ [];
}

abbrev answer : TokenAnswer
answer = record { token = codes "enr_" ++ random; token_id = 1 ∷ []; expires_at = 900007 }

made :
    create_token tagged itself
      (memory Token)
      count_rows
      no_tokens
      (codes "acme")
      none
      7
      random
      input
    ≡ returned (after, answer)
unfolding create_token count_rows new_id
made = refl

abbrev body : Body
body = record {
  enrollment_token = some (codes "enr_" ++ random);
  name = none;
  version = none;
  capabilities = none;
}

create_token-enrolls_example :
    (k : RowId) × (a : Agent) × ((enroll tagged itself
        (memory Agent)
        (memory Token)
        (record { agents = []; tokens = after.tokens })
        900006
        false
        (codes "s3cret")
        body).1
      ≡ enrolled k (credential k (codes "s3cret")))
    × ((memory Agent).at
          (enroll tagged itself
            (memory Agent)
            (memory Token)
            (record { agents = []; tokens = after.tokens })
            900006
            false
            (codes "s3cret")
            body).0.agents
          k
        ≡ some a)
    × (a.tenant_id ≡ codes "acme")
unfolding row_at
create_token-enrolls_example =
    create_token-enrolls tagged itself (memory Agent) (memory Token) count_rows no_tokens after
      (codes "acme") none 7 random input answer [] 900006 (codes "s3cret") body made refl
      (λ k t e. cc e) (omega arith) refl
