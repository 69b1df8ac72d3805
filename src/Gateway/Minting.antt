-- ===== src/Gateway/Minting.antt =====
-- `createToken` of apps/api/src/agents/agents.controller.ts. The random token, its hash, the clock and
-- the count of rows are arguments, and a body is the record of its fields after their coercion.
pub mod Redeeming
mod Tests
use wa_ops.Base.{
  ℕ, ◌+◌, ◌*◌, Bool, true, false, not, ◌&&◌, ◌||◌, Option, none, some, List, [], ◌∷◌, ◌++◌, ltb,
  leb, length,
}
use wa_ops.Base.Text.{Text, codes, text_eq}
use wa_ops.Database.{RowId, Table}
use wa_ops.Errors.{Result, returned, quota_exceeded_error, validation, guard, ◌>>=◌, ◌>>◌}
use wa_ops.Gateway.Credential.{hash_enrollment_token}
use wa_ops.Gateway.Enrollment.{Token, active, is_active, is_claiming}

-- CreateTokenSchema
pub record CreateToken : Type 0 where
  pub name : Option Text
  pub ttl_minutes : Option ℕ

abbrev fit_name : Option Text → Bool
fit_name none = true
fit_name (some s) = leb 1 (length s) && leb (length s) 120

abbrev fit_ttl : Option ℕ → Bool
fit_ttl none = true
fit_ttl (some n) = leb 1 n && leb n 60

abbrev pub fit_create : CreateToken → Bool
fit_create input = fit_name input.name && fit_ttl input.ttl_minutes

abbrev pub max_pending_tokens_per_tenant : ℕ
max_pending_tokens_per_tenant = 20

-- `input.ttl_minutes ?? 15`
abbrev minutes_or_default : Option ℕ → ℕ
minutes_or_default none = 15
minutes_or_default (some n) = n

abbrev pub ttl_of : CreateToken → ℕ
ttl_of input = minutes_or_default input.ttl_minutes

-- `{ tenantId, status: { in: ['active', 'claiming'] } }`
abbrev pub pending_of : Text → RowId → Token → Bool
pending_of tenant k t = text_eq t.tenant_id tenant && (is_active t.status || is_claiming t.status)

-- The audit row.
pub record Minted : Type 0 where
  pub resource_id : RowId
  pub name : Option Text
  pub ttl_minutes : ℕ
  pub actor_id : Option Text

-- The answer, without the hint.
pub record TokenAnswer : Type 0 where
  pub token : Text
  pub token_id : RowId
  pub expires_at : ℕ

abbrev pub new_token : Text → Text → ℕ → Token
new_token hash tenant expires_at = record {
  token_hash = hash;
  tenant_id = tenant;
  status = active;
  agent_id = none;
  expires_at = expires_at;
  used_at = none;
}

module _ (sha256_hex unhex : Text → Text) (tk : Table Token)
    (count : (RowId → Token → Bool) → tk.State → ℕ) where
  pub record Db : Type 0 where
    pub tokens : tk.State
    pub audits : List Minted

  -- `random` is the text of `randomBytes(24).toString('hex')`.
  unfoldable pub create_token :
      Db
      → (tenant : Text) → (actor : Option Text) → (now : ℕ) → (random : Text) → CreateToken
      → Result (Db × TokenAnswer)
  unfolding hash_enrollment_token
  create_token db tenant actor now random input = do
    guard (fit_create input) (validation "Validation failed")
    guard (ltb (count (pending_of tenant) db.tokens) max_pending_tokens_per_tenant)
        (quota_exceeded_error "agent_enrollment_tokens" max_pending_tokens_per_tenant)
    let token = codes "enr_" ++ random
    let expires_at = now + ttl_of input * 60000
    let (k, tokens) =
        tk.create (new_token (hash_enrollment_token sha256_hex unhex token) tenant expires_at)
          db.tokens
    returned (
      record {
        tokens = tokens;
        audits =
            db.audits
            ++ record {
              resource_id = k;
              name = input.name;
              ttl_minutes = ttl_of input;
              actor_id = actor;
            }
              ∷ [];
      },
      record { token = token; token_id = k; expires_at = expires_at },
    )
