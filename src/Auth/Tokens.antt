-- ===== src/Auth/Tokens.antt =====
-- `TokenService` of apps/api/src/auth/jwt.service.ts, and `TenantContextMiddleware` of
-- tenant-context.middleware.ts beside it. The signing and the checking of the JWT library are
-- arguments, and so is the clock, in seconds.
use wa_ops.Base.{ℕ, ◌+◌, ◌*◌, ◌≤◌, ◌<◌, ◌≡◌, ◌≢◌, refl, Option, none, some, List, [], ◌++◌}
use wa_ops.Base.Text.{Text, codes}
use wa_ops.Gateway.Credential.{trim_start, trim_end, strip_prefix}

-- What a token says, with the time at which it ends. A token of `signAccessToken` has the fields of
-- AccessTokenClaims, one of `signRefreshToken` those of RefreshTokenClaims: the others are undefined.
pub record Payload : Type 0 where
  pub sub : Text
  pub tenant : Text
  pub org : Option (Option Text)
  pub perms : Option (List Text)
  pub ents : Option (List Text)
  pub jti : Text
  pub exp : ℕ

-- ACCESS_TTL and REFRESH_TTL, for the variable of the environment where it is set. The schema of
-- packages/config lets whole numbers through, from 1.
abbrev pub access_ttl : Option ℕ → ℕ
access_ttl none = 900
access_ttl (some seconds) = seconds

abbrev pub refresh_ttl : Option ℕ → ℕ
refresh_ttl none = 604800
refresh_ttl (some seconds) = seconds

pub record Claims : Type 0 where
  pub sub : Text
  pub tenant : Text
  pub org : Option Text
  pub perms : List Text
  pub ents : List Text

-- TenantContext, for a user.
pub record Context : Type 0 where
  pub user_id : Text
  pub tenant_id : Text
  pub organization_scope : Option Text
  pub permissions : List Text
  pub entitlements : List Text

-- `new Set(undefined)` is empty.
abbrev pub set_of : Option (List Text) → List Text
set_of none = []
set_of (some keys) = keys

abbrev pub org_of : Option (Option Text) → Option Text
org_of none = none
org_of (some org) = org

abbrev pub context_of : Payload → Context
context_of p = record {
  user_id = p.sub;
  tenant_id = p.tenant;
  organization_scope = org_of p.org;
  permissions = set_of p.perms;
  entitlements = set_of p.ents;
}

-- The variables JWT_ACCESS_TTL_SECONDS and JWT_REFRESH_TTL_SECONDS, and the library: a token in the
-- three parts that it writes, checked at a time.
pub record Jwt : Type 0 where
  pub access_ttl_seconds : Option ℕ
  pub refresh_ttl_seconds : Option ℕ
  pub sign : Payload → Text
  pub verify : ℕ → Text → Option Payload
  -- What is signed is read back until it ends.
  pub verify-sign : (p : Payload) (now : ℕ) → now < p.exp → verify now (sign p) ≡ some p
  pub verify-sign_ended : (p : Payload) (now : ℕ) → p.exp ≤ now → verify now (sign p) ≡ none
  pub filled : (p : Payload) → sign p ≢ []
  -- A token has no white space at its ends.
  pub trimmed : (p : Payload) → trim_end (trim_start (sign p)) ≡ sign p

module _ (jwt : Jwt) where
  -- `refreshCookieMaxAge`
  abbrev pub refresh_cookie_max_age : ℕ
  refresh_cookie_max_age = refresh_ttl jwt.refresh_ttl_seconds * 1000

  abbrev pub access_payload : Claims → Text → ℕ → Payload
  access_payload c jti now = record {
    sub = c.sub;
    tenant = c.tenant;
    org = some c.org;
    perms = some c.perms;
    ents = some c.ents;
    jti = jti;
    exp = now + access_ttl jwt.access_ttl_seconds;
  }

  abbrev pub refresh_payload : Text → Text → Text → ℕ → Payload
  refresh_payload sub tenant jti now = record {
    sub = sub;
    tenant = tenant;
    org = none;
    perms = none;
    ents = none;
    jti = jti;
    exp = now + refresh_ttl jwt.refresh_ttl_seconds;
  }

  unfoldable pub sign_access_token : Claims → Text → ℕ → Text
  sign_access_token c jti now = jwt.sign (access_payload c jti now)

  unfoldable pub sign_refresh_token : Text → Text → Text → ℕ → Text
  sign_refresh_token sub tenant jti now = jwt.sign (refresh_payload sub tenant jti now)

  unfoldable pub verify_access_token : ℕ → Text → Option Payload
  verify_access_token now token = jwt.verify now token

  unfoldable pub verify_refresh_token : ℕ → Text → Option Payload
  verify_refresh_token now token = jwt.verify now token

  abbrev context_of_token : Option Payload → Option Context
  context_of_token none = none
  context_of_token (some p) = some (context_of p)

  abbrev context_of_raw : ℕ → Option Text → Option Context
  context_of_raw now none = none
  context_of_raw now (some raw) = context_of_token (jwt.verify now (trim_end (trim_start raw)))

  -- `use`: the context in which the request goes on, if any; `req.auth` is there exactly with it.
  unfoldable pub tenant_context : ℕ → Option Text → Option Context
  unfolding strip_prefix
  tenant_context now none = none
  tenant_context now (some header) = context_of_raw now (strip_prefix (codes "Bearer ") header)

  -- A token that is sent before it ends gives the context of what it says.
  pub tenant_context-sign :
      (p : Payload) (now : ℕ)
      → now < p.exp
      → tenant_context now (some (codes "Bearer " ++ jwt.sign p)) ≡ some (context_of p)
  unfolding tenant_context
  tenant_context-sign p now h = rw (jwt.trimmed p, jwt.verify-sign p now h) refl
