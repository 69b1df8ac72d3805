-- ===== src/Auth/Sessions.antt =====
-- The handlers of apps/api/src/auth/auth.controller.ts. The random texts and the time are arguments, and
-- what comes from elsewhere is a record. The memberships are the list of their rows in the
-- order of `createdAt`.
pub mod Entry
pub mod Renewal
pub mod Joining
use wa_ops.Base.{
  ℕ, ◌≡◌, refl, Bool, true, false, not, ◌&&◌, ◌||◌, String, Option, none, some, List, [], ◌∷◌, ◌++◌,
  leb, length, take, str_eq, if◌then◌else◌,
}
use wa_ops.Base.Text.{Text, codes, text_eq}
use wa_ops.Contracts.{truthy}
use wa_ops.Database.{RowId, Table}
use wa_ops.Errors.{
  ApiError, Result, returned, raised, conflict_error, validation, simple_error,
  authentication_required, internal_error, or_throw, guard, ◌>>=◌, ◌>>◌,
}
use wa_ops.Gateway.Credential.{trim_start, trim_end, split}
use wa_ops.Auth.Slug.{slugify}
use wa_ops.Auth.Tokens.{
  Claims, Context, Jwt, Payload, sign_access_token, sign_refresh_token, verify_refresh_token,
  refresh_cookie_max_age,
}

pub record User : Type 0 where
  pub email_normalized : Text
  pub password_hash : Text
  pub name : Option Text

pub record Tenant : Type 0 where
  pub slug : Text
  pub name : Text
  pub trial_ends_at : ℕ

pub record Role : Type 0 where
  pub tenant_id : Option Text
  pub name : String
  pub is_system : Bool
  pub permissions : List Text

pub record Membership : Type 0 where
  pub user_id : RowId
  pub tenant_id : RowId
  pub role_id : RowId
  pub organization_id : Option Text
  pub active : Bool

pub record SignupInput : Type 0 where
  pub email : Text
  pub password : Text
  pub name : Option Text
  pub tenant_name : Option Text

-- What `issueSession` puts on the response.
pub record Session : Type 0 where
  pub access_token : Text
  pub refresh_cookie : Text
  pub max_age : ℕ

abbrev pub unauthorized : String → ApiError
unauthorized m = simple_error authentication_required m 401

-- `membership.findFirst`
abbrev pub first_membership : (Membership → Bool) → List Membership → Option Membership
first_membership test [] = none
first_membership test (m ∷ ms) =
    let rest = first_membership test ms in if test m then some m else rest

abbrev pub active_of : RowId → Membership → Bool
active_of user m = text_eq m.user_id user && m.active

abbrev pub active_in : RowId → RowId → Membership → Bool
active_in user tenant m = text_eq m.user_id user && (text_eq m.tenant_id tenant && m.active)

-- The answer of a handler that opens a session.
pub record Entered : Type 0 where
  pub user_id : RowId
  pub tenant_id : RowId
  pub session : Session

-- What the handlers take from elsewhere: the tables, the token library, `hash` and `verify` of the
-- password library, `toLowerCase`, the test of an address, PERMISSION_KEYS_V1 and the keys of
-- `ROLE_PERMISSIONS.tenant_owner`.
pub record Env : Type 1 where
  pub users_table : Table User
  pub tenants_table : Table Tenant
  pub roles_table : Table Role
  pub jwt : Jwt
  pub hash : Text → Text
  pub verify : Text → Text → Bool
  pub to_lower_case : Text → Text
  pub is_email : Text → Bool
  pub all_keys : List Text
  pub owner_keys : List Text

module _ (env : Env) where
  pub record Db : Type 0 where
    pub users : env.users_table.State
    pub tenants : env.tenants_table.State
    pub roles : env.roles_table.State
    pub memberships : List Membership

  -- `email.toLowerCase().trim()`
  unfoldable pub normalize : Text → Text
  normalize email = trim_end (trim_start (env.to_lower_case email))

  abbrev pub has_email : Text → RowId → User → Bool
  has_email email k u = text_eq u.email_normalized email

  abbrev pub keys_of : List Text → Option Role → List Text
  keys_of otherwise none = otherwise
  keys_of otherwise (some r) = r.permissions

  unfoldable pub issue_session : Claims → Text → Text → ℕ → Session
  issue_session c jti jti' now = record {
    access_token = sign_access_token env.jwt c jti now;
    refresh_cookie = sign_refresh_token env.jwt c.sub c.tenant jti' now;
    max_age = refresh_cookie_max_age env.jwt;
  }

  abbrev pub session_of : RowId → RowId → Option Text → List Text → Text → Text → ℕ → Entered
  session_of user tenant org perms jti jti' now = record {
    user_id = user;
    tenant_id = tenant;
    session =
        issue_session (record { sub = user; tenant = tenant; org = org; perms = perms; ents = [] })
          jti jti' now;
  }

  abbrev stored_hash : Option (RowId × User) → Text
  stored_hash none = codes "argon2$mismatch$hash"
  stored_hash (some (k, u)) = u.password_hash

  -- The user whose password it is, or the one error for both failures.
  abbrev pub checked_user : Option (RowId × User) → Text → Result (RowId × User)
  checked_user none password = raised (unauthorized "invalid credentials")
  checked_user (some found) password =
      if env.verify (stored_hash (some found)) password
      then returned found
      else raised (unauthorized "invalid credentials")

  abbrev pub zod_error : ApiError
  zod_error = validation "Validation failed"

  -- The part of `login` behind the password.
  unfoldable pub enter_as : Db → RowId → Text → Text → ℕ → Result Entered
  unfolding issue_session
  enter_as db k jti jti' now = do
    m ←
        or_throw (unauthorized "no active membership")
          (first_membership (active_of k) db.memberships)
    returned (
        session_of k m.tenant_id m.organization_id
          (keys_of env.all_keys (env.roles_table.at db.roles m.role_id)) jti jti' now)

  abbrev pub found_by : Db → Text → Option (RowId × User)
  found_by db email = env.users_table.find_first (has_email (normalize email)) db.users

  unfoldable pub login : Db → Text → Text → Text → Text → ℕ → Result Entered
  unfolding normalize enter_as
  login db email password jti jti' now = do
    guard (env.is_email email && leb 1 (length password)) zod_error
    (k, u) ← checked_user (found_by db email) password
    enter_as db k jti jti' now

  -- The part of `refresh` behind the checks of the cookie.
  unfoldable pub renew : Db → Payload → Text → Text → ℕ → Result Entered
  unfolding issue_session
  renew db c jti jti' now = do
    m ←
        or_throw (unauthorized "membership revoked")
          (first_membership (active_in c.sub c.tenant) db.memberships)
    returned (
        session_of c.sub c.tenant m.organization_id
          (keys_of [] (env.roles_table.at db.roles m.role_id)) jti jti' now)

  unfoldable pub refresh : Db → Option Text → Text → Text → ℕ → Result Entered
  unfolding renew verify_refresh_token
  refresh db cookie jti jti' now = do
    raw ← or_throw (unauthorized "missing refresh token") (truthy cookie)
    c ← or_throw (unauthorized "invalid refresh token") (verify_refresh_token env.jwt now raw)
    renew db c jti jti' now

  -- `me`
  unfoldable pub me : Option Context → Result Context
  me auth = or_throw (unauthorized "authentication required") auth

  abbrev or_else {ℓ} : {A : Type ℓ} → Option A → A → A
  or_else none a = a
  or_else (some b) a = b

  abbrev second : List Text → Option Text
  second (a ∷ b ∷ rest) = some b
  second _ = none

  abbrev sized : ℕ → ℕ → Option Text → Bool
  sized least most none = true
  sized least most (some s) = leb least (length s) && leb (length s) most

  abbrev pub fit_signup : SignupInput → Bool
  fit_signup input =
      env.is_email input.email
      && (sized 10 128 (some input.password)
          && (sized 1 120 input.name && sized 2 120 input.tenant_name))

  abbrev is_none : Option Text → Bool
  is_none none = true
  is_none (some s) = false

  abbrev pub is_owner_role : RowId → Role → Bool
  is_owner_role k r = is_none r.tenant_id && (str_eq r.name "tenant_owner" && r.is_system)

  abbrev pub owner_membership : RowId → RowId → RowId → Membership
  owner_membership user tenant role = record {
    user_id = user;
    tenant_id = tenant;
    role_id = role;
    organization_id = none;
    active = true;
  }

  abbrev pub new_user : SignupInput → User
  new_user input = record {
    email_normalized = normalize input.email;
    password_hash = env.hash input.password;
    name = input.name;
  }

  abbrev pub new_tenant : SignupInput → RowId → Text → ℕ → Tenant
  new_tenant input user suffix trial_ends_at = record {
    slug =
        slugify env.to_lower_case (
          or_else input.tenant_name
            (or_else (second (split 64 (normalize input.email))) (codes "tenant")))
        ++ (45 ∷ suffix);
    name = or_else input.tenant_name (codes "Tenant " ++ take 6 user);
    trial_ends_at = trial_ends_at;
  }

  abbrev pub refuse_known : Option (RowId × User) → Result (Unit {0})
  refuse_known none = returned tt
  refuse_known (some found) = raised (conflict_error "email already registered")

  -- The rows that the transaction adds, with the role that it finds.
  unfoldable pub join :
      Db → SignupInput → (suffix : Text) → (trial_ends_at : ℕ) → RowId → Db × RowId × RowId
  unfolding normalize slugify
  join db input suffix trial_ends_at role =
      let (user, users) = env.users_table.create (new_user input) db.users in
      let (tenant, tenants) =
        env.tenants_table.create (new_tenant input user suffix trial_ends_at) db.tenants in
      (
        record db {
          users = users;
          tenants = tenants;
          memberships = db.memberships ++ owner_membership user tenant role ∷ [];
        },
        user,
        tenant,
      )

  -- The transaction leaves nothing behind where it throws.
  unfoldable pub signup :
      Db
      → SignupInput
      → (suffix : Text) → (trial_ends_at : ℕ) → Text
      → Text
      → ℕ
      → Result (Db × Entered)
  unfolding issue_session join
  signup db input suffix trial_ends_at jti jti' now = do
    guard (fit_signup input) zod_error
    refuse_known (found_by db input.email)
    (role, _) ←
        or_throw (simple_error internal_error "Internal server error" 500)
          (env.roles_table.find_first is_owner_role db.roles)
    let (db', user, tenant) = join db input suffix trial_ends_at role
    returned (db', session_of user tenant none env.owner_keys jti jti' now)
