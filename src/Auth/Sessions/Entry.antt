-- ===== src/Auth/Sessions/Entry.antt =====
-- What `login` of apps/api/src/auth/auth.controller.ts comes to: whom it lets in, with which
-- permissions in the requests that follow, and what it refuses.
use mathlib.Core.List.{Memᴰ}
use mathlib.Core.List.Memᴰ.{head, tail}
use wa_ops.Base.{
  ℕ, ◌+◌, ◌≤◌, ◌<◌, ◌≡◌, ◌≢◌, ◌↔◌, ◌⊎◌, refl, sym, ap, Bool, true, false, ◌&&◌, String, Option,
  none, some, List, [], ◌∷◌, ◌++◌, arith, leb, length, Bool-cases, Option-cases, inl, inr,
}
use wa_ops.Base.Text.{Text, codes, text_eq_iff}
use wa_ops.Database.{RowId}
use wa_ops.Errors.{
  returned, raised, or_throw, or_throw-eq-returned, guard-eq-returned, >>=-eq-returned,
  returned-injective,
}
use wa_ops.Auth.Tokens.{
  Claims, Context, access_payload, access_ttl, context_of, tenant_context, tenant_context-sign,
  sign_access_token,
}
use wa_ops.Auth.Sessions.{
  Env, User, Membership, Entered, Db, unauthorized, zod_error, first_membership, active_of,
  normalize, keys_of, checked_user, issue_session, session_of, found_by, enter_as, login,
}

pub first_membership-some :
    (test : Membership → Bool) (ms : List Membership) (m : Membership)
    → first_membership test ms ≡ some m
    → Memᴰ m ms × (test m ≡ true)
first_membership-some test [] m e = cc
first_membership-some test (x ∷ xs) m e = elim (Bool-cases (test x)) [
  | inl p ↦ let same : x ≡ m = ground arith in (head (sym same), rw same at p)
  | inr p ↦ let (among, fits) = first_membership-some test xs m (rw p at e) in (tail among, fits)
]

module _ (env : Env) where
  -- What stands behind a login: the user with the address and the password, and an active membership.
  pub record IsEntitled (db : Db env) (email password : Text) (entered : Entered) (m : Membership)
      : Type 0 where
    pub user : User
    pub stands : env.users_table.at db.users entered.user_id ≡ some user
    pub addressed : user.email_normalized ≡ normalize env email
    pub verified : env.verify user.password_hash password ≡ true
    pub among : Memᴰ m db.memberships
    pub of_user : m.user_id ≡ entered.user_id
    pub of_tenant : m.tenant_id ≡ entered.tenant_id
    pub active : m.active ≡ true

  abbrev context_for : Db env → Entered → Membership → Context
  context_for db entered m = record {
    user_id = entered.user_id;
    tenant_id = entered.tenant_id;
    organization_scope = m.organization_id;
    permissions = keys_of env env.all_keys (env.roles_table.at db.roles m.role_id);
    entitlements = [];
  }

  checked_user-eq-returned :
      (o : Option (RowId × User)) (password : Text) (k : RowId) (u : User)
      → checked_user env o password ≡ returned (k, u)
      → (o ≡ some (k, u)) × (env.verify u.password_hash password ≡ true)
  checked_user-eq-returned none password k u e = cc
  checked_user-eq-returned (some (j, v)) password k u e =
      elim (Bool-cases (env.verify v.password_hash password)) [
        | inl p ↦
            let same : (j, v) ≡ (k, u) = returned-injective (rw p at e) in
            (ap some same, rw (ap (λ (x : RowId × User). x.1) same) at p)
        | inr p ↦ absurd (cc (rw p at e))
      ]

  abbrev entered_as : Db env → RowId → Text → Text → ℕ → Membership → Entered
  entered_as db k jti jti' now m =
      session_of env k m.tenant_id m.organization_id
        (keys_of env env.all_keys (env.roles_table.at db.roles m.role_id)) jti jti' now

  enter_as-eq-returned :
      (db : Db env) (k : RowId) (jti jti' : Text) (now : ℕ) (entered : Entered)
      → enter_as env db k jti jti' now ≡ returned entered
      → (m : Membership) × Memᴰ m db.memberships
        × (active_of k m ≡ true)
        × (entered ≡ entered_as db k jti jti' now m)
  unfolding enter_as
  enter_as-eq-returned db k jti jti' now entered e =
      let (m, chosen, last) =
        >>=-eq-returned
          (or_throw (unauthorized "no active membership")
            (first_membership (active_of k) db.memberships))
          _ e in
      let (among, fits) =
        first_membership-some (active_of k) db.memberships m
          (or_throw-eq-returned _ (first_membership (active_of k) db.memberships) m chosen) in
      (m, among, fits, sym (returned-injective last))

  -- The access token of a session gives its claims back until it ends.
  pub issue_session-context :
      (c : Claims) (jti jti' : Text) (now now' : ℕ)
      → now' < now + access_ttl env.jwt.access_ttl_seconds
      → tenant_context env.jwt now'
          (some (codes "Bearer " ++ (issue_session env c jti jti' now).access_token))
        ≡ some (context_of (access_payload env.jwt c jti now))
  unfolding issue_session sign_access_token
  issue_session-context c jti jti' now now' early =
      tenant_context-sign env.jwt (access_payload env.jwt c jti now) now' early

  entitles :
      (db : Db env) (email password jti jti' : Text) (now : ℕ) (k : RowId) (u : User)
      (m : Membership)
      → found_by env db email ≡ some (k, u)
      → env.verify u.password_hash password ≡ true
      → Memᴰ m db.memberships
      → active_of k m ≡ true
      → IsEntitled db email password (entered_as db k jti jti' now m) m
  entitles db email password jti jti' now k u m p verified among fits =
      let (stands, addressed) = env.users_table.find_first-some _ db.users k u p in
      record {
        user = u;
        stands = stands;
        addressed = (text_eq_iff u.email_normalized (normalize env email)).0 addressed;
        verified = verified;
        among = among;
        of_user = (text_eq_iff m.user_id k).0 (ground arith);
        of_tenant = refl;
        active = ground arith;
      }

  -- A login that succeeds stands on a user with the address and the password and on an active
  -- membership of that user, and until the configured lifetime of an access token has passed a request
  -- with its access token runs as that user in the tenant of the membership, with exactly the
  -- permissions of its role (all keys, where the role is missing).
  pub login-authorizes :
      (db : Db env) (email password jti jti' : Text) (now now' : ℕ) (entered : Entered)
      → login env db email password jti jti' now ≡ returned entered
      → now' < now + access_ttl env.jwt.access_ttl_seconds
      → (m : Membership) × IsEntitled db email password entered m
        × (tenant_context env.jwt now' (some (codes "Bearer " ++ entered.session.access_token))
            ≡ some (context_for db entered m))
  unfolding login
  login-authorizes db email password jti jti' now now' entered e early =
      let (_, rest) =
        guard-eq-returned (env.is_email email && leb 1 (length password)) (zod_error env) _ e in
      let ((k, u), found, last) =
        >>=-eq-returned (checked_user env (found_by env db email) password) _ rest in
      let (p, verified) = checked_user-eq-returned _ password k u found in
      let (m, among, fits, same) = enter_as-eq-returned db k jti jti' now entered last in
      (
        m,
        rw same (entitles db email password jti jti' now k u m p verified among fits),
        rw same (issue_session-context _ jti jti' now now' early),
      )

  enter_as-ne :
      (db : Db env) (k : RowId) (jti jti' : Text) (now : ℕ)
      → enter_as env db k jti jti' now ≢ raised (unauthorized "invalid credentials")
  unfolding enter_as
  enter_as-ne db k jti jti' now same =
      elim (Option-cases (first_membership (active_of k) db.memberships)) [
        | inl p ↦ other (cc (rw p at same))
        | inr (m, p) ↦ cc (rw p at same)
      ]
    where
      other : ◌≡◌ {A = String} "no active membership" "invalid credentials" → ⊥
      other e = cc

  -- A login with an address and a password that fit the schema is refused as invalid exactly where no
  -- user has the address or the password is not that of the user: both failures get the same answer.
  pub login-refuses_iff :
      (db : Db env) (email password jti jti' : Text) (now : ℕ)
      → env.is_email email ≡ true
      → 1 ≤ length password
      → (login env db email password jti jti' now ≡ raised (unauthorized "invalid credentials")) ↔ (
          (found_by env db email ≡ none)
          ⊎ ((k : RowId) × (u : User) × (found_by env db email ≡ some (k, u))
              × (env.verify u.password_hash password ≡ false)))
  unfolding login
  login-refuses_iff db email password jti jti' now fit long =
      let filled : leb 1 (length password) ≡ true = ground arith in
      elim (Option-cases (found_by env db email)) [
        | inl p ↦ rw (fit, filled, p, login) (λ _. inl refl, λ _. refl)
        | inr ((k, u), p) ↦ elim (Bool-cases (env.verify u.password_hash password)) [
          | inl v ↦
              rw (fit, filled, p, v, login)
                (
                  λ h. absurd (enter_as-ne db k jti jti' now h),
                  λ h. elim h [ inl q ↦ cc | inr (j, w, q, f) ↦ cc ],
                )
          | inr v ↦ rw (fit, filled, p, v, login) (λ _. inr (k, u, refl, v), λ _. refl)
        ]
      ]
