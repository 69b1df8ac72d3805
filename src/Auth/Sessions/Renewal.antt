-- ===== src/Auth/Sessions/Renewal.antt =====
-- What `refresh` of apps/api/src/auth/auth.controller.ts comes to.
use mathlib.Core.List.{Memᴰ}
use wa_ops.Base.{ℕ, ◌+◌, ◌<◌, ◌≡◌, refl, sym, ◌∙◌, true, some, [], ◌++◌, arith}
use wa_ops.Base.Text.{Text, codes, text_eq_iff}
use wa_ops.Database.{RowId}
use wa_ops.Errors.{returned, or_throw, or_throw-eq-returned, >>=-eq-returned, returned-injective}
use wa_ops.Gateway.Credential.Parsing.{truthy_filled}
use wa_ops.Auth.Tokens.{
  Claims, Payload, refresh_payload, access_payload, access_ttl, refresh_ttl, tenant_context,
  sign_access_token, sign_refresh_token,
}
use wa_ops.Auth.Sessions.{
  Env, Membership, Entered, Db, unauthorized, first_membership, active_in, keys_of, session_of,
  renew, refresh,
}
use wa_ops.Auth.Sessions.Entry.{first_membership-some, issue_session-context}

module _ (env : Env) where
  abbrev renewed_as : Db env → Payload → Text → Text → ℕ → Membership → Entered
  renewed_as db c jti jti' now m =
      session_of env c.sub c.tenant m.organization_id
        (keys_of env [] (env.roles_table.at db.roles m.role_id)) jti jti' now

  -- An active membership of a user in a tenant.
  pub record IsMember (db : Db env) (user tenant : RowId) (m : Membership) : Type 0 where
    pub among : Memᴰ m db.memberships
    pub of_user : m.user_id ≡ user
    pub of_tenant : m.tenant_id ≡ tenant
    pub active : m.active ≡ true

  is_member :
      (db : Db env) (user tenant : RowId) (m : Membership)
      → first_membership (active_in user tenant) db.memberships ≡ some m
      → IsMember db user tenant m
  is_member db user tenant m e =
      let (among, fits) = first_membership-some (active_in user tenant) db.memberships m e in
      record {
        among = among;
        of_user = (text_eq_iff m.user_id user).0 (ground arith);
        of_tenant = (text_eq_iff m.tenant_id tenant).0 (ground arith);
        active = ground arith;
      }

  renew-eq-returned :
      (db : Db env) (c : Payload) (jti jti' : Text) (now : ℕ) (entered : Entered)
      → renew env db c jti jti' now ≡ returned entered
      → (m : Membership) × IsMember db c.sub c.tenant m × (entered ≡ renewed_as db c jti jti' now m)
  unfolding renew
  renew-eq-returned db c jti jti' now entered e =
      let (m, chosen, last) =
        >>=-eq-returned
          (or_throw (unauthorized "membership revoked")
            (first_membership (active_in c.sub c.tenant) db.memberships))
          _ e in
      (
        m,
        is_member db c.sub c.tenant m (
            or_throw-eq-returned _ (first_membership (active_in c.sub c.tenant) db.memberships) m
              chosen),
        sym (returned-injective last),
      )

  pub refresh-sign :
      (db : Db env) (p : Payload) (jti jti' : Text) (now : ℕ)
      → now < p.exp
      → refresh env db (some (env.jwt.sign p)) jti jti' now ≡ renew env db p jti jti' now
  unfolding refresh
  refresh-sign db p jti jti' now early =
      rw
        (
          truthy_filled (env.jwt.sign p) (env.jwt.filled p),
          env.jwt.verify-sign p now early,
          refresh,
        )
        refl

  -- A refresh with the cookie of a session that returns, while the configured lifetime of a refresh
  -- token lasts, stands on a membership that is active now, and until the configured lifetime of an
  -- access token has passed a request with the new access token runs as the user in the same tenant
  -- with the permissions that the role of that membership has now.
  pub refresh-authorizes :
      (db : Db env) (sub tenant jti₀ jti jti' : Text) (now₀ now now' : ℕ) (entered : Entered)
      → now < now₀ + refresh_ttl env.jwt.refresh_ttl_seconds
      → refresh env db (some (sign_refresh_token env.jwt sub tenant jti₀ now₀)) jti jti' now
        ≡ returned entered
      → now' < now + access_ttl env.jwt.access_ttl_seconds
      → (m : Membership) × IsMember db sub tenant m
        × (tenant_context env.jwt now' (some (codes "Bearer " ++ entered.session.access_token))
            ≡ some (record {
              user_id = sub;
              tenant_id = tenant;
              organization_scope = m.organization_id;
              permissions = keys_of env [] (env.roles_table.at db.roles m.role_id);
              entitlements = [];
            }))
  unfolding sign_refresh_token
  refresh-authorizes db sub tenant jti₀ jti jti' now₀ now now' entered late e early =
      let (m, member, same) =
        renew-eq-returned db (refresh_payload env.jwt sub tenant jti₀ now₀) jti jti' now entered (
          sym (refresh-sign db (refresh_payload env.jwt sub tenant jti₀ now₀) jti jti' now late)
          ∙ e) in
      (m, member, rw same (issue_session-context env _ jti jti' now now' early))

  -- An access token that has not ended does in the cookie what the refresh token of the same user and
  -- tenant does.
  pub refresh-takes_access :
      (db : Db env) (c : Claims) (jti₀ jti₁ jti jti' : Text) (now₀ now : ℕ)
      → now < now₀ + access_ttl env.jwt.access_ttl_seconds
      → now < now₀ + refresh_ttl env.jwt.refresh_ttl_seconds
      → refresh env db (some (sign_access_token env.jwt c jti₀ now₀)) jti jti' now
        ≡ refresh env db (some (sign_refresh_token env.jwt c.sub c.tenant jti₁ now₀)) jti jti' now
  unfolding sign_refresh_token sign_access_token renew
  refresh-takes_access db c jti₀ jti₁ jti jti' now₀ now early late =
      refresh-sign db (access_payload env.jwt c jti₀ now₀) jti jti' now early
      ∙ sym (refresh-sign db (refresh_payload env.jwt c.sub c.tenant jti₁ now₀) jti jti' now late)
