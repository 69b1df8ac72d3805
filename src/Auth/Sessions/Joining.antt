-- ===== src/Auth/Sessions/Joining.antt =====
-- What `signup` of apps/api/src/auth/auth.controller.ts comes to: a user who can log in.
pub mod Newcomer
use mathlib.Core.Bool.{false≢true}
use wa_ops.Base.{
  ℕ, ◌≡◌, ◌≢◌, ◌⊎◌, refl, sym, ap, ◌∙◌, true, Option, none, some, List, [], ◌∷◌, ◌++◌, arith, leb,
  length, All, if◌then◌else◌, Bool-cases, Option-cases, inl, inr,
}
use wa_ops.Base.Text.{Text, text_eq, text_eq_iff}
use wa_ops.Database.{RowId}
use wa_ops.Errors.{
  returned, simple_error, internal_error, or_throw, or_throw-eq-returned, guard-eq-returned,
  >>=-eq-returned, returned-injective,
}
use wa_ops.Auth.Sessions.{
  Env, User, Role, Membership, Entered, Db, SignupInput, zod_error, first_membership, active_of,
  normalize, found_by, keys_of, session_of, new_user, owner_membership, fit_signup, refuse_known,
  is_owner_role, join, enter_as, login, signup,
}
use wa_ops.Auth.Sessions.Joining.Newcomer.{
  IsSound, one_user_after, All-kept, found_new, memberships_after, enters_new,
}

module _ (env : Env) where
  -- What a signup that returns has found and made.
  record Joined (db db' : Db env) (input : SignupInput) (suffix : Text) (ends : ℕ) (jti jti' : Text)
      (now : ℕ) (entered : Entered) : Type 0 where
    role : RowId
    role_row : Role
    fit : fit_signup env input ≡ true
    unknown : found_by env db input.email ≡ none
    found : env.roles_table.find_first (is_owner_role env) db.roles ≡ some (role, role_row)
    made : (join env db input suffix ends role).0 ≡ db'
    user : entered.user_id ≡ (join env db input suffix ends role).1
    tenant : entered.tenant_id ≡ (join env db input suffix ends role).2

  refuse_known-eq-returned :
      (o : Option (RowId × User)) (done : Unit {0}) → refuse_known env o ≡ returned done → o ≡ none
  refuse_known-eq-returned none done e = refl
  refuse_known-eq-returned (some found) done e = cc

  signup-Joined :
      (db db' : Db env) (input : SignupInput) (suffix : Text) (ends : ℕ) (jti jti' : Text) (now : ℕ)
      (entered : Entered)
      → signup env db input suffix ends jti jti' now ≡ returned (db', entered)
      → Joined db db' input suffix ends jti jti' now entered
  unfolding signup
  signup-Joined db db' input suffix ends jti jti' now entered e =
      let (fit, rest) = guard-eq-returned (fit_signup env input) (zod_error env) _ e in
      let (done, unknown, rest') =
        >>=-eq-returned (refuse_known env (found_by env db input.email)) _ rest in
      let ((k, r), found, last) =
        >>=-eq-returned
          (or_throw (simple_error internal_error "Internal server error" 500)
            (env.roles_table.find_first (is_owner_role env) db.roles))
          _ rest' in
      let made = returned-injective last in
      record {
        role = k;
        role_row = r;
        fit = fit;
        unknown = refuse_known-eq-returned _ done unknown;
        found =
            or_throw-eq-returned _ (env.roles_table.find_first (is_owner_role env) db.roles) (k, r)
              found;
        made = ap (λ (x : Db env × Entered). x.0) made;
        user = sym (ap (λ (x : Db env × Entered). x.1.user_id) made);
        tenant = sym (ap (λ (x : Db env × Entered). x.1.tenant_id) made);
      }

  join-IsSound :
      (db : Db env) (input : SignupInput) (suffix : Text) (ends : ℕ) (role : RowId)
      → found_by env db input.email ≡ none
      → IsSound env db
      → IsSound env (join env db input suffix ends role).0
  join-IsSound db input suffix ends role unknown sound = record {
    one_user = one_user_after env db input suffix ends role unknown sound;
    of_users =
        rw (memberships_after env db input suffix ends role unknown sound)
          (All-kept env db input suffix ends role unknown sound db.memberships sound.of_users);
  }

  -- A signup that returns keeps this: no two users have one address, and every membership is one of a
  -- user of the table.
  pub signup-IsSound :
      (db db' : Db env) (input : SignupInput) (suffix : Text) (ends : ℕ) (jti jti' : Text) (now : ℕ)
      (entered : Entered)
      → signup env db input suffix ends jti jti' now ≡ returned (db', entered)
      → IsSound env db
      → IsSound env db'
  signup-IsSound db db' input suffix ends jti jti' now entered e sound =
      let j = signup-Joined db db' input suffix ends jti jti' now entered e in
      rw (← j.made) (join-IsSound db input suffix ends j.role j.unknown sound)

  enters_by_password :
      (db : Db env) (input : SignupInput) (k : RowId) (u : User) (jti jti' : Text) (now : ℕ)
      → fit_signup env input ≡ true
      → found_by env db input.email ≡ some (k, u)
      → env.verify u.password_hash input.password ≡ true
      → login env db input.email input.password jti jti' now ≡ enter_as env db k jti jti' now
  unfolding login
  enters_by_password db input k u jti jti' now fit found fits =
      let filled : leb 1 (length input.password) ≡ true = ground arith in
      let address : env.is_email input.email ≡ true = ground arith in
      rw (address, filled, found, fits, login) refl

  -- Whoever has signed up can log in with the address and the password that were given, as the new user
  -- and into the new tenant, where the password library takes the hash of a password for it.
  pub signup-login :
      (db db' : Db env) (input : SignupInput) (suffix : Text) (ends : ℕ) (jti jti' : Text) (now : ℕ)
      (entered : Entered)
      → signup env db input suffix ends jti jti' now ≡ returned (db', entered)
      → IsSound env db
      → ((password : Text) → env.verify (env.hash password) password ≡ true)
      → (jti₁ jti₁' : Text) (now₁ : ℕ)
      → (later : Entered) × (login env db' input.email input.password jti₁ jti₁' now₁
          ≡ returned later)
        × (later.user_id ≡ entered.user_id)
        × (later.tenant_id ≡ entered.tenant_id)
  signup-login db db' input suffix ends jti jti' now entered e sound verifies jti₁ jti₁' now₁ =
      let j = signup-Joined db db' input suffix ends jti jti' now entered e in
      let found = found_new env db input suffix ends j.role j.unknown sound in
      let (later, enters, user, tenant) =
        enters_new env db input suffix ends j.role j.unknown sound jti₁ jti₁' now₁ in
      (
        later,
        ap (λ d. login env d input.email input.password jti₁ jti₁' now₁) (sym j.made)
            ∙ enters_by_password _ input _ _ jti₁ jti₁' now₁ j.fit found (verifies input.password)
            ∙ enters,
        user ∙ sym j.user,
        tenant ∙ sym j.tenant,
      )
