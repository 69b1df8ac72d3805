-- ===== src/Auth/Sessions/Joining/Newcomer.antt =====
-- The tables after `join` of a new user, for apps/api/src/auth/auth.controller.ts.
use mathlib.Core.Bool.{false≢true}
use wa_ops.Base.{
  ℕ, ◌≡◌, ◌≢◌, ◌⊎◌, refl, sym, ap, ◌∙◌, true, none, some, List, [], ◌∷◌, ◌++◌, arith, All,
  if◌then◌else◌, Bool-cases, Option-cases, inl, inr,
}
use wa_ops.Base.Text.{Text, text_eq, text_eq_iff}
use wa_ops.Database.{RowId}
use wa_ops.Errors.{returned}
use wa_ops.Auth.Sessions.{
  Env, User, Membership, Entered, Db, SignupInput, first_membership, active_of, normalize, found_by,
  keys_of, session_of, new_user, owner_membership, join, enter_as,
}

module _ (env : Env) where
  -- No two users have one address, and each membership is one of a user of the table.
  pub record IsSound (db : Db env) : Type 0 where
    pub one_user :
        (j k : RowId) (u v : User)
        → env.users_table.at db.users j ≡ some u
        → env.users_table.at db.users k ≡ some v
        → u.email_normalized ≡ v.email_normalized
        → j ≡ k
    pub of_users : All (λ m. env.users_table.at db.users m.user_id ≢ none) db.memberships

  -- The new user's row stands under an id that no user had, and the others stand as they stood.
  at_join :
      (db : Db env) (input : SignupInput) (suffix : Text) (ends : ℕ) (role j : RowId)
      → env.users_table.at (join env db input suffix ends role).0.users j ≡ (
          if text_eq (join env db input suffix ends role).1 j
          then some (new_user env input)
          else env.users_table.at db.users j)
  unfolding join
  at_join db input suffix ends role j = env.users_table.at-create (new_user env input) db.users j

  join_fresh :
      (db : Db env) (input : SignupInput) (suffix : Text) (ends : ℕ) (role : RowId)
      → env.users_table.at db.users (join env db input suffix ends role).1 ≡ none
  unfolding join
  join_fresh db input suffix ends role = env.users_table.create-fresh (new_user env input) db.users

  module _ (db : Db env) (input : SignupInput) (suffix : Text) (ends : ℕ) (role : RowId)
      (unknown : found_by env db input.email ≡ none) (sound : IsSound db) where
    abbrev pub after : Db env
    after = (join env db input suffix ends role).0

    abbrev pub user : RowId
    user = (join env db input suffix ends role).1

    -- No user that was there has the address.
    no_other :
        (j : RowId) (u : User)
        → env.users_table.at db.users j ≡ some u
        → u.email_normalized ≢ normalize env input.email
    no_other j u stands same =
        let other = env.users_table.find_first-none _ db.users j u unknown stands in
        ground (arith, text_eq_iff u.email_normalized (normalize env input.email))

    row_in_after :
        (j : RowId) (u : User)
        → env.users_table.at after.users j ≡ some u
        → ((user ≡ j) × (u ≡ new_user env input))
          ⊎ ((user ≢ j) × (env.users_table.at db.users j ≡ some u))
    row_in_after j u stands = elim (Bool-cases (text_eq user j)) [
      | inl p ↦
          let made : some (new_user env input) ≡ some u =
            rw p at (sym (at_join db input suffix ends role j) ∙ stands) in
          inl ((text_eq_iff user j).0 p, cc)
      | inr p ↦ inr (
        λ same. absurd (false≢true (sym p ∙ (text_eq_iff user j).1 same)),
        rw p at (sym (at_join db input suffix ends role j) ∙ stands),
      )
    ]

    kept :
        (j : RowId) → env.users_table.at db.users j ≢ none → env.users_table.at after.users j ≢ none
    kept j there gone = elim (Bool-cases (text_eq user j)) [
      | inl p ↦ there (
          ap (env.users_table.at db.users) (sym ((text_eq_iff user j).0 p))
          ∙ join_fresh db input suffix ends role)
      | inr p ↦ there (rw p at (sym (at_join db input suffix ends role j) ∙ gone))
    ]

    stands_new : env.users_table.at after.users user ≡ some (new_user env input)
    stands_new = at_join db input suffix ends role user ∙ rw ((text_eq_iff user user).1 refl) refl

    pub one_user_after :
        (j k : RowId) (u v : User)
        → env.users_table.at after.users j ≡ some u
        → env.users_table.at after.users k ≡ some v
        → u.email_normalized ≡ v.email_normalized
        → j ≡ k
    one_user_after j k u v a b same = elim (row_in_after j u a) [
      | inl (p, made) ↦ elim (row_in_after k v b) [
        | inl (q, _) ↦ sym p ∙ q
        | inr (_, old) ↦
            absurd (no_other k v old (sym same ∙ ap (λ (x : User). x.email_normalized) made))
      ]
      | inr (_, old) ↦ elim (row_in_after k v b) [
        | inl (_, made) ↦
            absurd (no_other j u old (same ∙ ap (λ (x : User). x.email_normalized) made))
        | inr (_, old') ↦ sound.one_user j k u v old old' same
      ]
    ]

    new_stands : env.users_table.at after.users user ≢ none
    new_stands gone =
        let both : none ≡ some (new_user env input) = sym gone ∙ stands_new in absurd (cc both)

    pub All-kept :
        (ms : List Membership)
        → All (λ m. env.users_table.at db.users m.user_id ≢ none) ms
        → All
            (λ m. env.users_table.at after.users m.user_id ≢ none)
            (ms ++ owner_membership env user (join env db input suffix ends role).2 role ∷ [])
    All-kept [] all = (new_stands, tt)
    All-kept (m ∷ ms) (there, all) = (kept m.user_id there, All-kept ms all)

    first_of_new :
        (ms : List Membership) (m : Membership)
        → All (λ m. env.users_table.at db.users m.user_id ≢ none) ms
        → active_of user m ≡ true
        → first_membership (active_of user) (ms ++ m ∷ []) ≡ some m
    first_of_new [] m all mine = rw mine refl
    first_of_new (x ∷ ms) m (there, all) mine = elim (Bool-cases (text_eq x.user_id user)) [
      | inl p ↦ absurd (
          there (
            ap (env.users_table.at db.users) ((text_eq_iff x.user_id user).0 p)
            ∙ join_fresh db input suffix ends role))
      | inr p ↦ rw p (first_of_new ms m all mine)
    ]

    pub found_new : found_by env after input.email ≡ some (user, new_user env input)
    found_new = elim (Option-cases (found_by env after input.email)) [
      | inl p ↦
          let not_it =
            env.users_table.find_first-none _ after.users user (new_user env input) p stands_new in
          absurd (
            false≢true (
              sym not_it
              ∙ (text_eq_iff (normalize env input.email) (normalize env input.email)).1 refl))
      | inr ((k, u), p) ↦
          let (stands, fits) = env.users_table.find_first-some _ after.users k u p in
          elim (row_in_after k u stands) [
            | inl (same, made) ↦ p ∙ ap some (pair (sym same) made)
            | inr (_, old) ↦ absurd (
                no_other k u old
                  ((text_eq_iff u.email_normalized (normalize env input.email)).0 fits))
          ]
    ]
      where
        pair :
            {k : RowId} {u : User}
            → k ≡ user
            → u ≡ new_user env input
            → ◌≡◌ {A = RowId × User} (k, u) (user, new_user env input)
        pair p q = cc

    abbrev pub owner : Membership
    owner = owner_membership env user (join env db input suffix ends role).2 role

    pub memberships_after : after.memberships ≡ db.memberships ++ owner ∷ []
    unfolding join
    memberships_after = refl

    pub enters_new :
        (jti jti' : Text) (now : ℕ)
        → (later : Entered) × (enter_as env after user jti jti' now ≡ returned later)
          × (later.user_id ≡ user)
          × (later.tenant_id ≡ owner.tenant_id)
    unfolding enter_as
    enters_new jti jti' now =
        let mine : active_of user owner ≡ true = rw ((text_eq_iff user user).1 refl) refl in
        let chosen = first_of_new db.memberships owner sound.of_users mine in
        (
          session_of env user owner.tenant_id none
              (keys_of env env.all_keys (env.roles_table.at after.roles role)) jti jti' now,
          rw (memberships_after, chosen, enter_as) refl,
          refl,
          refl,
        )
