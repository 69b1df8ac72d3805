-- ===== src/Gateway/Minting/Redeeming.antt =====
-- What the gateway makes of a token that has just been made.
use mathlib.Core.Bool.{false≢true}
use mathlib.Core.Option.{some-injective}
use wa_ops.Base.{
  ℕ, ◌<◌, ◌≡◌, refl, sym, ap, ◌∙◌, Bool, true, false, Option, none, some, ◌++◌, ◌==◌, ==_iff, ◌+◌,
  ◌*◌, arith, length, ltb, Bool-cases, inl, inr, Option-cases,
}
use wa_ops.Base.Text.{Text, codes, text_eq, text_eq_iff}
use wa_ops.Database.{RowId, Table, change_if}
use wa_ops.Errors.{
  validation, quota_exceeded_error, returned, returned-injective, guard-eq-returned,
}
use wa_ops.Gateway.Credential.Parsing.{credential}
use wa_ops.Gateway.Enrollment.RoundTrip.{at_made, at_changed}
use wa_ops.Gateway.Credential.{Agent, hash_agent_credential, hash_enrollment_token}
use wa_ops.Gateway.Enrollment.{
  new_agent, set_hash, Token, Body, enrolled, claimable, to_claiming, has_hash, claim, admit,
  settle, enroll, checked_token,
}
use wa_ops.Gateway.Minting.{
  new_token, Db, CreateToken, TokenAnswer, create_token, ttl_of, fit_create, pending_of,
  max_pending_tokens_per_tenant,
}

module _ (sha256_hex unhex : Text → Text) (ta : Table Agent) (tk : Table Token) where
  -- No row has the hash.
  abbrev pub IsNew : Text → tk.State → Type 0
  IsNew hash tokens =
      (k : RowId) (t : Token) → tk.at tokens k ≡ some t → text_eq t.token_hash hash ≡ false

  text_eq_self : (s : Text) → text_eq s s ≡ true
  text_eq_self s = (text_eq_iff s s).1 refl

  -- A row that has not the hash is not claimed, and keeps its hash.
  claim-keeps_others :
      (hash : Text) (now : ℕ) (k : RowId) (o : Option Token) (r : Token)
      → ((t : Token) → o ≡ some t → text_eq t.token_hash hash ≡ false)
      → change_if (claimable hash now k) to_claiming o ≡ some r
      → text_eq r.token_hash hash ≡ false
  claim-keeps_others hash now k none r h e = cc
  claim-keeps_others hash now k (some t) r h e =
      let away = h t refl in let kept : t ≡ r = ground arith in rw kept at away

  module _ (hash tenant : Text) (expires_at now : ℕ) (tokens : tk.State)
      (is_new : IsNew hash tokens) (in_time : now < expires_at) where
    abbrev made : RowId × tk.State
    made = tk.create (new_token hash tenant expires_at) tokens

    abbrev claimed : tk.State
    claimed = (claim sha256_hex unhex ta tk hash now made.1).0

    new_token-claimable :
        (k : RowId) → claimable hash now k (new_token hash tenant expires_at) ≡ true
    new_token-claimable k = let same = text_eq_self hash in ground arith

    at_made_token : tk.at made.1 made.0 ≡ some (new_token hash tenant expires_at)
    at_made_token =
        tk.at-create (new_token hash tenant expires_at) tokens made.0
        ∙ rw (text_eq_self made.0) refl

    claim-counts : (claim sha256_hex unhex ta tk hash now made.1).1 ≡ 0 → ⊥
    unfolding claim
    claim-counts e = false≢true (
        sym (
          tk.update_many-none (claimable hash now) to_claiming made.1 made.0
            (new_token hash tenant expires_at) e at_made_token)
        ∙ new_token-claimable made.0)

    at_claimed : tk.at claimed made.0 ≡ some (to_claiming (new_token hash tenant expires_at))
    unfolding claim
    at_claimed =
        tk.at-update_many (claimable hash now) to_claiming made.1 made.0
        ∙ rw (at_made_token, new_token-claimable made.0) refl

    find-is_own :
        (t : RowId) (r : Token)
        → tk.find_first (has_hash hash) claimed ≡ some (t, r)
        → to_claiming (new_token hash tenant expires_at) ≡ r
    unfolding claim
    find-is_own t r e =
        let (stands, has) = tk.find_first-some (has_hash hash) claimed t r e in
        let back = sym (tk.at-update_many (claimable hash now) to_claiming made.1 t) ∙ stands in
        let before = tk.at-create (new_token hash tenant expires_at) tokens t in
        elim (Bool-cases (text_eq made.0 t)) [
          | inl p ↦
              (let own = rw (before, p, new_token-claimable t) at back in some-injective _ r own)
          | inr p ↦
              (let other = rw (before, p) at back in
                absurd (
                  false≢true (
                    sym (claim-keeps_others hash now t (tk.at tokens t) r (is_new t) other) ∙ has)))
        ]

    find-claimed :
        (t : RowId) × (tk.find_first (has_hash hash) claimed
          ≡ some (t, to_claiming (new_token hash tenant expires_at)))
    find-claimed = elim (Option-cases (tk.find_first (has_hash hash) claimed)) [
      | inl p ↦ absurd (
          false≢true (
            sym (
              tk.find_first-none (has_hash hash) claimed made.0
                (to_claiming (new_token hash tenant expires_at)) p at_claimed)
            ∙ text_eq_self hash))
      | inr ((t, r), p) ↦ (t, p ∙ ap (λ x. some (t, x)) (sym (find-is_own t r p)))
    ]

    -- The gateway lets the token through.
    enroll-new_token :
        (agents : ta.State) (token secret : Text) (body : Body)
        → checked_token body.enrollment_token ≡ some token
        → hash_enrollment_token sha256_hex unhex token ≡ hash
        → (t : RowId) × (enroll sha256_hex unhex ta tk
              (record { agents = agents; tokens = made.1 })
              now
              false
              secret
              body
            ≡ admit sha256_hex unhex ta tk
                (record { agents = agents; tokens = claimed })
                t
                (to_claiming (new_token hash tenant expires_at))
                now
                secret
                body)
    unfolding enroll settle
    enroll-new_token agents token secret body e h =
        let (t, found) = find-claimed in
        elim (Bool-cases ((claim sha256_hex unhex ta tk hash now made.1).1 == 0)) [
          | inl p ↦ absurd (claim-counts ((==_iff _ _).0 p))
          | inr p ↦ (t, rw (enroll, e, h, p, settle, found, h) refl)
        ]

  create_token-makes :
      (count : (RowId → Token → Bool) → tk.State → ℕ) (db db' : Db sha256_hex unhex tk count)
      (tenant : Text) (actor : Option Text) (now : ℕ) (random : Text) (input : CreateToken)
      (answer : TokenAnswer)
      → create_token sha256_hex unhex tk count db tenant actor now random input
        ≡ returned (db', answer)
      → (answer.token ≡ codes "enr_" ++ random)
        × (db'.tokens
            ≡ (tk.create
                (new_token
                  (hash_enrollment_token sha256_hex unhex (codes "enr_" ++ random))
                  tenant
                  (now + ttl_of input * 60000))
                db.tokens).1)
  unfolding create_token
  create_token-makes count db db' tenant actor now random input answer e =
      let (_, rest) = guard-eq-returned (fit_create input) (validation "Validation failed") _ e in
      let (_, last) =
        guard-eq-returned (ltb (count (pending_of tenant) db.tokens) max_pending_tokens_per_tenant)
          (quota_exceeded_error "agent_enrollment_tokens" max_pending_tokens_per_tenant) _ rest in
      (
        sym (
            ap (λ (x : Db sha256_hex unhex tk count × TokenAnswer). x.1.token)
              (returned-injective last)),
        sym (
            ap (λ (x : Db sha256_hex unhex tk count × TokenAnswer). x.0.tokens)
              (returned-injective last)),
      )

  -- A token that `createToken` has answered with enrolls an agent at the gateway, into the tenant that
  -- it was made for, at every time before it ends, whatever else the body says. Asked: the random text
  -- has the 48 digits of 24 bytes, no other token has its hash, and no call of the database fails.
  pub create_token-enrolls :
      (count : (RowId → Token → Bool) → tk.State → ℕ) (db db' : Db sha256_hex unhex tk count)
      (tenant : Text) (actor : Option Text) (now : ℕ) (random : Text) (input : CreateToken)
      (answer : TokenAnswer) (agents : ta.State) (later : ℕ) (secret : Text) (body : Body)
      → create_token sha256_hex unhex tk count db tenant actor now random input
        ≡ returned (db', answer)
      → length random ≡ 48
      → IsNew (hash_enrollment_token sha256_hex unhex (codes "enr_" ++ random)) db.tokens
      → later < now + ttl_of input * 60000
      → body.enrollment_token ≡ some answer.token
      → (k : RowId) × (a : Agent) × ((enroll sha256_hex unhex ta tk
            (record { agents = agents; tokens = db'.tokens })
            later
            false
            secret
            body).1
          ≡ enrolled k (credential k secret))
        × (ta.at
              (enroll sha256_hex unhex ta tk
                (record { agents = agents; tokens = db'.tokens })
                later
                false
                secret
                body).0.agents
              k
            ≡ some a)
        × (a.tenant_id ≡ tenant)
  unfolding admit
  create_token-enrolls count db db' tenant actor now random input answer agents later secret body e
        len is_new in_time given =
      let (token, tokens) =
        create_token-makes count db db' tenant actor now random input answer e in
      let checked : checked_token body.enrollment_token ≡ some (codes "enr_" ++ random) =
        rw (given, token, len) refl in
      let made =
        tk.create
          (new_token (hash_enrollment_token sha256_hex unhex (codes "enr_" ++ random)) tenant
            (now + ttl_of input * 60000))
          db.tokens in
      let a = new_agent sha256_hex unhex ta tk body tenant secret in
      let agent = ta.create a agents in
      let (t, same) =
        enroll-new_token _ tenant (now + ttl_of input * 60000) later db.tokens is_new in_time agents
          (codes "enr_" ++ random) secret body checked refl in
      (
        agent.0,
        set_hash (hash_agent_credential sha256_hex unhex agent.0 secret) a,
        rw (tokens, same) refl,
        rw (tokens, same)
            (at_changed sha256_hex unhex ta tk agent.0 _ agent.1 a
              (at_made sha256_hex unhex ta tk a agents)),
        refl,
      )
