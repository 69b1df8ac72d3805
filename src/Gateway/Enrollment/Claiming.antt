-- ===== src/Gateway/Enrollment/Claiming.antt =====
-- The claim of an enrollment token, and what a request that enrolls an agent has done.
use wa_ops.Base.{
  ℕ, zero, suc, ◌≤◌, ◌<◌, ◌≡◌, refl, sym, ap, ◌∙◌, Bool, false, not, ◌||◌, Option, none, some, ◌==◌,
  ==_iff, arith, Bool-cases, Option-cases, inl, inr,
}
use wa_ops.Base.Text.{Text}
use wa_ops.Database.{RowId, Table, change_if}
use wa_ops.Gateway.Credential.{Agent, hash_enrollment_token}
use wa_ops.Gateway.Enrollment.{
  Token, Body, Reply, enrolled, is_claiming, claimable, to_claiming, has_hash, checked_token, Db,
  claim, admit, settle, enroll,
}

module _ (sha256_hex unhex : Text → Text) (ta : Table Agent) (tk : Table Token) where
  abbrev pub Store : Type 0
  Store = Db sha256_hex unhex ta tk

  -- No token with the hash can be claimed any more.
  abbrev pub Unclaimable : tk.State → Text → ℕ → Type 0
  Unclaimable tokens hash now =
      (k : RowId) (t : Token) → tk.at tokens k ≡ some t → claimable hash now k t ≡ false

  claimed_is_not :
      (hash : Text) (now : ℕ) (k : RowId) (o : Option Token) (t : Token)
      → change_if (claimable hash now k) to_claiming o ≡ some t
      → claimable hash now k t ≡ false
  claimed_is_not hash now k none t e = cc
  claimed_is_not hash now k (some r) t e = elim (Bool-cases (claimable hash now k r)) [
    | inl p ↦ ground arith
    | inr p ↦ ground arith
  ]

  pub claim-Unclaimable :
      (hash : Text) (now : ℕ) (tokens : tk.State)
      → Unclaimable (claim sha256_hex unhex ta tk hash now tokens).0 hash now
  unfolding claim
  claim-Unclaimable hash now tokens k t e =
      claimed_is_not hash now k (tk.at tokens k) t
        (sym (tk.at-update_many (claimable hash now) to_claiming tokens k) ∙ e)

  pub later :
      (tokens : tk.State) (hash : Text) (now now' : ℕ)
      → now ≤ now'
      → Unclaimable tokens hash now
      → Unclaimable tokens hash now'
  later tokens hash now now' h u k t e = let p = u k t e in ground arith

  pub no_winner :
      (tokens : tk.State) (hash : Text) (now : ℕ)
      → Unclaimable tokens hash now
      → (claim sha256_hex unhex ta tk hash now tokens).1 ≡ 0
  unfolding claim
  no_winner tokens hash now u = zero_of _ (λ h.
      let (k, t, a, p) = tk.update_many-some (claimable hash now) to_claiming tokens h in
      cc (u k t a, p))
    where
      zero_of : (n : ℕ) → (0 < n → ⊥) → n ≡ 0
      zero_of zero h = refl
      zero_of (suc n) h = absurd (h (omega arith))

  -- Of two requests with one token, at most one wins the claim, however the rest of their handlers
  -- interleaves: once a claim has been made, won or not, a later one finds nothing.
  pub claim-once :
      (hash : Text) (now now' : ℕ) (tokens : tk.State)
      → now ≤ now'
      → (claim sha256_hex unhex ta tk hash now' (claim sha256_hex unhex ta tk hash now tokens).0).1
        ≡ 0
  claim-once hash now now' tokens h =
      no_winner _ hash now' (later _ hash now now' h (claim-Unclaimable hash now tokens))

  abbrev pub after_claim : Store → Text → ℕ → Store
  after_claim db hash now = record db {
    tokens = (claim sha256_hex unhex ta tk hash now db.tokens).0;
  }

  -- What has happened when `enroll` answers with a credential.
  pub record Won (db db' : Store) (now : ℕ) (secret : Text) (body : Body) (k : RowId) (c : Text)
      : Type 0 where
    pub token : Text
    pub t : RowId
    pub row : Token
    pub checked : checked_token body.enrollment_token ≡ some token
    pub claims :
        (claim sha256_hex unhex ta tk
            (hash_enrollment_token sha256_hex unhex token)
            now
            db.tokens).1
          ≡ 0
        → ⊥
    pub found :
        tk.find_first
          (has_hash (hash_enrollment_token sha256_hex unhex token))
          (after_claim db (hash_enrollment_token sha256_hex unhex token) now).tokens
        ≡ some (t, row)
    pub done :
        admit sha256_hex unhex ta tk
          (after_claim db (hash_enrollment_token sha256_hex unhex token) now)
          t
          row
          now
          secret
          body
        ≡ (db', enrolled k c)

  reply_of : {d d' : Store} {r r' : Reply} → ◌≡◌ {A = Store × Reply} (d, r) (d', r') → r ≡ r'
  reply_of e = ap (λ (x : Store × Reply). x.1) e

  settle-won :
      (db db' : Store) (hash : Text) (now : ℕ) (fault : Bool) (secret : Text) (body : Body)
      (k : RowId) (c : Text)
      → settle sha256_hex unhex ta tk db hash now fault secret body ≡ (db', enrolled k c)
      → (t : RowId) × (row : Token) × (tk.find_first (has_hash hash) db.tokens ≡ some (t, row))
        × (admit sha256_hex unhex ta tk db t row now secret body ≡ (db', enrolled k c))
  unfolding settle
  settle-won db db' hash now fault secret body k c e =
      elim (Option-cases (tk.find_first (has_hash hash) db.tokens)) [
        | inl p ↦ (let e' = reply_of (rw (p, settle) at e) in cc)
        | inr ((t, row), p) ↦ elim (Bool-cases (fault || not (is_claiming row.status))) [
          | inl q ↦ (let e' = reply_of (rw (p, q, settle) at e) in cc)
          | inr q ↦ (t, row, p, rw (p, q, settle) at e)
        ]
      ]

  pub enroll-Won :
      (db db' : Store) (now : ℕ) (fault : Bool) (secret : Text) (body : Body) (k : RowId) (c : Text)
      → enroll sha256_hex unhex ta tk db now fault secret body ≡ (db', enrolled k c)
      → Won db db' now secret body k c
  unfolding enroll
  enroll-Won db db' now fault secret body k c e =
      elim (Option-cases (checked_token body.enrollment_token)) [
        | inl p ↦ (let e' = reply_of (rw (p, enroll) at e) in cc)
        | inr (token, p) ↦
            (let hash = hash_enrollment_token sha256_hex unhex token in
              elim (Bool-cases ((claim sha256_hex unhex ta tk hash now db.tokens).1 == 0)) [
                | inl q ↦ (let e' = reply_of (rw (p, q, enroll) at e) in cc)
                | inr q ↦
                    (let e' : settle sha256_hex unhex ta tk (after_claim db hash now) hash now fault
                            secret body
                          ≡ (db', enrolled k c) =
                        rw (p, q, enroll) at e in
                      let (t, row, f, d) =
                        settle-won (after_claim db hash now) db' hash now fault secret body k c
                          e' in
                      record {
                        token = token;
                        t = t;
                        row = row;
                        checked = p;
                        claims = λ z. cc ((==_iff _ _).1 z, q);
                        found = f;
                        done = d;
                      })
              ])
      ]
