-- ===== src/Gateway/Enrollment/OneTime.antt =====
-- An enrollment token is good for one agent.
use wa_ops.Base.{
  ℕ, ◌≤◌, ◌≡◌, refl, sym, ap, ◌∙◌, Bool, false, not, ◌||◌, Option, none, some, List, [], ◌∷◌, ◌==◌,
  ==_iff, arith, Bool-cases, Option-cases, inl, inr, if◌then◌else◌,
}
use wa_ops.Base.Text.{Text, text_eq, text_eq_iff}
use wa_ops.Database.{RowId, Table, change, change_if}
use wa_ops.Gateway.Credential.{Agent, hash_enrollment_token}
use wa_ops.Gateway.Enrollment.{
  Token, Body, Reply, authentication_required, enrolled, is_claiming, claimable, to_claiming,
  claimed, to_active, roll_back, to_used, has_hash, checked_token, claim, admit, settle, enroll,
}
use wa_ops.Gateway.Enrollment.Claiming.{
  Store, Unclaimable, claim-Unclaimable, later, no_winner, after_claim, enroll-Won,
}

module _ (sha256_hex unhex : Text → Text) (ta : Table Agent) (tk : Table Token) where
  used-Unclaimable :
      (tokens : tk.State) (hash : Text) (now : ℕ) (t agent : RowId)
      → Unclaimable sha256_hex unhex ta tk tokens hash now
      → Unclaimable sha256_hex unhex ta tk (tk.update t (to_used agent now) tokens) hash now
  used-Unclaimable tokens hash now t agent u k r e =
      still (tk.at tokens k) refl (sym (tk.at-update t (to_used agent now) tokens k) ∙ e)
    where
      still :
          (o : Option Token)
          → tk.at tokens k ≡ o
          → (if text_eq t k then change (to_used agent now) o else o) ≡ some r
          → claimable hash now k r ≡ false
      still none p q = ground arith
      still (some r₀) p q = let v = u k r₀ p in ground arith

  answers_401 :
      (db : Store sha256_hex unhex ta tk) (now : ℕ) (fault : Bool) (secret token : Text)
      (body : Body)
      → checked_token body.enrollment_token ≡ some token
      → Unclaimable sha256_hex unhex ta tk db.tokens
          (hash_enrollment_token sha256_hex unhex token)
          now
      → (enroll sha256_hex unhex ta tk db now fault secret body).1 ≡ authentication_required
  unfolding enroll
  answers_401 db now fault secret token body p u =
      rw
        (
          p,
          no_winner sha256_hex unhex ta tk db.tokens (hash_enrollment_token sha256_hex unhex token)
              now u,
          enroll,
        )
        refl

  -- The claim of a token makes no row claimable.
  claim-keeps :
      (tokens : tk.State) (hash other : Text) (now : ℕ)
      → Unclaimable sha256_hex unhex ta tk tokens hash now
      → Unclaimable sha256_hex unhex ta tk
          (claim sha256_hex unhex ta tk other now tokens).0
          hash
          now
  unfolding claim
  claim-keeps tokens hash other now u k r e =
      still (tk.at tokens k) refl
        (sym (tk.at-update_many (claimable other now) to_claiming tokens k) ∙ e)
    where
      still :
          (o : Option Token)
          → tk.at tokens k ≡ o
          → change_if (claimable other now k) to_claiming o ≡ some r
          → claimable hash now k r ≡ false
      still none p q = ground arith
      still (some r₀) p q = let v = u k r₀ p in ground arith

  -- Giving a token back makes no row of another hash claimable.
  roll_back-Unclaimable :
      (db : Store sha256_hex unhex ta tk) (hash other : Text) (now : ℕ)
      → text_eq other hash ≡ false
      → Unclaimable sha256_hex unhex ta tk db.tokens hash now
      → Unclaimable sha256_hex unhex ta tk
          (roll_back sha256_hex unhex ta tk other db).0.tokens
          hash
          now
  roll_back-Unclaimable db hash other now ne u k r e =
      still (tk.at db.tokens k) refl
        (sym (tk.at-update_many (claimed other) to_active db.tokens k) ∙ e)
    where
      still :
          (o : Option Token)
          → tk.at db.tokens k ≡ o
          → change_if (claimed other k) to_active o ≡ some r
          → claimable hash now k r ≡ false
      still none p q = ground arith
      still (some r₀) p q =
          let v = u k r₀ p in
          ground (
            arith,
            text_eq_iff r₀.token_hash other,
            text_eq_iff r₀.token_hash hash,
            text_eq_iff other hash,
          )

  settle-Unclaimable :
      (db : Store sha256_hex unhex ta tk) (hash other : Text) (now : ℕ) (fault : Bool)
      (secret : Text) (body : Body)
      → text_eq other hash ≡ false
      → Unclaimable sha256_hex unhex ta tk db.tokens hash now
      → Unclaimable sha256_hex unhex ta tk
          (settle sha256_hex unhex ta tk db other now fault secret body).0.tokens
          hash
          now
  unfolding settle admit
  settle-Unclaimable db hash other now fault secret body ne u =
      elim (Option-cases (tk.find_first (has_hash other) db.tokens)) [
        | inl p ↦ rw (p, settle) (roll_back-Unclaimable db hash other now ne u)
        | inr ((t, row), p) ↦ elim (Bool-cases (fault || not (is_claiming row.status))) [
          | inl q ↦ rw (p, q, settle) (roll_back-Unclaimable db hash other now ne u)
          | inr q ↦ rw (p, q, settle) (used-Unclaimable db.tokens hash now t _ u)
        ]
      ]

  -- No request makes a token claimable that is not, with whatever token it comes and however it ends.
  enroll-Unclaimable :
      (db : Store sha256_hex unhex ta tk) (hash : Text) (now : ℕ) (fault : Bool) (secret : Text)
      (body : Body)
      → Unclaimable sha256_hex unhex ta tk db.tokens hash now
      → Unclaimable sha256_hex unhex ta tk
          (enroll sha256_hex unhex ta tk db now fault secret body).0.tokens
          hash
          now
  unfolding enroll
  enroll-Unclaimable db hash now fault secret body u =
      elim (Option-cases (checked_token body.enrollment_token)) [
        | inl p ↦ rw (p, enroll) u
        | inr (token, p) ↦
            (let other = hash_enrollment_token sha256_hex unhex token in
              let kept = claim-keeps db.tokens hash other now u in
              elim (Bool-cases ((claim sha256_hex unhex ta tk other now db.tokens).1 == 0)) [
                | inl q ↦ rw (p, q, enroll) kept
                | inr q ↦ elim (Bool-cases (text_eq other hash)) [
                  | inl same ↦
                      (let e : other ≡ hash = (text_eq_iff other hash).0 same in
                        let lost = no_winner sha256_hex unhex ta tk db.tokens other now (rw e u) in
                        absurd (cc ((==_iff _ 0).1 lost, q)))
                  | inr ne ↦
                      rw (p, q, enroll)
                        (settle-Unclaimable (after_claim sha256_hex unhex ta tk db other now) hash
                          other now fault secret body ne kept)
                ]
              ])
      ]

  -- A request to enroll: when it comes, whether a call of the database fails behind its claim, the
  -- secret that is drawn for it, and its body.
  pub record Request : Type 0 where
    pub time : ℕ
    pub fault : Bool
    pub secret : Text
    pub body : Body

  unfoldable pub enroll_all :
      Store sha256_hex unhex ta tk → List Request → Store sha256_hex unhex ta tk
  enroll_all db [] = db
  enroll_all db (q ∷ qs) =
      enroll_all (enroll sha256_hex unhex ta tk db q.time q.fault q.secret q.body).0 qs

  -- The requests come one after the other between two times.
  abbrev pub Between : ℕ → List Request → ℕ → Type 0
  Between now [] end = now ≤ end
  Between now (q ∷ qs) end = (now ≤ q.time) × Between q.time qs end

  enroll_all-Unclaimable :
      (qs : List Request) (db : Store sha256_hex unhex ta tk) (hash : Text) (now end : ℕ)
      → Between now qs end
      → Unclaimable sha256_hex unhex ta tk db.tokens hash now
      → Unclaimable sha256_hex unhex ta tk (enroll_all db qs).tokens hash end
  unfolding enroll_all
  enroll_all-Unclaimable [] db hash now end h u =
      later sha256_hex unhex ta tk db.tokens hash now end h u
  enroll_all-Unclaimable (q ∷ qs) db hash now end (h, hs) u =
      enroll_all-Unclaimable qs (enroll sha256_hex unhex ta tk db q.time q.fault q.secret q.body).0
        hash q.time end hs
        (enroll-Unclaimable db hash q.time q.fault q.secret q.body
          (later sha256_hex unhex ta tk db.tokens hash now q.time h u))

  -- A token that has enrolled an agent enrolls no other: after any further requests to enroll, with
  -- this token or others, which may succeed, be refused or fail, a request with it is answered with
  -- 401, whatever else its body says.
  pub enroll-once :
      (db db' : Store sha256_hex unhex ta tk) (now now' : ℕ) (fault fault' : Bool)
      (secret secret' : Text) (body body' : Body) (k : RowId) (c : Text) (between : List Request)
      → enroll sha256_hex unhex ta tk db now fault secret body ≡ (db', enrolled k c)
      → body'.enrollment_token ≡ body.enrollment_token
      → Between now between now'
      → (enroll sha256_hex unhex ta tk (enroll_all db' between) now' fault' secret' body').1
        ≡ authentication_required
  unfolding admit
  enroll-once db db' now now' fault fault' secret secret' body body' k c between e same h =
      let w = enroll-Won sha256_hex unhex ta tk db db' now fault secret body k c e in
      let hash = hash_enrollment_token sha256_hex unhex w.token in
      let tokens : tk.update w.t (to_used _ now)
            (after_claim sha256_hex unhex ta tk db hash now).tokens
          ≡ db'.tokens =
        ap (λ (x : Store sha256_hex unhex ta tk × Reply). x.0.tokens) w.done in
      answers_401 (enroll_all db' between) now' fault' secret' w.token body' (rw same w.checked) (
        enroll_all-Unclaimable between db' hash now now' h (
          rw (← tokens) (
            used-Unclaimable _ hash now w.t _
              (claim-Unclaimable sha256_hex unhex ta tk hash now db.tokens))))
