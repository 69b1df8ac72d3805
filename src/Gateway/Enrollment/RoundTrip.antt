-- ===== src/Gateway/Enrollment/RoundTrip.antt =====
-- The credential that enrollment answers with is one that authentication takes.
use wa_ops.Base.{ℕ, ◌≡◌, ◌≢◌, refl, ap, ◌∙◌, Bool, true, some, [], ◌∷◌, ◌++◌}
use wa_ops.Base.Text.{Text, codes, text_eq, text_eq_iff}
use wa_ops.Database.{RowId, Table}
use wa_ops.Gateway.Credential.{
  Agent, Identity, hash_agent_credential, hash_enrollment_token, check_agent, authenticate_agent,
}
use wa_ops.Gateway.Credential.Parsing.{credential, IsPart, parse-credential, truthy_filled}
use wa_ops.Gateway.Enrollment.{
  Token, used, Body, Reply, enrolled, to_used, has_hash, new_agent, set_hash, admit, enroll,
}
use wa_ops.Gateway.Enrollment.Claiming.{Store, after_claim, enroll-Won}

module _ (sha256_hex unhex : Text → Text) (ta : Table Agent) (tk : Table Token) where
  -- The row of a token that an agent has used.
  pub record IsUsedBy (tokens : tk.State) (agent : RowId) (tenant : Text) : Type 0 where
    pub t : RowId
    pub row : Token
    pub stands : tk.at tokens t ≡ some row
    pub spent : row.status ≡ used
    pub by : row.agent_id ≡ some agent
    pub of : row.tenant_id ≡ tenant

  text_eq_refl : (s : Text) → text_eq s s ≡ true
  text_eq_refl s = (text_eq_iff s s).1 refl

  pub at_changed :
      (k : RowId) (f : Agent → Agent) (s : ta.State) (a : Agent)
      → ta.at s k ≡ some a
      → ta.at (ta.update k f s) k ≡ some (f a)
  at_changed k f s a e = ta.at-update k f s k ∙ rw (text_eq_refl k, e) refl

  pub at_made : (a : Agent) (s : ta.State) → ta.at (ta.create a s).1 (ta.create a s).0 ≡ some a
  at_made a s = ta.at-create a s (ta.create a s).0 ∙ rw (text_eq_refl (ta.create a s).0) refl

  at_used :
      (t agent : RowId) (now : ℕ) (s : tk.State) (row : Token)
      → tk.at s t ≡ some row
      → tk.at (tk.update t (to_used agent now) s) t ≡ some (to_used agent now row)
  at_used t agent now s row e = tk.at-update t (to_used agent now) s t ∙ rw (text_eq_refl t, e) refl

  lets_in :
      (k : RowId) (secret tenant_id : Text) (body : Body)
      → ((s : Text) → sha256_hex s ≢ [])
      → check_agent sha256_hex unhex ta k secret (
          some (
            set_hash
              (hash_agent_credential sha256_hex unhex k secret)
              (new_agent sha256_hex unhex ta tk body tenant_id secret)))
        ≡ some (record { agent_id = k; tenant_id = tenant_id })
  unfolding hash_agent_credential
  lets_in k secret tenant_id body h =
      rw
        (
          truthy_filled (sha256_hex (k ++ (58 ∷ secret))) (h _),
          text_eq_refl (unhex (sha256_hex (k ++ (58 ∷ secret)))),
        )
        refl

  enters :
      (agents : ta.State) (k : RowId) (secret : Text) (a : Agent) (who : Identity)
      → IsPart k
      → IsPart secret
      → ta.at agents k ≡ some a
      → check_agent sha256_hex unhex ta k secret (some a) ≡ some who
      → authenticate_agent sha256_hex unhex ta agents
          (some (codes "Bearer " ++ credential k secret))
        ≡ some who
  unfolding authenticate_agent
  enters agents k secret a who pk ps e h =
      rw (parse-credential k secret pk ps, e, authenticate_agent) h

  -- The credential that enrollment answers with, sent as a header, authenticates the new agent, in the
  -- tenant of the token, and that token is marked as used by it. Asked: the new id and the secret are
  -- parts of a credential, and the hash is never the empty text.
  pub enroll-authenticates :
      (db db' : Store sha256_hex unhex ta tk) (now : ℕ) (fault : Bool) (secret : Text) (body : Body)
      (k : RowId) (c : Text)
      → enroll sha256_hex unhex ta tk db now fault secret body ≡ (db', enrolled k c)
      → IsPart k
      → IsPart secret
      → ((s : Text) → sha256_hex s ≢ [])
      → (tenant : Text) × (authenticate_agent sha256_hex unhex ta db'.agents
            (some (codes "Bearer " ++ c))
          ≡ some (record { agent_id = k; tenant_id = tenant }))
        × IsUsedBy db'.tokens k tenant
  unfolding admit
  enroll-authenticates db db' now fault secret body k c e pk ps h =
      let w = enroll-Won sha256_hex unhex ta tk db db' now fault secret body k c e in
      let hash = hash_enrollment_token sha256_hex unhex w.token in
      let s = after_claim sha256_hex unhex ta tk db hash now in
      let a = new_agent sha256_hex unhex ta tk body w.row.tenant_id secret in
      let made = ta.create a s.agents in
      let reply = ap (λ (x : Store sha256_hex unhex ta tk × Reply). x.1) w.done in
      let id : made.0 ≡ k = cc in
      let cred : credential made.0 secret ≡ c = cc in
      let agents : ta.update made.0
            (set_hash (hash_agent_credential sha256_hex unhex made.0 secret)) made.1
          ≡ db'.agents =
        ap (λ (x : Store sha256_hex unhex ta tk × Reply). x.0.agents) w.done in
      let tokens : tk.update w.t (to_used made.0 now) s.tokens ≡ db'.tokens =
        ap (λ (x : Store sha256_hex unhex ta tk × Reply). x.0.tokens) w.done in
      let stands = (tk.find_first-some (has_hash hash) s.tokens w.t w.row w.found).0 in
      let part : IsPart made.0 = rw id pk in
      (
        w.row.tenant_id,
        rw (← agents, ← cred, ← id)
            (enters _ made.0 secret _ _ part ps (at_changed made.0 _ made.1 a (at_made a s.agents))
              (lets_in made.0 secret w.row.tenant_id body h)),
        rw (← tokens) (record {
          t = w.t;
          row = to_used made.0 now w.row;
          stands = at_used w.t made.0 now s.tokens w.row stands;
          spent = refl;
          by = ap some id;
          of = refl;
        }),
      )
