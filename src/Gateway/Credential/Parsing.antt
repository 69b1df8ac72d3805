-- ===== src/Gateway/Credential/Parsing.antt =====
-- The credential that enrollment hands out is read back from the header.
use mathlib.Core.List.{append_assoc}
use wa_ops.Contracts.{truthy}
use wa_ops.Base.{◌≡◌, ◌≢◌, refl, ap, ◌∙◌, false, some, [], ◌∷◌, ◌++◌, arith, All}
use wa_ops.Base.Text.{Text, codes, text_eq, includes}
use wa_ops.Gateway.Credential.{
  is_space, trim_start, trim_last, trim_end, split, parse_raw, parse_credential_header,
}

-- `waops_${agentId}_${secret}`
unfoldable pub credential : Text → Text → Text
credential agent_id secret = codes "waops_" ++ (agent_id ++ (95 ∷ secret))

-- A part of a credential: not empty, with no underscore and no white space.
pub record IsPart (s : Text) : Type 0 where
  pub filled : s ≢ []
  pub joined : includes 95 s ≡ false
  pub solid : All (λ c. is_space c ≡ false) s

split_last : (s : Text) → includes 95 s ≡ false → split 95 s ≡ s ∷ []
unfolding split includes
split_last [] h = refl
split_last (c ∷ s) h = ground (arith, split_last s)

split_first : (s t : Text) → includes 95 s ≡ false → split 95 (s ++ 95 ∷ t) ≡ s ∷ split 95 t
unfolding split includes
split_first [] t h = refl
split_first (c ∷ s) t h = ground (arith, split_first s t)

trim_end_solid : (s : Text) → All (λ c. is_space c ≡ false) s → trim_end s ≡ s
unfolding trim_end
trim_end_solid [] h = refl
trim_end_solid (c ∷ []) (p, _) = rw p refl
trim_end_solid (c ∷ d ∷ s) (p, h) = ap (trim_last c) (trim_end_solid (d ∷ s) h)

trim_end-append : (s t : Text) → t ≢ [] → trim_end t ≡ t → trim_end (s ++ t) ≡ s ++ t
unfolding trim_end
trim_end-append [] t h e = e
trim_end-append (c ∷ []) [] h e = absurd (h refl)
trim_end-append (c ∷ []) (d ∷ t) h e = ap (trim_last c) e
trim_end-append (c ∷ d ∷ s) t h e = ap (trim_last c) (trim_end-append (d ∷ s) t h e)

pub truthy_filled : (s : Text) → s ≢ [] → truthy (some s) ≡ some s
truthy_filled [] h = absurd (h refl)
truthy_filled (c ∷ s) h = refl

trim_credential :
    (agent_id secret : Text)
    → IsPart secret
    → trim_end (credential agent_id secret) ≡ credential agent_id secret
unfolding credential
trim_credential agent_id secret s =
    let e : (codes "waops_" ++ (agent_id ++ 95 ∷ [])) ++ secret
        ≡ codes "waops_" ++ (agent_id ++ (95 ∷ secret)) =
      simp append_assoc in
    rw (← e) (
      trim_end-append (codes "waops_" ++ (agent_id ++ 95 ∷ [])) secret s.filled
        (trim_end_solid secret s.solid))

split_credential :
    (agent_id secret : Text)
    → IsPart agent_id
    → IsPart secret
    → split 95 (credential agent_id secret) ≡ codes "waops" ∷ agent_id ∷ secret ∷ []
unfolding credential includes
split_credential agent_id secret a s =
    split_first (codes "waops") (agent_id ++ 95 ∷ secret) refl
    ∙ ap (◌∷◌ (codes "waops"))
        (split_first agent_id secret a.joined ∙ ap (◌∷◌ agent_id) (split_last secret s.joined))

starts :
    (agent_id secret : Text) → trim_start (credential agent_id secret) ≡ credential agent_id secret
unfolding credential trim_start is_space
starts agent_id secret = refl

parse_raw-credential :
    (agent_id secret : Text)
    → IsPart agent_id
    → IsPart secret
    → parse_raw (credential agent_id secret)
      ≡ some (record { agent_id = agent_id; secret = secret })
unfolding parse_raw text_eq
parse_raw-credential agent_id secret a s =
    rw
      (
        starts agent_id secret,
        trim_credential agent_id secret s,
        split_credential agent_id secret a s,
        truthy_filled agent_id a.filled,
        truthy_filled secret s.filled,
      )
      refl

-- The header `Bearer ` with the credential of an agent is parsed into its id and its secret.
pub parse-credential :
    (agent_id secret : Text)
    → IsPart agent_id
    → IsPart secret
    → parse_credential_header (some (codes "Bearer " ++ credential agent_id secret))
      ≡ some (record { agent_id = agent_id; secret = secret })
unfolding parse_credential_header
parse-credential agent_id secret a s = parse_raw-credential agent_id secret a s
