-- ===== src/Auth/Plain.antt =====
-- A token library without a signature, which meets the interface `Jwt` of Tokens: what is signed is
-- written out, each text behind its length. It shows that what is asked of the library can hold, and
-- runs the examples.
use wa_ops.Base.{
  ℕ, zero, suc, ◌≤◌, ◌<◌, ◌≡◌, ◌≢◌, refl, ap, ◌∙◌, Option, none, some, List, [], ◌∷◌, ◌++◌, ltb,
  length, arith, if◌then◌else◌,
}
use wa_ops.Base.Text.{Text}
use wa_ops.Gateway.Credential.{is_space, trim_start, trim_end}
use wa_ops.Auth.Tokens.{Jwt, Payload}

cut : ℕ → Text → Text × Text
cut zero s = ([], s)
cut (suc n) [] = ([], [])
cut (suc n) (c ∷ s) = let (before, after) = cut n s in (c ∷ before, after)

unfoldable put_text : Text → Text → Text
put_text s rest = length s ∷ (s ++ rest)

unfoldable read_text : Text → Text × Text
unfolding cut
read_text [] = ([], [])
read_text (n ∷ s) = cut n s

read-put : (s rest : Text) → read_text (put_text s rest) ≡ (s, rest)
unfolding read_text put_text cut
read-put s rest = go s
  where
    go : (s : Text) → cut (length s) (s ++ rest) ≡ (s, rest)
    go [] = refl
    go (c ∷ s) = rw (go s) refl

unfoldable put_texts : List Text → Text → Text
put_texts [] rest = rest
put_texts (s ∷ ss) rest = put_text s (put_texts ss rest)

unfoldable read_texts : ℕ → Text → List Text × Text
read_texts zero s = ([], s)
read_texts (suc n) s =
    let (first, after) = read_text s in
    let (others, rest) = read_texts n after in (first ∷ others, rest)

read-put_texts :
    (ss : List Text) (rest : Text) → read_texts (length ss) (put_texts ss rest) ≡ (ss, rest)
unfolding read_texts put_texts
read-put_texts [] rest = refl
read-put_texts (s ∷ ss) rest = rw (read-put s (put_texts ss rest), read-put_texts ss rest) refl

unfoldable put_keys : Option (List Text) → Text → Text
put_keys none rest = 0 ∷ rest
put_keys (some ss) rest = 1 ∷ length ss ∷ put_texts ss rest

unfoldable read_keys : Text → Option (List Text) × Text
read_keys (suc tag ∷ n ∷ s) = let (keys, rest) = read_texts n s in (some keys, rest)
read_keys (zero ∷ s) = (none, s)
read_keys _ = (none, [])

read-put_keys : (o : Option (List Text)) (rest : Text) → read_keys (put_keys o rest) ≡ (o, rest)
unfolding read_keys put_keys
read-put_keys none [] = refl
read-put_keys none (c ∷ rest) = refl
read-put_keys (some ss) rest = rw (read-put_texts ss rest) refl

unfoldable put_org : Option (Option Text) → Text → Text
put_org none rest = 0 ∷ rest
put_org (some none) rest = 1 ∷ rest
put_org (some (some s)) rest = 2 ∷ put_text s rest

abbrev org_and_rest : Text × Text → Option (Option Text) × Text
org_and_rest (s, rest) = (some (some s), rest)

unfoldable read_org : Text → Option (Option Text) × Text
read_org (zero ∷ s) = (none, s)
read_org (suc zero ∷ s) = (some none, s)
read_org (suc (suc n) ∷ s) = org_and_rest (read_text s)
read_org [] = (none, [])

read-put_org : (o : Option (Option Text)) (rest : Text) → read_org (put_org o rest) ≡ (o, rest)
unfolding read_org put_org
read-put_org none rest = refl
read-put_org (some none) rest = refl
read-put_org (some (some s)) rest = rw (read-put s rest) refl

abbrev head_of : Text → ℕ
head_of [] = 0
head_of (c ∷ s) = c

abbrev behind_first : Text → Text
behind_first [] = []
behind_first (c ∷ s) = s

abbrev body_of : Payload → Text
body_of p = put_text p.sub (
    put_text p.tenant
      (put_org p.org (put_keys p.perms (put_keys p.ents (put_text p.jti (p.exp ∷ 1 ∷ []))))))

unfoldable sign : Payload → Text
unfolding put_text put_texts put_org put_keys
sign p = 1 ∷ body_of p

unfoldable read_body : Text → Payload
unfolding read_text read_org read_keys
read_body s =
    let (sub, a) = read_text s in
    let (tenant, b) = read_text a in
    let (org, c) = read_org b in
    let (perms, d) = read_keys c in
    let (ents, e) = read_keys d in
    let (jti, f) = read_text e in
    record {
      sub = sub;
      tenant = tenant;
      org = org;
      perms = perms;
      ents = ents;
      jti = jti;
      exp = head_of f;
    }

read_body-sign : (p : Payload) → read_body (body_of p) ≡ p
unfolding read_body
read_body-sign p =
    let f = p.exp ∷ 1 ∷ [] in
    let e = put_text p.jti f in
    let d = put_keys p.ents e in
    let c = put_keys p.perms d in
    let b = put_org p.org c in
    let a = put_text p.tenant b in
    rw
      (
        read-put p.sub a,
        read-put p.tenant b,
        read-put_org p.org c,
        read-put_keys p.perms d,
        read-put_keys p.ents e,
        read-put p.jti f,
      )
      refl

abbrev unless_ended : ℕ → Payload → Option Payload
unless_ended now p = if ltb now p.exp then some p else none

unfoldable verify : ℕ → Text → Option Payload
unfolding read_body
verify now token = unless_ended now (read_body (behind_first token))

verify_signed : (p : Payload) (now : ℕ) → verify now (sign p) ≡ unless_ended now p
unfolding verify sign
verify_signed p now = ap (unless_ended now) (read_body-sign p)

verify-sign : (p : Payload) (now : ℕ) → now < p.exp → verify now (sign p) ≡ some p
verify-sign p now h = verify_signed p now ∙ ground arith

verify-sign_ended : (p : Payload) (now : ℕ) → p.exp ≤ now → verify now (sign p) ≡ none
verify-sign_ended p now h = verify_signed p now ∙ ground arith

-- A text that `trim_end` leaves as it is, and that is not empty.
abbrev IsTight : Text → Type 0
IsTight s = (trim_end s ≡ s) × (s ≢ [])

IsTight-cons : (c : ℕ) (s : Text) → IsTight s → IsTight (c ∷ s)
unfolding trim_end
IsTight-cons c [] (t, h) = absurd (h refl)
IsTight-cons c (d ∷ s) (t, h) = (rw t refl, λ e. cc)

IsTight-append : (s rest : Text) → IsTight rest → IsTight (s ++ rest)
IsTight-append [] rest t = t
IsTight-append (c ∷ s) rest t = IsTight-cons c (s ++ rest) (IsTight-append s rest t)

put_text-IsTight : (s rest : Text) → IsTight rest → IsTight (put_text s rest)
unfolding put_text
put_text-IsTight s rest t = IsTight-cons (length s) (s ++ rest) (IsTight-append s rest t)

put_texts-IsTight : (ss : List Text) (rest : Text) → IsTight rest → IsTight (put_texts ss rest)
unfolding put_texts
put_texts-IsTight [] rest t = t
put_texts-IsTight (s ∷ ss) rest t =
    put_text-IsTight s (put_texts ss rest) (put_texts-IsTight ss rest t)

put_keys-IsTight : (o : Option (List Text)) (rest : Text) → IsTight rest → IsTight (put_keys o rest)
unfolding put_keys
put_keys-IsTight none rest t = IsTight-cons 0 rest t
put_keys-IsTight (some ss) rest t =
    IsTight-cons 1 _ (IsTight-cons (length ss) _ (put_texts-IsTight ss rest t))

put_org-IsTight : (o : Option (Option Text)) (rest : Text) → IsTight rest → IsTight (put_org o rest)
unfolding put_org
put_org-IsTight none rest t = IsTight-cons 0 rest t
put_org-IsTight (some none) rest t = IsTight-cons 1 rest t
put_org-IsTight (some (some s)) rest t = IsTight-cons 2 _ (put_text-IsTight s rest t)

end-IsTight : (exp : ℕ) → IsTight (exp ∷ 1 ∷ [])
unfolding trim_end is_space
end-IsTight exp = IsTight-cons exp (1 ∷ []) (refl, λ e. cc)

body_of-IsTight : (p : Payload) → IsTight (body_of p)
body_of-IsTight p = put_text-IsTight p.sub _ (
    put_text-IsTight p.tenant _ (
      put_org-IsTight p.org _ (
        put_keys-IsTight p.perms _
          (put_keys-IsTight p.ents _ (put_text-IsTight p.jti _ (end-IsTight p.exp))))))

sign_trimmed : (p : Payload) → trim_end (trim_start (sign p)) ≡ sign p
unfolding sign trim_start is_space
sign_trimmed p = (IsTight-cons 1 (body_of p) (body_of-IsTight p)).0

sign_filled : (p : Payload) → sign p ≢ []
unfolding sign
sign_filled p e = cc

pub plain : Jwt
plain = record {
  access_ttl_seconds = none;
  refresh_ttl_seconds = none;
  sign = sign;
  verify = verify;
  verify-sign = verify-sign;
  verify-sign_ended = verify-sign_ended;
  filled = sign_filled;
  trimmed = sign_trimmed;
}
