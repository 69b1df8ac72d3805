-- ===== src/Contracts/Fingerprint.antt =====
-- packages/contracts/src/fingerprint.ts. The hash is an argument.
use mathlib.Core.Bool.{false≢true}
use wa_ops.Base.{
  ◌≡◌, refl, sym, ap, ◌∙◌, true, false, Option, none, some, List, [], ◌∷◌, ◌++◌, All, arith,
}
use wa_ops.Base.Text.{Text, codes, includes, split_at, split_at-append}

pub record Parts : Type 0 where
  pub tenant_id : Text
  pub host_id : Option Text
  pub container_id : Option Text
  pub resource_id : Option Text

-- `if (part) segments.push(part)`
abbrev pub push_part : Option Text → List Text → List Text
push_part none rest = rest
push_part (some []) rest = rest
push_part (some (c ∷ s)) rest = (c ∷ s) ∷ rest

abbrev pub parts_of : Parts → List Text
parts_of p =
    p.tenant_id ∷ push_part p.host_id (push_part p.container_id (push_part p.resource_id []))

abbrev pub segments : Text → Parts → List Text
segments rule p = rule ∷ parts_of p

-- `join('|')`
abbrev pub join_behind : Text → List Text → Text
join_behind s [] = s
join_behind s (t ∷ ts) = s ++ (124 ∷ join_behind t ts)

abbrev pub join : List Text → Text
join [] = []
join (s ∷ ss) = join_behind s ss

unfoldable pub compose_fingerprint : (Text → Text) → Text → Parts → Text
compose_fingerprint sha256_hex rule p = codes "sha256:" ++ sha256_hex (join (segments rule p))

abbrev pub IsPlain : Text → Type 0
IsPlain s = includes 124 s ≡ false

includes-append : (s t : Text) → includes 124 (s ++ 124 ∷ t) ≡ true
unfolding includes
includes-append [] t = ground arith
includes-append (c ∷ s) t = ground (arith, includes-append s t)

join_behind-injective :
    (s t : Text) (ss ts : List Text)
    → IsPlain s × All IsPlain ss
    → IsPlain t × All IsPlain ts
    → join_behind s ss ≡ join_behind t ts
    → (s ≡ t) × (ss ≡ ts)
join_behind-injective s t [] [] h k e = (e, refl)
join_behind-injective s t [] (y ∷ ys) (h, _) k e =
    absurd (false≢true (sym h ∙ ap (includes 124) e ∙ includes-append t (join_behind y ys)))
join_behind-injective s t (x ∷ xs) [] h (k, _) e =
    absurd (false≢true (sym k ∙ ap (includes 124) (sym e) ∙ includes-append s (join_behind x xs)))
join_behind-injective s t (x ∷ xs) (y ∷ ys) (h, hs) (k, ks) e =
    let both : ◌≡◌ {A = Option (Text × Text)} (some (s, join_behind x xs))
        (some (t, join_behind y ys)) =
      sym (split_at-append 124 s (join_behind x xs) h)
      ∙ ap (split_at 124) e
      ∙ split_at-append 124 t (join_behind y ys) k in
    let first : s ≡ t = cc in
    let rest : join_behind x xs ≡ join_behind y ys = cc in
    let (head, tail) = join_behind-injective x y xs ys hs ks rest in (first, cc)

-- Two fingerprints are equal only where the rule, the tenant and the other parts that are there are,
-- where none of these has a bar in it and the hash does not collide on the two texts.
pub compose_fingerprint-injective :
    (sha256_hex : Text → Text) (rule rule' : Text) (p p' : Parts)
    → All IsPlain (segments rule p)
    → All IsPlain (segments rule' p')
    → (sha256_hex (join (segments rule p)) ≡ sha256_hex (join (segments rule' p'))
        → join (segments rule p) ≡ join (segments rule' p'))
    → compose_fingerprint sha256_hex rule p ≡ compose_fingerprint sha256_hex rule' p'
    → (rule ≡ rule') × (p.tenant_id ≡ p'.tenant_id) × (segments rule p ≡ segments rule' p')
unfolding compose_fingerprint
compose_fingerprint-injective sha256_hex rule rule' p p' h k injective e =
    let hashes : sha256_hex (join (segments rule p)) ≡ sha256_hex (join (segments rule' p')) = cc in
    let (same, rest) =
      join_behind-injective rule rule' (parts_of p) (parts_of p') h k (injective hashes) in
    (same, cc, cc)
