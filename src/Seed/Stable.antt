-- ===== src/Seed/Stable.antt =====
-- Steps that a second run repeats without effect: what the seed's tables keep, and how that goes
-- through its loops and lookups.
use mathlib.Core.Path.{subst}
use mathlib.Core.List.{◌++◌}
use mathlib.Core.List.{append_assoc, append-nil}
use wa_ops.Base.{
  ℕ, ◌+◌, ◌≡◌, refl, sym, ◌∙◌, ap, String, Option, none, some, List, [], ◌∷◌, arith, map, length,
  length-append,
}
use wa_ops.Seed.{
  TenantRow, UserRow, MembershipRow, Tables, Step, then_step, with_id, ◌>>>◌, given, each, has_slug,
  has_email,
}
use wa_ops.Seed.Running.{tenant_id, user_id}
use wa_ops.Seed.Rows.{Grown, Grown_eq, id_where, id_where-map}

-- What stays of the tables when the seed goes on: what is looked up is found again.
pub record Grows (t t' : Tables) : Type 0 where
  pub permissions : Grown t.permissions t'.permissions
  pub roles : Grown t.roles t'.roles
  pub grants : Grown t.grants t'.grants
  pub modules : Grown t.modules t'.modules
  pub plans : Grown t.plans t'.plans
  pub plan_entitlements : Grown t.plan_entitlements t'.plan_entitlements
  pub subscriptions : Grown t.subscriptions t'.subscriptions
  pub entitlements : Grown t.entitlements t'.entitlements
  pub tenants : (slug i : String) → tenant_id slug t ≡ some i → tenant_id slug t' ≡ some i
  pub users : (email i : String) → user_id email t ≡ some i → user_id email t' ≡ some i

pub Grows-refl : (t : Tables) → Grows t t
Grows-refl t = record {
  permissions = λ p r e. e;
  roles = λ p r e. e;
  grants = λ p r e. e;
  modules = λ p r e. e;
  plans = λ p r e. e;
  plan_entitlements = λ p r e. e;
  subscriptions = λ p r e. e;
  entitlements = λ p r e. e;
  tenants = λ slug i e. e;
  users = λ email i e. e;
}

pub Grows-trans : (t t' t'' : Tables) → Grows t t' → Grows t' t'' → Grows t t''
Grows-trans t t' t'' g h = record {
  permissions = λ p r e. h.permissions p r (g.permissions p r e);
  roles = λ p r e. h.roles p r (g.roles p r e);
  grants = λ p r e. h.grants p r (g.grants p r e);
  modules = λ p r e. h.modules p r (g.modules p r e);
  plans = λ p r e. h.plans p r (g.plans p r e);
  plan_entitlements = λ p r e. h.plan_entitlements p r (g.plan_entitlements p r e);
  subscriptions = λ p r e. h.subscriptions p r (g.subscriptions p r e);
  entitlements = λ p r e. h.entitlements p r (g.entitlements p r e);
  tenants = λ slug i e. h.tenants slug i (g.tenants slug i e);
  users = λ email i e. h.users email i (g.users email i e);
}

-- A tenant but for its name, and a user but for the hash of the password.
abbrev pub bare_tenant : TenantRow → TenantRow
bare_tenant r = record r { name = "" }

abbrev pub bare_user : UserRow → UserRow
bare_user r = record r { password_hash = "" }

-- What a second run leaves as it is: eight tables whole, the tenants but for their names, the users
-- but for their hashes; and how many memberships it adds behind those that are there.
pub record Same (count : ℕ) (t t' : Tables) : Type 0 where
  pub permissions : t'.permissions ≡ t.permissions
  pub roles : t'.roles ≡ t.roles
  pub grants : t'.grants ≡ t.grants
  pub modules : t'.modules ≡ t.modules
  pub plans : t'.plans ≡ t.plans
  pub plan_entitlements : t'.plan_entitlements ≡ t.plan_entitlements
  pub subscriptions : t'.subscriptions ≡ t.subscriptions
  pub entitlements : t'.entitlements ≡ t.entitlements
  pub tenants : map bare_tenant t'.tenants ≡ map bare_tenant t.tenants
  pub users : map bare_user t'.users ≡ map bare_user t.users
  pub added : List MembershipRow
  pub memberships : t'.memberships ≡ t.memberships ++ added
  pub counted : length added ≡ count

pub Same-refl : (t : Tables) → Same 0 t t
Same-refl t = record {
  permissions = refl;
  roles = refl;
  grants = refl;
  modules = refl;
  plans = refl;
  plan_entitlements = refl;
  subscriptions = refl;
  entitlements = refl;
  tenants = refl;
  users = refl;
  added = [];
  memberships = sym (append-nil t.memberships);
  counted = refl;
}

pub Same-trans : (m n : ℕ) (t t' t'' : Tables) → Same m t t' → Same n t' t'' → Same (m + n) t t''
Same-trans m n t t' t'' g h = record {
  permissions = h.permissions ∙ g.permissions;
  roles = h.roles ∙ g.roles;
  grants = h.grants ∙ g.grants;
  modules = h.modules ∙ g.modules;
  plans = h.plans ∙ g.plans;
  plan_entitlements = h.plan_entitlements ∙ g.plan_entitlements;
  subscriptions = h.subscriptions ∙ g.subscriptions;
  entitlements = h.entitlements ∙ g.entitlements;
  tenants = h.tenants ∙ g.tenants;
  users = h.users ∙ g.users;
  added = g.added ++ h.added;
  memberships =
      h.memberships
      ∙ ap (λ z. z ++ h.added) g.memberships
      ∙ append_assoc t.memberships g.added h.added;
  counted = length-append g.added h.added ∙ rw (g.counted, h.counted) refl;
}

-- What is looked up is found in tables that are the same.
pub Same-Grows : (n : ℕ) (t t' : Tables) → Same n t t' → Grows t t'
Same-Grows n t t' s = record {
  permissions = Grown_eq t.permissions t'.permissions s.permissions;
  roles = Grown_eq t.roles t'.roles s.roles;
  grants = Grown_eq t.grants t'.grants s.grants;
  modules = Grown_eq t.modules t'.modules s.modules;
  plans = Grown_eq t.plans t'.plans s.plans;
  plan_entitlements = Grown_eq t.plan_entitlements t'.plan_entitlements s.plan_entitlements;
  subscriptions = Grown_eq t.subscriptions t'.subscriptions s.subscriptions;
  entitlements = Grown_eq t.entitlements t'.entitlements s.entitlements;
  tenants = λ slug i e.
      sym (id_where-map (has_slug slug) (λ r. r.id) bare_tenant t'.tenants (λ r. refl) (λ r. refl))
      ∙ ap (id_where (has_slug slug) (λ r. r.id)) s.tenants
      ∙ id_where-map (has_slug slug) (λ r. r.id) bare_tenant t.tenants (λ r. refl) (λ r. refl)
      ∙ e;
  users = λ email i e.
      sym (id_where-map (has_email email) (λ r. r.id) bare_user t'.users (λ r. refl) (λ r. refl))
      ∙ ap (id_where (has_email email) (λ r. r.id)) s.users
      ∙ id_where-map (has_email email) (λ r. r.id) bare_user t.users (λ r. refl) (λ r. refl)
      ∙ e;
}

-- A step of a first run and the step of a later run: the first keeps what is found, and on tables
-- that have what the first left, the second adds its memberships and nothing else.
abbrev pub Repeats : ℕ → Tables → Step → Type 0
Repeats n t' f' =
    (t'' : Tables) → Grows t' t'' → (last : Tables) × (f' t'' ≡ some last) × Same n t'' last

abbrev pub Stable : ℕ → Step → Step → Type 0
Stable n f f' = (t t' : Tables) → f t ≡ some t' → Grows t t' × Repeats n t' f'

pub then_step-some :
    (first : Option Tables) (g : Step) (t' : Tables)
    → then_step first g ≡ some t'
    → (mid : Tables) × (first ≡ some mid) × (g mid ≡ some t')
then_step-some none g t' e = cc
then_step-some (some mid) g t' e = (mid, refl, e)

pub >>>-Stable :
    (m n : ℕ) (f f' g g' : Step)
    → Stable m f f'
    → Stable n g g'
    → Stable (m + n) (f >>> g) (f' >>> g')
unfolding ◌>>>◌
>>>-Stable m n f f' g g' on_f on_g t t' e =
    let (mid, first, second) = then_step-some (f t) g t' e in
    let (grown, again) = on_f t mid first in
    let (grown', again') = on_g mid t' second in
    (
      Grows-trans t mid t' grown grown',
      λ t'' later.
          let (one, e1, same1) = again t'' (Grows-trans mid t' t'' grown' later) in
          let (two, e2, same2) =
            again' one (Grows-trans t' t'' one later (Same-Grows m t'' one same1)) in
          (two, ap (λ z. then_step z g') e1 ∙ e2, Same-trans m n t'' one two same1 same2),
    )

with_id-some :
    (found : Option String) (k : String → Step) (t t' : Tables)
    → with_id found k t ≡ some t'
    → (i : String) × (found ≡ some i) × (k i t ≡ some t')
with_id-some none k t t' e = cc
with_id-some (some i) k t t' e = (i, refl, e)

pub given-Stable :
    (n : ℕ) (lookup : Tables → Option String) (k k' : String → Step)
    (kept : (t t' : Tables) (i : String) → Grows t t' → lookup t ≡ some i → lookup t' ≡ some i)
    (stable : (i : String) → Stable n (k i) (k' i))
    → Stable n (given lookup k) (given lookup k')
unfolding given
given-Stable n lookup k k' kept stable t t' e =
    let (i, found, made) = with_id-some (lookup t) k t t' e in
    let (grown, again) = stable i t t' made in
    (
      grown,
      λ t'' later.
          let (last, e1, same) = again t'' later in
          let there = kept t t'' i (Grows-trans t t' t'' grown later) found in
          (last, ap (λ o. with_id o k' t'') there ∙ e1, same),
    )

-- How many memberships a loop adds whose step adds `n`.
abbrev pub times {ℓ} : {A : Type ℓ} → List A → ℕ → ℕ
times [] n = 0
times (a ∷ list) n = n + times list n

pub each-Stable {ℓ} :
    {A : Type ℓ} (n : ℕ) (step step' : A → Step) (list : List A)
    (stable : (a : A) → Stable n (step a) (step' a))
    → Stable (times list n) (each step list) (each step' list)
unfolding each ◌>>>◌
each-Stable n step step' [] stable t t' e =
    let same : t ≡ t' = cc in
    (rw (sym same) (Grows-refl t), λ t'' later. (t'', refl, Same-refl t''))
each-Stable n step step' (a ∷ list) stable t t' e =
    >>>-Stable n (times list n) (step a) (step' a) (each step list) (each step' list) (stable a)
      (each-Stable n step step' list stable) t t' e

times_zero {ℓ} : {A : Type ℓ} (list : List A) → times list 0 ≡ 0
times_zero [] = refl
times_zero (a ∷ list) = ground (arith, times_zero list)

-- A loop whose step adds nothing adds nothing.
pub each-Stable_none {ℓ} :
    {A : Type ℓ} (step step' : A → Step) (list : List A)
    (stable : (a : A) → Stable 0 (step a) (step' a))
    → Stable 0 (each step list) (each step' list)
each-Stable_none step step' list stable =
    subst (λ n. Stable n (each step list) (each step' list)) (times_zero list)
      (each-Stable 0 step step' list stable)
