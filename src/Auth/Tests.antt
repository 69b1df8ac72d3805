-- ===== src/Auth/Tests.antt =====
-- Runs of the authentication handlers over tables in memory, with a token library without signature.
use wa_ops.Base.{◌≡◌, refl, true, none, some, [], ◌∷◌, ◌++◌, arith}
use wa_ops.Base.Text.{Text, codes, includes, text_eq, text_eq_iff}
use wa_ops.Memory.{memory, row_at, find_row, new_id}
use wa_ops.Errors.{returned, raised}
use wa_ops.Gateway.Credential.{is_space, trim_start, trim_end}
use wa_ops.Auth.Tokens.{Claims, Jwt, tenant_context, sign_refresh_token, refresh_payload}
use wa_ops.Auth.Plain.{plain}
use wa_ops.Auth.Sessions.{
  Env, Membership, Entered, Db, SignupInput, keys_of, signup, login, refresh, renew,
}
use wa_ops.Auth.Sessions.Entry.{IsEntitled, login-authorizes}
use wa_ops.Auth.Sessions.Renewal.{IsMember, refresh-sign, refresh-authorizes}
use wa_ops.Auth.Sessions.Joining.Newcomer.{IsSound}
use wa_ops.Auth.Sessions.Joining.{signup-login}

abbrev itself : Text → Text
itself s = s

-- Sessions that last a day.
abbrev daily : Jwt
daily = record plain { access_ttl_seconds = none; refresh_ttl_seconds = some 86400 }

abbrev env : Env
env = record {
  users_table = memory _;
  tenants_table = memory _;
  roles_table = memory _;
  jwt = daily;
  hash = itself;
  verify = text_eq;
  to_lower_case = itself;
  is_email = includes 64;
  all_keys = codes "hosts.read" ∷ codes "hosts.write" ∷ [];
  owner_keys = codes "hosts.read" ∷ codes "hosts.write" ∷ [];
}

abbrev seeded : Db env
seeded = record {
  users = [];
  tenants = [];
  roles =
      (
        codes "r",
        record {
          tenant_id = none;
          name = "tenant_owner";
          is_system = true;
          permissions = codes "hosts.read" ∷ [];
        },
      )
      ∷ [];
  memberships = [];
}

abbrev ana : SignupInput
ana = record {
  email = codes "ana@x.io";
  password = codes "0123456789";
  name = none;
  tenant_name = none;
}

abbrev joined : Db env × Entered
joined = elim (signup env seeded ana (codes "ab1") 99 (codes "i") (codes "j") 1000) [
  | returned d ↦ d
  | raised e ↦ (
    seeded,
    record {
      user_id = [];
      tenant_id = [];
      session = record { access_token = []; refresh_cookie = []; max_age = 0 };
    },
  )
]

joins : signup env seeded ana (codes "ab1") 99 (codes "i") (codes "j") 1000 ≡ returned joined
unfolding signup find_row text_eq includes new_id
joins = refl

seeded-IsSound : IsSound env seeded
unfolding row_at
seeded-IsSound = record { one_user = λ j k u v a b same. absurd (cc a); of_users = tt }

signup-login_example :
    (later : Entered) × (login env joined.0 ana.email ana.password (codes "k") (codes "l") 1010
      ≡ returned later)
    × (later.user_id ≡ joined.1.user_id)
    × (later.tenant_id ≡ joined.1.tenant_id)
signup-login_example =
    signup-login env seeded joined.0 ana (codes "ab1") 99 (codes "i") (codes "j") 1000 joined.1
      joins seeded-IsSound (λ password. (text_eq_iff password password).1 refl) (codes "k")
      (codes "l") 1010

abbrev logged : Entered
logged = elim (login env joined.0 ana.email ana.password (codes "k") (codes "l") 1010) [
  | returned d ↦ d
  | raised e ↦ joined.1
]

logs_in : login env joined.0 ana.email ana.password (codes "k") (codes "l") 1010 ≡ returned logged
unfolding login signup find_row text_eq includes new_id trim_end trim_start is_space
logs_in = refl

login-authorizes_example :
    (m : Membership) × IsEntitled env joined.0 ana.email ana.password logged m
    × (tenant_context env.jwt 1500 (some (codes "Bearer " ++ logged.session.access_token))
        ≡ some (record {
          user_id = logged.user_id;
          tenant_id = logged.tenant_id;
          organization_scope = m.organization_id;
          permissions = keys_of env env.all_keys (row_at joined.0.roles m.role_id);
          entitlements = [];
        }))
login-authorizes_example =
    login-authorizes env joined.0 ana.email ana.password (codes "k") (codes "l") 1010 1500 logged
      logs_in (omega arith)

has_at : env.is_email ana.email ≡ true
unfolding includes
has_at = refl

abbrev renewed : Entered
renewed =
    elim (renew env joined.0
      (refresh_payload daily joined.1.user_id joined.1.tenant_id (codes "j") 1000) (codes "m")
      (codes "n") 2000) [ returned d ↦ d | raised e ↦ joined.1 ]

renews :
    refresh env joined.0
      (some (sign_refresh_token env.jwt joined.1.user_id joined.1.tenant_id (codes "j") 1000))
      (codes "m")
      (codes "n")
      2000
    ≡ returned renewed
unfolding sign_refresh_token renew signup find_row text_eq includes new_id
renews =
    refresh-sign env joined.0
      (refresh_payload daily joined.1.user_id joined.1.tenant_id (codes "j") 1000) (codes "m")
      (codes "n") 2000 (omega arith)

refresh-authorizes_example :
    (m : Membership) × IsMember env joined.0 joined.1.user_id joined.1.tenant_id m
    × (tenant_context env.jwt 2500 (some (codes "Bearer " ++ renewed.session.access_token))
        ≡ some (record {
          user_id = joined.1.user_id;
          tenant_id = joined.1.tenant_id;
          organization_scope = m.organization_id;
          permissions = keys_of env [] (row_at joined.0.roles m.role_id);
          entitlements = [];
        }))
refresh-authorizes_example =
    refresh-authorizes env joined.0 joined.1.user_id joined.1.tenant_id (codes "j") (codes "m")
      (codes "n") 1000 2000 2500 renewed (omega arith) renews (omega arith)

abbrev claims : Claims
claims = record {
  sub = joined.1.user_id;
  tenant = joined.1.tenant_id;
  org = none;
  perms = env.owner_keys;
  ents = [];
}
