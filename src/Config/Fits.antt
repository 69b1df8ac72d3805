-- ===== src/Config/Fits.antt =====
-- What a configuration of packages/config/src/index.ts is sure to have.
use wa_ops.Base.{
  ℕ, zero, suc, ◌≤◌, ◌≡◌, refl, sym, ◌++◌, Bool, true, false, ◌&&◌, String, Option, none, some,
  List, [], ◌∷◌, ◌==◌, leb, arith, length, if◌then◌else◌,
}
use wa_ops.Base.Dict.{Dict, get}
use wa_ops.Base.Text.{codes}
use wa_ops.Config.Schema.{
  Number, nan, fraction, whole, negative, Issue, Parsed, bad, good, issues_of, value_of, at_least,
  hex_key, all_hex, at_least_number, number_or, port_of, port_number,
}
use wa_ops.Config.{
  Env, issues, values, node_env_field, log_level_field, database_url_field, redis_url_field,
  app_base_url_field, api_base_url_field, collector_base_url_field, web_base_url_field,
  jwt_secret_field, jwt_access_ttl_seconds_field, jwt_refresh_ttl_seconds_field, trial_days_field,
  s3_endpoint_field, s3_region_field, s3_bucket_field, s3_access_key_id_field,
  s3_secret_access_key_field, smtp_host_field, smtp_port_field, smtp_user_field,
  smtp_password_field, smtp_from_field, encryption_master_key_field, port_field, AppConfig,
  config_of, cleaned, parse_env, load_config, parsed_of, parsed_config, kept,
}

-- What the schema promises of the values.
pub record IsValid (env : Env) : Type 0 where
  pub database_url : 1 ≤ length (codes env.database_url)
  pub redis_url : 1 ≤ length (codes env.redis_url)
  pub jwt_secret : 32 ≤ length (codes env.jwt_secret)
  pub access_ttl : 1 ≤ env.jwt_access_ttl_seconds
  pub refresh_ttl : 1 ≤ env.jwt_refresh_ttl_seconds
  pub key_length : length (codes env.encryption_master_key) ≡ 64
  pub key_digits : all_hex (codes env.encryption_master_key) ≡ true
  pub port : 1 ≤ env.port

empty-append : (xs ys : List Issue) → xs ++ ys ≡ [] → (xs ≡ []) × (ys ≡ [])
empty-append [] ys e = (refl, e)
empty-append (x ∷ xs) ys e = cc

-- A field without an issue has its value.
good_of :
    {A : Type 0} (P : A → Type 0) (d : A) (p : Parsed A) (holds : (x : A) → p ≡ good x → P x)
    → issues_of p ≡ []
    → P (value_of d p)
unfolding issues_of value_of
good_of P d (bad e es) holds none_left = cc
good_of P d (good x) holds none_left = holds x refl

parsed_of-good :
    (es : List Issue) (values env : Env)
    → parsed_of es values ≡ good env
    → (es ≡ []) × (values ≡ env)
parsed_of-good [] values env e = (refl, cc)
parsed_of-good (i ∷ es) values env e = cc

-- A test that was passed.
when-good :
    {A : Type 0} (test : Bool) (v x : A) (i : Issue) (es : List Issue)
    → (if test then good v else bad i es) ≡ good x
    → (test ≡ true) × (v ≡ x)
when-good true v x i es e = (refl, cc)
when-good false v x i es e = cc

at_least-good :
    (n : ℕ) (key : String) (v : Option String) (x : String)
    → at_least n key v ≡ good x
    → n ≤ length (codes x)
unfolding at_least
at_least-good n key none x e = cc
at_least-good n key (some v) x e =
    let (long, same) = when-good (leb n (length (codes v))) v x _ _ e in
    rw (sym same) (ground (arith, long))

at_least_number-good :
    (least : ℕ) (key : String) (v : Number) (x : ℕ)
    → at_least_number least key v ≡ good x
    → least ≤ x
unfolding at_least_number
at_least_number-good least key nan x e = cc
at_least_number-good least key fraction x e = cc
at_least_number-good least key (negative n) x e = cc
at_least_number-good least key (whole n) x e = ground arith

hex_key-good :
    (key : String) (v : Option String) (x : String)
    → hex_key key v ≡ good x
    → (length (codes x) ≡ 64) × (all_hex (codes x) ≡ true)
unfolding hex_key
hex_key-good key none x e = cc
hex_key-good key (some v) x e =
    let (test, same) = when-good (length (codes v) == 64 && all_hex (codes v)) v x _ _ e in
    rw (sym same) (ground arith, ground arith)

module _ (to_number : String → Number) where
  number_or-good :
      (least d : ℕ) (key : String) (v : Option String) (x : ℕ)
      → least ≤ d
      → number_or to_number least d key v ≡ good x
      → least ≤ x
  unfolding number_or
  number_or-good least d key none x low e = let same : d ≡ x = cc in rw (sym same) low
  number_or-good least d key (some v) x low e = at_least_number-good least key (to_number v) x e

  port_of-good :
      (key : String) (v : Option String) (x : ℕ) → port_of to_number key v ≡ good x → 1 ≤ x
  unfolding port_of
  port_of-good key none x e = let same : 3001 ≡ x = cc in rw (sym same) (omega arith)
  port_of-good key (some v) x e = by_number (to_number v) x e
    where
      by_number : (n : Number) (x : ℕ) → good (port_number n) ≡ good x → 1 ≤ x
      by_number nan x e = let same : 3001 ≡ x = cc in rw (sym same) (omega arith)
      by_number fraction x e = let same : 3001 ≡ x = cc in rw (sym same) (omega arith)
      by_number (negative n) x e = let same : 3001 ≡ x = cc in rw (sym same) (omega arith)
      by_number (whole zero) x e = let same : 3001 ≡ x = cc in rw (sym same) (omega arith)
      by_number (whole (suc n)) x e = let same : suc n ≡ x = cc in rw (sym same) (omega arith)

  -- The issues of the fields, one by one.
  values-IsValid :
      (source : Dict String) → issues to_number source ≡ [] → IsValid (values to_number source)
  unfolding issues values database_url_field redis_url_field jwt_secret_field
      jwt_access_ttl_seconds_field jwt_refresh_ttl_seconds_field encryption_master_key_field
      port_field
  values-IsValid source e0 =
      let (p0, e1) = empty-append (issues_of (node_env_field to_number source)) _ e0 in
      let (p1, e2) = empty-append (issues_of (log_level_field to_number source)) _ e1 in
      let (p2, e3) = empty-append (issues_of (database_url_field to_number source)) _ e2 in
      let (p3, e4) = empty-append (issues_of (redis_url_field to_number source)) _ e3 in
      let (p4, e5) = empty-append (issues_of (app_base_url_field to_number source)) _ e4 in
      let (p5, e6) = empty-append (issues_of (api_base_url_field to_number source)) _ e5 in
      let (p6, e7) = empty-append (issues_of (collector_base_url_field to_number source)) _ e6 in
      let (p7, e8) = empty-append (issues_of (web_base_url_field to_number source)) _ e7 in
      let (p8, e9) = empty-append (issues_of (jwt_secret_field to_number source)) _ e8 in
      let (p9, e10) =
        empty-append (issues_of (jwt_access_ttl_seconds_field to_number source)) _ e9 in
      let (p10, e11) =
        empty-append (issues_of (jwt_refresh_ttl_seconds_field to_number source)) _ e10 in
      let (p11, e12) = empty-append (issues_of (trial_days_field to_number source)) _ e11 in
      let (p12, e13) = empty-append (issues_of (s3_endpoint_field to_number source)) _ e12 in
      let (p13, e14) = empty-append (issues_of (s3_region_field to_number source)) _ e13 in
      let (p14, e15) = empty-append (issues_of (s3_bucket_field to_number source)) _ e14 in
      let (p15, e16) = empty-append (issues_of (s3_access_key_id_field to_number source)) _ e15 in
      let (p16, e17) =
        empty-append (issues_of (s3_secret_access_key_field to_number source)) _ e16 in
      let (p17, e18) = empty-append (issues_of (smtp_host_field to_number source)) _ e17 in
      let (p18, e19) = empty-append (issues_of (smtp_port_field to_number source)) _ e18 in
      let (p19, e20) = empty-append (issues_of (smtp_user_field to_number source)) _ e19 in
      let (p20, e21) = empty-append (issues_of (smtp_password_field to_number source)) _ e20 in
      let (p21, e22) = empty-append (issues_of (smtp_from_field to_number source)) _ e21 in
      let (p22, e23) =
        empty-append (issues_of (encryption_master_key_field to_number source)) _ e22 in
      let key =
        good_of (λ v. (length (codes v) ≡ 64) × (all_hex (codes v) ≡ true)) ""
          (hex_key "ENCRYPTION_MASTER_KEY" (get "ENCRYPTION_MASTER_KEY" source))
          (hex_key-good "ENCRYPTION_MASTER_KEY" (get "ENCRYPTION_MASTER_KEY" source)) p22 in
      record {
        database_url =
            good_of _ "" _ (at_least-good 1 "DATABASE_URL" (get "DATABASE_URL" source)) p2;
        redis_url = good_of _ "" _ (at_least-good 1 "REDIS_URL" (get "REDIS_URL" source)) p3;
        jwt_secret = good_of _ "" _ (at_least-good 32 "JWT_SECRET" (get "JWT_SECRET" source)) p8;
        access_ttl =
            good_of (λ n. 1 ≤ n) 0
              (number_or to_number 1 900 "JWT_ACCESS_TTL_SECONDS"
                (get "JWT_ACCESS_TTL_SECONDS" source))
              (λ x.
                number_or-good 1 900 "JWT_ACCESS_TTL_SECONDS" (get "JWT_ACCESS_TTL_SECONDS" source)
                  x (omega arith))
              p9;
        refresh_ttl =
            good_of (λ n. 1 ≤ n) 0
              (number_or to_number 1 604800 "JWT_REFRESH_TTL_SECONDS"
                (get "JWT_REFRESH_TTL_SECONDS" source))
              (λ x.
                number_or-good 1 604800 "JWT_REFRESH_TTL_SECONDS"
                  (get "JWT_REFRESH_TTL_SECONDS" source) x (omega arith))
              p10;
        key_length = key.0;
        key_digits = key.1;
        port = good_of _ 0 _ (port_of-good "PORT" (get "PORT" source)) e23;
      }

  parse_env-IsValid :
      (source : Dict String) (env : Env) → parse_env to_number source ≡ good env → IsValid env
  unfolding parse_env
  parse_env-IsValid source env e =
      let (none_left, same) =
        parsed_of-good (issues to_number source) (values to_number source) env e in
      rw (sym same) (values-IsValid source none_left)

  -- What a first call of `loadConfig` comes to: it throws with an issue at least, and keeps nothing; or
  -- it gives a configuration whose values are as the schema promises.
  pub data Loads (before : Option AppConfig × Parsed AppConfig) : Type 0 where
    throws : (e : Issue) (es : List Issue) → before ≡ (none, bad e es) → Loads before
    gives :
        (config : AppConfig)
        → before ≡ (some config, good config)
        → IsValid config.env
        → Loads before

  parsed_config-Loads :
      (parsed : Parsed Env)
      → ((env : Env) → parsed ≡ good env → IsValid env)
      → Loads (kept (parsed_config parsed), parsed_config parsed)
  unfolding parsed_config
  parsed_config-Loads (bad e es) valid = throws e es refl
  parsed_config-Loads (good env) valid = gives (config_of env) refl (valid env refl)

  -- A first call throws with an issue at least, and keeps nothing; or it gives a configuration with
  -- filled addresses, a secret of 32 characters at least, lifetimes and a port above 0 and a key of 64
  -- hexadecimal digits, and keeps it: every later call gives the same, whatever the environment is.
  pub load_config-Loads :
      (source later : Dict String)
      → Loads (load_config to_number none source)
        × ((config : AppConfig)
            → (load_config to_number none source).1 ≡ good config
            → load_config to_number (load_config to_number none source).0 later
              ≡ (some config, good config))
  unfolding load_config
  load_config-Loads source later =
      let parsed = parse_env to_number (cleaned source) in
      (
        parsed_config-Loads parsed (parse_env-IsValid (cleaned source)),
        λ config same. kept_again (parsed_config parsed) config same,
      )
    where
      kept_again :
          (result : Parsed AppConfig) (config : AppConfig)
          → result ≡ good config
          → load_config to_number (kept result) later ≡ (some config, good config)
      kept_again (bad e es) config same = cc
      kept_again (good c) config same = let one : c ≡ config = cc in rw one refl
