-- ===== src/Config.antt =====
-- packages/config/src/index.ts: the configuration that is read from the environment. The issues of a
-- value are kept as problems, without the wording of the schema library; `Number(...)` is an argument.
pub mod Schema
pub mod Fits
mod Tests
use wa_ops.Base.{
  ℕ, ◌+◌, Bool, true, false, String, Option, none, some, List, [], ◌∷◌, ◌++◌, str_eq, if◌then◌else◌,
}
use wa_ops.Base.Dict.{Dict, get}
use wa_ops.Config.Schema.{
  Number, Issue, Parsed, issues_of, value_of, NodeEnv, node_env_of, log_level_of, at_least, text_or,
  optional, hex_key, number_or, optional_integer, port_of, bad, good, development, test, production,
}

pub record Env : Type 0 where
  pub node_env : NodeEnv
  pub log_level : String
  pub database_url : String
  pub redis_url : String
  pub app_base_url : String
  pub api_base_url : String
  pub collector_base_url : String
  pub web_base_url : String
  pub jwt_secret : String
  pub jwt_access_ttl_seconds : ℕ
  pub jwt_refresh_ttl_seconds : ℕ
  pub trial_days : ℕ
  pub s3_endpoint : Option String
  pub s3_region : Option String
  pub s3_bucket : Option String
  pub s3_access_key_id : Option String
  pub s3_secret_access_key : Option String
  pub smtp_host : Option String
  pub smtp_port : Option Number
  pub smtp_user : Option String
  pub smtp_password : Option String
  pub smtp_from : String
  pub encryption_master_key : String
  pub port : ℕ

pub record AppConfig : Type 0 where
  pub env : Env
  pub is_prod : Bool
  pub is_dev : Bool
  pub is_test : Bool

abbrev is_production : NodeEnv → Bool
is_production production = true
is_production test = false
is_production development = false

abbrev is_development : NodeEnv → Bool
is_development production = false
is_development test = false
is_development development = true

abbrev is_testing : NodeEnv → Bool
is_testing production = false
is_testing test = true
is_testing development = false

unfoldable pub config_of : Env → AppConfig
config_of env = record {
  env = env;
  is_prod = is_production env.node_env;
  is_dev = is_development env.node_env;
  is_test = is_testing env.node_env;
}

-- Variables that are set to the empty text count as unset.
unfoldable pub cleaned : Dict String → Dict String
cleaned [] = []
cleaned ((k, v) ∷ source) = let rest = cleaned source in if str_eq v "" then rest else (k, v) ∷ rest

abbrev pub parsed_of : List Issue → Env → Parsed Env
parsed_of [] env = good env
parsed_of (e ∷ es) env = bad e es

unfoldable pub parsed_config : Parsed Env → Parsed AppConfig
unfolding config_of
parsed_config (bad e es) = bad e es
parsed_config (good env) = good (config_of env)

abbrev pub kept : Parsed AppConfig → Option AppConfig
kept (bad e es) = none
kept (good config) = some config

module _ (to_number : String → Number) where
  -- The fields of EnvSchema, each at its variable.
  module _ (source : Dict String) where
    unfoldable pub node_env_field : Parsed NodeEnv
    unfolding node_env_of
    node_env_field = node_env_of "NODE_ENV" (get "NODE_ENV" source)

    unfoldable pub log_level_field : Parsed String
    unfolding log_level_of
    log_level_field = log_level_of "LOG_LEVEL" (get "LOG_LEVEL" source)

    unfoldable pub database_url_field : Parsed String
    unfolding at_least
    database_url_field = at_least 1 "DATABASE_URL" (get "DATABASE_URL" source)

    unfoldable pub redis_url_field : Parsed String
    unfolding at_least
    redis_url_field = at_least 1 "REDIS_URL" (get "REDIS_URL" source)

    unfoldable pub app_base_url_field : Parsed String
    unfolding text_or
    app_base_url_field =
        text_or "http://app.waops.localhost" "APP_BASE_URL" (get "APP_BASE_URL" source)

    unfoldable pub api_base_url_field : Parsed String
    unfolding text_or
    api_base_url_field = text_or "http://localhost:3001" "API_BASE_URL" (get "API_BASE_URL" source)

    unfoldable pub collector_base_url_field : Parsed String
    unfolding text_or
    collector_base_url_field =
        text_or "http://localhost:3002" "COLLECTOR_BASE_URL" (get "COLLECTOR_BASE_URL" source)

    unfoldable pub web_base_url_field : Parsed String
    unfolding text_or
    web_base_url_field = text_or "http://localhost:3000" "WEB_BASE_URL" (get "WEB_BASE_URL" source)

    unfoldable pub jwt_secret_field : Parsed String
    unfolding at_least
    jwt_secret_field = at_least 32 "JWT_SECRET" (get "JWT_SECRET" source)

    unfoldable pub jwt_access_ttl_seconds_field : Parsed ℕ
    unfolding number_or
    jwt_access_ttl_seconds_field =
        number_or to_number 1 900 "JWT_ACCESS_TTL_SECONDS" (get "JWT_ACCESS_TTL_SECONDS" source)

    unfoldable pub jwt_refresh_ttl_seconds_field : Parsed ℕ
    unfolding number_or
    jwt_refresh_ttl_seconds_field =
        number_or to_number 1 604800 "JWT_REFRESH_TTL_SECONDS"
          (get "JWT_REFRESH_TTL_SECONDS" source)

    unfoldable pub trial_days_field : Parsed ℕ
    unfolding number_or
    trial_days_field = number_or to_number 0 3 "TRIAL_DAYS" (get "TRIAL_DAYS" source)

    unfoldable pub s3_endpoint_field : Parsed (Option String)
    unfolding optional
    s3_endpoint_field = optional "S3_ENDPOINT" (get "S3_ENDPOINT" source)

    unfoldable pub s3_region_field : Parsed (Option String)
    unfolding optional
    s3_region_field = optional "S3_REGION" (get "S3_REGION" source)

    unfoldable pub s3_bucket_field : Parsed (Option String)
    unfolding optional
    s3_bucket_field = optional "S3_BUCKET" (get "S3_BUCKET" source)

    unfoldable pub s3_access_key_id_field : Parsed (Option String)
    unfolding optional
    s3_access_key_id_field = optional "S3_ACCESS_KEY_ID" (get "S3_ACCESS_KEY_ID" source)

    unfoldable pub s3_secret_access_key_field : Parsed (Option String)
    unfolding optional
    s3_secret_access_key_field = optional "S3_SECRET_ACCESS_KEY" (get "S3_SECRET_ACCESS_KEY" source)

    unfoldable pub smtp_host_field : Parsed (Option String)
    unfolding optional
    smtp_host_field = optional "SMTP_HOST" (get "SMTP_HOST" source)

    unfoldable pub smtp_port_field : Parsed (Option Number)
    unfolding optional_integer
    smtp_port_field = optional_integer to_number "SMTP_PORT" (get "SMTP_PORT" source)

    unfoldable pub smtp_user_field : Parsed (Option String)
    unfolding optional
    smtp_user_field = optional "SMTP_USER" (get "SMTP_USER" source)

    unfoldable pub smtp_password_field : Parsed (Option String)
    unfolding optional
    smtp_password_field = optional "SMTP_PASSWORD" (get "SMTP_PASSWORD" source)

    unfoldable pub smtp_from_field : Parsed String
    unfolding text_or
    smtp_from_field = text_or "waops@localhost" "SMTP_FROM" (get "SMTP_FROM" source)

    unfoldable pub encryption_master_key_field : Parsed String
    unfolding hex_key
    encryption_master_key_field =
        hex_key "ENCRYPTION_MASTER_KEY" (get "ENCRYPTION_MASTER_KEY" source)

    unfoldable pub port_field : Parsed ℕ
    unfolding port_of
    port_field = port_of to_number "PORT" (get "PORT" source)

    unfoldable pub issues : List Issue
    unfolding issues_of node_env_field log_level_field database_url_field redis_url_field
        app_base_url_field api_base_url_field collector_base_url_field web_base_url_field
        jwt_secret_field jwt_access_ttl_seconds_field jwt_refresh_ttl_seconds_field trial_days_field
        s3_endpoint_field s3_region_field s3_bucket_field s3_access_key_id_field
        s3_secret_access_key_field smtp_host_field smtp_port_field smtp_user_field
        smtp_password_field smtp_from_field encryption_master_key_field port_field
    issues =
        issues_of node_env_field
        ++ (issues_of log_level_field
            ++ (issues_of database_url_field
                ++ (issues_of redis_url_field
                    ++ (issues_of app_base_url_field
                        ++ (issues_of api_base_url_field
                            ++ (issues_of collector_base_url_field
                                ++ (issues_of web_base_url_field
                                    ++ (issues_of jwt_secret_field
                                        ++ (issues_of jwt_access_ttl_seconds_field
                                            ++ (issues_of jwt_refresh_ttl_seconds_field
                                                ++ (issues_of trial_days_field
                                                    ++ (issues_of s3_endpoint_field
                                                        ++ (issues_of s3_region_field
                                                            ++ (issues_of s3_bucket_field
                                                            ++ (issues_of s3_access_key_id_field
                                                            ++ (issues_of s3_secret_access_key_field
                                                            ++ (issues_of smtp_host_field
                                                            ++ (issues_of smtp_port_field
                                                            ++ (issues_of smtp_user_field
                                                            ++ (issues_of smtp_password_field
                                                            ++ (issues_of smtp_from_field
                                                            ++ (issues_of
                                                            encryption_master_key_field
                                                            ++ (issues_of
                                                            port_field)))))))))))))))))))))))

    unfoldable pub values : Env
    unfolding value_of node_env_field log_level_field database_url_field redis_url_field
        app_base_url_field api_base_url_field collector_base_url_field web_base_url_field
        jwt_secret_field jwt_access_ttl_seconds_field jwt_refresh_ttl_seconds_field trial_days_field
        s3_endpoint_field s3_region_field s3_bucket_field s3_access_key_id_field
        s3_secret_access_key_field smtp_host_field smtp_port_field smtp_user_field
        smtp_password_field smtp_from_field encryption_master_key_field port_field
    values = record {
      node_env = value_of development node_env_field;
      log_level = value_of "" log_level_field;
      database_url = value_of "" database_url_field;
      redis_url = value_of "" redis_url_field;
      app_base_url = value_of "" app_base_url_field;
      api_base_url = value_of "" api_base_url_field;
      collector_base_url = value_of "" collector_base_url_field;
      web_base_url = value_of "" web_base_url_field;
      jwt_secret = value_of "" jwt_secret_field;
      jwt_access_ttl_seconds = value_of 0 jwt_access_ttl_seconds_field;
      jwt_refresh_ttl_seconds = value_of 0 jwt_refresh_ttl_seconds_field;
      trial_days = value_of 0 trial_days_field;
      s3_endpoint = value_of none s3_endpoint_field;
      s3_region = value_of none s3_region_field;
      s3_bucket = value_of none s3_bucket_field;
      s3_access_key_id = value_of none s3_access_key_id_field;
      s3_secret_access_key = value_of none s3_secret_access_key_field;
      smtp_host = value_of none smtp_host_field;
      smtp_port = value_of none smtp_port_field;
      smtp_user = value_of none smtp_user_field;
      smtp_password = value_of none smtp_password_field;
      smtp_from = value_of "" smtp_from_field;
      encryption_master_key = value_of "" encryption_master_key_field;
      port = value_of 0 port_field;
    }

    -- `EnvSchema.safeParse`
    unfoldable pub parse_env : Parsed Env
    unfolding issues values
    parse_env = parsed_of issues values

  -- `loadConfig`, with `cached` before and behind it; the issues are those of the Error that it throws.
  unfoldable pub load_config : Option AppConfig → Dict String → Option AppConfig × Parsed AppConfig
  unfolding parse_env cleaned parsed_config
  load_config (some config) source = (some config, good config)
  load_config none source =
      let result = parsed_config (parse_env (cleaned source)) in (kept result, result)

-- resetConfigCache
unfoldable pub reset_config_cache : Option AppConfig → Option AppConfig
reset_config_cache cache = none
