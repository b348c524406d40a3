-- ===== src/Config.antt =====
-- internal/shared/config/config.go: the settings of the control plane from environment variables.
-- os.LookupEnv is an argument.
use docker_monitoring.Prelude.{
  Bool, true, false, ◌||◌, ◌&&◌, Option, none, some, Text, [], codes, is_empty, text_eq, ◌⊎◌, inl,
  inr, if◌then◌else◌,
}
use docker_monitoring.Prelude.Int.{ℤ, pos}
use docker_monitoring.Strings.{atoi}

pub record Config : Type 0 where
  pub http_addr : Text
  pub storage_driver : Text
  pub database_url : Text
  pub normal_interval_seconds : ℤ
  pub critical_interval_seconds : ℤ
  pub manual_interval_seconds : ℤ
  pub hysteresis_seconds : ℤ
  pub historical_metrics_enabled : Bool
  pub historical_retention_days : ℤ
  pub session_secret : Text
  pub agent_addr : Text
  pub ca_dir : Text
  pub session_ttl_hours : ℤ
  pub cookie_secure : Bool
  pub bootstrap_admin_email : Text
  pub bootstrap_admin_password : Text

pub data ConfigError : Type 0 where
  no_database_url no_session_secret : ConfigError

-- os.LookupEnv
abbrev pub Lookups : Type 0
Lookups = Text → Option Text

-- strconv.ParseBool
abbrev pub is_true_text : Text → Bool
is_true_text s =
    text_eq s (codes "1")
    || (text_eq s (codes "t")
        || (text_eq s (codes "T")
            || (text_eq s (codes "true")
                || (text_eq s (codes "TRUE") || text_eq s (codes "True")))))

abbrev pub is_false_text : Text → Bool
is_false_text s =
    text_eq s (codes "0")
    || (text_eq s (codes "f")
        || (text_eq s (codes "F")
            || (text_eq s (codes "false")
                || (text_eq s (codes "FALSE") || text_eq s (codes "False")))))

unfoldable pub parse_bool : Text → Option Bool
parse_bool s = if is_true_text s then some true else if is_false_text s then some false else none

module _ (env : Lookups) where
  unfoldable pub get_env : Text → Text → Text
  get_env key fallback = elim (env key) [
    | none ↦ fallback
    | some v ↦ if is_empty v then fallback else v
  ]

  unfoldable pub get_env_int : Text → ℤ → ℤ
  get_env_int key fallback = elim (env key) [
    | none ↦ fallback
    | some v ↦ elim (atoi v) [ none ↦ fallback | some n ↦ n ]
  ]

  unfoldable pub get_env_bool : Text → Bool → Bool
  get_env_bool key fallback = elim (env key) [
    | none ↦ fallback
    | some v ↦ elim (parse_bool v) [ none ↦ fallback | some b ↦ b ]
  ]

  -- The settings before they are checked.
  unfoldable pub settings : Config
  settings = record {
    http_addr = get_env (codes "DM_HTTP_ADDR") (codes ":8080");
    storage_driver = get_env (codes "DM_STORAGE_DRIVER") (codes "memory");
    database_url = get_env (codes "DM_DATABASE_URL") [];
    normal_interval_seconds = get_env_int (codes "DM_NORMAL_INTERVAL_SECONDS") (pos 60);
    critical_interval_seconds = get_env_int (codes "DM_CRITICAL_INTERVAL_SECONDS") (pos 10);
    manual_interval_seconds = get_env_int (codes "DM_MANUAL_INTERVAL_SECONDS") (pos 2);
    hysteresis_seconds = get_env_int (codes "DM_HYSTERESIS_SECONDS") (pos 60);
    historical_metrics_enabled = get_env_bool (codes "DM_HISTORICAL_METRICS_ENABLED") false;
    historical_retention_days = get_env_int (codes "DM_HISTORICAL_RETENTION_DAYS") (pos 90);
    session_secret = get_env (codes "DM_SESSION_SECRET") [];
    agent_addr = get_env (codes "DM_AGENT_ADDR") (codes ":8443");
    ca_dir = get_env (codes "DM_CA_DIR") (codes "./data/ca");
    session_ttl_hours = get_env_int (codes "DM_SESSION_TTL_HOURS") (pos 24);
    cookie_secure = get_env_bool (codes "DM_COOKIE_SECURE") true;
    bootstrap_admin_email = get_env (codes "DM_BOOTSTRAP_ADMIN_EMAIL") [];
    bootstrap_admin_password = get_env (codes "DM_BOOTSTRAP_ADMIN_PASSWORD") [];
  }

-- The checks of Load.
unfoldable pub check_settings : Config → ConfigError ⊎ Config
check_settings cfg =
    if text_eq cfg.storage_driver (codes "postgres") && is_empty cfg.database_url
    then inl no_database_url
    else if is_empty cfg.session_secret
    then inl no_session_secret
    else inr cfg

unfoldable pub load : Lookups → ConfigError ⊎ Config
unfolding check_settings settings
load env = check_settings (settings env)
