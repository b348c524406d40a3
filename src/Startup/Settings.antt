-- ===== src/Startup/Settings.antt =====
-- What main of cmd/controlplane/main.go makes of the settings: the engine's thresholds, the store,
-- and whether it may go on. os.LookupEnv, filepath.Dir and filepath.Join are arguments.
use docker_monitoring.Prelude.{
  ℕ, suc, ◌-◌, ◌*◌, ◌%◌, ◌^◌, Bool, true, false, not, ◌&&◌, ◌||◌, Option, List, Text, codes,
  text_eq, is_empty, ltb, if◌then◌else◌, ◌⊎◌, inl, inr,
}
use docker_monitoring.Prelude.Int.{ℤ, pos, negsuc}
use docker_monitoring.Models.{Float64}
use docker_monitoring.Monitoring.{ThresholdConfig, default_thresholds, second}
use docker_monitoring.Migrations.{Entry, Database}
use docker_monitoring.Sql.{Dialect, Answers, OpenError, open_store}
use docker_monitoring.Config.{Config, ConfigError, Lookups, load}
use docker_monitoring.Pki.{X509}
use docker_monitoring.Pki.Authority.{Authority, Keys}
use docker_monitoring.Startup.{Files, Faults, StartupError, load_or_generate_ca}

-- The int64 with the low 64 bits of a number.
abbrev pub int64_of : ℕ → ℤ
int64_of n = if ltb n (2 ^ 63) then pos n else negsuc (2 ^ 64 - n - 1)

-- `time.Duration(v) * time.Second`: the product wraps at 64 bits.
unfoldable pub seconds_of : ℤ → ℤ
seconds_of (pos n) = int64_of (n * second % 2 ^ 64)
seconds_of (negsuc n) = int64_of ((2 ^ 64 - suc n * second % 2 ^ 64) % 2 ^ 64)

module _ {F : Type 0} ⦃fl : Float64 F⦄ where
  unfoldable pub thresholds_from_config : Config → ThresholdConfig F
  unfolding seconds_of
  thresholds_from_config cfg = record default_thresholds {
    normal_interval_seconds = cfg.normal_interval_seconds;
    critical_interval_seconds = cfg.critical_interval_seconds;
    manual_interval_seconds = cfg.manual_interval_seconds;
    hysteresis_window = seconds_of cfg.hysteresis_seconds;
  }

-- The storage.Store that openStore returns, with its DSN.
pub data Backend : Type 0 where
  memory_backend : Backend
  sql_backend : Dialect → Text → Backend

pub data StoreOpenError : Type 0 where
  no_data_directory unsupported_storage_driver : StoreOpenError
  not_opened : OpenError → StoreOpenError

-- `filepath.Join("data", "dockermonitor.db")`, where the DSN is empty.
abbrev pub sqlite_dsn : Text → Text
sqlite_dsn dsn = if is_empty dsn then codes "data/dockermonitor.db" else dsn

-- What Open's result is as a store.
abbrev pub opened_as :
    {D : Type 0}
    → Text
    → Database D × (OpenError ⊎ Dialect)
    → Database D × (StoreOpenError ⊎ Backend)
opened_as dsn (db, inl e) = (db, inl (not_opened e))
opened_as dsn (db, inr dialect) = (db, inr (sql_backend dialect dsn))

module _ {D : Type 0} (exec : D → Text → Option D) (answers : Answers) (entries : List Entry)
    (dir_of : Text → Text) (faults : Faults) where
  unfoldable pub open_backend : Config → Database D → Database D × (StoreOpenError ⊎ Backend)
  open_backend cfg db =
      if text_eq cfg.storage_driver (codes "memory") || is_empty cfg.storage_driver
      then (db, inr memory_backend)
      else if text_eq cfg.storage_driver (codes "sqlite")
      then (let dsn = sqlite_dsn cfg.database_url in
          if not (text_eq (dir_of dsn) (codes ".")) && faults.mkdir_fails (dir_of dsn)
          then (db, inl no_data_directory)
          else opened_as dsn (open_store exec answers entries (codes "sqlite") db))
      else if text_eq cfg.storage_driver (codes "postgres")
      then opened_as cfg.database_url (open_store exec answers entries (codes "postgres") db)
      else (db, inl unsupported_storage_driver)

-- `store.(agentregistry.HistoricalMetricStore)`: only the SQL store is one.
abbrev pub has_history : Backend → Bool
has_history memory_backend = false
has_history (sql_backend dialect dsn) = true

-- Why main exits before it serves.
pub data StartExit : Type 0 where
  config_error : ConfigError → StartExit
  store_error : StoreOpenError → StartExit
  ca_error : StartupError → StartExit
  no_historical_store : StartExit

-- What main has once it goes on to the accounts and the listeners.
pub record Ready : Type 0 where
  pub config : Config
  pub backend : Backend
  pub ca : Authority
  pub historical : Bool

module _ (faults : Faults) (k : Keys) (x : X509) where
  -- main once the store is open: the CA and the historical store.
  unfoldable pub equip : Config → Backend → Files → ℕ → ℕ → Files × (StartExit ⊎ Ready)
  equip cfg backend files draw now =
      let (after, ca) = load_or_generate_ca k x faults files cfg.ca_dir draw now in
      elim ca [
        | inl e ↦ (after, inl (ca_error e))
        | inr authority ↦
            if cfg.historical_metrics_enabled && not (has_history backend)
            then (after, inl no_historical_store)
            else (
              after,
              inr (record {
                config = cfg;
                backend = backend;
                ca = authority;
                historical = cfg.historical_metrics_enabled;
              }),
            )
      ]

module _ {D : Type 0} (exec : D → Text → Option D) (answers : Answers) (entries : List Entry)
    (dir_of : Text → Text) (faults : Faults) (k : Keys) (x : X509) where
  -- main until then.
  unfoldable pub start :
      Lookups → Database D → Files → ℕ → ℕ → Database D × (Files × (StartExit ⊎ Ready))
  unfolding open_backend equip
  start env db files draw now = elim (load env) [
    | inl e ↦ (db, (files, inl (config_error e)))
    | inr cfg ↦
        let (opened, backend) = open_backend exec answers entries dir_of faults cfg db in
        elim backend [
          | inl e ↦ (opened, (files, inl (store_error e)))
          | inr store ↦ (opened, equip faults k x cfg store files draw now)
        ]
  ]
