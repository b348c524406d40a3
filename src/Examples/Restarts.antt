-- ===== src/Examples/Restarts.antt =====
-- Starts of the control plane on the SQL store, one after the other.
use docker_monitoring.Prelude.{ℕ, ◌≡◌, refl, true, false, none, some, [], codes}
use docker_monitoring.Prelude.Int.{pos}
use docker_monitoring.World.{World}
use docker_monitoring.Sql.{sqlite}
use docker_monitoring.SqlStore.{Tables, empty_tables}
use docker_monitoring.SqlStore.Rows.{first_row, has_row, query_row}
use docker_monitoring.SqlStore.Instance.{sql_store}
use docker_monitoring.Auth.{Passwords, add_user, bootstrap_admin}
use docker_monitoring.SqlStore.Accounts.{create_user, count_users, get_user_by_email}
use docker_monitoring.Startup.Accounts.{admin_created, goes_on, start_accounts}
use docker_monitoring.Startup.Admin.{start_accounts-once}
use docker_monitoring.Config.{Config}
use docker_monitoring.Auth
use docker_monitoring.Examples.Fixtures.{real_column, dollars, times, env, thresholds}

abbrev first_config : Config
first_config = record {
  http_addr = codes ":8080";
  storage_driver = codes "sqlite";
  database_url = codes "dm.db";
  normal_interval_seconds = pos 60;
  critical_interval_seconds = pos 10;
  manual_interval_seconds = pos 2;
  hysteresis_seconds = pos 60;
  historical_metrics_enabled = false;
  historical_retention_days = pos 90;
  session_secret = codes "s";
  agent_addr = codes ":8443";
  ca_dir = codes "./data/ca";
  session_ttl_hours = pos 24;
  cookie_secure = true;
  bootstrap_admin_email = codes "a@b";
  bootstrap_admin_password = codes "pw";
}

abbrev unset_config : Config
unset_config = record first_config { bootstrap_admin_email = [] }

abbrev new_world : World ℕ (Tables ℕ)
new_world = record {
  store = empty_tables;
  monitor = some (record { cfg = thresholds; state = [] });
  event_push = true;
  metric_push = true;
  historical = false;
  sent = [];
  samples = [];
  reads = 0;
  draws = 0;
}

abbrev started : World ℕ (Tables ℕ)
started = (start_accounts env (sql_store ℕ sqlite times) dollars first_config new_world).0

creates_admin :
    (start_accounts env (sql_store ℕ sqlite times) dollars first_config new_world).1 ≡ admin_created
unfolding start_accounts bootstrap_admin Auth.create_user add_user create_user count_users
    get_user_by_email query_row first_row has_row empty_tables
creates_admin = refl

abbrev restarted : World ℕ (Tables ℕ)
restarted = record started { reads = 40; draws = 9; monitor = none }

start_accounts-once_example :
    start_accounts env (sql_store ℕ sqlite times) dollars unset_config restarted
    ≡ (restarted, goes_on true)
start_accounts-once_example =
    start_accounts-once env dollars sqlite times first_config unset_config new_world restarted
      creates_admin refl
