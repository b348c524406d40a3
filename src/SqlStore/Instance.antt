-- ===== src/SqlStore/Instance.antt =====
-- The SQL store as an implementation of the repository interface
-- (`var _ storage.Store = (*Store)(nil)` in internal/controlplane/storage/sqlstore/store.go).
use docker_monitoring.Storage.{Store}
use docker_monitoring.Sql.{Dialect}
use docker_monitoring.History.{TimeText}
use docker_monitoring.SqlStore.{Tables, RealColumn}
use docker_monitoring.SqlStore.Hosts
use docker_monitoring.SqlStore.Containers
use docker_monitoring.SqlStore.Events
use docker_monitoring.SqlStore.Metrics
use docker_monitoring.SqlStore.Accounts

abbrev pub sql_store :
    (F : Type 0) → ⦃reals : RealColumn F⦄ → Dialect → TimeText → Store F (Tables F)
sql_store F dialect times = record {
  create_host = Hosts.create_host times;
  get_host = Hosts.get_host times;
  list_hosts = Hosts.list_hosts times;
  update_host = Hosts.update_host times;
  delete_host = Hosts.delete_host;
  upsert_container = Containers.upsert_container dialect times;
  get_container = Containers.get_container times;
  list_containers_by_host = Containers.list_containers_by_host times;
  delete_container = Containers.delete_container;
  record_metric = Metrics.record_metric dialect times;
  latest_metric = Metrics.latest_metric times;
  append_event = Events.append_event times;
  list_events = Events.list_events times;
  create_user = Accounts.create_user times;
  get_user = Accounts.get_user times;
  get_user_by_email = Accounts.get_user_by_email times;
  list_users = Accounts.list_users times;
  update_user = Accounts.update_user times;
  count_users = Accounts.count_users;
  create_session = Accounts.create_session times;
  get_session_by_token_hash = Accounts.get_session_by_token_hash times;
  delete_session = Accounts.delete_session;
  delete_sessions_for_user = Accounts.delete_sessions_for_user;
}
