-- ===== src/Storage/Memory/Instance.antt =====
-- The in-memory store as an implementation of the repository interface
-- (`var _ storage.Store = (*Store)(nil)` in internal/controlplane/storage/memory/memory.go).
use docker_monitoring.Storage.{Store}
use docker_monitoring.Storage.Memory
use docker_monitoring.Storage.Memory.{Memory}
use docker_monitoring.Storage.Memory.Accounts

abbrev pub memory_store : (F : Type 0) → Store F (Memory F)
memory_store F = record {
  create_host = Memory.create_host;
  get_host = Memory.get_host;
  list_hosts = Memory.list_hosts;
  update_host = Memory.update_host;
  delete_host = Memory.delete_host;
  upsert_container = Memory.upsert_container;
  get_container = Memory.get_container;
  list_containers_by_host = Memory.list_containers_by_host;
  delete_container = Memory.delete_container;
  record_metric = Memory.record_metric;
  latest_metric = Memory.latest_metric;
  append_event = Memory.append_event;
  list_events = Memory.list_events;
  create_user = Accounts.create_user;
  get_user = Accounts.get_user;
  get_user_by_email = Accounts.get_user_by_email;
  list_users = Accounts.list_users;
  update_user = Accounts.update_user;
  count_users = Accounts.count_users;
  create_session = Accounts.create_session;
  get_session_by_token_hash = Accounts.get_session_by_token_hash;
  delete_session = Accounts.delete_session;
  delete_sessions_for_user = Accounts.delete_sessions_for_user;
}
