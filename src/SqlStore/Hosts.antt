-- ===== src/SqlStore/Hosts.antt =====
-- internal/controlplane/storage/sqlstore/host.go
use docker_monitoring.Prelude.{
  ℕ, Bool, ◌&&◌, ◌++◌, [], ◌∷◌, Option, List, map, Text, text_eq, if◌then◌else◌,
}
use docker_monitoring.Models.{Host}
use docker_monitoring.Storage.{StoreError, Found}
use docker_monitoring.Storage.Memory.{or_now, text_lt, sort_by}
use docker_monitoring.History.{TimeText}
use docker_monitoring.SqlStore.{Tables, HostRow, ContainerRow, EventRow}
use docker_monitoring.SqlStore.Rows.{
  first_row, has_row, update_rows, rows_matched, delete_rows, cleared, affected, refused_if,
  query_row, query,
}
use docker_monitoring.SqlStore.Scans.{host_row, scan_host}

-- WHERE id = ?
abbrev pub is_host : Text → HostRow → Bool
is_host id r = text_eq r.id id

abbrev pub is_on_host : Text → ContainerRow → Bool
is_on_host id r = text_eq r.host_id id

-- ON DELETE SET NULL, for a host and its containers.
unfoldable pub forget_host : Text → (Text → Bool) → EventRow → EventRow
forget_host id gone r = record r {
  host_id = cleared (λ h. text_eq h id) r.host_id;
  container_id = cleared gone r.container_id;
}

-- UPDATE hosts SET: every column but id and created_at.
unfoldable pub set_host : TimeText → Host → HostRow → HostRow
set_host times h r = record (host_row times h) { id = r.id; created_at = r.created_at }

module _ {F : Type 0} (times : TimeText) where
  unfoldable pub create_host : Tables F → ℕ → Host → Tables F × Host × Option StoreError
  create_host s now h =
      let stamped = record h { created_at = or_now h.created_at now } in
      let broken = has_row (is_host h.id) s.hosts in
      (
        (if broken then s else record s { hosts = s.hosts ++ (host_row times stamped ∷ []) }),
        stamped,
        refused_if broken,
      )

  unfoldable pub get_host : Tables F → Text → Found Host
  get_host s id = query_row (scan_host times) (first_row (is_host id) s.hosts)

  unfoldable pub list_hosts : Tables F → Found (List Host)
  list_hosts s =
      query (scan_host times) (sort_by (λ a b. text_lt a.created_at b.created_at) s.hosts)

  unfoldable pub update_host : Tables F → Host → Tables F × Option StoreError
  update_host s h = (
    record s { hosts = update_rows (is_host h.id) (set_host times h) s.hosts },
    affected (rows_matched (is_host h.id) s.hosts),
  )

-- Containers go with their host, and events forget both.
unfoldable pub delete_host : {F : Type 0} → Tables F → Text → Tables F × Option StoreError
delete_host s id = (
  record s {
    hosts = delete_rows (is_host id) s.hosts;
    containers = delete_rows (is_on_host id) s.containers;
    events =
        map (forget_host id (λ c. has_row (λ r. text_eq r.id c && is_on_host id r) s.containers))
          s.events;
  },
  affected (rows_matched (is_host id) s.hosts),
)
