-- ===== src/SqlStore/Containers.antt =====
-- internal/controlplane/storage/sqlstore/container.go
use docker_monitoring.Prelude.{
  ℕ, Bool, not, ◌||◌, ◌++◌, Option, List, [], ◌∷◌, map, keep, Text, text_eq, if◌then◌else◌,
}
use docker_monitoring.Models.{Container}
use docker_monitoring.Storage.{StoreError, Found}
use docker_monitoring.Storage.Memory.{or_now, text_lt, sort_by}
use docker_monitoring.Sql.{Dialect}
use docker_monitoring.History.{TimeText}
use docker_monitoring.SqlStore.{Tables, ContainerRow, EventRow}
use docker_monitoring.SqlStore.Rows.{
  first_row, has_row, update_rows, rows_matched, delete_rows, cleared, affected, refused_if,
  query_row, query,
}
use docker_monitoring.SqlStore.Scans.{fits, container_row, scan_container}
use docker_monitoring.SqlStore.Hosts.{is_host, is_on_host}

abbrev pub is_container : Text → ContainerRow → Bool
is_container id r = text_eq r.id id

unfoldable pub forget_container : Text → EventRow → EventRow
forget_container id r = record r { container_id = cleared (λ c. text_eq c id) r.container_id }

-- ON CONFLICT (id) DO UPDATE SET: every column but created_at.
unfoldable pub set_container : ContainerRow → ContainerRow → ContainerRow
set_container excluded r = record excluded { created_at = r.created_at }

-- INSERT ... ON CONFLICT (id) DO UPDATE
unfoldable pub upsert_row : ContainerRow → List ContainerRow → List ContainerRow
upsert_row row rows =
    if has_row (is_container row.id) rows
    then update_rows (is_container row.id) (set_container row) rows
    else rows ++ (row ∷ [])

module _ {F : Type 0} (dialect : Dialect) (times : TimeText) where
  unfoldable pub upsert_container : Tables F → ℕ → Container → Tables F × Option StoreError
  upsert_container s now c =
      let row = container_row times (record c { created_at = or_now c.created_at now }) in
      let broken =
        not (has_row (is_host c.host_id) s.hosts) || not (fits dialect c.restart_count) in
      (
        (if broken then s else record s { containers = upsert_row row s.containers }),
        refused_if broken,
      )

module _ {F : Type 0} (times : TimeText) where
  unfoldable pub get_container : Tables F → Text → Found Container
  get_container s id = query_row (scan_container times) (first_row (is_container id) s.containers)

  unfoldable pub list_containers_by_host : Tables F → Text → Found (List Container)
  list_containers_by_host s host_id =
      query (scan_container times)
        (sort_by (λ a b. text_lt a.name b.name) (keep (is_on_host host_id) s.containers))

unfoldable pub delete_container : {F : Type 0} → Tables F → Text → Tables F × Option StoreError
delete_container s id = (
  record s {
    containers = delete_rows (is_container id) s.containers;
    events = map (forget_container id) s.events;
  },
  affected (rows_matched (is_container id) s.containers),
)
