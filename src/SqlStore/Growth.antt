-- ===== src/SqlStore/Growth.antt =====
-- Statements that keep every row that a foreign key of migrations/0001_init.sql may refer to
-- (internal/controlplane/storage/sqlstore).
use docker_monitoring.Prelude.{
  ℕ, ◌≡◌, true, List, [], ◌∷◌, All, All-append, Text, text_eq_iff, arith, Bool-cases, inl, inr,
}
use docker_monitoring.Models.{Container}
use docker_monitoring.History.{TimeText}
use docker_monitoring.SqlStore.{
  Tables, HostRow, ContainerRow, EventRow, UserRow, SessionRow, MetricRow,
}
use docker_monitoring.SqlStore.Rows.{has_row, update_rows}
use docker_monitoring.SqlStore.Scans.{container_row}
use docker_monitoring.SqlStore.Hosts.{is_host}
use docker_monitoring.SqlStore.Containers.{is_container, set_container, upsert_row}
use docker_monitoring.SqlStore.Accounts.{is_user}
use docker_monitoring.SqlStore.References.{
  known_host, known_container, known_user, IsReferential, HasKnown, known_events,
  IsReferential-grown, All-update, has_row-append,
}

abbrev pub events_known : {F : Type 0} (s : Tables F) → IsReferential s → All (HasKnown s) s.events
events_known s v = known_events s s.events v.event_hosts v.event_containers v.event_users

module _ {F : Type 0} (s : Tables F) (v : IsReferential s) where
  -- More hosts, as many as there were at least.
  pub hosts_grown :
      (hosts : List HostRow)
      → ((id : Text) → known_host s id ≡ true → has_row (is_host id) hosts ≡ true)
      → IsReferential (record s { hosts = hosts })
  hosts_grown hosts grows =
      IsReferential-grown s (record s { hosts = hosts }) v grows (λ id h. h) (λ id h. h)
        v.container_hosts v.session_users (events_known s v)

  pub users_grown :
      (users : List UserRow)
      → ((id : Text) → known_user s id ≡ true → has_row (is_user id) users ≡ true)
      → IsReferential (record s { users = users })
  users_grown users grows =
      IsReferential-grown s (record s { users = users }) v (λ id h. h) (λ id h. h) grows
        v.container_hosts v.session_users (events_known s v)

  pub containers_grown :
      (containers : List ContainerRow)
      → ((id : Text) → known_container s id ≡ true → has_row (is_container id) containers ≡ true)
      → All (λ r. known_host s r.host_id ≡ true) containers
      → IsReferential (record s { containers = containers })
  containers_grown containers grows on_hosts =
      IsReferential-grown s (record s { containers = containers }) v (λ id h. h) grows (λ id h. h)
        on_hosts v.session_users (events_known s v)

  pub sessions_changed :
      (sessions : List SessionRow)
      → All (λ r. known_user s r.user_id ≡ true) sessions
      → IsReferential (record s { sessions = sessions })
  sessions_changed sessions of_users =
      IsReferential-grown s (record s { sessions = sessions }) v (λ id h. h) (λ id h. h) (λ id h. h)
        v.container_hosts of_users (events_known s v)

  pub metrics_changed :
      (metrics : List (MetricRow F)) → IsReferential (record s { metrics = metrics })
  metrics_changed metrics =
      IsReferential-grown s (record s { metrics = metrics }) v (λ id h. h) (λ id h. h) (λ id h. h)
        v.container_hosts v.session_users (events_known s v)

  pub events_changed :
      (events : List EventRow)
      → All (HasKnown s) events
      → IsReferential (record s { events = events })
  events_changed events known =
      IsReferential-grown s (record s { events = events }) v (λ id h. h) (λ id h. h) (λ id h. h)
        v.container_hosts v.session_users known

update_containers-known :
    (row : ContainerRow) (id : Text) (rows : List ContainerRow)
    → has_row (is_container id) rows ≡ true
    → has_row (is_container id) (update_rows (is_container row.id) (set_container row) rows) ≡ true
unfolding has_row update_rows set_container
update_containers-known row id [] there = ground arith
update_containers-known row id (r ∷ rows) there = ground (
  arith,
  text_eq_iff r.id id,
  text_eq_iff r.id row.id,
  text_eq_iff row.id id,
  update_containers-known row id rows,
)

pub upsert_row-known :
    (row : ContainerRow) (id : Text) (rows : List ContainerRow)
    → has_row (is_container id) rows ≡ true
    → has_row (is_container id) (upsert_row row rows) ≡ true
unfolding upsert_row
upsert_row-known row id rows there = elim (Bool-cases (has_row (is_container row.id) rows)) [
  | inl known ↦ ground (arith, known, update_containers-known row id rows there)
  | inr new ↦ ground (arith, new, has_row-append (is_container id) rows (row ∷ []) there)
]

module _ {F : Type 0} (s : Tables F) where
  pub upsert_row-hosts :
      (row : ContainerRow) (rows : List ContainerRow)
      → known_host s row.host_id ≡ true
      → All (λ r. known_host s r.host_id ≡ true) rows
      → All (λ r. known_host s r.host_id ≡ true) (upsert_row row rows)
  unfolding upsert_row set_container
  upsert_row-hosts row rows host all = elim (Bool-cases (has_row (is_container row.id) rows)) [
    | inl known ↦
        rw (known, upsert_row)
          (All-update _ (is_container row.id) (set_container row) rows (λ r. host) all)
    | inr new ↦ rw (new, upsert_row) (All-append _ rows (row ∷ []) all (host, tt))
  ]

pub container_row-known :
    {F : Type 0} (times : TimeText) (s : Tables F) (c : Container) (created : ℕ)
    → known_host s c.host_id ≡ true
    → known_host s (container_row times (record c { created_at = created })).host_id ≡ true
unfolding container_row
container_row-known times s c created known = known
