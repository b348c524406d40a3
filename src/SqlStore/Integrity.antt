-- ===== src/SqlStore/Integrity.antt =====
-- The foreign keys of migrations/0001_init.sql under the methods of
-- internal/controlplane/storage/sqlstore.
use docker_monitoring.Prelude.{
  Text, ℕ, refl, ◌∙◌, not, ◌&&◌, ◌||◌, List, [], ◌∷◌, ◌++◌, All-append, text_eq, arith, Bool-cases,
  Option-cases, inl, inr,
}
use docker_monitoring.Storage.Memory.Records.{
  Write, creates_host, updates_host, deletes_host, upserts_container, deletes_container,
  records_metric, appends_event, creates_user, updates_user, creates_session, deletes_session,
  deletes_sessions_for_user,
}
use docker_monitoring.Models.{Host, Container, User, Session, Event}
use docker_monitoring.Storage.Memory.{or_now}
use docker_monitoring.Sql.{Dialect}
use docker_monitoring.History.{TimeText}
use docker_monitoring.SqlStore.{Tables, RealColumn}
use docker_monitoring.SqlStore.Rows.{has_row, update_rows, is_reference}
use docker_monitoring.SqlStore.Scans.{
  fits, metric_row, host_row, container_row, event_row, user_row, session_row,
}
use docker_monitoring.SqlStore.Hosts.{is_host, create_host, set_host, update_host, delete_host}
use docker_monitoring.SqlStore.Containers.{upsert_row, upsert_container, delete_container}
use docker_monitoring.SqlStore.Accounts.{
  is_user, has_email, is_session, has_token, create_user, set_user, update_user, create_session,
  delete_session, delete_sessions_for_user,
}
use docker_monitoring.SqlStore.Metrics.{record_metric, stored_metric, overwrite_metric}
use docker_monitoring.SqlStore.Events.{append_event}
use docker_monitoring.SqlStore.{empty_tables}
use docker_monitoring.SqlStore.Deletes.{
  IsCascade, delete_host-IsCascade, delete_host-IsReferential, delete_container-IsReferential,
}
use docker_monitoring.SqlStore.References.{
  known_host, known_container, known_user, IsReferential, All-delete, has_row-append,
  has_row-update,
}
use docker_monitoring.SqlStore.Growth.{
  events_known, hosts_grown, users_grown, containers_grown, sessions_changed, metrics_changed,
  events_changed, upsert_row-known, upsert_row-hosts, container_row-known,
}

module _ {F : Type 0} ⦃reals : RealColumn F⦄ (dialect : Dialect) (times : TimeText) where
  unfoldable pub sql_write : Tables F → Write F → Tables F
  sql_write s (creates_host now h) = (create_host times s now h).0
  sql_write s (updates_host h) = (update_host times s h).0
  sql_write s (deletes_host id) = (delete_host s id).0
  sql_write s (upserts_container now c) = (upsert_container dialect times s now c).0
  sql_write s (deletes_container id) = (delete_container s id).0
  sql_write s (records_metric m) = (record_metric dialect times s m).0
  sql_write s (appends_event now e) = (append_event times s now e).0
  sql_write s (creates_user now u) = (create_user times s now u).0
  sql_write s (updates_user u) = (update_user times s u).0
  sql_write s (creates_session now v) = (create_session times s now v).0
  sql_write s (deletes_session id) = (delete_session s id).0
  sql_write s (deletes_sessions_for_user id) = (delete_sessions_for_user s id).0

  unfoldable pub sql_writes : Tables F → List (Write F) → Tables F
  sql_writes s [] = s
  sql_writes s (w ∷ rest) = sql_writes (sql_write s w) rest

module _ {F : Type 0} (times : TimeText) (s : Tables F) (v : IsReferential s) where
  create_host-IsReferential : (now : ℕ) (h : Host) → IsReferential (create_host times s now h).0
  unfolding create_host
  create_host-IsReferential now h =
      let row = host_row times (record h { created_at = or_now h.created_at now }) in
      elim (Bool-cases (has_row (is_host h.id) s.hosts)) [
        | inl broken ↦ rw (broken, create_host) v
        | inr fresh ↦
            rw (fresh, create_host)
              (hosts_grown s v (s.hosts ++ (row ∷ []))
                (λ id there. has_row-append (is_host id) s.hosts (row ∷ []) there))
      ]

  update_host-IsReferential : (h : Host) → IsReferential (update_host times s h).0
  unfolding update_host set_host
  update_host-IsReferential h =
      hosts_grown s v (update_rows (is_host h.id) (set_host times h) s.hosts) (λ id there.
        has_row-update (is_host id) (is_host h.id) (set_host times h) s.hosts (λ r. refl) ∙ there)

  create_user-IsReferential : (now : ℕ) (u : User) → IsReferential (create_user times s now u).0
  unfolding create_user
  create_user-IsReferential now u =
      let row = user_row times (record u { created_at = or_now u.created_at now }) in
      elim (Bool-cases (has_row (is_user u.id) s.users || has_row (has_email u.email) s.users)) [
        | inl broken ↦ rw (broken, create_user) v
        | inr fresh ↦
            rw (fresh, create_user)
              (users_grown s v (s.users ++ (row ∷ []))
                (λ id there. has_row-append (is_user id) s.users (row ∷ []) there))
      ]

  update_user-IsReferential : (u : User) → IsReferential (update_user times s u).0
  unfolding update_user set_user
  update_user-IsReferential u =
      elim (Bool-cases (
        has_row (is_user u.id) s.users
        && has_row (λ r. has_email u.email r && not (is_user u.id r)) s.users)) [
          | inl broken ↦ rw (broken, update_user) v
          | inr free ↦
              rw (free, update_user)
                (users_grown s v (update_rows (is_user u.id) (set_user times u) s.users)
                  (λ id there.
                    has_row-update (is_user id) (is_user u.id) (set_user times u) s.users
                      (λ r. refl)
                    ∙ there))
        ]

  create_session-IsReferential :
      (now : ℕ) (x : Session) → IsReferential (create_session times s now x).0
  unfolding create_session session_row
  create_session-IsReferential now x =
      elim (Bool-cases (
        has_row (is_session x.id) s.sessions
        || (has_row (has_token x.token_hash) s.sessions
            || not (has_row (is_user x.user_id) s.users)))) [
              | inl broken ↦ rw (broken, create_session) v
              | inr sound ↦
                  rw (sound, create_session)
                    (sessions_changed s v _ (
                      All-append _ s.sessions (_ ∷ []) v.session_users (ground (arith, sound), tt)))
            ]

  append_event-IsReferential : (now : ℕ) (e : Event) → IsReferential (append_event times s now e).0
  unfolding append_event event_row
  append_event-IsReferential now e =
      elim (Bool-cases (
        has_row (λ r. text_eq r.id e.id) s.events
        || (not (is_reference (known_host s) e.host_id)
            || (not (is_reference (known_container s) e.container_id)
                || not (is_reference (known_user s) e.user_id))))) [
                  | inl broken ↦ rw (broken, append_event) v
                  | inr sound ↦
                      rw (sound, append_event)
                        (events_changed s v _ (
                          All-append _ s.events (_ ∷ []) (events_known s v) (
                            (ground (arith, sound), ground (arith, sound), ground (arith, sound)),
                            tt,
                          )))
                ]

  upsert_container-IsReferential :
      (dialect : Dialect) (now : ℕ) (c : Container)
      → IsReferential (upsert_container dialect times s now c).0
  unfolding upsert_container
  upsert_container-IsReferential dialect now c =
      let row = container_row times (record c { created_at = or_now c.created_at now }) in
      elim (Bool-cases
        (not (has_row (is_host c.host_id) s.hosts) || not (fits dialect c.restart_count))) [
          | inl broken ↦ rw (broken, upsert_container) v
          | inr sound ↦
              rw (sound, upsert_container)
                (containers_grown s v (upsert_row row s.containers)
                  (λ id there. upsert_row-known row id s.containers there)
                  (upsert_row-hosts s row s.containers
                    (container_row-known times s c (or_now c.created_at now)
                      (ground (arith, sound)))
                    v.container_hosts))
        ]

module _ {F : Type 0} ⦃reals : RealColumn F⦄ (dialect : Dialect) (times : TimeText) where
  sql_write-IsReferential :
      (s : Tables F) (w : Write F) → IsReferential s → IsReferential (sql_write dialect times s w)
  unfolding sql_write record_metric delete_session delete_sessions_for_user
  sql_write-IsReferential s (creates_host now h) v = create_host-IsReferential times s v now h
  sql_write-IsReferential s (updates_host h) v = update_host-IsReferential times s v h
  sql_write-IsReferential s (deletes_host id) v = delete_host-IsReferential s v id
  sql_write-IsReferential s (upserts_container now c) v =
      upsert_container-IsReferential times s v dialect now c
  sql_write-IsReferential s (deletes_container id) v = delete_container-IsReferential s v id
  sql_write-IsReferential s (records_metric m) v =
      elim (Option-cases (stored_metric dialect (metric_row times m))) [
        | inl broken ↦ rw (broken, sql_write, record_metric) v
        | inr (row, fit) ↦
            rw (fit, sql_write, record_metric)
              (metrics_changed s v (overwrite_metric row s.metrics))
      ]
  sql_write-IsReferential s (appends_event now e) v = append_event-IsReferential times s v now e
  sql_write-IsReferential s (creates_user now u) v = create_user-IsReferential times s v now u
  sql_write-IsReferential s (updates_user u) v = update_user-IsReferential times s v u
  sql_write-IsReferential s (creates_session now x) v = create_session-IsReferential times s v now x
  sql_write-IsReferential s (deletes_session id) v =
      sessions_changed s v _ (All-delete _ (is_session id) s.sessions v.session_users)
  sql_write-IsReferential s (deletes_sessions_for_user id) v =
      sessions_changed s v _ (All-delete _ (λ r. text_eq r.user_id id) s.sessions v.session_users)

  sql_writes-keeps :
      (s : Tables F) (ws : List (Write F))
      → IsReferential s
      → IsReferential (sql_writes dialect times s ws)
  unfolding sql_writes
  sql_writes-keeps s [] v = v
  sql_writes-keeps s (w ∷ rest) v =
      sql_writes-keeps (sql_write dialect times s w) rest (sql_write-IsReferential s w v)

  -- No reference dangles: on either database, after any history of the methods that write, in tables
  -- that started empty, every container is of a host that is there, every session of a user that is
  -- there, and every host, container and user that an event names is there. A further DeleteHost
  -- succeeds on a host that is there and reports ErrNotFound otherwise; afterwards neither the host
  -- nor a container of it is there, every event is still there, and again no reference dangles, so
  -- that no event names what has been deleted.
  pub sql_writes-IsReferential :
      (ws : List (Write F)) (id : Text)
      → IsReferential (sql_writes dialect times empty_tables ws)
        × IsCascade (sql_writes dialect times empty_tables ws) id
  unfolding empty_tables
  sql_writes-IsReferential ws id =
      let v : IsReferential (sql_writes dialect times empty_tables ws) =
        sql_writes-keeps empty_tables ws (record {
          container_hosts = tt;
          session_users = tt;
          event_hosts = tt;
          event_containers = tt;
          event_users = tt;
        }) in
      (v, delete_host-IsCascade (sql_writes dialect times empty_tables ws) id v)
