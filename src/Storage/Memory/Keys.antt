-- ===== src/Storage/Memory/Keys.antt =====
-- The keys of the maps of internal/controlplane/storage/memory/memory.go.
use docker_monitoring.Prelude.{
  ◌≡◌, refl, inl, inr, List, [], ◌∷◌, Text, Map, lookup, insert, delete, All, arith, Option-cases,
}
use docker_monitoring.Models.{Host, Container, User, Session}
use docker_monitoring.Storage.Memory.{
  Memory, new_memory, drop_user, metric_key, create_host, update_host, delete_host,
  upsert_container, delete_container, record_metric, append_event,
}
use docker_monitoring.Storage.Memory.Accounts.{
  create_user, update_user, create_session, delete_session, delete_sessions_for_user,
}
use docker_monitoring.Storage.Memory.Records.{
  Write, creates_host, updates_host, deletes_host, upserts_container, deletes_container,
  records_metric, appends_event, creates_user, updates_user, creates_session, deletes_session,
  deletes_sessions_for_user, write, run_writes,
}

module _ {V : Type 0} (id_of : V → Text) where
  -- Every entry stands under its record's own ID.
  abbrev pub IsKeyed : Map V → Type 0
  IsKeyed = All (λ e. e.0 ≡ id_of e.1)

  insert-IsKeyed : (v : V) (m : Map V) → IsKeyed m → IsKeyed (insert (id_of v) v m)
  unfolding insert
  insert-IsKeyed v [] h = (refl, tt)
  insert-IsKeyed v ((j, w) ∷ m) h = ground (arith, insert-IsKeyed v m h.1)

  delete-IsKeyed : (k : Text) (m : Map V) → IsKeyed m → IsKeyed (delete k m)
  unfolding delete
  delete-IsKeyed k [] h = tt
  delete-IsKeyed k ((j, w) ∷ m) h = ground (arith, delete-IsKeyed k m h.1)

drop_user-IsKeyed :
    (user : Text) (m : Map Session) → IsKeyed (λ v. v.id) m → IsKeyed (λ v. v.id) (drop_user user m)
unfolding drop_user
drop_user-IsKeyed user [] h = tt
drop_user-IsKeyed user ((j, w) ∷ m) h = ground (arith, drop_user-IsKeyed user m h.1)

module _ {F : Type 0} where
  pub record IsWellKeyed (s : Memory F) : Type 0 where
    pub hosts_keyed : IsKeyed (λ h. h.id) s.hosts
    pub containers_keyed : IsKeyed (λ c. c.id) s.containers
    pub metrics_keyed : IsKeyed (λ m. metric_key m.entity_type m.entity_id) s.metrics
    pub users_keyed : IsKeyed (λ u. u.id) s.users
    pub sessions_keyed : IsKeyed (λ v. v.id) s.sessions

  with_hosts :
      {s : Memory F} {m : Map Host}
      → IsWellKeyed s
      → IsKeyed (λ h. h.id) m
      → IsWellKeyed (record s { hosts = m })
  with_hosts v k = record {
    hosts_keyed = k;
    containers_keyed = v.containers_keyed;
    metrics_keyed = v.metrics_keyed;
    users_keyed = v.users_keyed;
    sessions_keyed = v.sessions_keyed;
  }

  with_containers :
      {s : Memory F} {m : Map Container}
      → IsWellKeyed s
      → IsKeyed (λ c. c.id) m
      → IsWellKeyed (record s { containers = m })
  with_containers v k = record {
    hosts_keyed = v.hosts_keyed;
    containers_keyed = k;
    metrics_keyed = v.metrics_keyed;
    users_keyed = v.users_keyed;
    sessions_keyed = v.sessions_keyed;
  }

  with_users :
      {s : Memory F} {m : Map User}
      → IsWellKeyed s
      → IsKeyed (λ u. u.id) m
      → IsWellKeyed (record s { users = m })
  with_users v k = record {
    hosts_keyed = v.hosts_keyed;
    containers_keyed = v.containers_keyed;
    metrics_keyed = v.metrics_keyed;
    users_keyed = k;
    sessions_keyed = v.sessions_keyed;
  }

  with_sessions :
      {s : Memory F} {m : Map Session}
      → IsWellKeyed s
      → IsKeyed (λ x. x.id) m
      → IsWellKeyed (record s { sessions = m })
  with_sessions v k = record {
    hosts_keyed = v.hosts_keyed;
    containers_keyed = v.containers_keyed;
    metrics_keyed = v.metrics_keyed;
    users_keyed = v.users_keyed;
    sessions_keyed = k;
  }

  pub write-IsWellKeyed : (s : Memory F) (w : Write F) → IsWellKeyed s → IsWellKeyed (write s w)
  unfolding write create_host update_host delete_host upsert_container delete_container
      record_metric append_event create_user update_user create_session delete_session
      delete_sessions_for_user
  write-IsWellKeyed s (creates_host now h) v =
      with_hosts v (insert-IsKeyed (λ x. x.id) _ s.hosts v.hosts_keyed)
  write-IsWellKeyed s (updates_host h) v = elim (Option-cases (lookup h.id s.hosts)) [
    | inl e ↦ rw (e, write, update_host) v
    | inr (_, e) ↦
        rw (e, write, update_host)
          (with_hosts v (insert-IsKeyed (λ x. x.id) h s.hosts v.hosts_keyed))
  ]
  write-IsWellKeyed s (deletes_host id) v = elim (Option-cases (lookup id s.hosts)) [
    | inl e ↦ rw (e, write, delete_host) v
    | inr (_, e) ↦
        rw (e, write, delete_host)
          (with_hosts v (delete-IsKeyed (λ x. x.id) id s.hosts v.hosts_keyed))
  ]
  write-IsWellKeyed s (upserts_container now c) v =
      with_containers v (insert-IsKeyed (λ x. x.id) _ s.containers v.containers_keyed)
  write-IsWellKeyed s (deletes_container id) v = elim (Option-cases (lookup id s.containers)) [
    | inl e ↦ rw (e, write, delete_container) v
    | inr (_, e) ↦
        rw (e, write, delete_container)
          (with_containers v (delete-IsKeyed (λ x. x.id) id s.containers v.containers_keyed))
  ]
  write-IsWellKeyed s (records_metric m) v = record {
    hosts_keyed = v.hosts_keyed;
    containers_keyed = v.containers_keyed;
    metrics_keyed =
        insert-IsKeyed (λ x. metric_key x.entity_type x.entity_id) m s.metrics v.metrics_keyed;
    users_keyed = v.users_keyed;
    sessions_keyed = v.sessions_keyed;
  }
  write-IsWellKeyed s (appends_event now e) v = record {
    hosts_keyed = v.hosts_keyed;
    containers_keyed = v.containers_keyed;
    metrics_keyed = v.metrics_keyed;
    users_keyed = v.users_keyed;
    sessions_keyed = v.sessions_keyed;
  }
  write-IsWellKeyed s (creates_user now u) v =
      with_users v (insert-IsKeyed (λ x. x.id) _ s.users v.users_keyed)
  write-IsWellKeyed s (updates_user u) v = elim (Option-cases (lookup u.id s.users)) [
    | inl e ↦ rw (e, write, update_user) v
    | inr (_, e) ↦
        rw (e, write, update_user)
          (with_users v (insert-IsKeyed (λ x. x.id) u s.users v.users_keyed))
  ]
  write-IsWellKeyed s (creates_session now x) v =
      with_sessions v (insert-IsKeyed (λ x. x.id) _ s.sessions v.sessions_keyed)
  write-IsWellKeyed s (deletes_session id) v = elim (Option-cases (lookup id s.sessions)) [
    | inl e ↦ rw (e, write, delete_session) v
    | inr (_, e) ↦
        rw (e, write, delete_session)
          (with_sessions v (delete-IsKeyed (λ x. x.id) id s.sessions v.sessions_keyed))
  ]
  write-IsWellKeyed s (deletes_sessions_for_user id) v =
      with_sessions v (drop_user-IsKeyed id s.sessions v.sessions_keyed)

  run_writes-keeps :
      (s : Memory F) (ws : List (Write F)) → IsWellKeyed s → IsWellKeyed (run_writes s ws)
  unfolding run_writes
  run_writes-keeps s [] v = v
  run_writes-keeps s (w ∷ rest) v = run_writes-keeps (write s w) rest (write-IsWellKeyed s w v)

  pub new_memory-IsWellKeyed : IsWellKeyed (new_memory {F = F})
  unfolding new_memory
  new_memory-IsWellKeyed = record {
    hosts_keyed = tt;
    containers_keyed = tt;
    metrics_keyed = tt;
    users_keyed = tt;
    sessions_keyed = tt;
  }

  -- In a store that started empty, every record stands under its own ID (a metric under its
  -- entity's type and ID) after any history of writes.
  pub run_writes-IsWellKeyed : (ws : List (Write F)) → IsWellKeyed (run_writes new_memory ws)
  run_writes-IsWellKeyed ws = run_writes-keeps new_memory ws new_memory-IsWellKeyed
