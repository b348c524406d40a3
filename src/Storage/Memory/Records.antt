-- ===== src/Storage/Memory/Records.antt =====
-- What the methods that write do to the store of internal/controlplane/storage/memory/memory.go,
-- each alone and over a whole history of writes.
use docker_monitoring.Prelude.{
  ℕ, ◌≡◌, refl, ◌∙◌, sym, ap, none, some, List, [], ◌∷◌, ◌++◌, append-nil, append_assoc, Text,
  text_eq, text_eq_iff, insert, lookup-insert, lookup-delete, if◌then◌else◌, arith, ◌&&◌,
}
use docker_monitoring.Models.{Host, Container, Metric, User, Session, Event}
use docker_monitoring.Storage.{is_found, not_found, found, missing}
use docker_monitoring.Storage.Memory.{
  Memory, or_now, create_host, get_host, update_host, delete_host, upsert_container,
  delete_container, record_metric, append_event,
}
use docker_monitoring.Storage.Memory.Accounts.{
  create_user, update_user, create_session, delete_session, delete_sessions_for_user,
}

-- A call that writes, with what the clock reads in it.
pub data Write (F : Type 0) : Type 0 where
  creates_host : ℕ → Host → Write F
  updates_host : Host → Write F
  deletes_host : Text → Write F
  upserts_container : ℕ → Container → Write F
  deletes_container : Text → Write F
  records_metric : Metric F → Write F
  appends_event : ℕ → Event → Write F
  creates_user : ℕ → User → Write F
  updates_user : User → Write F
  creates_session : ℕ → Session → Write F
  deletes_session : Text → Write F
  deletes_sessions_for_user : Text → Write F

module _ {F : Type 0} where
  unfoldable pub write : Memory F → Write F → Memory F
  write s (creates_host now h) = (create_host s now h).0
  write s (updates_host h) = (update_host s h).0
  write s (deletes_host id) = (delete_host s id).0
  write s (upserts_container now c) = (upsert_container s now c).0
  write s (deletes_container id) = (delete_container s id).0
  write s (records_metric m) = (record_metric s m).0
  write s (appends_event now e) = (append_event s now e).0
  write s (creates_user now u) = (create_user s now u).0
  write s (updates_user u) = (update_user s u).0
  write s (creates_session now v) = (create_session s now v).0
  write s (deletes_session id) = (delete_session s id).0
  write s (deletes_sessions_for_user id) = (delete_sessions_for_user s id).0

  unfoldable pub run_writes : Memory F → List (Write F) → Memory F
  run_writes s [] = s
  run_writes s (w ∷ rest) = run_writes (write s w) rest

  -- What one write adds to the event log.
  unfoldable pub logged : Write F → List Event
  logged (appends_event now e) = record e { created_at = or_now e.created_at now } ∷ []
  logged _ = []

  unfoldable pub all_logged : List (Write F) → List Event
  all_logged [] = []
  all_logged (w ∷ rest) = logged w ++ all_logged rest

  write-events : (s : Memory F) (w : Write F) → (write s w).events ≡ s.events ++ logged w
  unfolding write logged create_host update_host delete_host upsert_container delete_container
      record_metric append_event create_user update_user create_session delete_session
      delete_sessions_for_user
  write-events s (appends_event now e) = refl
  write-events s (updates_host h) = ground (arith, append-nil s.events)
  write-events s (deletes_host id) = ground (arith, append-nil s.events)
  write-events s (deletes_container id) = ground (arith, append-nil s.events)
  write-events s (updates_user u) = ground (arith, append-nil s.events)
  write-events s (deletes_session id) = ground (arith, append-nil s.events)
  write-events s w = sym (append-nil s.events)

  -- The event log is append-only: over any history of writes it is what it was, followed by the
  -- appended events in order, each stamped with the clock if it had no time; deleting hosts,
  -- containers or sessions removes no event.
  pub run_writes-events :
      (s : Memory F) (ws : List (Write F)) → (run_writes s ws).events ≡ s.events ++ all_logged ws
  unfolding run_writes all_logged
  run_writes-events s [] = sym (append-nil s.events)
  run_writes-events s (w ∷ rest) =
      run_writes-events (write s w) rest
      ∙ ap (λ xs. xs ++ all_logged rest) (write-events s w)
      ∙ append_assoc s.events (logged w) (all_logged rest)

  -- Hosts read back: what GetHost finds after a write to the hosts, for every ID. Creating a host
  -- stores it under its ID with the clock's time if it had none; updating or deleting an absent
  -- host is refused with ErrNotFound and changes nothing; no other host changes.
  pub get_host-writes :
      (s : Memory F) (now : ℕ) (h : Host) (id other : Text)
      → (get_host (create_host s now h).0 other
          ≡ (if text_eq h.id other then found (create_host s now h).1 else get_host s other))
        × (update_host s h ≡ (
            if is_found (get_host s h.id)
            then (record s { hosts = insert h.id h s.hosts }, none)
            else (s, some not_found)))
        × (get_host (update_host s h).0 other ≡ (
            if is_found (get_host s h.id) && text_eq h.id other then found h else get_host s other))
        × (get_host (delete_host s id).0 other
            ≡ (if text_eq id other then missing not_found else get_host s other))
  unfolding get_host create_host update_host delete_host
  get_host-writes s now h id other = (
    ground (arith, lookup-insert h.id other (create_host s now h).1 s.hosts),
    ground arith,
    ground (arith, lookup-insert h.id other h s.hosts),
    ground (arith, lookup-delete id other s.hosts, text_eq_iff id other),
  )
