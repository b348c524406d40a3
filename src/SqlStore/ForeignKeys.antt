-- ===== src/SqlStore/ForeignKeys.antt =====
-- Events whose row refers to a row that is not there: internal/controlplane/api/hosts.go and
-- internal/controlplane/agentregistry/registry.go over
-- internal/controlplane/storage/sqlstore/event.go.
use docker_monitoring.Prelude.{
  ◌≡◌, refl, sym, ◌∙◌, false, true, ◌||◌, not, Option, none, some, List, Text, text_eq, arith, ℕ,
  [], ◌∷◌, All, ap, subst, text_eq_refl, Option-cases, Bool-cases, inl, inr,
}
use docker_monitoring.Models.{Host, Event, MonitoringMode}
use docker_monitoring.Storage.{backend_failed, found}
use docker_monitoring.World.{Env, World, ticked, drawn}
use docker_monitoring.Recorder.{RecordInput, record_event, event_from}
use docker_monitoring.Monitoring.{
  Engine, evaluate_container_health, entity_container, event_of, Reason,
}
use docker_monitoring.Telemetry.{
  Known, id_in, ContainerReport, record_transition, evaluate_with, evaluate_report,
  evaluate_reports, transition_input,
}
use docker_monitoring.Http.{no_content}
use docker_monitoring.Api.{Server, replies}
use docker_monitoring.Api.Handlers.{removed_input, host_event, handle_delete_host}
use docker_monitoring.Sql.{Dialect}
use docker_monitoring.History.{TimeText}
use docker_monitoring.SqlStore.{Tables, HostRow, RealColumn}
use docker_monitoring.SqlStore.Rows.{first_row, has_row, query_row, is_reference}
use docker_monitoring.SqlStore.Scans.{scan_host, scan_time}
use docker_monitoring.SqlStore.Hosts.{is_host, get_host, delete_host}
use docker_monitoring.SqlStore.Containers.{is_container}
use docker_monitoring.SqlStore.Events.{append_event}
use docker_monitoring.SqlStore.Instance.{sql_store}
use docker_monitoring.SqlStore.Lookup.{
  has_row-first_row, affected-first_row, first_row-key, first_row-delete,
}

scan_host-id :
    (times : TimeText) (r : HostRow) (h : Host) → scan_host times r ≡ some h → h.id ≡ r.id
unfolding scan_host
scan_host-id times r h e = elim (Option-cases (times.parse_time r.created_at)) [
  | inl bad ↦ ground (arith, bad)
  | inr (created, good) ↦ elim (Option-cases (scan_time times r.last_heartbeat_at)) [
    | inl bad ↦ ground (arith, good, bad)
    | inr (heartbeat, fine) ↦ elim (Option-cases (scan_time times r.enrollment_issued_at)) [
      | inl bad ↦ ground (arith, good, fine, bad)
      | inr (issued, well) ↦ ground (arith, good, fine, well)
    ]
  ]
]

module _ {F : Type 0} (times : TimeText) (s : Tables F) where
  -- A host that is read has a row, and its own ID.
  pub get_host-row :
      (id : Text) (h : Host)
      → get_host times s id ≡ found h
      → (h.id ≡ id) × (has_row (is_host id) s.hosts ≡ true)
  unfolding get_host query_row
  get_host-row id h e = elim (Option-cases (first_row (is_host id) s.hosts)) [
    | inl absent ↦ ground (arith, absent)
    | inr (r, there) ↦ elim (Option-cases (scan_host times r)) [
      | inl bad ↦ ground (arith, there, bad)
      | inr (x, good) ↦ (
        ground (
          arith,
          there,
          good,
          scan_host-id times r x good,
          first_row-key (λ q. q.id) id s.hosts r there,
        ),
        ground (arith, there, has_row-first_row (is_host id) s.hosts),
      )
    ]
  ]

  append_event-no_host :
      (now : ℕ) (e : Event) (id : Text)
      → e.host_id ≡ some id
      → has_row (is_host id) s.hosts ≡ false
      → ((append_event times s now e).0 ≡ s)
        × ((append_event times s now e).2 ≡ some backend_failed)
  unfolding append_event
  append_event-no_host now e id refers absent =
      elim (Bool-cases (has_row (λ r. text_eq r.id e.id) s.events)) [
        | inl known ↦ (ground (arith, known), ground (arith, known))
        | inr new ↦ (ground (arith, new, refers, absent), ground (arith, new, refers, absent))
      ]

  append_event-no_container :
      (now : ℕ) (e : Event) (id : Text)
      → e.container_id ≡ some id
      → has_row (is_container id) s.containers ≡ false
      → ((append_event times s now e).0 ≡ s)
        × ((append_event times s now e).2 ≡ some backend_failed)
  unfolding append_event
  append_event-no_container now e id refers absent =
      elim (Bool-cases (
        has_row (λ r. text_eq r.id e.id) s.events
        || not (is_reference (λ h. has_row (is_host h) s.hosts) e.host_id))) [
          | inl known ↦ (ground (arith, known), ground (arith, known))
          | inr new ↦ (ground (arith, new, refers, absent), ground (arith, new, refers, absent))
        ]

module _ {F : Type 0} ⦃reals : RealColumn F⦄ (env : Env) (dialect : Dialect)
    (times : TimeText) where
  record_event-no_host :
      (w : World F (Tables F)) (input : RecordInput) (id : Text)
      → input.host_id ≡ some id
      → has_row (is_host id) w.store.hosts ≡ false
      → (record_event env (sql_store F dialect times) w input).0 ≡ ticked (drawn w)
  unfolding record_event event_from
  record_event-no_host w input id refers absent =
      let e = event_from env (sql_store F dialect times) w input in
      let (same, failed) =
        append_event-no_host times w.store (env.clock w.reads) e id refers absent in
      ground (arith, same, failed)

  record_event-no_container :
      (w : World F (Tables F)) (input : RecordInput) (id : Text)
      → input.container_id ≡ some id
      → has_row (is_container id) w.store.containers ≡ false
      → (record_event env (sql_store F dialect times) w input).0 ≡ ticked (drawn w)
  unfolding record_event event_from
  record_event-no_container w input id refers absent =
      let e = event_from env (sql_store F dialect times) w input in
      let (same, failed) =
        append_event-no_container times w.store (env.clock w.reads) e id refers absent in
      ground (arith, same, failed)

  -- The removal of a host leaves no event on the SQL store: where the host can be read, its deletion
  -- is answered 204 and deletes the host, but the event that says so is neither stored nor
  -- broadcast: what changes is the deletion alone, beside one reading of the clock and one ID.
  pub handle_delete_host-unrecorded :
      (server : Server) (w : World F (Tables F)) (id : Text) (h : Host)
      → get_host times w.store id ≡ found h
      → handle_delete_host env (sql_store F dialect times) server w id ≡ (
        record (ticked (drawn w)) { store = (delete_host w.store id).0 },
        replies none (no_content 204),
      )
  unfolding handle_delete_host delete_host host_event
  handle_delete_host-unrecorded server w id h there =
      let (named, row) = get_host-row times w.store id h there in
      let after = record w { store = (delete_host w.store id).0 } in
      let gone : has_row (is_host id) after.store.hosts ≡ false = ground (
        arith,
        has_row-first_row (is_host id) after.store.hosts,
        first_row-delete (λ r. r.id) id id w.store.hosts,
        text_eq_refl id,
      ) in
      ground (
        arith,
        there,
        row,
        affected-first_row (is_host id) w.store.hosts,
        record_event-no_host after (removed_input h) id (ground (arith, named)) gone,
      )

  record_transition-unrecorded :
      (w : World F (Tables F)) (host_id id : Text) (now : ℕ)
      (change : Option (MonitoringMode × Reason))
      → has_row (is_container id) w.store.containers ≡ false
      → ((record_transition env
            (sql_store F dialect times)
            w
            host_id
            id
            (event_of entity_container id now change)).store
          ≡ w.store)
        × ((record_transition env
              (sql_store F dialect times)
              w
              host_id
              id
              (event_of entity_container id now change)).sent
            ≡ w.sent)
  unfolding record_transition event_of transition_input
  record_transition-unrecorded w host_id id now none absent = (refl, refl)
  record_transition-unrecorded w host_id id now (some (mode, reason)) absent =
      let same =
        record_event-no_container w
          (transition_input host_id id (record {
            entity_kind = entity_container;
            entity_id = id;
            entered_mode = mode;
            reason = reason;
            at = now;
          }))
          id refl absent in
      (ap (λ (x : World F (Tables F)). x.store) same, ap (λ (x : World F (Tables F)). x.sent) same)

  evaluate_with-unrecorded :
      (w : World F (Tables F)) (e : Engine F) (host_id : Text) (known : Known) (r : ContainerReport)
      → has_row (is_container (id_in known r.docker_container_id)) w.store.containers ≡ false
      → ((evaluate_with env (sql_store F dialect times) w e host_id known r).store ≡ w.store)
        × ((evaluate_with env (sql_store F dialect times) w e host_id known r).sent ≡ w.sent)
  unfolding evaluate_with evaluate_container_health
  evaluate_with-unrecorded w e host_id known r absent =
      record_transition-unrecorded _ host_id (id_in known r.docker_container_id) (env.clock w.reads)
        _ absent

  evaluate_report-unrecorded :
      (w : World F (Tables F)) (host_id : Text) (known : Known) (r : ContainerReport)
      → has_row (is_container (id_in known r.docker_container_id)) w.store.containers ≡ false
      → ((evaluate_report env (sql_store F dialect times) w host_id known r).store ≡ w.store)
        × ((evaluate_report env (sql_store F dialect times) w host_id known r).sent ≡ w.sent)
  unfolding evaluate_report
  evaluate_report-unrecorded w host_id known r absent = elim (Option-cases w.monitor) [
    | inl off ↦ (ground (arith, off), ground (arith, off))
    | inr (e, on) ↦ rw on (evaluate_with-unrecorded w e host_id known r absent)
  ]

  -- A transition of a container that has no row is not recorded on the SQL store: the health loop
  -- of a batch whose reported containers all have IDs without a row, as in the first batch that
  -- reports them, changes nothing in the store and broadcasts nothing, whatever transitions the
  -- engine makes.
  pub evaluate_reports-unrecorded :
      (w : World F (Tables F)) (host_id : Text) (known : Known) (reports : List ContainerReport)
      → All
          (λ r.
            has_row (is_container (id_in known r.docker_container_id)) w.store.containers ≡ false)
          reports
      → ((evaluate_reports env (sql_store F dialect times) w host_id known reports).store ≡ w.store)
        × ((evaluate_reports env (sql_store F dialect times) w host_id known reports).sent ≡ w.sent)
  unfolding evaluate_reports
  evaluate_reports-unrecorded w host_id known [] absent = (refl, refl)
  evaluate_reports-unrecorded w host_id known (r ∷ rest) (absent, others) =
      let after = evaluate_report env (sql_store F dialect times) w host_id known r in
      let (same, silent) = evaluate_report-unrecorded w host_id known r absent in
      let (stored, sent) = evaluate_reports-unrecorded after host_id known rest (
        subst
          (λ (s : Tables F).
            All
              (λ x. has_row (is_container (id_in known x.docker_container_id)) s.containers ≡ false)
              rest)
          (sym same) others) in
      (stored ∙ same, sent ∙ silent)
