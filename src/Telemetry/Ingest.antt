-- ===== src/Telemetry/Ingest.antt =====
-- The upsert loop and the end of IngestTelemetry, and IngestTelemetry as a whole
-- (internal/controlplane/agentregistry/registry.go).
use docker_monitoring.Prelude.{ℕ, suc, Option, none, some, List, [], ◌∷◌, ◌++◌, Text, if◌then◌else◌}
use docker_monitoring.Prelude.Int.{pos}
use docker_monitoring.Models.{Float64, MonitoringMode, normal, mode_eq, Container, Host}
use docker_monitoring.Monitoring.{
  EntityKind, entity_host, entity_container, Engine, effective_mode, interval_seconds, fastest_mode,
}
use docker_monitoring.Storage.{Store, StoreError, found, missing}
use docker_monitoring.World.{Env, World}
use docker_monitoring.Registry.{host_not_found, store_failed, Reply, ok, err, save_host}
use docker_monitoring.Telemetry.{
  ContainerReport, TelemetryReport, TelemetryResult, Known, id_in, existing_in, discover,
  evaluate_reports,
}
use docker_monitoring.Telemetry.Metrics.{ingest_metrics}

-- EffectiveMode, or NORMAL without an engine.
unfoldable pub mode_in : {F : Type 0} → Option (Engine F) → EntityKind → Text → MonitoringMode
mode_in none kind id = normal
mode_in (some e) kind id = effective_mode e kind id

-- The container record that a report becomes.
unfoldable pub container_from : ℕ → Text → Known → ContainerReport → MonitoringMode → Container
container_from now host_id known r mode = record {
  id = id_in known r.docker_container_id;
  host_id = host_id;
  docker_container_id = r.docker_container_id;
  name = r.name;
  image = r.image;
  status = r.status;
  health_status = r.health_status;
  restart_count = r.restart_count;
  monitoring_mode = mode;
  tags = elim (existing_in known r.docker_container_id) [ none ↦ [] | some c ↦ c.tags ];
  created_at = elim (existing_in known r.docker_container_id) [ none ↦ 0 | some c ↦ c.created_at ];
  last_seen_at = some now;
}

module _ {F S : Type 0} (env : Env) (ops : Store F S) where
  -- The last loop: the modes of the reported containers, in order, or the first write that failed.
  unfoldable pub upsert_reports :
      World F S
      → Text
      → Known
      → List ContainerReport
      → List MonitoringMode
      → World F S × List MonitoringMode × Option StoreError
  unfolding container_from
  upsert_reports w host_id known [] modes = (w, modes, none)
  upsert_reports w host_id known (r ∷ rest) modes =
      let mode = mode_in w.monitor entity_container (id_in known r.docker_container_id) in
      let (s, failure) =
        ops.upsert_container w.store (env.clock (suc w.reads))
          (container_from (env.clock w.reads) host_id known r mode) in
      let after = record w { store = s; reads = suc (suc w.reads) } in
      elim failure [
        | some e ↦ (after, modes, some e)
        | none ↦ upsert_reports after host_id known rest (modes ++ (mode ∷ []))
      ]

  -- The end of IngestTelemetry: the host's own mode is stored if it changed, and the fastest of
  -- all the modes is the answer, with the engine's interval for it, or 60 seconds without one.
  unfoldable pub answer :
      World F S → Host → Text → List MonitoringMode → World F S × Reply TelemetryResult
  unfolding save_host
  answer w host host_id modes =
      let host_mode = mode_in w.monitor entity_host host_id in
      let (after, failure) =
        if mode_eq host.monitoring_mode host_mode
        then (w, none)
        else save_host env ops w (record host { monitoring_mode = host_mode }) in
      let fastest = fastest_mode (host_mode ∷ modes) in
      elim failure [
        | some e ↦ (after, err (store_failed e))
        | none ↦ (
          after,
          ok (record {
            mode = fastest;
            interval_seconds = elim w.monitor [
              | none ↦ pos 60
              | some e ↦ interval_seconds e fastest
            ];
          }),
        )
      ]

module _ {F S : Type 0} ⦃fl : Float64 F⦄ (env : Env) (ops : Store F S) where
  -- IngestTelemetry from the upserts on.
  unfoldable pub settle :
      World F S → Host → Text → Known → List ContainerReport → World F S × Reply TelemetryResult
  unfolding upsert_reports answer
  settle w host host_id known reports =
      let (after, modes, failure) = upsert_reports env ops w host_id known reports [] in
      elim failure [
        | some e ↦ (after, err (store_failed e))
        | none ↦ answer env ops after host host_id modes
      ]

  unfoldable pub ingest_telemetry :
      World F S → Text → TelemetryReport F → World F S × Reply TelemetryResult
  unfolding discover evaluate_reports ingest_metrics settle
  ingest_telemetry w host_id report = elim (ops.get_host w.store host_id) [
    | missing _ ↦ (w, err host_not_found)
    | found host ↦
        let known = discover env ops w.store host_id [] report.containers in
        let judged = evaluate_reports env ops w host_id known report.containers in
        let (measured, failure) = ingest_metrics env ops judged host_id known report.metrics in
        elim failure [
          | some e ↦ (measured, err (store_failed e))
          | none ↦ settle measured host host_id known report.containers
        ]
  ]
