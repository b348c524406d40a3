-- ===== src/Telemetry.antt =====
-- IngestTelemetry of internal/controlplane/agentregistry/registry.go: one batch of an agent is
-- mapped to the control plane's container IDs, fed to the monitoring engine, stored and broadcast,
-- and answered with the agent's next polling interval. A loop of the source is a function here, in
-- the source's order; each writes as it goes, so what a failing write leaves behind is kept.
pub mod Metrics
pub mod Ingest
pub mod Answer
pub mod Isolation
pub mod Hosts
use docker_monitoring.Prelude.{
  ℕ, suc, ◌+◌, Bool, true, false, not, Option, none, some, List, [], ◌∷◌, ◌++◌, Text, codes,
  text_eq, Map, lookup, insert, if◌then◌else◌,
}
use docker_monitoring.Prelude.Int.{ℤ, pos}
use docker_monitoring.Models.{
  Float64, MonitoringMode, normal, critical, manual_realtime, other_mode, mode_eq, ContainerStatus,
  HealthStatus, Metric, Container, Host, info, critical_severity,
}
use docker_monitoring.Monitoring.{
  EntityKind, entity_host, entity_container, kind_text, Reason, reason_text, TransitionEvent,
  Engine, effective_mode, evaluate_metric, evaluate_container_health, interval_seconds,
  fastest_mode,
}
use docker_monitoring.Storage.{Store, StoreError, Found, found, missing}
use docker_monitoring.World.{Env, World, Payload, metric_payload, ticked}
use docker_monitoring.Recorder.{RecordInput, record_event}
use docker_monitoring.Registry.{
  RegistryError, host_not_found, store_failed, Reply, ok, err, save_host,
}

pub record ContainerReport : Type 0 where
  pub docker_container_id : Text
  pub name : Text
  pub image : Text
  pub status : ContainerStatus
  pub health_status : HealthStatus
  pub restart_count : ℤ

pub record TelemetryReport (F : Type 0) : Type 0 where
  pub containers : List ContainerReport
  pub metrics : List (Metric F)

pub record TelemetryResult : Type 0 where
  pub mode : MonitoringMode
  pub interval_seconds : ℤ

abbrev pub mode_text : MonitoringMode → Text
mode_text normal = codes "normal"
mode_text critical = codes "critical"
mode_text manual_realtime = codes "manual_realtime"
mode_text (other_mode s) = s

unfoldable pub metric_topic : EntityKind → Text → Text
metric_topic entity_host id = codes "hosts/" ++ id ++ codes "/stats"
metric_topic entity_container id = codes "containers/" ++ id ++ codes "/stats"

-- What recordTransition records.
unfoldable pub transition_input : Text → Text → TransitionEvent → RecordInput
transition_input host_id entity_id ev = record {
  event_type = codes "monitoring." ++ reason_text ev.reason;
  severity = if mode_eq ev.entered_mode critical then critical_severity else info;
  host_id = some host_id;
  container_id = elim ev.entity_kind [ entity_container ↦ some entity_id | entity_host ↦ none ];
  user_id = none;
  message =
      kind_text ev.entity_kind
      ++ codes " "
      ++ entity_id
      ++ codes " entered "
      ++ mode_text ev.entered_mode
      ++ codes " ("
      ++ reason_text ev.reason
      ++ codes ")";
}

-- The first container of a list with a Docker ID.
unfoldable pub find_docker : Text → List Container → Option Container
find_docker docker_id [] = none
find_docker docker_id (c ∷ rest) =
    if text_eq c.docker_container_id docker_id then some c else find_docker docker_id rest

-- What is known of a reported container: its ID here, and its record before the batch, if any.
-- The maps internalID and existingByDockerID have the same keys, so they are one map here.
abbrev pub Known : Type 0
Known = Map (Text × Option Container)

abbrev pub id_in : Known → Text → Text
id_in known docker_id = elim (lookup docker_id known) [ none ↦ [] | some (id, _) ↦ id ]

abbrev pub existing_in : Known → Text → Option Container
existing_in known docker_id = elim (lookup docker_id known) [ none ↦ none | some (_, c) ↦ c ]

module _ {F S : Type 0} (env : Env) (ops : Store F S) where
  unfoldable pub find_container_by_docker_id : S → Text → Text → Option Container
  find_container_by_docker_id s host_id docker_id = elim (ops.list_containers_by_host s host_id) [
    | missing _ ↦ none
    | found containers ↦ find_docker docker_id containers
  ]

  unfoldable pub container_id : Text → Text → Text
  container_id host_id docker_id = env.name_uuid (host_id ++ codes "/" ++ docker_id)

  -- The first loop.
  unfoldable pub discover : S → Text → Known → List ContainerReport → Known
  discover s host_id known [] = known
  discover s host_id known (r ∷ rest) =
      discover s host_id
        (insert r.docker_container_id
          (
            container_id host_id r.docker_container_id,
            find_container_by_docker_id s host_id r.docker_container_id,
          )
          known)
        rest

  unfoldable pub record_transition : World F S → Text → Text → Option TransitionEvent → World F S
  record_transition w host_id entity_id none = w
  record_transition w host_id entity_id (some ev) =
      (record_event env ops w (transition_input host_id entity_id ev)).0

  -- One round of the health loop, with an engine.
  unfoldable pub evaluate_with : World F S → Engine F → Text → Known → ContainerReport → World F S
  evaluate_with w e host_id known r =
      let id = id_in known r.docker_container_id in
      let previous : ℤ = elim (existing_in known r.docker_container_id) [
        | none ↦ r.restart_count
        | some c ↦ c.restart_count
      ] in
      let (e', ev) =
        evaluate_container_health e (env.clock w.reads) id r.status r.health_status r.restart_count
          previous in
      record_transition (record (ticked w) { monitor = some e' }) host_id id ev

  -- Without an engine the loop is skipped as a whole.
  unfoldable pub evaluate_report : World F S → Text → Known → ContainerReport → World F S
  unfolding evaluate_with
  evaluate_report w host_id known r = elim w.monitor [
    | none ↦ w
    | some e ↦ evaluate_with w e host_id known r
  ]

  unfoldable pub evaluate_reports : World F S → Text → Known → List ContainerReport → World F S
  unfolding evaluate_report
  evaluate_reports w host_id known [] = w
  evaluate_reports w host_id known (r ∷ rest) =
      evaluate_reports (evaluate_report w host_id known r) host_id known rest
