-- ===== src/Examples/Batches.antt =====
-- One batch of telemetry: a crashed container and a calm metric of the host.
use docker_monitoring.Prelude.{
  ℕ, ◌≡◌, refl, true, some, [], ◌∷◌, codes, text_eq, lookup, insert, All, arith,
}
use docker_monitoring.Prelude.Int.{pos, ◌≤ℤ◌}
use docker_monitoring.Models.{critical, exited, no_health, mode_eq}
use docker_monitoring.Monitoring.{
  Engine, fresh_state, entity_host, effective_mode, interval_seconds, fastest_mode, fastest_from,
  evaluate_metric, evaluate_container_health, event_of, health_step, metric_step, watch, is_clean,
  mem_percent, get_or_create, put_state, state_key,
}
use docker_monitoring.Monitoring.Isolation.{kind_eq}
use docker_monitoring.Storage.Memory.{
  Memory, values, keep_host, sort_by, get_host, update_host, upsert_container,
  list_containers_by_host, record_metric, append_event,
}
use docker_monitoring.Storage.Memory.Instance.{memory_store}
use docker_monitoring.World.{World}
use docker_monitoring.Recorder.{record_event, push_event, event_from}
use docker_monitoring.Registry.{Reply, ok, save_host}
use docker_monitoring.Telemetry.{
  ContainerReport, TelemetryReport, TelemetryResult, container_id, discover,
  find_container_by_docker_id, evaluate_reports, evaluate_report, evaluate_with, record_transition,
  transition_input, metric_topic,
}
use docker_monitoring.Telemetry.Metrics.{
  push_metric, evaluate_and_push, store_metric, ingest_metric, ingest_metrics,
}
use docker_monitoring.Telemetry.Ingest.{
  mode_in, container_from, upsert_reports, answer, settle, ingest_telemetry,
}
use docker_monitoring.Telemetry.Answer.{wanted_modes, ingest-not_slower}
use docker_monitoring.Telemetry.Isolation.{state_in, Differs, NotReported, ingest-other}
use docker_monitoring.Examples.Fixtures.{
  fixed_point, env, thresholds, calm, host_id, host_one, world_with,
}

abbrev crashed : ContainerReport
crashed = record {
  docker_container_id = codes "c1";
  name = codes "db";
  image = codes "pg";
  status = exited;
  health_status = no_health;
  restart_count = pos 0;
}

abbrev batch : TelemetryReport ℕ
batch = record { containers = crashed ∷ []; metrics = calm ∷ [] }

abbrev start : World ℕ (Memory ℕ)
start = world_with host_one

abbrev served : World ℕ (Memory ℕ) × Reply TelemetryResult
served = ingest_telemetry env (memory_store ℕ) start host_id batch

-- The container is critical, so the host is polled every 10 seconds.
abbrev told : TelemetryResult
told = record { mode = critical; interval_seconds = pos 10 }

ingests : served.1 ≡ ok told
unfolding ingest_telemetry discover find_container_by_docker_id list_containers_by_host values
    keep_host sort_by container_id evaluate_reports evaluate_report evaluate_with ingest_metrics
    ingest_metric evaluate_and_push store_metric push_metric settle upsert_reports container_from
    answer save_host mode_in record_transition transition_input record_event push_event event_from
    metric_topic effective_mode interval_seconds fastest_mode fastest_from evaluate_metric
    evaluate_container_health event_of health_step metric_step watch is_clean mem_percent
    get_or_create put_state state_key get_host update_host upsert_container record_metric
    append_event lookup insert text_eq mode_eq
ingests = refl

abbrev engine_after : Engine ℕ
engine_after = record {
  cfg = thresholds;
  state =
      (codes "container/uh1/c1", record fresh_state { critical_active = true })
      ∷ (codes "host/h1", fresh_state)
      ∷ [];
}

monitors : served.0.monitor ≡ some engine_after
unfolding ingest_telemetry discover find_container_by_docker_id list_containers_by_host values
    keep_host sort_by container_id evaluate_reports evaluate_report evaluate_with ingest_metrics
    ingest_metric evaluate_and_push store_metric push_metric settle upsert_reports container_from
    answer save_host mode_in record_transition transition_input record_event push_event event_from
    metric_topic effective_mode interval_seconds fastest_mode fastest_from evaluate_metric
    evaluate_container_health event_of health_step metric_step watch is_clean mem_percent
    get_or_create put_state state_key get_host update_host upsert_container record_metric
    append_event lookup insert text_eq mode_eq
monitors = refl

ingest-not_slower_example :
    All
      (λ mode. told.interval_seconds ≤ℤ interval_seconds engine_after mode)
      (effective_mode engine_after entity_host host_id
        ∷ wanted_modes env (memory_store ℕ) (some engine_after) host_id (crashed ∷ []))
ingest-not_slower_example =
    ingest-not_slower env (memory_store ℕ) start host_id batch told engine_after ingests monitors
      (record { critical_le = omega arith; manual_le = omega arith })

others : NotReported env (memory_store ℕ) host_id entity_host (codes "h2") (crashed ∷ [])
unfolding kind_eq
others d h = refl

elsewhere : Differs entity_host host_id entity_host (codes "h2")
unfolding kind_eq text_eq
elsewhere = refl

ingest-other_example :
    state_in served.0.monitor entity_host (codes "h2")
    ≡ state_in start.monitor entity_host (codes "h2")
ingest-other_example =
    ingest-other env (memory_store ℕ) host_id entity_host (codes "h2") start batch elsewhere others
