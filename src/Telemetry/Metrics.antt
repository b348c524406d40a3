-- ===== src/Telemetry/Metrics.antt =====
-- The metric loop of IngestTelemetry (internal/controlplane/agentregistry/registry.go).
use docker_monitoring.Prelude.{
  Option, none, some, List, [], ◌∷◌, ◌++◌, Text, codes, text_eq, lookup, if◌then◌else◌,
}
use docker_monitoring.Models.{Float64, Metric}
use docker_monitoring.Monitoring.{
  EntityKind, entity_host, entity_container, effective_mode, evaluate_metric,
}
use docker_monitoring.Storage.{Store, StoreError}
use docker_monitoring.World.{Env, World, metric_payload, ticked}
use docker_monitoring.Telemetry.{Known, metric_topic, record_transition}

module _ {F S : Type 0} ⦃fl : Float64 F⦄ (env : Env) (ops : Store F S) where
  -- `if r.metricBroadcaster != nil { r.metricBroadcaster.Broadcast(topic, m) }`
  unfoldable pub push_metric : World F S → EntityKind → Text → Metric F → World F S
  push_metric w kind id m =
      if w.metric_push
      then record w { sent = w.sent ++ ((metric_topic kind id, metric_payload m) ∷ []) }
      else w

  -- A translated metric goes through the engine, gets the mode that the engine then has for its
  -- entity, and is broadcast.
  unfoldable pub evaluate_and_push :
      World F S → Text → EntityKind → Text → Metric F → World F S × Metric F
  unfolding push_metric
  evaluate_and_push w host_id kind id m = elim w.monitor [
    | none ↦ (push_metric w kind id m, m)
    | some e ↦
        let (e', ev) = evaluate_metric e (env.clock w.reads) kind id m in
        let labelled = record m { mode = effective_mode e' kind id } in
        let after =
          record_transition env ops (record (ticked w) { monitor = some e' }) host_id id ev in
        (push_metric after kind id labelled, labelled)
  ]

  -- RecordMetric, and the historical sample that follows it.
  unfoldable pub store_metric : World F S → Metric F → World F S × Option StoreError
  store_metric w m =
      let (s, failure) = ops.record_metric w.store m in
      let after = record w { store = s } in
      elim failure [
        | some e ↦ (after, some e)
        | none ↦
            (if w.historical then record after { samples = w.samples ++ (m ∷ []) } else after, none)
      ]

  -- One round of the metric loop: `switch m.EntityType`, where the container case may `continue`.
  unfoldable pub ingest_metric : World F S → Text → Known → Metric F → World F S × Option StoreError
  unfolding evaluate_and_push store_metric
  ingest_metric w host_id known m =
      if text_eq m.entity_type (codes "host")
      then (let (after, labelled) =
            evaluate_and_push w host_id entity_host host_id (record m { entity_id = host_id }) in
          store_metric after labelled)
      else if text_eq m.entity_type (codes "container")
      then elim (lookup m.entity_id known) [
        | none ↦ (w, none)
        | some (id, _) ↦
            let (after, labelled) =
              evaluate_and_push w host_id entity_container id (record m { entity_id = id }) in
            store_metric after labelled
      ]
      else store_metric w m

  unfoldable pub ingest_metrics :
      World F S → Text → Known → List (Metric F) → World F S × Option StoreError
  ingest_metrics w host_id known [] = (w, none)
  ingest_metrics w host_id known (m ∷ rest) =
      let (after, failure) = ingest_metric w host_id known m in
      elim failure [ some e ↦ (after, some e) | none ↦ ingest_metrics after host_id known rest ]
