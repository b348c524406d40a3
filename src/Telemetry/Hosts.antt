-- ===== src/Telemetry/Hosts.antt =====
-- One host's telemetry and the records of the other hosts (internal/controlplane/agentregistry/registry.go).
use docker_monitoring.Prelude.{
  suc, ◌≡◌, refl, ap, ◌∙◌, false, Option, none, some, List, [], ◌∷◌, ◌++◌, Text, text_eq, arith,
  Option-cases, inl, inr, lookup,
}
use docker_monitoring.Models.{Float64, Metric, Host, MonitoringMode}
use docker_monitoring.Monitoring.{
  EntityKind, entity_host, entity_container, TransitionEvent, evaluate_metric,
}
use docker_monitoring.Storage.{Store, Found-cases}
use docker_monitoring.Storage.Laws.{HostLaws}
use docker_monitoring.World.{Env, World, ticked}
use docker_monitoring.Recorder.{RecordInput, record_event}
use docker_monitoring.Registry.{save_host}
use docker_monitoring.Registry.Enrollment.{record_event-store}
use docker_monitoring.Telemetry.{
  ContainerReport, TelemetryReport, Known, record_transition, transition_input, evaluate_with,
  evaluate_report, evaluate_reports, discover, id_in,
}
use docker_monitoring.Telemetry.Metrics.{
  push_metric, evaluate_and_push, store_metric, ingest_metric, ingest_metrics,
}
use docker_monitoring.Telemetry.Ingest.{
  mode_in, container_from, upsert_reports, answer, settle, ingest_telemetry,
}

module _ {F S : Type 0} (env : Env) (ops : Store F S) (laws : HostLaws ops) (other : Text) where
  pub record_event-get_host :
      (w : World F S) (input : RecordInput)
      → ops.get_host (record_event env ops w input).0.store other ≡ ops.get_host w.store other
  record_event-get_host w input =
      ap (λ (s : S). ops.get_host s other) (record_event-store env ops w input)
      ∙ laws.get_host-append _ _ _ other

  record_transition-get_host :
      (w : World F S) (host_id id : Text) (ev : Option TransitionEvent)
      → ops.get_host (record_transition env ops w host_id id ev).store other
        ≡ ops.get_host w.store other
  unfolding record_transition
  record_transition-get_host w host_id id none = refl
  record_transition-get_host w host_id id (some ev) =
      record_event-get_host w (transition_input host_id id ev)

  -- A write of a host's record, whether it fails or not.
  pub save_host-get_host :
      (w : World F S) (h : Host)
      → text_eq h.id other ≡ false
      → ops.get_host (save_host env ops w h).0.store other ≡ ops.get_host w.store other
  unfolding save_host
  save_host-get_host w h differs = elim (Option-cases (ops.update_host w.store h).1) [
    | inl done ↦ ground (arith, laws.get_host-update w.store h other done)
    | inr (e, failed) ↦ laws.get_host-failed w.store h e other failed
  ]

  evaluate_report-get_host :
      (w : World F S) (host_id : Text) (known : Known) (r : ContainerReport)
      → ops.get_host (evaluate_report env ops w host_id known r).store other
        ≡ ops.get_host w.store other
  unfolding evaluate_report evaluate_with
  evaluate_report-get_host w host_id known r = elim (Option-cases w.monitor) [
    | inl e ↦ ground (arith, e)
    | inr (e, has) ↦ rw (has, evaluate_report) (record_transition-get_host _ host_id _ _)
  ]

  evaluate_reports-get_host :
      (w : World F S) (host_id : Text) (known : Known) (reports : List ContainerReport)
      → ops.get_host (evaluate_reports env ops w host_id known reports).store other
        ≡ ops.get_host w.store other
  unfolding evaluate_reports
  evaluate_reports-get_host w host_id known [] = refl
  evaluate_reports-get_host w host_id known (r ∷ rest) =
      evaluate_reports-get_host (evaluate_report env ops w host_id known r) host_id known rest
      ∙ evaluate_report-get_host w host_id known r

  upsert_reports-get_host :
      (w : World F S) (host_id : Text) (known : Known) (reports : List ContainerReport)
      (modes : List MonitoringMode)
      → ops.get_host (upsert_reports env ops w host_id known reports modes).0.store other
        ≡ ops.get_host w.store other
  unfolding upsert_reports
  upsert_reports-get_host w host_id known [] modes = refl
  upsert_reports-get_host w host_id known (r ∷ rest) modes =
      let mode = mode_in w.monitor entity_container (id_in known r.docker_container_id) in
      let c = container_from (env.clock w.reads) host_id known r mode in
      let (s, failure) = ops.upsert_container w.store (env.clock (suc w.reads)) c in
      let after : World F S = record w { store = s; reads = suc (suc w.reads) } in
      ground (
        arith,
        laws.get_host-upsert_container w.store (env.clock (suc w.reads)) c other,
        upsert_reports-get_host after host_id known rest (modes ++ (mode ∷ [])),
      )

  answer-get_host :
      (w : World F S) (host : Host) (host_id : Text) (modes : List MonitoringMode)
      → text_eq host.id other ≡ false
      → ops.get_host (answer env ops w host host_id modes).0.store other
        ≡ ops.get_host w.store other
  unfolding answer
  answer-get_host w host host_id modes differs = ground (
    arith,
    save_host-get_host w (record host { monitoring_mode = mode_in w.monitor entity_host host_id })
        differs,
  )

module _ {F S : Type 0} ⦃fl : Float64 F⦄ (env : Env) (ops : Store F S) (laws : HostLaws ops)
    (other : Text) where
  evaluate_and_push-get_host :
      (w : World F S) (host_id : Text) (kind : EntityKind) (id : Text) (m : Metric F)
      → ops.get_host (evaluate_and_push env ops w host_id kind id m).0.store other
        ≡ ops.get_host w.store other
  unfolding evaluate_and_push push_metric
  evaluate_and_push-get_host w host_id kind id m = elim (Option-cases w.monitor) [
    | inl e ↦ ground arith
    | inr (e, has) ↦
        let (e', ev) = evaluate_metric e (env.clock w.reads) kind id m in
        ground (
          arith,
          has,
          record_transition-get_host env ops laws other (record (ticked w) { monitor = some e' })
              host_id id ev,
        )
  ]

  store_metric-get_host :
      (w : World F S) (m : Metric F)
      → ops.get_host (store_metric env ops w m).0.store other ≡ ops.get_host w.store other
  unfolding store_metric
  store_metric-get_host w m = ground (arith, laws.get_host-record_metric w.store m other)

  translated-get_host :
      (w : World F S) (host_id : Text) (kind : EntityKind) (id : Text) (m : Metric F)
      → (let (after, labelled) = evaluate_and_push env ops w host_id kind id m in
          ops.get_host (store_metric env ops after labelled).0.store other
          ≡ ops.get_host w.store other)
  translated-get_host w host_id kind id m =
      let (after, labelled) = evaluate_and_push env ops w host_id kind id m in
      store_metric-get_host after labelled ∙ evaluate_and_push-get_host w host_id kind id m

  ingest_metric-get_host :
      (w : World F S) (host_id : Text) (known : Known) (m : Metric F)
      → ops.get_host (ingest_metric env ops w host_id known m).0.store other
        ≡ ops.get_host w.store other
  unfolding ingest_metric
  ingest_metric-get_host w host_id known m =
      let own =
        translated-get_host w host_id entity_host host_id (record m { entity_id = host_id }) in
      let stored = store_metric-get_host w m in
      elim (Option-cases (lookup m.entity_id known)) [
        | inl unknown ↦ ground (arith, own, stored, unknown)
        | inr (entry, has) ↦ ground (
          arith,
          own,
          stored,
          has,
          translated-get_host w host_id entity_container entry.0 (record m { entity_id = entry.0 }),
        )
      ]

  ingest_metrics-get_host :
      (w : World F S) (host_id : Text) (known : Known) (metrics : List (Metric F))
      → ops.get_host (ingest_metrics env ops w host_id known metrics).0.store other
        ≡ ops.get_host w.store other
  unfolding ingest_metrics
  ingest_metrics-get_host w host_id known [] = refl
  ingest_metrics-get_host w host_id known (m ∷ rest) =
      let (after, failure) = ingest_metric env ops w host_id known m in
      ground (
        arith,
        ingest_metric-get_host w host_id known m,
        ingest_metrics-get_host after host_id known rest,
      )

  settle-get_host :
      (w : World F S) (host : Host) (host_id : Text) (known : Known)
      (reports : List ContainerReport)
      → text_eq host.id other ≡ false
      → ops.get_host (settle env ops w host host_id known reports).0.store other
        ≡ ops.get_host w.store other
  unfolding settle
  settle-get_host w host host_id known reports differs =
      let (after, modes, failure) = upsert_reports env ops w host_id known reports [] in
      ground (
        arith,
        upsert_reports-get_host env ops laws other w host_id known reports [],
        answer-get_host env ops laws other after host host_id modes differs,
      )

  pub ingest_telemetry-get_host :
      (w : World F S) (host_id : Text) (report : TelemetryReport F)
      → laws.IsValid w.store
      → text_eq host_id other ≡ false
      → ops.get_host (ingest_telemetry env ops w host_id report).0.store other
        ≡ ops.get_host w.store other
  unfolding ingest_telemetry
  ingest_telemetry-get_host w host_id report v differs =
      elim (Found-cases (ops.get_host w.store host_id)) [
        | inl (x, lost) ↦ ground (arith, lost)
        | inr (host, got) ↦
            let batch = report.containers in
            let known = discover env ops w.store host_id [] batch in
            let judged = evaluate_reports env ops w host_id known batch in
            let measured = (ingest_metrics env ops judged host_id known report.metrics).0 in
            ground (
              arith,
              got,
              laws.get_host-id w.store host_id host v got,
              evaluate_reports-get_host env ops laws other w host_id known batch,
              ingest_metrics-get_host judged host_id known report.metrics,
              settle-get_host measured host host_id known batch,
            )
      ]
