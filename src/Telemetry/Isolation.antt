-- ===== src/Telemetry/Isolation.antt =====
-- One agent's telemetry and the engine's state for everyone else's hosts and containers
-- (IngestTelemetry of internal/controlplane/agentregistry/registry.go).
use docker_monitoring.Prelude.{
  ℕ, ◌≡◌, refl, ap, ◌∙◌, sym, subst, true, false, ◌&&◌, inl, inr, Option, none, some, List, [], ◌∷◌,
  Text, text_eq, lookup, All, arith, Option-cases, Bool-cases,
}
use docker_monitoring.Prelude.Int.{ℤ}
use docker_monitoring.Models.{Float64, Metric, Host}
use docker_monitoring.Monitoring.{
  EntityKind, entity_host, entity_container, EntityState, fresh_state, Engine, TransitionEvent,
  get_or_create, evaluate_metric, evaluate_container_health,
}
use docker_monitoring.Monitoring.Isolation.{kind_eq, get_or_create-put_state}
use docker_monitoring.Storage.{Store, Found-cases}
use docker_monitoring.World.{Env, World, ticked}
use docker_monitoring.Recorder.{RecordInput, record_event, push_event}
use docker_monitoring.Registry.{save_host}
use docker_monitoring.Telemetry.{
  ContainerReport, TelemetryReport, Known, id_in, container_id, discover, record_transition,
  evaluate_with, evaluate_report, evaluate_reports,
}
use docker_monitoring.Telemetry.Metrics.{
  push_metric, evaluate_and_push, store_metric, ingest_metric, ingest_metrics,
}
use docker_monitoring.Telemetry.Ingest.{answer, settle, ingest_telemetry}
use docker_monitoring.Telemetry.Answer.{
  reported, reported_each, discover_lem, upsert_reports-monitor,
}

-- What an optional engine keeps for an entity.
unfoldable pub state_in : {F : Type 0} → Option (Engine F) → EntityKind → Text → EntityState
state_in none kind id = fresh_state
state_in (some e) kind id = get_or_create e kind id

module _ {F S : Type 0} (env : Env) (ops : Store F S) where
  record_event-monitor :
      (w : World F S) (input : RecordInput) → (record_event env ops w input).0.monitor ≡ w.monitor
  unfolding record_event push_event
  record_event-monitor w input = ground arith

  record_transition-monitor :
      (w : World F S) (host_id id : Text) (ev : Option TransitionEvent)
      → (record_transition env ops w host_id id ev).monitor ≡ w.monitor
  unfolding record_transition
  record_transition-monitor w host_id id none = refl
  record_transition-monitor w host_id id (some ev) = record_event-monitor w _

module _ {F S : Type 0} (env : Env) (ops : Store F S) where
  id_in-discover :
      (s : S) (host_id d : Text) (batch : List ContainerReport)
      → reported d batch ≡ true
      → id_in (discover env ops s host_id [] batch) d ≡ container_id env ops host_id d
  id_in-discover s host_id d batch h = ground (arith, discover_lem env ops s host_id d batch [])

-- The entity is another one than `(kind, id)`.
abbrev pub Differs : EntityKind → Text → EntityKind → Text → Type 0
Differs kind id other another = (kind_eq kind other && text_eq id another) ≡ false

module _ {F : Type 0} ⦃fl : Float64 F⦄ where
  evaluate_container_health-other :
      (e : Engine F) (now : ℕ) (id : Text) (r : ContainerReport) (previous : ℤ) (other : EntityKind)
      (another : Text)
      → Differs entity_container id other another
      → get_or_create
          (evaluate_container_health e now id r.status r.health_status r.restart_count previous).0
          other
          another
        ≡ get_or_create e other another
  unfolding evaluate_container_health
  evaluate_container_health-other e now id r previous other another d =
      get_or_create-put_state e entity_container other id another _ ∙ rw d refl

  evaluate_metric-other :
      (e : Engine F) (now : ℕ) (kind other : EntityKind) (id another : Text) (m : Metric F)
      → Differs kind id other another
      → get_or_create (evaluate_metric e now kind id m).0 other another
        ≡ get_or_create e other another
  unfolding evaluate_metric
  evaluate_metric-other e now kind other id another m d =
      get_or_create-put_state e kind other id another _ ∙ rw d refl

module _ {F S : Type 0} ⦃fl : Float64 F⦄ (env : Env) (ops : Store F S) (host_id : Text)
    (other : EntityKind) (another : Text) where
  evaluate_with-other :
      (w : World F S) (e : Engine F) (known : Known) (r : ContainerReport)
      → Differs entity_container (id_in known r.docker_container_id) other another
      → state_in (evaluate_with env ops w e host_id known r).monitor other another
        ≡ get_or_create e other another
  unfolding evaluate_with state_in
  evaluate_with-other w e known r d =
      ap (λ monitor. state_in monitor other another)
        (record_transition-monitor env ops _ host_id _ _)
      ∙ evaluate_container_health-other e (env.clock w.reads) _ r _ other another d

  evaluate_report-other :
      (w : World F S) (known : Known) (r : ContainerReport)
      → Differs entity_container (id_in known r.docker_container_id) other another
      → state_in (evaluate_report env ops w host_id known r).monitor other another
        ≡ state_in w.monitor other another
  unfolding evaluate_report state_in
  evaluate_report-other w known r d = elim (Option-cases w.monitor) [
    | inl e ↦ ground arith
    | inr (e, has) ↦ ground (arith, has, evaluate_with-other w e known r d)
  ]

  evaluate_and_push-other :
      (w : World F S) (kind : EntityKind) (id : Text) (m : Metric F)
      → Differs kind id other another
      → state_in (evaluate_and_push env ops w host_id kind id m).0.monitor other another
        ≡ state_in w.monitor other another
  unfolding evaluate_and_push state_in push_metric
  evaluate_and_push-other w kind id m d = elim (Option-cases w.monitor) [
    | inl e ↦ ground arith
    | inr (e, has) ↦
        let (e', ev) = evaluate_metric e (env.clock w.reads) kind id m in
        ground (
          arith,
          has,
          evaluate_metric-other e (env.clock w.reads) kind other id another m d,
          record_transition-monitor env ops (record (ticked w) { monitor = some e' }) host_id id ev,
        )
  ]

  store_metric-monitor :
      (w : World F S) (m : Metric F) → (store_metric env ops w m).0.monitor ≡ w.monitor
  unfolding store_metric
  store_metric-monitor w m = ground arith

  -- No container of the batch is the entity.
  abbrev pub NotReported : List ContainerReport → Type 0
  NotReported batch =
      (d : Text)
      → reported d batch ≡ true
      → Differs entity_container (container_id env ops host_id d) other another

  evaluate_reports-other :
      (w : World F S) (s : S) (batch reports : List ContainerReport)
      → NotReported batch
      → All (λ r. reported r.docker_container_id batch ≡ true) reports
      → state_in
          (evaluate_reports env ops w host_id (discover env ops s host_id [] batch) reports).monitor
          other
          another
        ≡ state_in w.monitor other another
  unfolding evaluate_reports
  evaluate_reports-other w s batch [] absent inside = refl
  evaluate_reports-other w s batch (r ∷ rest) absent inside =
      let known = discover env ops s host_id [] batch in
      evaluate_reports-other (evaluate_report env ops w host_id known r) s batch rest absent
        inside.1
      ∙ evaluate_report-other w known r (
          subst (λ id. Differs entity_container id other another)
            (sym (id_in-discover env ops s host_id r.docker_container_id batch inside.0))
            (absent r.docker_container_id inside.0))

  translated-other :
      (w : World F S) (kind : EntityKind) (id : Text) (m : Metric F)
      → Differs kind id other another
      → (let (after, labelled) = evaluate_and_push env ops w host_id kind id m in
          state_in (store_metric env ops after labelled).0.monitor other another
          ≡ state_in w.monitor other another)
  translated-other w kind id m d =
      let (after, labelled) = evaluate_and_push env ops w host_id kind id m in
      ap (λ monitor. state_in monitor other another) (store_metric-monitor after labelled)
      ∙ evaluate_and_push-other w kind id m d

  ingest_metric-other :
      (w : World F S) (s : S) (batch : List ContainerReport) (m : Metric F)
      → NotReported batch
      → Differs entity_host host_id other another
      → state_in
          (ingest_metric env ops w host_id (discover env ops s host_id [] batch) m).0.monitor
          other
          another
        ≡ state_in w.monitor other another
  unfolding ingest_metric lookup
  ingest_metric-other w s batch m absent elsewhere =
      let there = discover_lem env ops s host_id m.entity_id batch [] in
      let own =
        translated-other w entity_host host_id (record m { entity_id = host_id }) elsewhere in
      let id = container_id env ops host_id m.entity_id in
      elim (Bool-cases (reported m.entity_id batch)) [
        | inl known ↦ ground (
          arith,
          there,
          own,
          store_metric-monitor w m,
          translated-other w entity_container id (record m { entity_id = id })
              (absent m.entity_id known),
        )
        | inr unknown ↦ ground (arith, there, own, store_metric-monitor w m)
      ]

  ingest_metrics-other :
      (w : World F S) (s : S) (batch : List ContainerReport) (metrics : List (Metric F))
      → NotReported batch
      → Differs entity_host host_id other another
      → state_in
          (ingest_metrics env ops w host_id (discover env ops s host_id [] batch) metrics).0.monitor
          other
          another
        ≡ state_in w.monitor other another
  unfolding ingest_metrics
  ingest_metrics-other w s batch [] absent elsewhere = refl
  ingest_metrics-other w s batch (m ∷ rest) absent elsewhere =
      let (after, failure) =
        ingest_metric env ops w host_id (discover env ops s host_id [] batch) m in
      ground (
        arith,
        ingest_metric-other w s batch m absent elsewhere,
        ingest_metrics-other after s batch rest absent elsewhere,
      )

  settle-monitor :
      (w : World F S) (host : Host) (known : Known) (reports : List ContainerReport)
      → (settle env ops w host host_id known reports).0.monitor ≡ w.monitor
  unfolding settle answer save_host
  settle-monitor w host known reports =
      ground (arith, upsert_reports-monitor env ops w host_id known reports [])

  -- Telemetry of one host's agent leaves the engine's state of every other host and container as it
  -- is, also when the call fails: of each entity that is neither the agent's host nor one of the
  -- batch's containers under the ID that the host and its Docker ID determine.
  pub ingest-other :
      (w : World F S) (report : TelemetryReport F)
      → Differs entity_host host_id other another
      → NotReported report.containers
      → state_in (ingest_telemetry env ops w host_id report).0.monitor other another
        ≡ state_in w.monitor other another
  unfolding ingest_telemetry
  ingest-other w report elsewhere absent = elim (Found-cases (ops.get_host w.store host_id)) [
    | inl (x, lost) ↦ ground (arith, lost)
    | inr (host, got) ↦
        let batch = report.containers in
        let known = discover env ops w.store host_id [] batch in
        let judged = evaluate_reports env ops w host_id known batch in
        let measured = (ingest_metrics env ops judged host_id known report.metrics).0 in
        ground (
          arith,
          got,
          evaluate_reports-other w w.store batch batch absent
              (reported_each batch batch (λ d h. h)),
          ingest_metrics-other judged w.store batch report.metrics absent elsewhere,
          settle-monitor measured host known batch,
        )
  ]
