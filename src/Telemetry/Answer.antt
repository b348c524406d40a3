-- ===== src/Telemetry/Answer.antt =====
-- What IngestTelemetry answers (internal/controlplane/agentregistry/registry.go).
use docker_monitoring.Prelude.{
  suc, ◌≡◌, refl, ap, ◌∙◌, sym, subst, Bool, true, false, ◌||◌, inl, inr, Option, none, some, List,
  [], ◌∷◌, ◌++◌, append_assoc, append-nil, Text, text_eq, text_eq_iff, text_eq_refl, lookup, insert,
  lookup-insert, All, if◌then◌else◌, arith,
}
use docker_monitoring.Prelude.Int.{ℤ, pos, ◌≤ℤ◌}
use docker_monitoring.Models.{Float64, MonitoringMode, Container, Host}
use docker_monitoring.Monitoring.{
  entity_host, entity_container, Engine, effective_mode, interval_seconds, fastest_mode,
}
use docker_monitoring.Monitoring.Modes.{IntervalsFall, interval-fastest_mode}
use docker_monitoring.Storage.{Store, Found-cases}
use docker_monitoring.World.{Env, World}
use docker_monitoring.Registry.{ok, save_host}
use docker_monitoring.Telemetry.{
  ContainerReport, TelemetryReport, TelemetryResult, Known, id_in, container_id,
  find_container_by_docker_id, discover, evaluate_reports,
}
use docker_monitoring.Telemetry.Metrics.{ingest_metrics}
use docker_monitoring.Telemetry.Ingest.{
  mode_in, container_from, upsert_reports, answer, settle, ingest_telemetry,
}

-- A Docker ID stands in a batch.
abbrev pub reported : Text → List ContainerReport → Bool
reported d [] = false
reported d (r ∷ rest) = reported d rest || text_eq r.docker_container_id d

module _ {F S : Type 0} (env : Env) (ops : Store F S) where
  -- What is known after the discovery loop: for a reported container, the ID that its host and
  -- Docker ID determine, and its record in the store; for any other, what was known before.
  pub discover_lem :
      (s : S) (host_id d : Text) (reports : List ContainerReport) (known : Known)
      → lookup d (discover env ops s host_id known reports) ≡ (
          if reported d reports
          then some
              (container_id env ops host_id d, find_container_by_docker_id env ops s host_id d)
          else lookup d known)
  unfolding discover
  discover_lem s host_id d [] known = refl
  discover_lem s host_id d (r ∷ rest) known =
      let entry : Text × Option Container = (
        container_id env ops host_id r.docker_container_id,
        find_container_by_docker_id env ops s host_id r.docker_container_id,
      ) in
      ground (
        arith,
        discover_lem s host_id d rest (insert r.docker_container_id entry known),
        lookup-insert r.docker_container_id d entry known,
        text_eq_iff r.docker_container_id d,
      )

pub reported_each :
    (rest whole : List ContainerReport)
    → ((d : Text) → reported d rest ≡ true → reported d whole ≡ true)
    → All (λ r. reported r.docker_container_id whole ≡ true) rest
reported_each [] whole inside = tt
reported_each (r ∷ rest) whole inside = (
  inside r.docker_container_id (ground (arith, text_eq_refl r.docker_container_id)),
  reported_each rest whole (λ d h. inside d (ground arith)),
)

-- The modes that an engine has for the containers of some reports.
unfoldable pub report_modes :
    {F : Type 0} → Option (Engine F) → Known → List ContainerReport → List MonitoringMode
report_modes monitor known [] = []
report_modes monitor known (r ∷ rest) =
    mode_in monitor entity_container (id_in known r.docker_container_id)
    ∷ report_modes monitor known rest

-- The interval of a mode, or 60 seconds without an engine.
unfoldable pub interval_in : {F : Type 0} → Option (Engine F) → MonitoringMode → ℤ
interval_in none mode = pos 60
interval_in (some e) mode = interval_seconds e mode

module _ {F S : Type 0} (env : Env) (ops : Store F S) where
  pub upsert_reports-monitor :
      (w : World F S) (host_id : Text) (known : Known) (reports : List ContainerReport)
      (modes : List MonitoringMode)
      → (upsert_reports env ops w host_id known reports modes).0.monitor ≡ w.monitor
  unfolding upsert_reports
  upsert_reports-monitor w host_id known [] modes = refl
  upsert_reports-monitor w host_id known (r ∷ rest) modes =
      let mode = mode_in w.monitor entity_container (id_in known r.docker_container_id) in
      let (s, _) =
        ops.upsert_container w.store (env.clock (suc w.reads))
          (container_from (env.clock w.reads) host_id known r mode) in
      ground (
        arith,
        upsert_reports-monitor (record w { store = s; reads = suc (suc w.reads) }) host_id known
            rest (modes ++ (mode ∷ [])),
      )

  upsert_reports-modes :
      (w : World F S) (host_id : Text) (known : Known) (reports : List ContainerReport)
      (modes : List MonitoringMode)
      → (upsert_reports env ops w host_id known reports modes).2 ≡ none
      → (upsert_reports env ops w host_id known reports modes).1
        ≡ modes ++ report_modes w.monitor known reports
  unfolding upsert_reports report_modes
  upsert_reports-modes w host_id known [] modes e = sym (append-nil modes)
  upsert_reports-modes w host_id known (r ∷ rest) modes e =
      let mode = mode_in w.monitor entity_container (id_in known r.docker_container_id) in
      let (s, _) =
        ops.upsert_container w.store (env.clock (suc w.reads))
          (container_from (env.clock w.reads) host_id known r mode) in
      ground (
        arith,
        upsert_reports-modes (record w { store = s; reads = suc (suc w.reads) }) host_id known rest
            (modes ++ (mode ∷ [])),
        append_assoc modes (mode ∷ []) (report_modes w.monitor known rest),
      )

  answer-parts :
      (w : World F S) (host : Host) (host_id : Text) (modes : List MonitoringMode)
      (r : TelemetryResult)
      → (answer env ops w host host_id modes).1 ≡ ok r
      → ((answer env ops w host host_id modes).0.monitor ≡ w.monitor)
        × (r.mode ≡ fastest_mode (mode_in w.monitor entity_host host_id ∷ modes))
        × (r.interval_seconds ≡ interval_in w.monitor r.mode)
  unfolding answer save_host interval_in
  answer-parts w host host_id modes r e = ground arith

  -- The modes that an engine has for the containers of a batch, under the IDs that the host and the
  -- Docker IDs determine.
  unfoldable pub wanted_modes :
      Option (Engine F) → Text → List ContainerReport → List MonitoringMode
  wanted_modes monitor host_id [] = []
  wanted_modes monitor host_id (r ∷ rest) =
      mode_in monitor entity_container (container_id env ops host_id r.docker_container_id)
      ∷ wanted_modes monitor host_id rest

  report_modes-wanted :
      (monitor : Option (Engine F)) (s : S) (host_id : Text) (batch reports : List ContainerReport)
      → All (λ r. reported r.docker_container_id batch ≡ true) reports
      → report_modes monitor (discover env ops s host_id [] batch) reports
        ≡ wanted_modes monitor host_id reports
  unfolding report_modes wanted_modes
  report_modes-wanted monitor s host_id batch [] h = refl
  report_modes-wanted monitor s host_id batch (r ∷ rest) h = ground (
    arith,
    discover_lem env ops s host_id r.docker_container_id batch [],
    report_modes-wanted monitor s host_id batch rest h.1,
  )

module _ {F S : Type 0} ⦃fl : Float64 F⦄ (env : Env) (ops : Store F S) where
  settle-parts :
      (w : World F S) (host : Host) (host_id : Text) (known : Known)
      (reports : List ContainerReport) (r : TelemetryResult)
      → (settle env ops w host host_id known reports).1 ≡ ok r
      → ((settle env ops w host host_id known reports).0.monitor ≡ w.monitor)
        × (r.mode
            ≡ fastest_mode
                (mode_in w.monitor entity_host host_id ∷ report_modes w.monitor known reports))
        × (r.interval_seconds ≡ interval_in w.monitor r.mode)
  unfolding settle
  settle-parts w host host_id known reports r e =
      let (after, modes, _) = upsert_reports env ops w host_id known reports [] in
      ground (
        arith,
        upsert_reports-monitor env ops w host_id known reports [],
        upsert_reports-modes env ops w host_id known reports [],
        answer-parts env ops after host host_id modes r,
      )

  settled_world :
      (w : World F S) (host_id : Text) (report : TelemetryReport F) (r : TelemetryResult)
      → (ingest_telemetry env ops w host_id report).1 ≡ ok r
      → (measured : World F S) × (host : Host) × (ingest_telemetry env ops w host_id report
          ≡ settle env ops measured host host_id
              (discover env ops w.store host_id [] report.containers)
              report.containers)
  unfolding ingest_telemetry
  settled_world w host_id report r e = elim (Found-cases (ops.get_host w.store host_id)) [
    | inl (x, lost) ↦ absurd (ground arith)
    | inr (host, got) ↦
        let known = discover env ops w.store host_id [] report.containers in
        let judged = evaluate_reports env ops w host_id known report.containers in
        ((ingest_metrics env ops judged host_id known report.metrics).0, host, ground arith)
  ]

  -- The answer to a batch that is ingested is the fastest of the host's mode and the modes of every
  -- container in the batch, as the engine has them when the call returns, and its interval is the
  -- engine's for that mode (60 seconds without an engine).
  pub ingest-answer :
      (w : World F S) (host_id : Text) (report : TelemetryReport F) (r : TelemetryResult)
      → (ingest_telemetry env ops w host_id report).1 ≡ ok r
      → let monitor = (ingest_telemetry env ops w host_id report).0.monitor in
        (r.mode
          ≡ fastest_mode (
              mode_in monitor entity_host host_id
              ∷ wanted_modes env ops monitor host_id report.containers))
        × (r.interval_seconds ≡ interval_in monitor r.mode)
  ingest-answer w host_id report r e =
      let (measured, host, whole) = settled_world w host_id report r e in
      let known = discover env ops w.store host_id [] report.containers in
      ground (
        arith,
        whole,
        settle-parts measured host host_id known report.containers r,
        report_modes-wanted env ops measured.monitor w.store host_id report.containers
            report.containers (reported_each report.containers report.containers (λ d h. h)),
      )

  -- The agent is never told to poll less often than its host or a container of the batch needs:
  -- where the configured intervals fall with the mode, the answered interval is at most the
  -- interval of the host's mode and of the mode of every container in the batch.
  pub ingest-not_slower :
      (w : World F S) (host_id : Text) (report : TelemetryReport F) (r : TelemetryResult)
      (e : Engine F)
      → (ingest_telemetry env ops w host_id report).1 ≡ ok r
      → (ingest_telemetry env ops w host_id report).0.monitor ≡ some e
      → IntervalsFall e.cfg
      → All
          (λ mode. r.interval_seconds ≤ℤ interval_seconds e mode)
          (effective_mode e entity_host host_id
            ∷ wanted_modes env ops (some e) host_id report.containers)
  unfolding mode_in interval_in
  ingest-not_slower w host_id report r e done monitor falls =
      let (fastest, interval) = rw monitor at (ingest-answer w host_id report r done) in
      subst
        (λ i.
          All (λ mode. i ≤ℤ interval_seconds e mode)
            (effective_mode e entity_host host_id
              ∷ wanted_modes env ops (some e) host_id report.containers))
        (sym (interval ∙ ap (interval_seconds e) fastest))
        (interval-fastest_mode e (effective_mode e entity_host host_id)
          (wanted_modes env ops (some e) host_id report.containers) falls)
