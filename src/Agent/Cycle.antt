-- ===== src/Agent/Cycle.antt =====
-- What a cycle of the agent (internal/agent/collector/collector.go) sends, and what it does with the
-- control plane's answer.
use docker_monitoring.Prelude.{
  ℕ, ◌≤◌, ◌<◌, ◌≡◌, inl, inr, ◌⊎◌, Bool, true, false, Option, some, List, [], ◌∷◌, text_eq_refl,
  All, All-append, arith, Option-cases,
}
use docker_monitoring.Prelude.Int.{ℤ, pos}
use docker_monitoring.Models.{Float64, MonitoringMode, normal, critical, manual_realtime, Metric}
use docker_monitoring.Monitoring.{Engine, interval_seconds}
use docker_monitoring.Telemetry.{ContainerReport, TelemetryResult}
use docker_monitoring.Telemetry.Answer.{reported}
use docker_monitoring.Stats.{to_metric}
use docker_monitoring.Agent.{
  Summary, Inspection, Daemon, Collector, set_interval, mode_for_interval, seconds, report_of,
  metric_of, collect_containers, batch_of, collect_and_report,
}

module _ {F : Type 0} where
  -- The agent reads back the mode that the control plane chose from the interval alone: where the
  -- configured intervals are at most 2 s, above that but at most 10 s, and above 10 s, the interval
  -- of each of the three modes gives that mode.
  pub mode_for_interval-interval_seconds :
      (e : Engine F) (manual_s critical_s normal_s : ℕ)
      → e.cfg.manual_interval_seconds ≡ pos manual_s
      → e.cfg.critical_interval_seconds ≡ pos critical_s
      → e.cfg.normal_interval_seconds ≡ pos normal_s
      → manual_s ≤ 2
      → 2 < critical_s
      → critical_s ≤ 10
      → 10 < normal_s
      → (mode_for_interval (seconds (interval_seconds e manual_realtime)) ≡ manual_realtime)
        × (mode_for_interval (seconds (interval_seconds e critical)) ≡ critical)
        × (mode_for_interval (seconds (interval_seconds e normal)) ≡ normal)
  unfolding mode_for_interval interval_seconds
  mode_for_interval-interval_seconds e manual_s critical_s normal_s a b c l2 g2 l10 g10 =
      (ground arith, ground arith, ground arith)

module _ {F : Type 0} ⦃fl : Float64 F⦄ (daemon : Daemon F) where
  -- A metric is of a container in a batch.
  abbrev pub IsReportedIn : List ContainerReport → Metric F → Type 0
  IsReportedIn reports m = reported m.entity_id reports ≡ true

  wider :
      (r : ContainerReport) (reports : List ContainerReport) (metrics : List (Metric F))
      → All (IsReportedIn reports) metrics
      → All (IsReportedIn (r ∷ reports)) metrics
  wider r reports [] h = tt
  wider r reports (m ∷ rest) h = (ground arith, wider r reports rest h.1)

  metric_of-reported :
      (mode : MonitoringMode) (secs : ℤ) (s : Summary) (insp : Inspection)
      (reports : List ContainerReport) (is_running : Bool)
      → All (IsReportedIn (report_of s insp ∷ reports)) (metric_of daemon mode secs s.id is_running)
  unfolding metric_of report_of to_metric
  metric_of-reported mode secs s insp reports false = tt
  metric_of-reported mode secs s insp reports true = elim (Option-cases (daemon.stats s.id)) [
    | inl e ↦ rw (e, metric_of) tt
    | inr (raw, e) ↦ rw (e, metric_of) (ground (arith, text_eq_refl s.id), tt)
  ]

  -- Every container metric that a cycle collects is of a container that the same cycle reports.
  pub collect_containers-reported :
      (mode : MonitoringMode) (secs : ℤ) (summaries : List Summary)
      → All
          (IsReportedIn (collect_containers daemon mode secs summaries).0)
          (collect_containers daemon mode secs summaries).1
  unfolding collect_containers
  collect_containers-reported mode secs [] = tt
  collect_containers-reported mode secs (s ∷ rest) =
      let (reports, metrics) = collect_containers daemon mode secs rest in
      let others = collect_containers-reported mode secs rest in
      elim (Option-cases (daemon.inspect s.id)) [
        | inl e ↦ rw (e, collect_containers) others
        | inr (insp, e) ↦
            rw (e, collect_containers)
              (All-append (IsReportedIn (report_of s insp ∷ reports))
                (metric_of daemon mode secs s.id insp.is_running) metrics
                (metric_of-reported mode secs s insp reports insp.is_running)
                (wider (report_of s insp) reports metrics others))
      ]

  -- A cycle that succeeds has sent its batch, polls from then on at the interval that the control
  -- plane answered, and wakes its loop; a cycle that fails leaves the collector as it was.
  pub collect_and_report-interval :
      (send : List ContainerReport → List (Metric F) → Option TelemetryResult) (c : Collector)
      → (((collect_and_report daemon send c).1 ≡ false)
          × ((collect_and_report daemon send c).0 ≡ c))
        ⊎ ((r : TelemetryResult) × (reports : List ContainerReport) × (metrics : List (Metric F))
            × (batch_of daemon c ≡ some (reports, metrics))
            × (send reports metrics ≡ some r)
            × ((collect_and_report daemon send c).0 ≡ set_interval c (seconds r.interval_seconds)))
  unfolding collect_and_report
  collect_and_report-interval send c = elim (Option-cases (batch_of daemon c)) [
    | inl e ↦ inl (ground (arith, e), ground (arith, e))
    | inr (b, e) ↦ elim (Option-cases (send b.0 b.1)) [
      | inl failed ↦ inl (ground (arith, e, failed), ground (arith, e, failed))
      | inr (r, sent) ↦ inr (r, b.0, b.1, e, sent, ground (arith, e, sent))
    ]
  ]
