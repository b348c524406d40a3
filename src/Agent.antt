-- ===== src/Agent.antt =====
-- internal/agent/collector/collector.go: one cycle of the agent.
-- The Docker daemon, /proc and the control plane's answer are parameters. Durations are in
-- nanoseconds and stay within int64: intervals are below 2 ^ 33 seconds.
pub mod Cycle
pub mod Loop
use docker_monitoring.Prelude.{
  ℕ, zero, suc, ◌+◌, ◌-◌, ◌*◌, ◌/◌, ◌%◌, ◌^◌, Bool, true, false, not, ◌&&◌, ◌||◌, Option, none,
  some, List, [], ◌∷◌, ◌++◌, length, Text, codes, text_eq, Map, lookup, ltb, ◌==◌, if◌then◌else◌,
}
use docker_monitoring.Prelude.Int.{ℤ, pos, negsuc, leb_ℤ}
use docker_monitoring.HostStats.{HostSample}
use docker_monitoring.Models.{
  Float64, MonitoringMode, normal, critical, manual_realtime, Metric, ContainerStatus, running,
  exited, paused, unknown_status, HealthStatus, healthy, unhealthy, no_health,
}
use docker_monitoring.Monitoring.{second}
use docker_monitoring.Stats.{StatsRaw, to_metric}
use docker_monitoring.Telemetry.{ContainerReport, TelemetryResult}

pub record Summary : Type 0 where
  pub id : Text
  pub names : List Text
  pub image : Text

-- `health` is the status of State.Health, if that is present.
pub record Inspection : Type 0 where
  pub state : Text
  pub is_running : Bool
  pub health : Option Text
  pub restart_count : ℤ

-- What the daemon and /proc answer in one cycle; `none` is an error.
pub record Daemon (F : Type 0) : Type 0 where
  pub ping : Bool
  pub list_containers : Option (List Summary)
  pub inspect : Text → Option Inspection
  pub stats : Text → Option StatsRaw
  pub host_sample : Option (HostSample F)
  pub parse_time : Text → Option ℕ
  pub now : ℕ

-- The collector's interval in nanoseconds, and whether its two wake channels hold a token.
pub record Collector : Type 0 where
  pub interval : ℤ
  pub reset_tick : Bool
  pub collect_now : Bool

unfoldable pub set_interval : Collector → ℤ → Collector
set_interval c d = record c { interval = d; reset_tick = true }

unfoldable pub request_now : Collector → Collector
request_now c = record c { collect_now = true }

unfoldable pub first_name : List Text → Text
first_name [] = []
first_name ([] ∷ rest) = []
first_name ((c ∷ n) ∷ rest) = if c == b'/' then n else c ∷ n

unfoldable pub container_status : Text → ContainerStatus
container_status state =
    if text_eq state (codes "running")
    then running
    else if text_eq state (codes "exited") || text_eq state (codes "dead")
    then exited
    else if text_eq state (codes "paused")
    then paused
    else unknown_status

unfoldable pub mode_for_interval : ℤ → MonitoringMode
mode_for_interval d =
    if leb_ℤ d (pos (2 * second))
    then manual_realtime
    else if leb_ℤ d (pos (10 * second))
    then critical
    else normal

-- `time.Duration(n) * time.Second`
abbrev pub seconds : ℤ → ℤ
seconds (pos n) = pos (n * second)
seconds (negsuc n) = negsuc (suc n * second - 1)

-- `int(d / time.Second)`, towards zero.
abbrev pub negated : ℕ → ℤ
negated zero = pos zero
negated (suc n) = negsuc n

abbrev pub whole_seconds : ℤ → ℤ
whole_seconds (pos n) = pos (n / second)
whole_seconds (negsuc n) = negated (suc n / second)

unfoldable pub health_of : Option Text → HealthStatus
health_of none = no_health
health_of (some status) = if text_eq status (codes "healthy") then healthy else unhealthy

-- The TelemetryContainer of a container that could be inspected.
unfoldable pub report_of : Summary → Inspection → ContainerReport
report_of s insp = record {
  docker_container_id = s.id;
  name = first_name s.names;
  image = s.image;
  status = container_status insp.state;
  health_status = health_of insp.health;
  restart_count = insp.restart_count;
}

module _ {F : Type 0} ⦃fl : Float64 F⦄ (daemon : Daemon F) where
  -- The metric of a container that is running and whose stats could be read.
  unfoldable pub metric_of : MonitoringMode → ℤ → Text → Bool → List (Metric F)
  metric_of mode secs id false = []
  metric_of mode secs id true = elim (daemon.stats id) [
    | none ↦ []
    | some raw ↦
        to_metric raw (daemon.parse_time raw.read_at) daemon.now (codes "container") id mode secs
        ∷ []
  ]

  -- The loop over the containers: what is reported of them, and their metrics.
  unfoldable pub collect_containers :
      MonitoringMode → ℤ → List Summary → List ContainerReport × List (Metric F)
  unfolding metric_of
  collect_containers mode secs [] = ([], [])
  collect_containers mode secs (s ∷ rest) =
      let (reports, metrics) = collect_containers mode secs rest in
      elim (daemon.inspect s.id) [
        | none ↦ (reports, metrics)
        | some insp ↦
            (report_of s insp ∷ reports, metric_of mode secs s.id insp.is_running ++ metrics)
      ]

  -- The host's own metric, if its statistics could be read; its entity ID is left blank.
  abbrev pub host_metrics : MonitoringMode → ℤ → List (Metric F)
  host_metrics mode secs = elim daemon.host_sample [
    | none ↦ []
    | some s ↦
        record {
          entity_type = codes "host";
          entity_id = [];
          cpu_percent = s.cpu_percent;
          mem_used_bytes = s.mem_used_bytes;
          mem_limit_bytes = s.mem_total_bytes;
          net_rx_bytes = s.net_rx_bytes;
          net_tx_bytes = s.net_tx_bytes;
          collected_at = daemon.now;
          mode = mode;
          interval_seconds = secs;
        }
        ∷ []
  ]

  -- The batch that a cycle sends, if the daemon can be reached and lists its containers.
  unfoldable pub batch_of : Collector → Option (List ContainerReport × List (Metric F))
  unfolding collect_containers
  batch_of c =
      let mode = mode_for_interval c.interval in
      let secs = whole_seconds c.interval in
      if daemon.ping
      then elim daemon.list_containers [
        | none ↦ none
        | some summaries ↦
            let (reports, metrics) = collect_containers mode secs summaries in
            some (reports, host_metrics mode secs ++ metrics)
      ]
      else none

  -- collectAndReport: `send` is SendTelemetry. The result says whether the cycle succeeded.
  unfoldable pub collect_and_report :
      (List ContainerReport → List (Metric F) → Option TelemetryResult)
      → Collector
      → Collector × Bool
  unfolding batch_of set_interval
  collect_and_report send c = elim (batch_of c) [
    | none ↦ (c, false)
    | some (reports, metrics) ↦ elim (send reports metrics) [
      | none ↦ (c, false)
      | some r ↦ (set_interval c (seconds r.interval_seconds), true)
    ]
  ]
