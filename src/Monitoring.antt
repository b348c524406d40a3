-- ===== src/Monitoring.antt =====
-- internal/controlplane/monitoring/engine.go: the adaptive monitoring state machine.
-- Every method locks the engine's mutex for all of its body, so a call is one step; what the clock
-- reads in a call is the argument `now`, in nanoseconds. `goodStreakCount` and `manualViewers`
-- only go up by one or down to 0, so they are natural numbers; a history of fewer than 2 ^ 63 calls
-- does not wrap them. Elapsed times stay within `time.Duration` (292 years).
mod State
pub mod Streak
pub mod Recovery
pub mod Modes
pub mod Isolation
pub mod Flapping
pub use State.*
use docker_monitoring.Prelude.{
  ℕ, suc, ◌+◌, ◌-◌, ◌*◌, ◌^◌, Bool, true, false, not, ◌&&◌, Option, none, some, List, [], ◌∷◌, ◌++◌,
  Text, codes, Map, lookup, insert, ltb, ◌==◌, if◌then◌else◌,
}
use docker_monitoring.Prelude.Int.{ℤ, pos, sub_ℕ, leb_ℤ, ltb_ℤ}
use docker_monitoring.Models.{
  Float64, MonitoringMode, normal, critical, manual_realtime, ContainerStatus, exited, HealthStatus,
  unhealthy, Metric,
}

unfoldable pub state_key : EntityKind → Text → Text
state_key kind id = kind_text kind ++ codes "/" ++ id

abbrev pub or_fresh : Option EntityState → EntityState
or_fresh none = fresh_state
or_fresh (some st) = st

-- The mode of one entity's state.
abbrev pub state_mode : EntityState → MonitoringMode
state_mode st =
    if ltb 0 st.manual_viewers
    then manual_realtime
    else if st.critical_active
    then critical
    else normal

abbrev pub mode_of : Option EntityState → MonitoringMode
mode_of none = normal
mode_of (some st) = state_mode st

-- What a method does to one entity's state, and the transition that it returns.
abbrev pub Outcome : Type 0
Outcome = EntityState × Option (MonitoringMode × Reason)

abbrev pub enter_critical : EntityState → EntityState
enter_critical st = record st { critical_active = true }

-- The body of EvaluateContainerHealth, on the entity's state.
unfoldable pub health_step : ContainerStatus → HealthStatus → ℤ → ℤ → EntityState → Outcome
health_step status health restart_count previous st = elim st.critical_active [
  | true ↦ (st, none)
  | false ↦ elim status [
    | exited ↦ (enter_critical st, some (critical, container_crashed))
    | _ ↦ elim health [
      | unhealthy ↦ (enter_critical st, some (critical, container_unhealthy))
      | _ ↦
          if ltb_ℤ previous restart_count
          then (enter_critical st, some (critical, container_restarted))
          else (st, none)
    ]
  ]
]

unfoldable pub viewer_open : EntityState → EntityState
viewer_open st = record st { manual_viewers = st.manual_viewers + 1 }

unfoldable pub viewer_close : EntityState → EntityState
viewer_close st =
    if ltb 0 st.manual_viewers then record st { manual_viewers = st.manual_viewers - 1 } else st

unfoldable pub event_of :
    EntityKind → Text → ℕ → Option (MonitoringMode × Reason) → Option TransitionEvent
event_of kind id now none = none
event_of kind id now (some (mode, reason)) =
    some (record {
      entity_kind = kind;
      entity_id = id;
      entered_mode = mode;
      reason = reason;
      at = now;
    })

-- `if st.goodStreakCount == 0 { st.goodStreakStart = now }; st.goodStreakCount++`
unfoldable pub count_sample : ℕ → EntityState → EntityState
count_sample now st = record st {
  good_streak_count = suc st.good_streak_count;
  good_streak_start = if st.good_streak_count == 0 then now else st.good_streak_start;
}

module _ {F : Type 0} where
  unfoldable pub new_engine : ThresholdConfig F → Engine F
  new_engine cfg = record { cfg = cfg; state = [] }

  -- getOrCreate
  unfoldable pub get_or_create : Engine F → EntityKind → Text → EntityState
  get_or_create e kind id = or_fresh (lookup (state_key kind id) e.state)

  -- A write through the pointer that getOrCreate returned.
  unfoldable pub put_state : Engine F → EntityKind → Text → EntityState → Engine F
  put_state e kind id st = record e { state = insert (state_key kind id) st e.state }

  unfoldable pub effective_mode : Engine F → EntityKind → Text → MonitoringMode
  effective_mode e kind id = mode_of (lookup (state_key kind id) e.state)

  unfoldable pub evaluate_container_health :
      Engine F
      → ℕ
      → Text
      → ContainerStatus
      → HealthStatus
      → ℤ
      → ℤ
      → Engine F × Option TransitionEvent
  evaluate_container_health e now id status health restart_count previous =
      let (st, change) =
        health_step status health restart_count previous (get_or_create e entity_container id) in
      (put_state e entity_container id st, event_of entity_container id now change)

  unfoldable pub manual_viewer_open : Engine F → EntityKind → Text → Engine F
  manual_viewer_open e kind id = put_state e kind id (viewer_open (get_or_create e kind id))

  unfoldable pub manual_viewer_close : Engine F → EntityKind → Text → Engine F
  manual_viewer_close e kind id = put_state e kind id (viewer_close (get_or_create e kind id))

  unfoldable pub interval_seconds : Engine F → MonitoringMode → ℤ
  interval_seconds e critical = e.cfg.critical_interval_seconds
  interval_seconds e manual_realtime = e.cfg.manual_interval_seconds
  interval_seconds e _ = e.cfg.normal_interval_seconds

module _ {F : Type 0} ⦃fl : Float64 F⦄ where
  unfoldable pub default_thresholds : ThresholdConfig F
  default_thresholds = record {
    cpu_critical_percent = fl.of_ℕ 90;
    cpu_recovery_percent = fl.of_ℕ 75;
    mem_critical_percent = fl.of_ℕ 90;
    mem_recovery_percent = fl.of_ℕ 75;
    hysteresis_window = pos (60 * second);
    min_consecutive_normal_samples = pos 3;
    normal_interval_seconds = pos 60;
    critical_interval_seconds = pos 10;
    manual_interval_seconds = pos 2;
  }

  unfoldable pub mem_percent : Metric F → F
  mem_percent m =
      if m.mem_limit_bytes == 0
      then fl.of_ℕ 0
      else fl.mul (fl.div (fl.of_ℕ m.mem_used_bytes) (fl.of_ℕ m.mem_limit_bytes)) (fl.of_ℕ 100)

  -- isClean
  unfoldable pub is_clean : ThresholdConfig F → Metric F → Bool
  is_clean cfg m =
      fl.lt m.cpu_percent cfg.cpu_recovery_percent && fl.lt (mem_percent m) cfg.mem_recovery_percent

  -- EvaluateMetric while the entity is not critical.
  unfoldable pub watch : ThresholdConfig F → Metric F → EntityState → Outcome
  watch cfg m st =
      if fl.ge m.cpu_percent cfg.cpu_critical_percent
      then (
        record st { critical_active = true; good_streak_count = 0 },
        some (critical, cpu_threshold),
      )
      else if fl.ge (mem_percent m) cfg.mem_critical_percent
      then (
        record st { critical_active = true; good_streak_count = 0 },
        some (critical, mem_threshold),
      )
      else (st, none)

  -- The last test of EvaluateMetric, on the state with the new sample counted.
  unfoldable pub finish_streak : ThresholdConfig F → ℕ → EntityState → Outcome
  finish_streak cfg now st =
      if leb_ℤ cfg.min_consecutive_normal_samples (pos st.good_streak_count)
        && leb_ℤ cfg.hysteresis_window (sub_ℕ now st.good_streak_start)
      then (
        record st { critical_active = false; good_streak_count = 0; good_streak_start = 0 },
        some (normal, recovered),
      )
      else (st, none)

  -- EvaluateMetric while the entity is critical.
  unfoldable pub recover : ThresholdConfig F → ℕ → Metric F → EntityState → Outcome
  recover cfg now m st =
      if is_clean cfg m
      then finish_streak cfg now (count_sample now st)
      else (record st { good_streak_count = 0; good_streak_start = 0 }, none)

  -- The body of EvaluateMetric, on the entity's state.
  unfoldable pub metric_step : ThresholdConfig F → ℕ → Metric F → EntityState → Outcome
  metric_step cfg now m st = if st.critical_active then recover cfg now m st else watch cfg m st

  unfoldable pub evaluate_metric :
      Engine F → ℕ → EntityKind → Text → Metric F → Engine F × Option TransitionEvent
  evaluate_metric e now kind id m =
      let (st, change) = metric_step e.cfg now m (get_or_create e kind id) in
      (put_state e kind id st, event_of kind id now change)

-- modeRank; a mode that the map lacks has Go's zero value.
abbrev pub mode_rank : MonitoringMode → ℕ
mode_rank critical = 1
mode_rank manual_realtime = 2
mode_rank _ = 0

unfoldable pub fastest_from : MonitoringMode → List MonitoringMode → MonitoringMode
fastest_from best [] = best
fastest_from best (m ∷ rest) =
    fastest_from (if ltb (mode_rank best) (mode_rank m) then m else best) rest

unfoldable pub fastest_mode : List MonitoringMode → MonitoringMode
unfolding fastest_from
fastest_mode [] = normal
fastest_mode (m ∷ rest) = fastest_from m rest
