-- ===== src/Monitoring/State.antt =====
-- The types of internal/controlplane/monitoring/engine.go.
use docker_monitoring.Prelude.{ℕ, Bool, false, Text, codes, Map}
use docker_monitoring.Prelude.Int.{ℤ}
use docker_monitoring.Models.{MonitoringMode}

pub data EntityKind : Type 0 where
  entity_host entity_container : EntityKind

abbrev pub kind_text : EntityKind → Text
kind_text entity_host = codes "host"
kind_text entity_container = codes "container"

pub record ThresholdConfig (F : Type 0) : Type 0 where
  pub cpu_critical_percent : F
  pub cpu_recovery_percent : F
  pub mem_critical_percent : F
  pub mem_recovery_percent : F
  pub hysteresis_window : ℤ
  pub min_consecutive_normal_samples : ℤ
  pub normal_interval_seconds : ℤ
  pub critical_interval_seconds : ℤ
  pub manual_interval_seconds : ℤ

-- time.Second, in nanoseconds.
abbrev pub second : ℕ
second = 1_000_000_000

pub data Reason : Type 0 where
  cpu_threshold mem_threshold recovered : Reason
  container_crashed container_unhealthy container_restarted : Reason

abbrev pub reason_text : Reason → Text
reason_text cpu_threshold = codes "cpu_threshold"
reason_text mem_threshold = codes "mem_threshold"
reason_text recovered = codes "recovered"
reason_text container_crashed = codes "container_crashed"
reason_text container_unhealthy = codes "container_unhealthy"
reason_text container_restarted = codes "container_restarted"

pub record TransitionEvent : Type 0 where
  pub entity_kind : EntityKind
  pub entity_id : Text
  pub entered_mode : MonitoringMode
  pub reason : Reason
  pub at : ℕ

pub record EntityState : Type 0 where
  pub critical_active : Bool
  pub good_streak_count : ℕ
  pub good_streak_start : ℕ
  pub manual_viewers : ℕ

-- &entityState{}
abbrev pub fresh_state : EntityState
fresh_state = record {
  critical_active = false;
  good_streak_count = 0;
  good_streak_start = 0;
  manual_viewers = 0;
}

pub record Engine (F : Type 0) : Type 0 where
  pub cfg : ThresholdConfig F
  pub state : Map EntityState
