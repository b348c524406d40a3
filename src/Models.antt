-- ===== src/Models.antt =====
-- internal/shared/models/models.go: the domain types that the agent and the control plane share.
-- A Go string type with declared constants is a data type with those constants; where a value can
-- come from outside the program (a JSON body), one more constructor holds any other string.
-- `time.Time` is a number of nanoseconds since the zero time, so `IsZero` is a test for 0;
-- a pointer is an `Option`; `float64` is a parameter `F` with the operations of `Float64`.
use docker_monitoring.Prelude.{
  ℕ, ◌≡◌, Bool, true, false, Option, Text, text_eq, text_eq_iff, Map, arith, ◌↔◌,
}
use docker_monitoring.Prelude.Int.{ℤ}

-- The operations of `float64` that the program uses. Nothing is assumed of them but where a
-- theorem says so, so the comparisons may be those of IEEE 754, with NaN.
pub record Float64 (F : Type 0) : Type 0 where
  pub of_ℕ : ℕ → F
  pub add : F → F → F
  pub sub : F → F → F
  pub mul : F → F → F
  pub div : F → F → F
  pub ge : F → F → Bool
  pub lt : F → F → Bool

pub data HostKind : Type 0 where
  local remote : HostKind
  other_kind : Text → HostKind

pub data ConnectionStatus : Type 0 where
  online offline unknown : ConnectionStatus

pub data MonitoringMode : Type 0 where
  normal critical manual_realtime : MonitoringMode
  other_mode : Text → MonitoringMode

pub data ContainerStatus : Type 0 where
  running exited paused unknown_status : ContainerStatus
  other_status : Text → ContainerStatus

pub data HealthStatus : Type 0 where
  healthy unhealthy no_health : HealthStatus
  other_health : Text → HealthStatus

pub data EventSeverity : Type 0 where
  info warning critical_severity : EventSeverity
  other_severity : Text → EventSeverity

pub data Role : Type 0 where
  admin viewer : Role

-- `==` on the string types above.
abbrev pub status_online : ConnectionStatus → Bool
status_online online = true
status_online _ = false

unfoldable pub mode_eq : MonitoringMode → MonitoringMode → Bool
mode_eq normal normal = true
mode_eq critical critical = true
mode_eq manual_realtime manual_realtime = true
mode_eq (other_mode s) (other_mode t) = text_eq s t
mode_eq _ _ = false

pub mode_eq_iff : (a b : MonitoringMode) → (mode_eq a b ≡ true) ↔ (a ≡ b)
unfolding mode_eq
mode_eq_iff normal b = ground arith
mode_eq_iff critical b = ground arith
mode_eq_iff manual_realtime b = ground arith
mode_eq_iff (other_mode s) (other_mode t) = ground (arith, text_eq_iff s t)
mode_eq_iff (other_mode s) b = ground arith

unfoldable pub severity_eq : EventSeverity → EventSeverity → Bool
severity_eq info info = true
severity_eq warning warning = true
severity_eq critical_severity critical_severity = true
severity_eq (other_severity s) (other_severity t) = text_eq s t
severity_eq _ _ = false

pub record Host : Type 0 where
  pub id : Text
  pub name : Text
  pub address : Text
  pub kind : HostKind
  pub agent_id : Text
  pub connection_status : ConnectionStatus
  pub docker_version : Text
  pub os_info : Text
  pub monitoring_mode : MonitoringMode
  pub last_heartbeat_at : Option ℕ
  pub created_at : ℕ
  pub enrollment_token_hash : Text
  pub enrollment_issued_at : Option ℕ
  pub agent_enrolled : Bool
  pub cert_fingerprint : Text

pub record Container : Type 0 where
  pub id : Text
  pub host_id : Text
  pub docker_container_id : Text
  pub name : Text
  pub image : Text
  pub status : ContainerStatus
  pub health_status : HealthStatus
  pub restart_count : ℤ
  pub monitoring_mode : MonitoringMode
  pub tags : Map Text
  pub created_at : ℕ
  pub last_seen_at : Option ℕ

-- Byte counts are `uint64`, below 2 ^ 64.
pub record Metric (F : Type 0) : Type 0 where
  pub entity_type : Text
  pub entity_id : Text
  pub cpu_percent : F
  pub mem_used_bytes : ℕ
  pub mem_limit_bytes : ℕ
  pub net_rx_bytes : ℕ
  pub net_tx_bytes : ℕ
  pub collected_at : ℕ
  pub mode : MonitoringMode
  pub interval_seconds : ℤ

pub record User : Type 0 where
  pub id : Text
  pub email : Text
  pub display_name : Text
  pub password_hash : Text
  pub role : Role
  pub created_at : ℕ
  pub last_login_at : Option ℕ

pub record Session : Type 0 where
  pub id : Text
  pub user_id : Text
  pub token_hash : Text
  pub created_at : ℕ
  pub expires_at : ℕ

-- No code of the program sets `Metadata`, so it is left out.
pub record Event : Type 0 where
  pub id : Text
  pub event_type : Text
  pub severity : EventSeverity
  pub host_id : Option Text
  pub container_id : Option Text
  pub user_id : Option Text
  pub message : Text
  pub created_at : ℕ
