-- ===== src/SqlStore/Columns.antt =====
-- The rows of each table, with the columns that migrations/0001_init.sql declares; a nullable
-- column is an `Option`.
use docker_monitoring.Prelude.{ℕ, Option, List, [], Text, Map}
use docker_monitoring.Prelude.Int.{ℤ}
use docker_monitoring.Sql.{Dialect}
use docker_monitoring.Models.{
  HostKind, ConnectionStatus, MonitoringMode, ContainerStatus, HealthStatus, EventSeverity, Role,
}

pub record HostRow : Type 0 where
  pub id : Text
  pub name : Text
  pub address : Text
  pub kind : HostKind
  pub agent_id : Text
  pub connection_status : ConnectionStatus
  pub docker_version : Text
  pub os_info : Text
  pub monitoring_mode : MonitoringMode
  pub last_heartbeat_at : Option Text
  pub created_at : Text
  pub enrollment_token_hash : Text
  pub enrollment_issued_at : Option Text
  pub agent_enrolled : ℕ
  pub cert_fingerprint : Text

pub record ContainerRow : Type 0 where
  pub id : Text
  pub host_id : Text
  pub docker_container_id : Text
  pub name : Text
  pub image : Text
  pub status : ContainerStatus
  pub health_status : HealthStatus
  pub restart_count : ℤ
  pub monitoring_mode : MonitoringMode
  pub tags : Option (Map Text)
  pub created_at : Text
  pub last_seen_at : Option Text

-- What a column REAL NOT NULL keeps of a float64, by the database: eight bytes on SQLite, four on
-- PostgreSQL; `none` where it refuses the value.
pub record RealColumn (F : Type 0) : Type 0 where
  pub kept : Dialect → F → Option F

pub record MetricRow (F : Type 0) : Type 0 where
  pub entity_type : Text
  pub entity_id : Text
  pub cpu_percent : F
  pub mem_used_bytes : ℤ
  pub mem_limit_bytes : ℤ
  pub net_rx_bytes : ℤ
  pub net_tx_bytes : ℤ
  pub collected_at : Text
  pub mode : MonitoringMode
  pub interval_seconds : ℤ

pub record EventRow : Type 0 where
  pub id : Text
  pub event_type : Text
  pub severity : EventSeverity
  pub host_id : Option Text
  pub container_id : Option Text
  pub user_id : Option Text
  pub message : Text
  pub created_at : Text

pub record UserRow : Type 0 where
  pub id : Text
  pub email : Text
  pub display_name : Text
  pub password_hash : Text
  pub role : Role
  pub created_at : Text
  pub last_login_at : Option Text

pub record SessionRow : Type 0 where
  pub id : Text
  pub user_id : Text
  pub token_hash : Text
  pub created_at : Text
  pub expires_at : Text

pub record Tables (F : Type 0) : Type 0 where
  pub users : List UserRow
  pub sessions : List SessionRow
  pub hosts : List HostRow
  pub containers : List ContainerRow
  pub metrics : List (MetricRow F)
  pub events : List EventRow

-- The tables of 0001_init.sql as it creates them.
unfoldable pub empty_tables : {F : Type 0} → Tables F
empty_tables = record {
  users = [];
  sessions = [];
  hosts = [];
  containers = [];
  metrics = [];
  events = [];
}
