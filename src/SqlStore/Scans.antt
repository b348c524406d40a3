-- ===== src/SqlStore/Scans.antt =====
-- The columns that the methods write of a record, and the scan functions that read a row back.
use docker_monitoring.Prelude.{
  ℕ, ◌-◌, ◌^◌, Bool, true, not, Option, none, some, [], ◌∷◌, Text, Map, ltb, ◌==◌, if◌then◌else◌,
}
use docker_monitoring.Prelude.Int.{ℤ, pos, negsuc}
use docker_monitoring.Models.{Host, Container, Metric, Event, User, Session}
use docker_monitoring.Sql.{Dialect, sqlite, postgres}
use docker_monitoring.History.{TimeText}
use docker_monitoring.SqlStore.{HostRow, ContainerRow, MetricRow, EventRow, UserRow, SessionRow}

-- int64(n) of a uint64, and uint64(v) of an int64.
unfoldable pub to_int64 : ℕ → ℤ
to_int64 n = if ltb n (2 ^ 63) then pos n else negsuc (2 ^ 64 - n - 1)

unfoldable pub to_uint64 : ℤ → ℕ
to_uint64 (pos n) = n
to_uint64 (negsuc n) = 2 ^ 64 - n - 1

-- What an INTEGER column takes: 64 bits on SQLite, 32 on PostgreSQL.
unfoldable pub fits : Dialect → ℤ → Bool
fits sqlite v = true
fits postgres (pos n) = ltb n (2 ^ 31)
fits postgres (negsuc n) = ltb n (2 ^ 31)

-- boolToInt
unfoldable pub bool_to_int : Bool → ℕ
bool_to_int b = if b then 1 else 0

-- marshalTags, and the reading of the column.
abbrev pub tags_column : Map Text → Option (Map Text)
tags_column [] = none
tags_column (tag ∷ tags) = some (tag ∷ tags)

abbrev pub tags_of : Option (Map Text) → Map Text
tags_of none = []
tags_of (some tags) = tags

module _ (times : TimeText) where
  -- nullTime
  unfoldable pub null_time : Option ℕ → Option Text
  null_time none = none
  null_time (some t) = some (times.format_time t)

  -- The reading of a nullable time: `none` is a parse error.
  unfoldable pub scan_time : Option Text → Option (Option ℕ)
  scan_time none = some none
  scan_time (some text) = elim (times.parse_time text) [ none ↦ none | some t ↦ some (some t) ]

  unfoldable pub host_row : Host → HostRow
  unfolding null_time bool_to_int
  host_row h = record {
    id = h.id;
    name = h.name;
    address = h.address;
    kind = h.kind;
    agent_id = h.agent_id;
    connection_status = h.connection_status;
    docker_version = h.docker_version;
    os_info = h.os_info;
    monitoring_mode = h.monitoring_mode;
    last_heartbeat_at = null_time h.last_heartbeat_at;
    created_at = times.format_time h.created_at;
    enrollment_token_hash = h.enrollment_token_hash;
    enrollment_issued_at = null_time h.enrollment_issued_at;
    agent_enrolled = bool_to_int h.agent_enrolled;
    cert_fingerprint = h.cert_fingerprint;
  }

  -- The host of a row whose times have been parsed.
  abbrev pub host_of : HostRow → ℕ → Option ℕ → Option ℕ → Host
  host_of r created_at last_heartbeat_at enrollment_issued_at = record {
    id = r.id;
    name = r.name;
    address = r.address;
    kind = r.kind;
    agent_id = r.agent_id;
    connection_status = r.connection_status;
    docker_version = r.docker_version;
    os_info = r.os_info;
    monitoring_mode = r.monitoring_mode;
    last_heartbeat_at = last_heartbeat_at;
    created_at = created_at;
    enrollment_token_hash = r.enrollment_token_hash;
    enrollment_issued_at = enrollment_issued_at;
    agent_enrolled = not (r.agent_enrolled == 0);
    cert_fingerprint = r.cert_fingerprint;
  }

  unfoldable pub scan_host : HostRow → Option Host
  unfolding scan_time
  scan_host r = elim (times.parse_time r.created_at) [
    | none ↦ none
    | some created_at ↦ elim (scan_time r.last_heartbeat_at) [
      | none ↦ none
      | some heartbeat ↦ elim (scan_time r.enrollment_issued_at) [
        | none ↦ none
        | some issued ↦ some (host_of r created_at heartbeat issued)
      ]
    ]
  ]

  unfoldable pub container_row : Container → ContainerRow
  unfolding null_time
  container_row c = record {
    id = c.id;
    host_id = c.host_id;
    docker_container_id = c.docker_container_id;
    name = c.name;
    image = c.image;
    status = c.status;
    health_status = c.health_status;
    restart_count = c.restart_count;
    monitoring_mode = c.monitoring_mode;
    tags = tags_column c.tags;
    created_at = times.format_time c.created_at;
    last_seen_at = null_time c.last_seen_at;
  }

  unfoldable pub scan_container : ContainerRow → Option Container
  unfolding scan_time
  scan_container r = elim (times.parse_time r.created_at) [
    | none ↦ none
    | some created_at ↦ elim (scan_time r.last_seen_at) [
      | none ↦ none
      | some seen ↦ some (record {
        id = r.id;
        host_id = r.host_id;
        docker_container_id = r.docker_container_id;
        name = r.name;
        image = r.image;
        status = r.status;
        health_status = r.health_status;
        restart_count = r.restart_count;
        monitoring_mode = r.monitoring_mode;
        tags = tags_of r.tags;
        created_at = created_at;
        last_seen_at = seen;
      })
    ]
  ]

  unfoldable pub event_row : Event → EventRow
  event_row e = record {
    id = e.id;
    event_type = e.event_type;
    severity = e.severity;
    host_id = e.host_id;
    container_id = e.container_id;
    user_id = e.user_id;
    message = e.message;
    created_at = times.format_time e.created_at;
  }

  unfoldable pub scan_event : EventRow → Option Event
  scan_event r = elim (times.parse_time r.created_at) [
    | none ↦ none
    | some created_at ↦ some (record {
      id = r.id;
      event_type = r.event_type;
      severity = r.severity;
      host_id = r.host_id;
      container_id = r.container_id;
      user_id = r.user_id;
      message = r.message;
      created_at = created_at;
    })
  ]

  unfoldable pub user_row : User → UserRow
  unfolding null_time
  user_row u = record {
    id = u.id;
    email = u.email;
    display_name = u.display_name;
    password_hash = u.password_hash;
    role = u.role;
    created_at = times.format_time u.created_at;
    last_login_at = null_time u.last_login_at;
  }

  unfoldable pub scan_user : UserRow → Option User
  unfolding scan_time
  scan_user r = elim (times.parse_time r.created_at) [
    | none ↦ none
    | some created_at ↦ elim (scan_time r.last_login_at) [
      | none ↦ none
      | some login ↦ some (record {
        id = r.id;
        email = r.email;
        display_name = r.display_name;
        password_hash = r.password_hash;
        role = r.role;
        created_at = created_at;
        last_login_at = login;
      })
    ]
  ]

  unfoldable pub session_row : Session → SessionRow
  session_row sess = record {
    id = sess.id;
    user_id = sess.user_id;
    token_hash = sess.token_hash;
    created_at = times.format_time sess.created_at;
    expires_at = times.format_time sess.expires_at;
  }

  unfoldable pub scan_session : SessionRow → Option Session
  scan_session r = elim (times.parse_time r.created_at) [
    | none ↦ none
    | some created_at ↦ elim (times.parse_time r.expires_at) [
      | none ↦ none
      | some expires_at ↦ some (record {
        id = r.id;
        user_id = r.user_id;
        token_hash = r.token_hash;
        created_at = created_at;
        expires_at = expires_at;
      })
    ]
  ]

module _ {F : Type 0} (times : TimeText) where
  unfoldable pub metric_row : Metric F → MetricRow F
  unfolding to_int64
  metric_row m = record {
    entity_type = m.entity_type;
    entity_id = m.entity_id;
    cpu_percent = m.cpu_percent;
    mem_used_bytes = to_int64 m.mem_used_bytes;
    mem_limit_bytes = to_int64 m.mem_limit_bytes;
    net_rx_bytes = to_int64 m.net_rx_bytes;
    net_tx_bytes = to_int64 m.net_tx_bytes;
    collected_at = times.format_time m.collected_at;
    mode = m.mode;
    interval_seconds = m.interval_seconds;
  }

  unfoldable pub scan_metric : MetricRow F → Option (Metric F)
  unfolding to_uint64
  scan_metric r = elim (times.parse_time r.collected_at) [
    | none ↦ none
    | some collected_at ↦ some (record {
      entity_type = r.entity_type;
      entity_id = r.entity_id;
      cpu_percent = r.cpu_percent;
      mem_used_bytes = to_uint64 r.mem_used_bytes;
      mem_limit_bytes = to_uint64 r.mem_limit_bytes;
      net_rx_bytes = to_uint64 r.net_rx_bytes;
      net_tx_bytes = to_uint64 r.net_tx_bytes;
      collected_at = collected_at;
      mode = r.mode;
      interval_seconds = r.interval_seconds;
    })
  ]
