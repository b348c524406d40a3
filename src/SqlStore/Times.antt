-- ===== src/SqlStore/Times.antt =====
-- What the text of a time in the layout of internal/controlplane/storage/sqlstore/store.go keeps,
-- and the records that read back from their rows.
use docker_monitoring.Prelude.{ℕ, ◌*◌, ◌^◌, ◌<◌, ◌≡◌, refl, Option, none, some, ltb, arith}
use docker_monitoring.Models.{Host, Metric, Event}
use docker_monitoring.Storage.Memory.{text_lt}
use docker_monitoring.History.{TimeText}
use docker_monitoring.SqlStore.Scans.{
  to_int64, to_uint64, null_time, scan_time, bool_to_int, host_row, scan_host, event_row,
  scan_event, metric_row, scan_metric,
}

-- The year 10000, from which on the layout has no four digits for the year.
abbrev pub time_limit : ℕ
time_limit = 315537897600 * 1000000000

-- The layout is of a fixed width, with nine digits of a second: the documented behaviour of the
-- package time.
pub record TimeLaws (times : TimeText) : Type 0 where
  pub parse-format : (t : ℕ) → t < time_limit → times.parse_time (times.format_time t) ≡ some t
  pub format-order :
      (t u : ℕ)
      → t < time_limit
      → u < time_limit
      → text_lt (times.format_time t) (times.format_time u) ≡ ltb t u

abbrev pub IsTimely : Option ℕ → Type 0
IsTimely none = Unit
IsTimely (some t) = t < time_limit

pub record IsHostInRange (h : Host) : Type 0 where
  pub created : h.created_at < time_limit
  pub heartbeat : IsTimely h.last_heartbeat_at
  pub issued : IsTimely h.enrollment_issued_at

-- Byte counts are of type uint64.
pub record IsMetricInRange {F : Type 0} (m : Metric F) : Type 0 where
  pub used : m.mem_used_bytes < 2 ^ 64
  pub limit : m.mem_limit_bytes < 2 ^ 64
  pub rx : m.net_rx_bytes < 2 ^ 64
  pub tx : m.net_tx_bytes < 2 ^ 64
  pub collected : m.collected_at < time_limit

pub to_uint64-to_int64 : (n : ℕ) → n < 2 ^ 64 → to_uint64 (to_int64 n) ≡ n
unfolding to_uint64 to_int64
to_uint64-to_int64 n h = ground arith

module _ (times : TimeText) (laws : TimeLaws times) where
  pub scan_time-null_time :
      (o : Option ℕ) → IsTimely o → scan_time times (null_time times o) ≡ some o
  unfolding scan_time null_time
  scan_time-null_time none h = refl
  scan_time-null_time (some t) h = ground (arith, laws.parse-format t h)

  pub scan_host-host_row :
      (h : Host) → IsHostInRange h → scan_host times (host_row times h) ≡ some h
  unfolding scan_host host_row bool_to_int
  scan_host-host_row h range = ground (
    arith,
    laws.parse-format h.created_at range.created,
    scan_time-null_time h.last_heartbeat_at range.heartbeat,
    scan_time-null_time h.enrollment_issued_at range.issued,
  )

  pub scan_event-event_row :
      (e : Event) → e.created_at < time_limit → scan_event times (event_row times e) ≡ some e
  unfolding scan_event event_row
  scan_event-event_row e h = ground (arith, laws.parse-format e.created_at h)

module _ {F : Type 0} (times : TimeText) (laws : TimeLaws times) where
  pub scan_metric-metric_row :
      (m : Metric F) → IsMetricInRange m → scan_metric times (metric_row times m) ≡ some m
  unfolding scan_metric metric_row
  scan_metric-metric_row m range = ground (
    arith,
    laws.parse-format m.collected_at range.collected,
    to_uint64-to_int64 m.mem_used_bytes range.used,
    to_uint64-to_int64 m.mem_limit_bytes range.limit,
    to_uint64-to_int64 m.net_rx_bytes range.rx,
    to_uint64-to_int64 m.net_tx_bytes range.tx,
  )
