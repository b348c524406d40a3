-- ===== src/SqlStore/Metrics.antt =====
-- internal/controlplane/storage/sqlstore/metric.go
use docker_monitoring.Prelude.{
  Bool, ◌&&◌, ◌++◌, Option, none, some, List, [], ◌∷◌, Text, text_eq, if◌then◌else◌,
}
use docker_monitoring.Models.{Metric}
use docker_monitoring.Storage.{StoreError, backend_failed, Found}
use docker_monitoring.Sql.{Dialect}
use docker_monitoring.History.{TimeText}
use docker_monitoring.SqlStore.{Tables, MetricRow, RealColumn}
use docker_monitoring.SqlStore.Rows.{first_row, has_row, update_rows, query_row}
use docker_monitoring.SqlStore.Scans.{fits, metric_row, scan_metric}

module _ {F : Type 0} where
  -- WHERE entity_type = ? AND entity_id = ?
  abbrev pub is_metric : Text → Text → MetricRow F → Bool
  is_metric entity_type entity_id r =
      text_eq r.entity_type entity_type && text_eq r.entity_id entity_id

  -- The columns of type INTEGER are in range.
  unfoldable pub metric_fits : Dialect → MetricRow F → Bool
  metric_fits dialect r =
      fits dialect r.mem_used_bytes
      && (fits dialect r.mem_limit_bytes
          && (fits dialect r.net_rx_bytes
              && (fits dialect r.net_tx_bytes && fits dialect r.interval_seconds)))

  -- The row as the columns keep it.
  unfoldable pub stored_metric :
      ⦃reals : RealColumn F⦄ → Dialect → MetricRow F → Option (MetricRow F)
  unfolding metric_fits
  stored_metric ⦃reals⦄ dialect r =
      if metric_fits dialect r
      then (elim (reals.kept dialect r.cpu_percent) [
        | none ↦ none
        | some percent ↦ some (record r { cpu_percent = percent })
      ])
      else none

  -- INSERT ... ON CONFLICT (entity_type, entity_id) DO UPDATE
  unfoldable pub overwrite_metric : MetricRow F → List (MetricRow F) → List (MetricRow F)
  overwrite_metric row rows =
      let same = is_metric row.entity_type row.entity_id in
      if has_row same rows then update_rows same (λ r. row) rows else rows ++ (row ∷ [])

  unfoldable pub record_metric :
      ⦃reals : RealColumn F⦄
      → Dialect
      → TimeText
      → Tables F
      → Metric F
      → Tables F × Option StoreError
  record_metric dialect times s m = elim (stored_metric dialect (metric_row times m)) [
    | none ↦ (s, some backend_failed)
    | some row ↦ (record s { metrics = overwrite_metric row s.metrics }, none)
  ]

  unfoldable pub latest_metric : TimeText → Tables F → Text → Text → Found (Metric F)
  latest_metric times s entity_type entity_id =
      query_row (scan_metric times) (first_row (is_metric entity_type entity_id) s.metrics)
