-- ===== src/SqlStore/Readings.antt =====
-- Latest metrics of internal/controlplane/storage/sqlstore/metric.go, in the columns of
-- migrations/0001_init.sql.
use docker_monitoring.Prelude.{
  ◌^◌, ◌≤◌, ◌<◌, ◌≡◌, refl, sym, subst, true, false, ◌&&◌, none, some, List, [], ◌∷◌, Text, text_eq,
  text_eq_iff, text_eq_refl, if◌then◌else◌, codes, arith, Bool-cases, Option-cases, inl, inr,
}
use docker_monitoring.Models.{Float64, Metric, Host}
use docker_monitoring.Storage.{backend_failed, found}
use docker_monitoring.World.{Env, World}
use docker_monitoring.Registry.{err, store_failed}
use docker_monitoring.Monitoring.{entity_host}
use docker_monitoring.Telemetry.{TelemetryReport, Known, discover, evaluate_reports}
use docker_monitoring.Telemetry.Metrics.{
  evaluate_and_push, store_metric, ingest_metric, ingest_metrics,
}
use docker_monitoring.Telemetry.Ingest.{ingest_telemetry}
use docker_monitoring.Sql.{Dialect, postgres}
use docker_monitoring.History.{TimeText}
use docker_monitoring.SqlStore.{Tables, MetricRow, RealColumn}
use docker_monitoring.SqlStore.Rows.{first_row, has_row, update_rows, query_row}
use docker_monitoring.SqlStore.Scans.{fits, to_int64, metric_row}
use docker_monitoring.SqlStore.Hosts.{get_host}
use docker_monitoring.SqlStore.Metrics.{
  is_metric, metric_fits, stored_metric, overwrite_metric, record_metric, latest_metric,
}
use docker_monitoring.SqlStore.Instance.{sql_store}
use docker_monitoring.SqlStore.Lookup.{first_row-append, first_row-other}
use docker_monitoring.SqlStore.Times.{TimeLaws, IsMetricInRange, scan_metric-metric_row}

module _ {F : Type 0} (entity_type entity_id : Text) where
  update_rows-same :
      (row : MetricRow F) (rows : List (MetricRow F))
      → row.entity_type ≡ entity_type
      → row.entity_id ≡ entity_id
      → has_row (is_metric entity_type entity_id) rows ≡ true
      → first_row
          (is_metric entity_type entity_id)
          (update_rows (is_metric entity_type entity_id) (λ r. row) rows)
        ≡ some row
  unfolding first_row update_rows has_row
  update_rows-same row [] t i h = ground arith
  update_rows-same row (r ∷ rows) t i h = ground (
    arith,
    text_eq_iff row.entity_type entity_type,
    text_eq_iff row.entity_id entity_id,
    update_rows-same row rows t i,
  )

  update_rows-other :
      (row : MetricRow F) (rows : List (MetricRow F))
      → is_metric entity_type entity_id row ≡ false
      → first_row
          (is_metric entity_type entity_id)
          (update_rows (is_metric row.entity_type row.entity_id) (λ r. row) rows)
        ≡ first_row (is_metric entity_type entity_id) rows
  unfolding first_row update_rows
  update_rows-other row [] other = ground arith
  update_rows-other row (r ∷ rows) other = ground (
    arith,
    other,
    text_eq_iff r.entity_type row.entity_type,
    text_eq_iff r.entity_id row.entity_id,
    update_rows-other row rows other,
  )

  overwrite_metric-other :
      (row : MetricRow F) (rows : List (MetricRow F))
      → is_metric entity_type entity_id row ≡ false
      → first_row (is_metric entity_type entity_id) (overwrite_metric row rows)
        ≡ first_row (is_metric entity_type entity_id) rows
  unfolding overwrite_metric
  overwrite_metric-other row rows other =
      elim (Bool-cases (has_row (is_metric row.entity_type row.entity_id) rows)) [
        | inl known ↦ ground (arith, known, update_rows-other row rows other)
        | inr new ↦
            ground (arith, new, first_row-other (is_metric entity_type entity_id) rows row other)
      ]

module _ {F : Type 0} ⦃reals : RealColumn F⦄ where
  overwrite_metric-own :
      (row : MetricRow F) (rows : List (MetricRow F))
      → first_row (is_metric row.entity_type row.entity_id) (overwrite_metric row rows) ≡ some row
  unfolding overwrite_metric
  overwrite_metric-own row rows =
      elim (Bool-cases (has_row (is_metric row.entity_type row.entity_id) rows)) [
        | inl known ↦
            ground (
              arith,
              known,
              update_rows-same row.entity_type row.entity_id row rows refl refl known,
            )
        | inr new ↦ ground (
          arith,
          new,
          text_eq_refl row.entity_type,
          text_eq_refl row.entity_id,
          first_row-append (is_metric row.entity_type row.entity_id) rows row new,
        )
      ]

  metric_row-key :
      (times : TimeText) (m : Metric F)
      → ((metric_row times m).entity_type ≡ m.entity_type)
        × ((metric_row times m).entity_id ≡ m.entity_id)
  unfolding metric_row
  metric_row-key times m = (refl, refl)

  -- The row that the columns keep is that of the metric with the percentage that they keep.
  stored_metric-kept :
      (dialect : Dialect) (times : TimeText) (m : Metric F) (percent : F)
      → reals.kept dialect m.cpu_percent ≡ some percent
      → metric_fits dialect (metric_row times m) ≡ true
      → stored_metric dialect (metric_row times m)
        ≡ some (metric_row times (record m { cpu_percent = percent }))
  unfolding stored_metric metric_row
  stored_metric-kept dialect times m percent kept fit = ground (arith, kept, fit)

  stored_metric-key :
      (dialect : Dialect) (times : TimeText) (m : Metric F) (row : MetricRow F)
      → stored_metric dialect (metric_row times m) ≡ some row
      → (row.entity_type ≡ m.entity_type) × (row.entity_id ≡ m.entity_id)
  unfolding stored_metric metric_row
  stored_metric-key dialect times m row e = ground (
    arith,
    Bool-cases (metric_fits dialect (metric_row times m)),
    Option-cases (reals.kept dialect m.cpu_percent),
  )

  latest_metric-own :
      (dialect : Dialect) (times : TimeText) (s : Tables F) (m : Metric F) (percent : F)
      → TimeLaws times
      → IsMetricInRange m
      → reals.kept dialect m.cpu_percent ≡ some percent
      → metric_fits dialect (metric_row times m) ≡ true
      → latest_metric times (record_metric dialect times s m).0 m.entity_type m.entity_id
        ≡ found (record m { cpu_percent = percent })
  unfolding record_metric latest_metric query_row
  latest_metric-own dialect times s m percent laws range kept fit =
      let read = record m { cpu_percent = percent } in
      let in_range : IsMetricInRange read = record {
        used = range.used;
        limit = range.limit;
        rx = range.rx;
        tx = range.tx;
        collected = range.collected;
      } in
      ground (
        arith,
        stored_metric-kept dialect times m percent kept fit,
        metric_row-key times read,
        overwrite_metric-own (metric_row times read) s.metrics,
        scan_metric-metric_row times laws read in_range,
      )

  latest_metric-other :
      (dialect : Dialect) (times : TimeText) (s : Tables F) (m : Metric F)
      (entity_type entity_id : Text)
      → (text_eq m.entity_type entity_type && text_eq m.entity_id entity_id) ≡ false
      → latest_metric times (record_metric dialect times s m).0 entity_type entity_id
        ≡ latest_metric times s entity_type entity_id
  unfolding record_metric latest_metric
  latest_metric-other dialect times s m entity_type entity_id other =
      elim (Option-cases (stored_metric dialect (metric_row times m))) [
        | inl broken ↦ ground (arith, broken)
        | inr (row, fit) ↦
            let (of_type, of_id) = stored_metric-key dialect times m row fit in
            let apart : is_metric entity_type entity_id row ≡ false =
              ground (arith, of_type, of_id, other) in
            ground (arith, fit, overwrite_metric-other entity_type entity_id row s.metrics apart)
      ]

  -- A recorded metric reads back: where its values are in the range of the columns, RecordMetric
  -- succeeds, LatestMetric then returns that metric for its entity, byte counts of 2^63 or more
  -- included, with the CPU percentage that the database's column of type REAL keeps of its own, and
  -- for any other entity what it returned before.
  pub record_then_latest :
      (dialect : Dialect) (times : TimeText) (s : Tables F) (m : Metric F) (percent : F)
      (entity_type entity_id : Text)
      → TimeLaws times
      → IsMetricInRange m
      → reals.kept dialect m.cpu_percent ≡ some percent
      → metric_fits dialect (metric_row times m) ≡ true
      → ((record_metric dialect times s m).1 ≡ none)
        × (latest_metric times (record_metric dialect times s m).0 entity_type entity_id ≡ (
            if text_eq m.entity_type entity_type && text_eq m.entity_id entity_id
            then found (record m { cpu_percent = percent })
            else latest_metric times s entity_type entity_id))
  unfolding record_metric
  record_then_latest dialect times s m percent entity_type entity_id laws range kept fit = (
    ground (arith, stored_metric-kept dialect times m percent kept fit),
    (elim (Bool-cases (text_eq m.entity_type entity_type && text_eq m.entity_id entity_id)) [
      | inl own ↦ ground (
        arith,
        own,
        text_eq_iff m.entity_type entity_type,
        text_eq_iff m.entity_id entity_id,
        latest_metric-own dialect times s m percent laws range kept fit,
      )
      | inr other ↦
          ground (arith, other, latest_metric-other dialect times s m entity_type entity_id other)
    ]),
  )

  record_metric-refused :
      (times : TimeText) (s : Tables F) (m : Metric F)
      → 2 ^ 31 ≤ m.mem_limit_bytes
      → m.mem_limit_bytes < 2 ^ 63
      → record_metric postgres times s m ≡ (s, some backend_failed)
  unfolding record_metric stored_metric metric_fits metric_row fits to_int64
  record_metric-refused times s m big small = ground arith

module _ {F : Type 0} ⦃fl : Float64 F⦄ ⦃reals : RealColumn F⦄ (env : Env) (times : TimeText) where
  evaluate_and_push-limit :
      (w : World F (Tables F)) (host_id id : Text) (m : Metric F)
      → (evaluate_and_push env
          (sql_store F postgres times)
          w
          host_id
          entity_host
          id
          m).1.mem_limit_bytes
        ≡ m.mem_limit_bytes
  unfolding evaluate_and_push
  evaluate_and_push-limit w host_id id m = ground (arith, Option-cases w.monitor)

  ingest_metric-refused :
      (w : World F (Tables F)) (host_id : Text) (known : Known) (m : Metric F)
      → m.entity_type ≡ codes "host"
      → 2 ^ 31 ≤ m.mem_limit_bytes
      → m.mem_limit_bytes < 2 ^ 63
      → (ingest_metric env (sql_store F postgres times) w host_id known m).1 ≡ some backend_failed
  unfolding ingest_metric store_metric
  ingest_metric-refused w host_id known m of_host big small =
      let own = record m { entity_id = host_id } in
      let pushed =
        evaluate_and_push env (sql_store F postgres times) w host_id entity_host host_id own in
      ground (
        arith,
        of_host,
        text_eq_refl (codes "host"),
        record_metric-refused times pushed.0.store pushed.1
            (subst (λ n. 2 ^ 31 ≤ n) (sym (evaluate_and_push-limit w host_id host_id own)) big)
            (subst (λ n. n < 2 ^ 63) (sym (evaluate_and_push-limit w host_id host_id own)) small),
      )

  -- PostgreSQL's INTEGER is too small for the memory of a host: on that database, a report whose
  -- first metric is of a host with a memory limit from 2^31 up to 2^63 bytes is answered with an
  -- error of the store, whatever else the report holds.
  pub ingest-too_large :
      (w : World F (Tables F)) (host_id : Text) (h : Host) (report : TelemetryReport F)
      (m : Metric F) (rest : List (Metric F))
      → get_host times w.store host_id ≡ found h
      → report.metrics ≡ m ∷ rest
      → m.entity_type ≡ codes "host"
      → 2 ^ 31 ≤ m.mem_limit_bytes
      → m.mem_limit_bytes < 2 ^ 63
      → (ingest_telemetry env (sql_store F postgres times) w host_id report).1
        ≡ err (store_failed backend_failed)
  unfolding ingest_telemetry ingest_metrics
  ingest-too_large w host_id h report m rest there first of_host big small =
      let known = discover env (sql_store F postgres times) w.store host_id [] report.containers in
      let judged =
        evaluate_reports env (sql_store F postgres times) w host_id known report.containers in
      ground (arith, there, first, ingest_metric-refused judged host_id known m of_host big small)
