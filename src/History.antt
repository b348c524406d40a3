-- ===== src/History.antt =====
-- internal/controlplane/storage/sqlstore/historical_metric.go: averages of metrics in buckets of a
-- minute, rolled up to five minutes and then deleted. A SQL statement of the file is the function on
-- the table's rows that it denotes. database/sql is outside: `fails n` tells whether the n-th call
-- of it in a method reports an error, and a transaction that is not committed changes nothing.
-- Times are nanoseconds since Go's zero time; a bucket_start is a text, as `TimeText` formats it.
pub mod Passes
pub mod Tables
pub mod Upserts
pub mod Rollup
pub mod Counts
use docker_monitoring.Prelude.{
  ℕ, suc, ◌+◌, ◌-◌, ◌*◌, ◌%◌, ◌^◌, Bool, true, false, not, ◌&&◌, ◌||◌, Option, none, some, List, [],
  ◌∷◌, ◌++◌, ◌⊎◌, inl, inr, map, keep, Text, text_eq, leb, ◌==◌, if◌then◌else◌,
}
use docker_monitoring.Prelude.Int.{ℤ, pos, negsuc}
use docker_monitoring.Models.{Float64, Metric}
use docker_monitoring.Monitoring.{second}
use docker_monitoring.Storage.Memory.{text_lt, sort_by}

-- time's Format and Parse in the layout of store.go.
pub record TimeText : Type 0 where
  pub format_time : ℕ → Text
  pub parse_time : Text → Option ℕ

abbrev pub bucket_resolution_seconds : ℕ
bucket_resolution_seconds = 60

abbrev pub rollup_after : ℕ
rollup_after = 6 * 3600 * second

abbrev pub rollup_resolution_seconds : ℕ
rollup_resolution_seconds = 300

-- The five averages of a bucket.
pub record Averages (F : Type 0) : Type 0 where
  pub cpu_percent : F
  pub mem_used : F
  pub mem_limit : F
  pub net_rx : F
  pub net_tx : F

-- A row of metric_history.
pub record Row (F : Type 0) : Type 0 where
  pub entity_type : Text
  pub entity_id : Text
  pub bucket_start : Text
  pub resolution : ℕ
  pub sample_count : ℕ
  pub avg : Averages F

pub data HistoryError : Type 0 where
  query_failed bad_bucket statement_failed : HistoryError

unfoldable pub zip_avg : {F : Type 0} → (F → F → F) → Averages F → Averages F → Averages F
zip_avg f a b = record {
  cpu_percent = f a.cpu_percent b.cpu_percent;
  mem_used = f a.mem_used b.mem_used;
  mem_limit = f a.mem_limit b.mem_limit;
  net_rx = f a.net_rx b.net_rx;
  net_tx = f a.net_tx b.net_tx;
}

-- time.Time.Truncate
unfoldable pub truncate : ℕ → ℕ → ℕ
truncate t d = t - t % d

module _ {F : Type 0} where
  -- The columns of the ON CONFLICT clause.
  unfoldable pub same_bucket : Row F → Row F → Bool
  same_bucket r s =
      text_eq r.entity_type s.entity_type
      && (text_eq r.entity_id s.entity_id
          && ((r.resolution == s.resolution) && text_eq r.bucket_start s.bucket_start))

  -- INSERT ... ON CONFLICT ... DO UPDATE: the stored row comes first in `merge`.
  unfoldable pub upsert : (Row F → Row F → Row F) → Row F → List (Row F) → List (Row F)
  unfolding same_bucket
  upsert merge row [] = row ∷ []
  upsert merge row (r ∷ rows) =
      let rest = upsert merge row rows in if same_bucket r row then merge r row ∷ rows else r ∷ rest

  -- Runs the statements of a transaction from the n-th call on, and commits.
  unfoldable pub run_tx :
      (ℕ → Bool) → ℕ → List (List (Row F) → List (Row F)) → List (Row F) → Option (List (Row F))
  run_tx fails n [] rows = if fails n then none else some rows
  run_tx fails n (stmt ∷ stmts) rows =
      let after = run_tx fails (suc n) stmts (stmt rows) in if fails n then none else after

  -- The WHERE clauses of the roll-up.
  unfoldable pub is_old : Text → Row F → Bool
  is_old cutoff r = (r.resolution == bucket_resolution_seconds) && text_lt r.bucket_start cutoff

  unfoldable pub is_source : Text → Row F → Bool
  is_source b r = (r.resolution == bucket_resolution_seconds) && text_eq r.bucket_start b

  unfoldable pub delete_source : Text → List (Row F) → List (Row F)
  unfolding is_source
  delete_source b rows = keep (λ r. not (is_source b r)) rows

module _ {F : Type 0} ⦃fl : Float64 F⦄ where
  -- `avg + (excluded.avg - avg) / (sample_count + 1)`
  unfoldable pub merge_sample : Row F → Row F → Row F
  unfolding zip_avg
  merge_sample r row = record r {
    sample_count = r.sample_count + 1;
    avg =
        zip_avg (λ (x y : F). fl.add x (fl.div (fl.sub y x) (fl.of_ℕ (r.sample_count + 1)))) r.avg
          row.avg;
  }

  -- `(avg * sample_count + excluded.avg * excluded.sample_count) / (sample_count + excluded.sample_count)`
  unfoldable pub merge_rollup : Row F → Row F → Row F
  unfolding zip_avg
  merge_rollup r row = record r {
    sample_count = r.sample_count + row.sample_count;
    avg =
        zip_avg
          (λ (x y : F).
            fl.div
              (fl.add (fl.mul x (fl.of_ℕ r.sample_count)) (fl.mul y (fl.of_ℕ row.sample_count)))
              (fl.of_ℕ (r.sample_count + row.sample_count)))
          r.avg row.avg;
  }

  -- `&agg{}`, with its key; a group holds sums where a row holds averages.
  unfoldable pub empty_group : Row F → Text → Row F
  empty_group r coarse = record {
    entity_type = r.entity_type;
    entity_id = r.entity_id;
    bucket_start = coarse;
    resolution = rollup_resolution_seconds;
    sample_count = 0;
    avg = record {
      cpu_percent = fl.of_ℕ 0;
      mem_used = fl.of_ℕ 0;
      mem_limit = fl.of_ℕ 0;
      net_rx = fl.of_ℕ 0;
      net_tx = fl.of_ℕ 0;
    };
  }

  -- `g.count += count` and the weighted sums.
  unfoldable pub add_to_group : Row F → Row F → Row F
  unfolding zip_avg
  add_to_group g r = record g {
    sample_count = g.sample_count + r.sample_count;
    avg = zip_avg (λ (x y : F). fl.add x (fl.mul y (fl.of_ℕ r.sample_count))) g.avg r.avg;
  }

  -- One row of the query, once its bucket has been parsed: `coarse` is the text of the coarse bucket.
  unfoldable pub fold_in : Row F → Text → List (Row F) → List (Row F)
  unfolding upsert add_to_group empty_group
  fold_in r coarse groups =
      upsert (λ (g fresh : Row F). add_to_group g r) (add_to_group (empty_group r coarse) r) groups

  -- The row that a group is written as.
  unfoldable pub mean_of : Row F → Row F
  unfolding zip_avg
  mean_of g = record g {
    avg = zip_avg (λ (x y : F). fl.div x (fl.of_ℕ g.sample_count)) g.avg g.avg;
  }

  abbrev pub upserts : List (Row F) → List (List (Row F) → List (Row F))
  upserts groups = map (λ (g : Row F). upsert merge_rollup (mean_of g)) groups

abbrev pub deletes : {F : Type 0} → List (Row F) → List (List (Row F) → List (Row F))
deletes sources = map (λ r. delete_source r.bucket_start) sources

module _ {F : Type 0} ⦃fl : Float64 F⦄ (times : TimeText) where
  unfoldable pub sample_row : Metric F → Row F
  unfolding truncate
  sample_row m = record {
    entity_type = m.entity_type;
    entity_id = m.entity_id;
    bucket_start = times.format_time (truncate m.collected_at (bucket_resolution_seconds * second));
    resolution = bucket_resolution_seconds;
    sample_count = 1;
    avg = record {
      cpu_percent = m.cpu_percent;
      mem_used = fl.of_ℕ m.mem_used_bytes;
      mem_limit = fl.of_ℕ m.mem_limit_bytes;
      net_rx = fl.of_ℕ m.net_rx_bytes;
      net_tx = fl.of_ℕ m.net_tx_bytes;
    };
  }

  unfoldable pub record_historical_sample :
      (ℕ → Bool) → Metric F → List (Row F) → List (Row F) × Option HistoryError
  unfolding upsert merge_sample sample_row
  record_historical_sample fails m rows =
      if fails 0
      then (rows, some statement_failed)
      else (upsert merge_sample (sample_row m) rows, none)
