-- ===== src/History/Passes.antt =====
-- The roll-up, retention and queries of
-- internal/controlplane/storage/sqlstore/historical_metric.go. Groups are visited in the order of
-- their first rows, where Go's `range` takes any order; a time before the zero time is that time.
use docker_monitoring.Prelude.{
  ℕ, ◌+◌, ◌-◌, ◌*◌, ◌%◌, ◌^◌, Bool, not, ◌&&◌, Option, none, some, List, [], ◌∷◌, ◌++◌, ◌⊎◌, inl,
  inr, keep, Text, text_eq, leb, ◌==◌, if◌then◌else◌,
}
use docker_monitoring.Prelude.Int.{ℤ, pos, negsuc}
use docker_monitoring.Models.{Float64}
use docker_monitoring.Monitoring.{second}
use docker_monitoring.Storage.Memory.{text_lt, sort_by}
use docker_monitoring.History.{
  TimeText, rollup_after, rollup_resolution_seconds, Row, HistoryError, query_failed, bad_bucket,
  statement_failed, truncate, run_tx, is_old, fold_in, upserts, deletes,
}

-- `now.Add(-time.Duration(retentionDays) * 24 * time.Hour)`: the product wraps at 64 bits.
unfoldable pub expiry : ℕ → ℕ → ℕ
expiry now days =
    let wrapped = days * (24 * 3600 * second) % 2 ^ 64 in
    if leb wrapped (2 ^ 63) then now - wrapped else now + (2 ^ 64 - wrapped)

module _ {F : Type 0} ⦃fl : Float64 F⦄ (times : TimeText) where
  -- The loop over the rows of the query; `none` where a bucket does not parse.
  unfoldable pub group_rows : List (Row F) → List (Row F) → Option (List (Row F))
  unfolding fold_in truncate
  group_rows [] groups = some groups
  group_rows (r ∷ rows) groups = elim (times.parse_time r.bucket_start) [
    | none ↦ none
    | some t ↦
        group_rows rows
          (fold_in r (times.format_time (truncate t (rollup_resolution_seconds * second))) groups)
  ]

  -- Call 0 is the query, call 1 the start of the transaction.
  unfoldable pub rollup_old_minute_buckets :
      (ℕ → Bool) → ℕ → List (Row F) → List (Row F) × Option HistoryError
  unfolding is_old group_rows run_tx
  rollup_old_minute_buckets fails now rows =
      let sources = keep (is_old (times.format_time (now - rollup_after))) rows in
      if fails 0 then (rows, some query_failed) else elim (group_rows sources []) [
        | none ↦ (rows, some bad_bucket)
        | some [] ↦ (rows, none)
        | some (g ∷ groups) ↦
            if fails 1
            then (rows, some statement_failed)
            else elim (run_tx fails 2 (upserts (g ∷ groups) ++ deletes sources) rows) [
              | none ↦ (rows, some statement_failed)
              | some after ↦ (after, none)
            ]
      ]

  -- `delete_fails` tells whether the DELETE reports an error.
  unfoldable pub run_retention :
      (ℕ → Bool) → Bool → ℕ → ℤ → List (Row F) → List (Row F) × Option HistoryError
  unfolding rollup_old_minute_buckets expiry
  run_retention fails delete_fails now days rows =
      let (after, failed) = rollup_old_minute_buckets fails now rows in
      elim failed [
        | some e ↦ (after, some e)
        | none ↦ elim days [
          | negsuc n ↦ (after, none)
          | pos n ↦
              if n == 0
              then (after, none)
              else if delete_fails
              then (after, some statement_failed)
              else (
                keep
                    (λ (r : Row F). not (text_lt r.bucket_start (times.format_time (expiry now n))))
                    after,
                none,
              )
        ]
      ]

  unfoldable pub parse_rows : List (Row F) → Option (List (ℕ × Row F))
  parse_rows [] = some []
  parse_rows (r ∷ rows) =
      let rest = parse_rows rows in
      elim (times.parse_time r.bucket_start) [
        | none ↦ none
        | some t ↦ elim rest [ none ↦ none | some points ↦ some ((t, r) ∷ points) ]
      ]

  -- The points with their times, or the error.
  unfoldable pub query_range :
      Bool → Text → Text → ℕ → ℕ → List (Row F) → HistoryError ⊎ List (ℕ × Row F)
  unfolding parse_rows sort_by
  query_range fails entity_type entity_id low high rows =
      if fails
      then inl query_failed
      else elim (parse_rows (
          sort_by (λ (r s : Row F). text_lt r.bucket_start s.bucket_start)
            (keep
              (λ (r : Row F).
                text_eq r.entity_type entity_type
                && (text_eq r.entity_id entity_id
                    && (not (text_lt r.bucket_start (times.format_time low))
                        && not (text_lt (times.format_time high) r.bucket_start))))
              rows))) [ none ↦ inl bad_bucket | some points ↦ inr points ]
