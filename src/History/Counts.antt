-- ===== src/History/Counts.antt =====
-- The samples that the history stands for, over the calls that the control plane makes
-- (internal/controlplane/storage/sqlstore/historical_metric.go).
use docker_monitoring.Prelude.{
  ℕ, ◌+◌, ◌-◌, ◌*◌, ◌≤◌, ◌≡◌, refl, Bool, not, ◌&&◌, List, [], ◌∷◌, Text, text_eq, arith,
  if◌then◌else◌,
}
use docker_monitoring.Models.{Float64, Metric}
use docker_monitoring.Monitoring.{second}
use docker_monitoring.History.{TimeText, Row, merge_sample, sample_row, record_historical_sample}
use docker_monitoring.History.Passes.{rollup_old_minute_buckets, expiry}
use docker_monitoring.History.Tables.{weight, samples_of}
use docker_monitoring.History.Rollup.{rollup-samples_of}
use docker_monitoring.History.Upserts.{upsert-samples}

-- A call on the history, with what its calls of the database return.
pub data HistoryCall (F : Type 0) : Type 0 where
  records : (ℕ → Bool) → Metric F → HistoryCall F
  rolls_up : (ℕ → Bool) → ℕ → HistoryCall F

module _ {F : Type 0} ⦃fl : Float64 F⦄ (times : TimeText) where
  unfoldable pub run_history : List (HistoryCall F) → List (Row F) → List (Row F)
  run_history [] rows = rows
  run_history (records fails m ∷ rest) rows =
      run_history rest (record_historical_sample times fails m rows).0
  run_history (rolls_up fails now ∷ rest) rows =
      run_history rest (rollup_old_minute_buckets times fails now rows).0

-- How many of the calls record a sample of the entity, and do not fail.
unfoldable pub recorded : {F : Type 0} → Text → Text → List (HistoryCall F) → ℕ
recorded ty id [] = 0
recorded ty id (records fails m ∷ rest) =
    (if not (fails 0) && (text_eq m.entity_type ty && text_eq m.entity_id id) then 1 else 0)
    + recorded ty id rest
recorded ty id (rolls_up fails now ∷ rest) = recorded ty id rest

module _ {F : Type 0} ⦃fl : Float64 F⦄ (times : TimeText) where
  record-samples_of :
      (fails : ℕ → Bool) (m : Metric F) (rows : List (Row F)) (ty id : Text)
      → samples_of ty id (record_historical_sample times fails m rows).0
        ≡ samples_of ty id rows
          + (if not (fails 0) && (text_eq m.entity_type ty && text_eq m.entity_id id) then 1 else 0)
  unfolding record_historical_sample merge_sample weight sample_row
  record-samples_of fails m rows ty id = ground (
    arith,
    upsert-samples ty id merge_sample (sample_row times m) (λ r. refl) (λ r. refl) (λ r. refl) rows,
  )

  -- The history counts each sample once: over any sequence of recordings and roll-ups, the number of
  -- samples that an entity's rows stand for grows by the number of its recordings that succeeded.
  pub history-samples_of :
      (calls : List (HistoryCall F)) (rows : List (Row F)) (ty id : Text)
      → samples_of ty id (run_history times calls rows)
        ≡ samples_of ty id rows + recorded ty id calls
  unfolding run_history recorded
  history-samples_of [] rows ty id = omega arith
  history-samples_of (records fails m ∷ rest) rows ty id = omega (
    arith,
    record-samples_of fails m rows ty id,
    history-samples_of rest (record_historical_sample times fails m rows).0 ty id,
  )
  history-samples_of (rolls_up fails now ∷ rest) rows ty id = omega (
    arith,
    rollup-samples_of times fails now rows ty id,
    history-samples_of rest (rollup_old_minute_buckets times fails now rows).0 ty id,
  )

-- The expiry is the given number of days ago, up to 106751 days.
pub expiry_exact :
    (now days : ℕ) → days ≤ 106751 → expiry now days ≡ now - days * (24 * 3600 * second)
unfolding expiry
expiry_exact now days few = ground arith
