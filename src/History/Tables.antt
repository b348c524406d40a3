-- ===== src/History/Tables.antt =====
-- Counting and selecting the rows of metric_history
-- (internal/controlplane/storage/sqlstore/historical_metric.go).
use docker_monitoring.Prelude.{
  ℕ, suc, ◌+◌, ◌≡◌, refl, ◌∙◌, Bool, true, false, not, ◌&&◌, ◌||◌, some, List, [], ◌∷◌, ◌++◌, keep,
  Text, text_eq, text_eq_iff, text_eq_refl, ◌==◌, arith, if◌then◌else◌,
}
use docker_monitoring.History.{Row, run_tx, is_old, is_source, delete_source, deletes}

module _ {F : Type 0} (entity_type entity_id : Text) where
  -- How many samples of the entity a row stands for.
  unfoldable pub weight : Row F → ℕ
  weight r =
      if text_eq r.entity_type entity_type && text_eq r.entity_id entity_id
      then r.sample_count
      else 0

  -- How many samples of the entity the rows stand for.
  unfoldable pub samples_of : List (Row F) → ℕ
  unfolding weight
  samples_of [] = 0
  samples_of (r ∷ rows) = weight r + samples_of rows

module _ {F : Type 0} where
  unfoldable pub apply_all : List (List (Row F) → List (Row F)) → List (Row F) → List (Row F)
  apply_all [] rows = rows
  apply_all (stmt ∷ stmts) rows = apply_all stmts (stmt rows)

  pub apply_all-append :
      (ss ts : List (List (Row F) → List (Row F))) (rows : List (Row F))
      → apply_all (ss ++ ts) rows ≡ apply_all ts (apply_all ss rows)
  unfolding apply_all
  apply_all-append [] ts rows = refl
  apply_all-append (s ∷ ss) ts rows = apply_all-append ss ts (s rows)

  -- A transaction that commits has run all of its statements.
  pub run_tx-applies :
      (fails : ℕ → Bool) (n : ℕ) (stmts : List (List (Row F) → List (Row F)))
      (rows after : List (Row F))
      → run_tx fails n stmts rows ≡ some after
      → apply_all stmts rows ≡ after
  unfolding run_tx apply_all
  run_tx-applies fails n [] rows after done = ground arith
  run_tx-applies fails n (s ∷ ss) rows after done =
      run_tx-applies fails (suc n) ss (s rows) after (ground arith)

  pub samples_of-split :
      (ty id : Text) (p : Row F → Bool) (rows : List (Row F))
      → samples_of ty id (keep (λ r. not (p r)) rows) + samples_of ty id (keep p rows)
        ≡ samples_of ty id rows
  unfolding samples_of
  samples_of-split ty id p [] = omega arith
  samples_of-split ty id p (r ∷ rows) = ground (arith, samples_of-split ty id p rows)

  pub keep_comm :
      (p q : Row F → Bool) (rows : List (Row F)) → keep p (keep q rows) ≡ keep q (keep p rows)
  keep_comm p q [] = refl
  keep_comm p q (r ∷ rows) = ground (arith, keep_comm p q rows)

  pub none_kept :
      (p : Row F → Bool) (rows : List (Row F)) → keep (λ r. not (p r)) (keep p rows) ≡ []
  none_kept p [] = refl
  none_kept p (r ∷ rows) = ground (arith, none_kept p rows)

  -- One of the DELETE statements matches the row.
  unfoldable pub is_deleted : List (Row F) → Row F → Bool
  unfolding is_source
  is_deleted [] r = false
  is_deleted (s ∷ sources) r = is_source s.bucket_start r || is_deleted sources r

  keep_or :
      (p q : Row F → Bool) (rows : List (Row F))
      → keep (λ r. not (q r)) (keep (λ r. not (p r)) rows) ≡ keep (λ r. not (p r || q r)) rows
  keep_or p q [] = refl
  keep_or p q (r ∷ rows) = ground (arith, keep_or p q rows)

  pub deletes-keep :
      (sources rows : List (Row F))
      → apply_all (deletes sources) rows ≡ keep (λ r. not (is_deleted sources r)) rows
  unfolding apply_all is_deleted delete_source
  deletes-keep [] [] = refl
  deletes-keep [] (r ∷ rows) = ground (arith, deletes-keep [] rows)
  deletes-keep (s ∷ sources) rows =
      deletes-keep sources (keep (λ r. not (is_source s.bucket_start r)) rows)
      ∙ keep_or (is_source s.bucket_start) (is_deleted sources) rows

  pub is_deleted-coarse :
      (sources : List (Row F)) (r : Row F)
      → (r.resolution == 60) ≡ false
      → is_deleted sources r ≡ false
  unfolding is_deleted is_source
  is_deleted-coarse [] r coarse = refl
  is_deleted-coarse (s ∷ sources) r coarse = ground (arith, is_deleted-coarse sources r coarse)

module _ {F : Type 0} (cutoff : Text) where
  is_deleted-recent :
      (rows : List (Row F)) (r : Row F)
      → is_old cutoff r ≡ false
      → is_deleted (keep (is_old cutoff) rows) r ≡ false
  unfolding is_old is_deleted is_source
  is_deleted-recent [] r recent = refl
  is_deleted-recent (s ∷ rows) r recent =
      ground (arith, is_deleted-recent rows r recent, text_eq_iff r.bucket_start s.bucket_start)

  -- Each row that is old is among the sources.
  unfoldable covers : List (Row F) → List (Row F) → Bool
  unfolding is_old is_deleted
  covers sources [] = true
  covers sources (r ∷ rows) = (not (is_old cutoff r) || is_deleted sources r) && covers sources rows

  covers-more :
      (s : Row F) (sources rows : List (Row F))
      → covers sources rows ≡ true
      → covers (s ∷ sources) rows ≡ true
  unfolding covers is_deleted
  covers-more s sources [] all = refl
  covers-more s sources (r ∷ rows) all = ground (arith, covers-more s sources rows)

  covers-sources : (rows : List (Row F)) → covers (keep (is_old cutoff) rows) rows ≡ true
  unfolding covers is_deleted is_old is_source
  covers-sources [] = refl
  covers-sources (r ∷ rows) = ground (
    arith,
    covers-sources rows,
    covers-more r (keep (is_old cutoff) rows) rows,
    text_eq_refl r.bucket_start,
  )

  keep-covers :
      (sources rows : List (Row F))
      → covers (keep (is_old cutoff) sources) rows ≡ true
      → keep (is_deleted (keep (is_old cutoff) sources)) rows ≡ keep (is_old cutoff) rows
  unfolding covers
  keep-covers sources [] all = refl
  keep-covers sources (r ∷ rows) all =
      ground (arith, keep-covers sources rows, is_deleted-recent sources r)

  -- The DELETE statements match the rows that the query returned, and no other.
  pub keep-is_deleted :
      (rows : List (Row F))
      → keep (is_deleted (keep (is_old cutoff) rows)) rows ≡ keep (is_old cutoff) rows
  keep-is_deleted rows = keep-covers rows rows (covers-sources rows)
