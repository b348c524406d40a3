-- ===== src/History/Rollup.antt =====
-- What the roll-up of internal/controlplane/storage/sqlstore/historical_metric.go keeps.
use docker_monitoring.Prelude.{
  ℕ, ◌-◌, ◌*◌, ◌≡◌, ◌≢◌, refl, sym, ap, ◌∙◌, Bool, not, none, some, List, [], ◌∷◌, ◌++◌, keep, All,
  Text, arith, Option-cases, List-cases, inl, inr,
}
use docker_monitoring.Models.{Float64}
use docker_monitoring.Monitoring.{second}
use docker_monitoring.History.{
  TimeText, Row, upsert, run_tx, is_old, rollup_after, add_to_group, empty_group, fold_in, upserts,
  deletes, rollup_resolution_seconds, truncate,
}
use docker_monitoring.History.Passes.{group_rows, rollup_old_minute_buckets}
use docker_monitoring.History.Tables.{
  samples_of, apply_all, apply_all-append, run_tx-applies, samples_of-split, keep_comm, none_kept,
  is_deleted, deletes-keep, is_deleted-coarse, keep-is_deleted,
}
use docker_monitoring.History.Upserts.{
  upserts-samples, all_grouped, IsCoarse, group_rows-IsCoarse, upserts-keep,
}

module _ {F : Type 0} ⦃fl : Float64 F⦄ where
  -- What a roll-up that commits has done to the rows.
  rolled :
      (cutoff : Text) (rows groups after : List (Row F)) (fails : ℕ → Bool)
      → run_tx fails 2 (upserts groups ++ deletes (keep (is_old cutoff) rows)) rows ≡ some after
      → keep (λ r. not (is_deleted (keep (is_old cutoff) rows) r)) (apply_all (upserts groups) rows)
        ≡ after
  rolled cutoff rows groups after fails done =
      sym (deletes-keep (keep (is_old cutoff) rows) (apply_all (upserts groups) rows))
      ∙ sym (apply_all-append (upserts groups) (deletes (keep (is_old cutoff) rows)) rows)
      ∙ run_tx-applies fails 2 (upserts groups ++ deletes (keep (is_old cutoff) rows)) rows after
          done

  keep-rolled :
      (cutoff : Text) (rows groups : List (Row F))
      → All IsCoarse groups
      → keep (is_deleted (keep (is_old cutoff) rows)) (apply_all (upserts groups) rows)
        ≡ keep (is_old cutoff) rows
  keep-rolled cutoff rows groups all =
      upserts-keep (is_deleted (keep (is_old cutoff) rows))
        (λ r. is_deleted-coarse (keep (is_old cutoff) rows) r) groups rows all
      ∙ keep-is_deleted cutoff rows

  rolled-samples :
      (ty id cutoff : Text) (rows groups after : List (Row F)) (fails : ℕ → Bool)
      → run_tx fails 2 (upserts groups ++ deletes (keep (is_old cutoff) rows)) rows ≡ some after
      → All IsCoarse groups
      → samples_of ty id groups ≡ samples_of ty id (keep (is_old cutoff) rows)
      → samples_of ty id after ≡ samples_of ty id rows
  rolled-samples ty id cutoff rows groups after fails done all grouped = omega (
    arith,
    grouped,
    upserts-samples ty id groups rows,
    ap (samples_of ty id) (rolled cutoff rows groups after fails done),
    ap (samples_of ty id) (keep-rolled cutoff rows groups all),
    samples_of-split ty id (is_deleted (keep (is_old cutoff) rows))
        (apply_all (upserts groups) rows),
  )

  rolled-done :
      (cutoff : Text) (rows groups after : List (Row F)) (fails : ℕ → Bool)
      → run_tx fails 2 (upserts groups ++ deletes (keep (is_old cutoff) rows)) rows ≡ some after
      → All IsCoarse groups
      → keep (is_old cutoff) after ≡ []
  unfolding is_old
  rolled-done cutoff rows groups after fails done all =
      let gone = is_deleted (keep (is_old cutoff) rows) in
      ap (keep (is_old cutoff)) (sym (rolled cutoff rows groups after fails done))
      ∙ keep_comm (is_old cutoff) (λ r. not (gone r)) (apply_all (upserts groups) rows)
      ∙ ap (keep (λ r. not (gone r))) (
          upserts-keep (is_old cutoff) (λ r coarse. ground arith) groups rows all
          ∙ sym (keep-is_deleted cutoff rows))
      ∙ none_kept gone rows

  group_rows-nil :
      (times : TimeText) (g : Row F) (rows groups : List (Row F))
      → group_rows times rows (g ∷ groups) ≢ some []
  unfolding group_rows fold_in upsert
  group_rows-nil times g [] groups done = absurd (ground arith)
  group_rows-nil times g (r ∷ rows) groups done =
      elim (Option-cases (times.parse_time r.bucket_start)) [
        | inl bad ↦ absurd (ground (arith, bad))
        | inr (t, ok) ↦
            let coarse = times.format_time (truncate t (rollup_resolution_seconds * second)) in
            elim (List-cases (fold_in r coarse (g ∷ groups))) [
              | inl nil ↦ absurd (ground (arith, nil))
              | inr (h, more, e) ↦ group_rows-nil times h rows more (ground (arith, ok, e))
            ]
      ]

  no_groups :
      (times : TimeText) (rows : List (Row F)) → group_rows times rows [] ≡ some [] → rows ≡ []
  unfolding group_rows fold_in upsert
  no_groups times [] done = refl
  no_groups times (r ∷ rows) done = elim (Option-cases (times.parse_time r.bucket_start)) [
    | inl bad ↦ absurd (ground (arith, bad))
    | inr (t, ok) ↦
        let coarse = times.format_time (truncate t (rollup_resolution_seconds * second)) in
        absurd (
          group_rows-nil times (add_to_group (empty_group r coarse) r) rows [] (ground (arith, ok)))
  ]

  -- A roll-up loses no sample and makes none up: for every entity, whether it commits or a call of
  -- the database fails at any point, the rows stand for as many samples after it as before.
  pub rollup-samples_of :
      (times : TimeText) (fails : ℕ → Bool) (now : ℕ) (rows : List (Row F)) (ty id : Text)
      → samples_of ty id (rollup_old_minute_buckets times fails now rows).0 ≡ samples_of ty id rows
  unfolding rollup_old_minute_buckets
  rollup-samples_of times fails now rows ty id =
      let cutoff = times.format_time (now - rollup_after) in
      let sources = keep (is_old cutoff) rows in
      elim (Option-cases (group_rows times sources [])) [
        | inl bad ↦ ground (arith, bad)
        | inr ([], one) ↦ ground (arith, one)
        | inr (g ∷ groups, many) ↦
            elim (Option-cases (run_tx fails 2 (upserts (g ∷ groups) ++ deletes sources) rows)) [
              | inl failed ↦ ground (arith, many, failed)
              | inr (after, done) ↦ ground (
                arith,
                many,
                done,
                rolled-samples ty id cutoff rows (g ∷ groups) after fails done
                    (group_rows-IsCoarse times sources [] (g ∷ groups) many tt)
                    (all_grouped ty id times sources (g ∷ groups) many),
              )
            ]
      ]

  -- A roll-up leaves no work behind: after one that reports no error, no row of a minute is older
  -- than the cut-off.
  pub rollup-done :
      (times : TimeText) (fails : ℕ → Bool) (now : ℕ) (rows : List (Row F))
      → (rollup_old_minute_buckets times fails now rows).1 ≡ none
      → keep
          (is_old (times.format_time (now - rollup_after)))
          (rollup_old_minute_buckets times fails now rows).0
        ≡ []
  unfolding rollup_old_minute_buckets
  rollup-done times fails now rows ok =
      let cutoff = times.format_time (now - rollup_after) in
      let sources = keep (is_old cutoff) rows in
      elim (Option-cases (group_rows times sources [])) [
        | inl bad ↦ absurd (ground (arith, bad))
        | inr ([], one) ↦ ground (arith, one, no_groups times sources one)
        | inr (g ∷ groups, many) ↦
            elim (Option-cases (run_tx fails 2 (upserts (g ∷ groups) ++ deletes sources) rows)) [
              | inl failed ↦ absurd (ground (arith, many, failed))
              | inr (after, done) ↦ ground (
                arith,
                many,
                done,
                rolled-done cutoff rows (g ∷ groups) after fails done
                    (group_rows-IsCoarse times sources [] (g ∷ groups) many tt),
              )
            ]
      ]
