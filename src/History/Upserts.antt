-- ===== src/History/Upserts.antt =====
-- The upserts of the roll-up (internal/controlplane/storage/sqlstore/historical_metric.go).
use docker_monitoring.Prelude.{
  ◌+◌, ◌*◌, ◌≡◌, refl, ◌∙◌, subst, Bool, true, false, some, List, [], ◌∷◌, keep, All, Text,
  text_eq_iff, ◌==◌, arith, if◌then◌else◌, Option-cases, inl, inr,
}
use docker_monitoring.Models.{Float64}
use docker_monitoring.Monitoring.{second}
use docker_monitoring.History.{
  TimeText, Row, same_bucket, upsert, merge_rollup, add_to_group, empty_group, fold_in, mean_of,
  upserts, rollup_resolution_seconds, truncate,
}
use docker_monitoring.History.Passes.{group_rows}
use docker_monitoring.History.Tables.{weight, samples_of, apply_all}

-- `merge` keeps the entity of the stored row, and adds `row`'s count to its own.
module _ {F : Type 0} (ty id : Text) (merge : Row F → Row F → Row F) (row : Row F)
    (types : (r : Row F) → (merge r row).entity_type ≡ r.entity_type)
    (ids : (r : Row F) → (merge r row).entity_id ≡ r.entity_id)
    (counts : (r : Row F) → (merge r row).sample_count ≡ r.sample_count + row.sample_count) where
  pub upsert-samples :
      (rows : List (Row F))
      → samples_of ty id (upsert merge row rows) ≡ samples_of ty id rows + weight ty id row
  unfolding upsert same_bucket samples_of weight
  upsert-samples [] = ground arith
  upsert-samples (r ∷ rows) = ground (
    arith,
    types r,
    ids r,
    counts r,
    upsert-samples rows,
    text_eq_iff r.entity_type row.entity_type,
    text_eq_iff r.entity_id row.entity_id,
  )

-- An upsert of a coarse row leaves alone what a test on the rows of a minute selects.
module _ {F : Type 0} (p : Row F → Bool)
    (fine : (r : Row F) → (r.resolution == 60) ≡ false → p r ≡ false)
    (merge : Row F → Row F → Row F) (row : Row F)
    (same : (r : Row F) → (merge r row).resolution ≡ r.resolution)
    (coarse : (row.resolution == 60) ≡ false) where
  pub upsert-keep : (rows : List (Row F)) → keep p (upsert merge row rows) ≡ keep p rows
  unfolding upsert same_bucket
  upsert-keep [] = ground (arith, fine row coarse)
  upsert-keep (r ∷ rows) =
      ground (arith, fine row coarse, fine r, fine (merge r row), same r, upsert-keep rows)

module _ {F : Type 0} ⦃fl : Float64 F⦄ (ty id : Text) where
  pub upserts-samples :
      (groups rows : List (Row F))
      → samples_of ty id (apply_all (upserts groups) rows)
        ≡ samples_of ty id rows + samples_of ty id groups
  unfolding apply_all samples_of merge_rollup mean_of weight
  upserts-samples [] rows = omega arith
  upserts-samples (g ∷ groups) rows = omega (
    arith,
    upserts-samples groups (upsert merge_rollup (mean_of g) rows),
    upsert-samples ty id merge_rollup (mean_of g) (λ r. refl) (λ r. refl) (λ r. refl) rows,
  )

  pub fold_in-samples :
      (r : Row F) (coarse : Text) (groups : List (Row F))
      → samples_of ty id (fold_in r coarse groups) ≡ samples_of ty id groups + weight ty id r
  unfolding fold_in add_to_group empty_group weight
  fold_in-samples r coarse groups =
      upsert-samples ty id (λ (g fresh : Row F). add_to_group g r)
        (add_to_group (empty_group r coarse) r) (λ g. refl) (λ g. refl) (λ g. ground arith) groups
      ∙ ground arith

  pub group_rows-samples :
      (times : TimeText) (rows groups after : List (Row F))
      → group_rows times rows groups ≡ some after
      → samples_of ty id after ≡ samples_of ty id groups + samples_of ty id rows
  unfolding group_rows samples_of
  group_rows-samples times [] groups after done = ground arith
  group_rows-samples times (r ∷ rows) groups after done =
      elim (Option-cases (times.parse_time r.bucket_start)) [
        | inl bad ↦ ground (arith, bad)
        | inr (t, ok) ↦
            let coarse = times.format_time (truncate t (rollup_resolution_seconds * second)) in
            ground (
              arith,
              fold_in-samples r coarse groups,
              group_rows-samples times rows (fold_in r coarse groups) after (ground (arith, ok)),
            )
      ]

  pub all_grouped :
      (times : TimeText) (rows after : List (Row F))
      → group_rows times rows [] ≡ some after
      → samples_of ty id after ≡ samples_of ty id rows
  unfolding samples_of
  all_grouped times rows after done = omega (arith, group_rows-samples times rows [] after done)

-- The rows of five minutes.
abbrev pub IsCoarse : {F : Type 0} → Row F → Type 0
IsCoarse r = r.resolution ≡ rollup_resolution_seconds

module _ {F : Type 0} ⦃fl : Float64 F⦄ where
  pub fold_in-IsCoarse :
      (r : Row F) (coarse : Text) (groups : List (Row F))
      → All IsCoarse groups
      → All IsCoarse (fold_in r coarse groups)
  unfolding fold_in upsert add_to_group empty_group
  fold_in-IsCoarse r coarse [] all = (refl, tt)
  fold_in-IsCoarse r coarse (g ∷ groups) (c, all) =
      elim (same_bucket g (add_to_group (empty_group r coarse) r))
        as (λ same.
          All IsCoarse (if same then add_to_group g r ∷ groups else g ∷ fold_in r coarse groups)) [
            | true ↦ (c, all)
            | false ↦ (c, fold_in-IsCoarse r coarse groups all)
          ]

  pub group_rows-IsCoarse :
      (times : TimeText) (rows groups after : List (Row F))
      → group_rows times rows groups ≡ some after
      → All IsCoarse groups
      → All IsCoarse after
  unfolding group_rows
  group_rows-IsCoarse times [] groups after done all =
      let same : groups ≡ after = ground arith in subst (All IsCoarse) same all
  group_rows-IsCoarse times (r ∷ rows) groups after done all =
      elim (Option-cases (times.parse_time r.bucket_start)) [
        | inl bad ↦ absurd (ground (arith, bad))
        | inr (t, ok) ↦
            let coarse = times.format_time (truncate t (rollup_resolution_seconds * second)) in
            group_rows-IsCoarse times rows (fold_in r coarse groups) after (ground (arith, ok))
              (fold_in-IsCoarse r coarse groups all)
      ]

  pub upserts-keep :
      (p : Row F → Bool) (fine : (r : Row F) → (r.resolution == 60) ≡ false → p r ≡ false)
      (groups rows : List (Row F))
      → All IsCoarse groups
      → keep p (apply_all (upserts groups) rows) ≡ keep p rows
  unfolding apply_all merge_rollup mean_of
  upserts-keep p fine [] rows all = refl
  upserts-keep p fine (g ∷ groups) rows (coarse, all) =
      upserts-keep p fine groups (upsert merge_rollup (mean_of g) rows) all
      ∙ upsert-keep p fine merge_rollup (mean_of g) (λ r. refl) (ground arith) rows
