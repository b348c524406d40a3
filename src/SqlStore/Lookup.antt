-- ===== src/SqlStore/Lookup.antt =====
-- What the statements do to the row that a key finds (the repository methods of
-- internal/controlplane/storage/sqlstore).
use docker_monitoring.Prelude.{
  ◌≡◌, refl, Bool, true, false, none, some, List, [], ◌∷◌, ◌++◌, Text, text_eq, text_eq_iff,
  if◌then◌else◌, arith,
}
use docker_monitoring.Sql.{check_rows_affected}
use docker_monitoring.Storage.{not_found}
use docker_monitoring.SqlStore.Rows.{
  first_row, has_row, update_rows, rows_matched, delete_rows, affected,
}

module _ {A : Type 0} where
  pub has_row-first_row :
      (test : A → Bool) (rows : List A)
      → has_row test rows ≡ (elim (first_row test rows) [ none ↦ false | some _ ↦ true ])
  unfolding has_row first_row
  has_row-first_row test [] = refl
  has_row-first_row test (r ∷ rows) = ground (arith, has_row-first_row test rows)

  pub affected-first_row :
      (test : A → Bool) (rows : List A)
      → affected (rows_matched test rows) ≡ (if has_row test rows then none else some not_found)
  unfolding affected check_rows_affected has_row
  affected-first_row test [] = refl
  affected-first_row test (r ∷ rows) = ground (arith, affected-first_row test rows)

  pub first_row-append :
      (test : A → Bool) (rows : List A) (r : A)
      → has_row test rows ≡ false
      → first_row test (rows ++ (r ∷ [])) ≡ (if test r then some r else none)
  unfolding has_row first_row
  first_row-append test [] r h = refl
  first_row-append test (x ∷ rows) r h = ground (arith, first_row-append test rows r)

  pub first_row-other :
      (test : A → Bool) (rows : List A) (r : A)
      → test r ≡ false
      → first_row test (rows ++ (r ∷ [])) ≡ first_row test rows
  unfolding first_row
  first_row-other test [] r h = ground arith
  first_row-other test (x ∷ rows) r h = ground (arith, first_row-other test rows r h)

module _ {A : Type 0} (key : A → Text) where
  pub first_row-key :
      (id : Text) (rows : List A) (r : A)
      → first_row (λ x. text_eq (key x) id) rows ≡ some r
      → key r ≡ id
  unfolding first_row
  first_row-key id [] r h = ground arith
  first_row-key id (x ∷ rows) r h = ground (arith, text_eq_iff (key x) id, first_row-key id rows r)

  pub first_row-update :
      (set : A → A) (id other : Text) (rows : List A)
      → ((r : A) → key (set r) ≡ key r)
      → first_row (λ x. text_eq (key x) other) (update_rows (λ x. text_eq (key x) id) set rows) ≡ (
          if text_eq id other
          then elim (first_row (λ x. text_eq (key x) other) rows) [
            | none ↦ none
            | some r ↦ some (set r)
          ]
          else first_row (λ x. text_eq (key x) other) rows)
  unfolding first_row update_rows
  first_row-update set id other [] keeps = ground arith
  first_row-update set id other (x ∷ rows) keeps = ground (
    arith,
    keeps x,
    text_eq_iff (key x) id,
    text_eq_iff (key x) other,
    text_eq_iff id other,
    first_row-update set id other rows keeps,
  )

  pub first_row-delete :
      (id other : Text) (rows : List A)
      → first_row (λ x. text_eq (key x) other) (delete_rows (λ x. text_eq (key x) id) rows)
        ≡ (if text_eq id other then none else first_row (λ x. text_eq (key x) other) rows)
  unfolding first_row
  first_row-delete id other [] = ground arith
  first_row-delete id other (x ∷ rows) = ground (
    arith,
    text_eq_iff (key x) id,
    text_eq_iff (key x) other,
    text_eq_iff id other,
    first_row-delete id other rows,
  )
