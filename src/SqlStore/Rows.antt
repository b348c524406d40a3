-- ===== src/SqlStore/Rows.antt =====
-- What the WHERE clauses, keys and foreign keys of a table do to its rows.
use docker_monitoring.Prelude.{
  ℕ, Bool, true, false, not, ◌||◌, Option, none, some, List, [], ◌∷◌, keep, Text, length,
  if◌then◌else◌,
}
use docker_monitoring.Storage.{StoreError, not_found, backend_failed, Found, found, missing}
use docker_monitoring.Sql.{rows_unknown, no_row, check_rows_affected}

module _ {A : Type 0} where
  -- The first row of a query on a key.
  unfoldable pub first_row : (A → Bool) → List A → Option A
  first_row test [] = none
  first_row test (r ∷ rows) = let rest = first_row test rows in if test r then some r else rest

  unfoldable pub has_row : (A → Bool) → List A → Bool
  has_row test [] = false
  has_row test (r ∷ rows) = test r || has_row test rows

  -- UPDATE ... SET ... WHERE: the rows, and how many the clause matches.
  unfoldable pub update_rows : (A → Bool) → (A → A) → List A → List A
  update_rows test set [] = []
  update_rows test set (r ∷ rows) =
      let rest = update_rows test set rows in if test r then set r ∷ rest else r ∷ rest

  abbrev pub rows_matched : (A → Bool) → List A → ℕ
  rows_matched test rows = length (keep test rows)

  -- DELETE FROM ... WHERE
  abbrev pub delete_rows : (A → Bool) → List A → List A
  delete_rows test rows = keep (λ r. not (test r)) rows

-- A foreign key that may be null.
abbrev pub is_reference : (Text → Bool) → Option Text → Bool
is_reference known none = true
is_reference known (some id) = known id

-- ON DELETE SET NULL
abbrev pub cleared : (Text → Bool) → Option Text → Option Text
cleared gone none = none
cleared gone (some id) = if gone id then none else some id

-- The error that checkRowsAffected gives for a number of rows.
unfoldable pub affected : ℕ → Option StoreError
unfolding check_rows_affected
affected n = elim (check_rows_affected (some n)) [
  | none ↦ none
  | some rows_unknown ↦ some backend_failed
  | some (no_row e) ↦ some e
]

-- Statement.Exec with no rows to count.
abbrev pub refused_if : Bool → Option StoreError
refused_if broken = if broken then some backend_failed else none

module _ {R A : Type 0} (scan : R → Option A) where
  -- QueryRow and Scan: sql.ErrNoRows is ErrNotFound, and a row that cannot be read is an error.
  unfoldable pub query_row : Option R → Found A
  query_row none = missing not_found
  query_row (some r) = elim (scan r) [ none ↦ missing backend_failed | some a ↦ found a ]

  -- The loop on rows.Next.
  unfoldable pub scan_rows : List R → Option (List A)
  scan_rows [] = some []
  scan_rows (r ∷ rows) = elim (scan r) [
    | none ↦ none
    | some a ↦ elim (scan_rows rows) [ none ↦ none | some rest ↦ some (a ∷ rest) ]
  ]

  unfoldable pub query : List R → Found (List A)
  unfolding scan_rows
  query rows = elim (scan_rows rows) [ none ↦ missing backend_failed | some all ↦ found all ]
