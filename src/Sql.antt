-- ===== src/Sql.antt =====
-- internal/controlplane/storage/sqlstore/store.go: opening the SQL store, the placeholders of its
-- queries, and what an update that touches no row means. database/sql and the drivers are outside:
-- whether a call reports an error is an argument.
pub mod Placeholders
use docker_monitoring.Prelude.{
  ℕ, zero, suc, ◌+◌, Bool, true, false, ◌||◌, Option, none, some, List, [], ◌∷◌, ◌++◌, ◌⊎◌, inl,
  inr, Text, codes, text_eq, ◌==◌, if◌then◌else◌,
}
use docker_monitoring.Storage.{StoreError, not_found}
use docker_monitoring.Strings.{format_uint}
use docker_monitoring.Migrations.{Entry, Database, MigrateError, migrate}

pub data Dialect : Type 0 where
  sqlite postgres : Dialect

-- The loop of rebind, where `n` placeholders have been written. Bytes are as good as runes here:
-- no byte of a longer rune is a question mark.
unfoldable pub number_marks : ℕ → Text → Text
number_marks n [] = []
number_marks n (c ∷ query) = elim (c == b'?') [
  | true ↦ b'$' ∷ (format_uint (n + 1) ++ number_marks (n + 1) query)
  | false ↦ c ∷ number_marks n query
]

unfoldable pub rebind : Dialect → Text → Text
unfolding number_marks
rebind sqlite query = query
rebind postgres query = number_marks 0 query

-- checkRowsAffected: the driver's answer is the number of rows, or an error.
pub data RowsError : Type 0 where
  rows_unknown : RowsError
  no_row : StoreError → RowsError

unfoldable pub check_rows_affected : Option ℕ → Option RowsError
check_rows_affected none = some rows_unknown
check_rows_affected (some zero) = some (no_row not_found)
check_rows_affected (some (suc n)) = none

pub data OpenError : Type 0 where
  unsupported_driver open_failed wal_failed foreign_keys_failed ping_failed : OpenError
  migrate_failed : MigrateError → OpenError

-- The driver's answers: which of the calls report an error.
pub record Answers : Type 0 where
  pub open_fails : Bool
  pub wal_fails : Bool
  pub foreign_keys_fails : Bool
  pub ping_fails : Bool
  pub migrate_fails : ℕ → Bool

unfoldable pub dialect_of : Text → Option Dialect
dialect_of driver =
    if text_eq driver (codes "sqlite") || text_eq driver (codes "sqlite3")
    then some sqlite
    else if text_eq driver (codes "postgres") || text_eq driver (codes "postgresql")
    then some postgres
    else none

-- The PRAGMA statements, on SQLite alone.
unfoldable pub prepare : Dialect → Answers → Option OpenError
prepare sqlite a =
    if a.wal_fails
    then some wal_failed
    else if a.foreign_keys_fails
    then some foreign_keys_failed
    else none
prepare postgres a = none

-- Open: the database after it, and the dialect of the store or the error.
unfoldable pub open_store :
    {D : Type 0}
    → (D → Text → Option D)
    → Answers
    → List Entry
    → Text
    → Database D
    → Database D × (OpenError ⊎ Dialect)
unfolding dialect_of prepare
open_store exec a entries driver db = elim (dialect_of driver) [
  | none ↦ (db, inl unsupported_driver)
  | some dialect ↦ if a.open_fails then (db, inl open_failed) else elim (prepare dialect a) [
    | some e ↦ (db, inl e)
    | none ↦
        if a.ping_fails
        then (db, inl ping_failed)
        else let (after, failed) = migrate exec a.migrate_fails entries db in
          elim failed [ some e ↦ (after, inl (migrate_failed e)) | none ↦ (after, inr dialect) ]
  ]
]
