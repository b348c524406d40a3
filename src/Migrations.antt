-- ===== src/Migrations.antt =====
-- internal/controlplane/storage/sqlstore/migrate.go: the runner of the SQL files in migrations/. What
-- a statement does to the tables is the database's: `exec`, `none` where it reports an error. The
-- table schema_migrations is kept apart, as its versions in the order of their rows; no other
-- statement names it. `fails n` tells whether the n-th call of the database that is not such a
-- statement reports an error.
pub mod Pending
pub mod Current
pub mod Statements
use docker_monitoring.Prelude.{
  ℕ, suc, ◌+◌, Bool, true, false, not, ◌||◌, ◌&&◌, Option, none, some, List, [], ◌∷◌, ◌++◌, ◌⊎◌,
  inl, inr, keep, Text, codes, is_empty, ◌==◌, if◌then◌else◌,
}
use docker_monitoring.Prelude.Int.{ℤ, leb_ℤ, ltb_ℤ}
use docker_monitoring.Strings.{has_prefix, has_suffix, split_by, trim_space, cut, atoi}
use docker_monitoring.Storage.Memory.{sort_by}

-- An entry of the embedded directory, with what reading it gives.
pub record Entry : Type 0 where
  pub name : Text
  pub is_dir : Bool
  pub content : Option Text

pub record Migration : Type 0 where
  pub version : ℤ
  pub content : Option Text

-- The tables, and the rows of schema_migrations, if there is such a table.
pub record Database (D : Type 0) : Type 0 where
  pub tables : D
  pub versions : Option (List ℤ)

pub data MigrateError : Type 0 where
  create_failed query_failed bad_name bad_version read_failed : MigrateError
  begin_failed apply_failed record_failed commit_failed : MigrateError

-- The line up to its first "--".
unfoldable pub before_comment : Text → Text
unfolding has_prefix
before_comment [] = []
before_comment (c ∷ s) =
    let rest = before_comment s in if has_prefix (codes "--") (c ∷ s) then [] else c ∷ rest

unfoldable pub strip_lines : List Text → Text
unfolding before_comment
strip_lines [] = []
strip_lines (line ∷ lines) = before_comment line ++ b'\n' ∷ strip_lines lines

-- The TrimSpace of the parts that are not blank.
unfoldable pub trimmed_parts : List Text → List Text
unfolding trim_space
trimmed_parts [] = []
trimmed_parts (stmt ∷ stmts) =
    let rest = trimmed_parts stmts in
    if is_empty (trim_space stmt) then rest else trim_space stmt ∷ rest

unfoldable pub split_statements : Text → List Text
unfolding strip_lines split_by trimmed_parts
split_statements sql_text =
    trimmed_parts (split_by (λ c. c == b';') (strip_lines (split_by (λ c. c == b'\n') sql_text)))

abbrev pub eq_ℤ : ℤ → ℤ → Bool
eq_ℤ a b = leb_ℤ a b && leb_ℤ b a

unfoldable pub has_version : ℤ → List ℤ → Bool
has_version v [] = false
has_version v (w ∷ ws) = eq_ℤ w v || has_version v ws

-- The version that a file's name gives; `none` for an entry that is passed over.
unfoldable pub version_of : Entry → MigrateError ⊎ Option ℤ
unfolding has_suffix cut atoi
version_of e =
    if e.is_dir || not (has_suffix (codes ".sql") e.name)
    then inr none
    else elim (cut b'_' e.name) [
      | none ↦ inl bad_name
      | some (prefix, tail) ↦ elim (atoi prefix) [
        | none ↦ inl bad_version
        | some version ↦ inr (some version)
      ]
    ]

-- The loop over the directory: what is pending, in its order.
unfoldable pub pending_of : List ℤ → List Entry → MigrateError ⊎ List Migration
unfolding version_of has_version
pending_of applied [] = inr []
pending_of applied (e ∷ entries) =
    let rest = pending_of applied entries in
    elim (version_of e) [
      | inl err ↦ inl err
      | inr none ↦ rest
      | inr (some version) ↦ if has_version version applied then rest else elim rest [
        | inl err ↦ inl err
        | inr pending ↦ inr (record { version = version; content = e.content } ∷ pending)
      ]
    ]

-- `CREATE TABLE IF NOT EXISTS schema_migrations`
abbrev pub created : Option (List ℤ) → List ℤ
created none = []
created (some versions) = versions

module _ {D : Type 0} (exec : D → Text → Option D) where
  unfoldable pub exec_all : List Text → D → Option D
  exec_all [] d = some d
  exec_all (stmt ∷ stmts) d = elim (exec d stmt) [ none ↦ none | some after ↦ exec_all stmts after ]

  -- The body of the loop over `pending`; its calls are those from `n` on. A version that is there
  -- already is refused, since it is the table's key.
  unfoldable pub apply_migration :
      (ℕ → Bool) → ℕ → Migration → D → List ℤ → MigrateError ⊎ (D × List ℤ)
  unfolding exec_all split_statements has_version
  apply_migration fails n m d versions = elim m.content [
    | none ↦ inl read_failed
    | some sql ↦ if fails n then inl begin_failed else elim (exec_all (split_statements sql) d) [
      | none ↦ inl apply_failed
      | some after ↦
          if fails (n + 1) || has_version m.version versions
          then inl record_failed
          else if fails (n + 2)
          then inl commit_failed
          else inr (after, versions ++ (m.version ∷ []))
    ]
  ]

  unfoldable pub apply_pending :
      (ℕ → Bool) → ℕ → List Migration → D → List ℤ → (D × List ℤ) × Option MigrateError
  unfolding apply_migration
  apply_pending fails n [] d versions = ((d, versions), none)
  apply_pending fails n (m ∷ pending) d versions = elim (apply_migration fails n m d versions) [
    | inl err ↦ ((d, versions), some err)
    | inr (after, more) ↦ apply_pending fails (n + 3) pending after more
  ]

  unfoldable pub migrate : (ℕ → Bool) → List Entry → Database D → Database D × Option MigrateError
  unfolding pending_of sort_by apply_pending
  migrate fails entries db =
      if fails 0
      then (db, some create_failed)
      else let versions = created db.versions in
        let ready : Database D = record db { versions = some versions } in
        if fails 1 then (ready, some query_failed) else elim (pending_of versions entries) [
          | inl err ↦ (ready, some err)
          | inr pending ↦
              let (after, failed) =
                apply_pending fails 2
                  (sort_by (λ (a b : Migration). ltb_ℤ a.version b.version) pending) db.tables
                  versions in
              (record { tables = after.0; versions = some after.1 }, failed)
        ]
