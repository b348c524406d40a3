-- ===== src/Migrations/Current.antt =====
-- Which migrations a run applies (internal/controlplane/storage/sqlstore/migrate.go).
use docker_monitoring.Prelude.{
  ℕ, ◌+◌, ◌≡◌, refl, sym, ap, ◌∙◌, Bool, false, Option, none, some, List, [], ◌∷◌, ◌++◌,
  append_assoc, append-nil, ◌⊎◌, inl, inr, arith, Option-cases, Sum-cases, Text,
}
use docker_monitoring.Prelude.Int.{ℤ}
use docker_monitoring.Storage.Memory.{sort_by}
use docker_monitoring.Migrations.{
  Entry, Migration, Database, MigrateError, pending_of, exec_all, split_statements, apply_migration,
  apply_pending, created, migrate,
}
use docker_monitoring.Migrations.Pending.{
  has_version-append, earlier, versions_of, has_version-sort_by, pending_of-done,
  all_recorded-append,
}

module _ {D : Type 0} (exec : D → Text → Option D) where
  -- The statements of whole files, one after the other.
  unfoldable pub run_files : List Migration → D → Option D
  unfolding exec_all split_statements
  run_files [] d = some d
  run_files (m ∷ ms) d = elim m.content [
    | none ↦ none
    | some sql ↦ elim (exec_all exec (split_statements sql) d) [
      | none ↦ none
      | some after ↦ run_files ms after
    ]
  ]

  apply_migration-ok :
      (fails : ℕ → Bool) (n : ℕ) (m : Migration) (d after : D) (versions more : List ℤ)
      → apply_migration exec fails n m d versions ≡ inr (after, more)
      → (run_files (m ∷ []) d ≡ some after) × (more ≡ versions ++ (m.version ∷ []))
  unfolding apply_migration run_files
  apply_migration-ok fails n m d after versions more ok = elim (Option-cases m.content) [
    | inl lost ↦ absurd (ground (arith, lost))
    | inr (sql, got) ↦ elim (Option-cases (exec_all exec (split_statements sql) d)) [
      | inl bad ↦ absurd (ground (arith, got, bad))
      | inr (next, done) ↦ (ground (arith, got, done), ground (arith, got, done))
    ]
  ]

  run_files-cons :
      (m : Migration) (ms : List Migration) (d next : D)
      → run_files (m ∷ []) d ≡ some next
      → run_files (m ∷ ms) d ≡ run_files ms next
  unfolding run_files
  run_files-cons m ms d next one = elim (Option-cases m.content) [
    | inl lost ↦ absurd (ground (arith, lost, one))
    | inr (sql, got) ↦ elim (Option-cases (exec_all exec (split_statements sql) d)) [
      | inl bad ↦ absurd (ground (arith, got, bad, one))
      | inr (there, done) ↦ ground (arith, got, done, one)
    ]
  ]

  -- What apply_pending has done, whether it fails or not.
  apply_pending-prefix :
      (fails : ℕ → Bool) (n : ℕ) (pending : List Migration) (d : D) (versions : List ℤ)
      → (done : List Migration) × (todo : List Migration) × (pending ≡ done ++ todo)
        × (run_files done d ≡ some (apply_pending exec fails n pending d versions).0.0)
        × ((apply_pending exec fails n pending d versions).0.1 ≡ versions ++ versions_of done)
        × ((todo ≡ [])
            ⊎ ((err : MigrateError) × ((apply_pending exec fails n pending d versions).1
                  ≡ some err)))
  unfolding apply_pending run_files
  apply_pending-prefix fails n [] d versions =
      ([], [], refl, refl, sym (append-nil versions), inl refl)
  apply_pending-prefix fails n (m ∷ pending) d versions =
      elim (Sum-cases (apply_migration exec fails n m d versions)) [
        | inl (err, bad) ↦ (
          [],
          m ∷ pending,
          refl,
          ground (arith, bad),
          ground (arith, bad, append-nil versions),
          inr (err, ground (arith, bad)),
        )
        | inr ((after, more), ok) ↦
            let (ran, grew) = apply_migration-ok fails n m d after versions more ok in
            let (done, todo, split, files, recorded, complete) =
              apply_pending-prefix fails (n + 3) pending after more in
            (
              m ∷ done,
              todo,
              ap (λ ms. m ∷ ms) split,
              ground (arith, ok, files, run_files-cons m done d after ran),
              ground (
                arith,
                ok,
                recorded,
                grew,
                append_assoc versions (m.version ∷ []) (versions_of done),
              ),
              elim complete [
                | inl over ↦ inl over
                | inr (err, stopped) ↦ inr (err, ground (arith, ok, stopped))
              ],
            )
      ]

  -- A run stops between two files: whatever fails, the tables are those that some first part of the
  -- pending files makes, in the order of their versions, each run in full, and the versions of these
  -- files are what has been recorded in addition. There is a file left only if the run reports an
  -- error. The two calls that read what has been recorded are answered.
  pub migrate-prefix :
      (fails : ℕ → Bool) (entries : List Entry) (db : Database D) (pending : List Migration)
      → fails 0 ≡ false
      → fails 1 ≡ false
      → pending_of (created db.versions) entries ≡ inr pending
      → (done : List Migration) × (todo : List Migration) × (sort_by earlier pending ≡ done ++ todo)
        × (run_files done db.tables ≡ some (migrate exec fails entries db).0.tables)
        × ((migrate exec fails entries db).0.versions
            ≡ some (created db.versions ++ versions_of done))
        × ((todo ≡ []) ⊎ ((err : MigrateError) × ((migrate exec fails entries db).1 ≡ some err)))
  unfolding migrate
  migrate-prefix fails entries db pending up answers ready =
      let (done, todo, split, files, recorded, complete) =
        apply_pending-prefix fails 2 (sort_by earlier pending) db.tables (created db.versions) in
      (
        done,
        todo,
        split,
        ground (arith, up, answers, ready, files),
        ground (arith, up, answers, ready, recorded),
        elim complete [
          | inl over ↦ inl over
          | inr (err, stopped) ↦ inr (err, ground (arith, up, answers, ready, stopped))
        ],
      )

  migrate-records :
      (fails : ℕ → Bool) (entries : List Entry) (db after : Database D)
      → migrate exec fails entries db ≡ (after, none)
      → (pending : List Migration) × (pending_of (created db.versions) entries ≡ inr pending)
        × (after.versions ≡ some (created db.versions ++ versions_of (sort_by earlier pending)))
  unfolding migrate
  migrate-records fails entries db after ok =
      elim (Sum-cases (pending_of (created db.versions) entries)) [
        | inl (err, bad) ↦ absurd (ground (arith, ok, bad))
        | inr (pending, ready) ↦
            let (done, todo, split, files, recorded, complete) =
              apply_pending-prefix fails 2 (sort_by earlier pending) db.tables
                (created db.versions) in
            elim complete [
              | inr (err, stopped) ↦ absurd (ground (arith, ok, ready, stopped))
              | inl over ↦ (
                pending,
                ready,
                ground (arith, ok, ready, recorded, split, over, append-nil done),
              )
            ]
      ]

  migrate-nothing :
      (later : ℕ → Bool) (entries : List Entry) (after : Database D) (versions : List ℤ)
      → later 0 ≡ false
      → later 1 ≡ false
      → after.versions ≡ some versions
      → pending_of versions entries ≡ inr []
      → migrate exec later entries after ≡ (after, none)
  unfolding migrate apply_pending sort_by
  migrate-nothing later entries after versions up answers recorded nothing =
      ground (arith, up, answers, recorded, nothing)

  -- A second run does nothing: after a run that reports no error, a run over the same files leaves the
  -- tables and the recorded versions as they are and reports no error, if the database answers its
  -- first two calls.
  pub migrate-again :
      (fails later : ℕ → Bool) (entries : List Entry) (db after : Database D)
      → migrate exec fails entries db ≡ (after, none)
      → later 0 ≡ false
      → later 1 ≡ false
      → migrate exec later entries after ≡ (after, none)
  unfolding migrate
  migrate-again fails later entries db after ok up answers =
      let (pending, ready, recorded) = migrate-records fails entries db after ok in
      let before = created db.versions in
      let sorted = sort_by earlier pending in
      migrate-nothing later entries after (before ++ versions_of sorted) up answers recorded (
        pending_of-done before (before ++ versions_of sorted)
          (λ v there. ground (arith, there, has_version-append v before (versions_of sorted)))
          entries pending ready
          (all_recorded-append before sorted pending
            (λ v there. has_version-sort_by v pending ∙ there)))
