-- ===== src/Sql/Placeholders.antt =====
-- The placeholders of a query, and opening a store twice
-- (internal/controlplane/storage/sqlstore/store.go).
use docker_monitoring.Prelude.{
  ℕ, ◌+◌, ◌≡◌, refl, ap, ◌∙◌, subst, Bool, false, Option, none, some, List, [], ◌∷◌, ◌++◌, All, inl,
  inr, Text, ◌==◌, arith, append-nil, Option-cases,
}
use docker_monitoring.Strings.{format_uint}
use docker_monitoring.Strings.Lines.{Lacks}
use docker_monitoring.Migrations.{Entry, Database, migrate}
use docker_monitoring.Migrations.Current.{migrate-again}
use docker_monitoring.Sql.{
  Dialect, sqlite, postgres, number_marks, rebind, Answers, dialect_of, prepare, open_store,
}

abbrev at_mark : ℕ → Bool
at_mark c = c == b'?'

-- The text of a query: its pieces with a question mark before each but the first.
abbrev pub with_marks : Text → List Text → Text
with_marks piece [] = piece
with_marks piece (next ∷ pieces) = piece ++ b'?' ∷ with_marks next pieces

-- The pieces with $n+1, $n+2, ... between them.
abbrev pub with_numbers : ℕ → Text → List Text → Text
with_numbers n piece [] = piece
with_numbers n piece (next ∷ pieces) =
    piece ++ (b'$' ∷ (format_uint (n + 1) ++ with_numbers (n + 1) next pieces))

number_marks-piece :
    (n : ℕ) (piece rest : Text)
    → Lacks at_mark piece
    → number_marks n (piece ++ rest) ≡ piece ++ number_marks n rest
unfolding number_marks
number_marks-piece n [] rest lacks = refl
number_marks-piece n (c ∷ piece) rest (other, lacks) =
    ground (arith, other, number_marks-piece n piece rest lacks)

number_marks-nil : (n : ℕ) → number_marks n [] ≡ []
unfolding number_marks
number_marks-nil n = refl

number_marks-mark :
    (n : ℕ) (rest : Text)
    → number_marks n (b'?' ∷ rest) ≡ b'$' ∷ (format_uint (n + 1) ++ number_marks (n + 1) rest)
unfolding number_marks
number_marks-mark n rest = refl

number_marks-pieces :
    (n : ℕ) (piece : Text) (pieces : List Text)
    → Lacks at_mark piece
    → All (Lacks at_mark) pieces
    → number_marks n (with_marks piece pieces) ≡ with_numbers n piece pieces
number_marks-pieces n piece [] lacks all =
    subst (λ s. number_marks n s ≡ s) (append-nil piece)
      (number_marks-piece n piece [] lacks ∙ ap (λ s. piece ++ s) (number_marks-nil n))
number_marks-pieces n piece (next ∷ pieces) lacks (clean, all) =
    number_marks-piece n piece (b'?' ∷ with_marks next pieces) lacks
    ∙ ap (λ (s : Text). piece ++ s)
        (number_marks-mark n (with_marks next pieces)
          ∙ ap (λ (s : Text). b'$' ∷ (format_uint (n + 1) ++ s))
              (number_marks-pieces (n + 1) next pieces clean all))

-- Placeholders are numbered from the left: on PostgreSQL, the n-th question mark of a query becomes
-- $n and all else stays as it is; on SQLite the query stays as it is.
pub rebind-pieces :
    (piece : Text) (pieces : List Text)
    → Lacks at_mark piece
    → All (Lacks at_mark) pieces
    → (rebind postgres (with_marks piece pieces) ≡ with_numbers 0 piece pieces)
      × (rebind sqlite (with_marks piece pieces) ≡ with_marks piece pieces)
unfolding rebind
rebind-pieces piece pieces lacks all = (number_marks-pieces 0 piece pieces lacks all, refl)

module _ {D : Type 0} (exec : D → Text → Option D) where
  open_store-migrated :
      (a : Answers) (entries : List Entry) (driver : Text) (db after : Database D)
      (dialect : Dialect)
      → open_store exec a entries driver db ≡ (after, inr dialect)
      → (dialect_of driver ≡ some dialect)
        × (migrate exec a.migrate_fails entries db ≡ (after, none))
  unfolding open_store
  open_store-migrated a entries driver db after dialect opened =
      elim (Option-cases (dialect_of driver)) [
        | inl bad ↦ absurd (ground (arith, bad, opened))
        | inr (found, known) ↦ elim (Option-cases (prepare found a)) [
          | inr (e, bad) ↦ absurd (ground (arith, known, bad, opened))
          | inl ready ↦ elim (Option-cases (migrate exec a.migrate_fails entries db).1) [
            | inr (e, bad) ↦ absurd (ground (arith, known, ready, bad, opened))
            | inl done ↦ (
              ground (arith, known, ready, done, opened),
              ground (arith, known, ready, done, opened),
            )
          ]
        ]
      ]

  -- A restart changes nothing: where a store has been opened, opening it again with the same driver
  -- and files succeeds with the same dialect and leaves the database as it is, if the driver
  -- reports no error.
  pub open_store-again :
      (first again : Answers) (entries : List Entry) (driver : Text) (db after : Database D)
      (dialect : Dialect)
      → open_store exec first entries driver db ≡ (after, inr dialect)
      → again.open_fails ≡ false
      → prepare dialect again ≡ none
      → again.ping_fails ≡ false
      → again.migrate_fails 0 ≡ false
      → again.migrate_fails 1 ≡ false
      → open_store exec again entries driver after ≡ (after, inr dialect)
  unfolding open_store
  open_store-again first again entries driver db after dialect opened up ready pings c q =
      let (known, migrated) = open_store-migrated first entries driver db after dialect opened in
      ground (
        arith,
        known,
        up,
        ready,
        pings,
        migrate-again exec first.migrate_fails again.migrate_fails entries db after migrated c q,
      )
