-- ===== src/Migrations/Pending.antt =====
-- Which migrations are pending, and the versions of sorted ones
-- (internal/controlplane/storage/sqlstore/migrate.go).
use docker_monitoring.Prelude.{
  ◌≡◌, refl, Bool, true, ◌&&◌, ◌||◌, none, some, List, [], ◌∷◌, ◌++◌, map, inl, inr, arith,
  Sum-cases,
}
use docker_monitoring.Prelude.Int.{ℤ, ltb_ℤ}
use docker_monitoring.Storage.Memory.{insert_sorted, sort_by}
use docker_monitoring.Migrations.{Entry, Migration, eq_ℤ, has_version, version_of, pending_of}

pub has_version-append :
    (v : ℤ) (xs ys : List ℤ) → has_version v (xs ++ ys) ≡ has_version v xs || has_version v ys
unfolding has_version
has_version-append v [] ys = refl
has_version-append v (x ∷ xs) ys = ground (arith, has_version-append v xs ys)

abbrev pub earlier : Migration → Migration → Bool
earlier a b = ltb_ℤ a.version b.version

abbrev pub versions_of : List Migration → List ℤ
versions_of ms = map (λ m. m.version) ms

pub has_version-insert_sorted :
    (v : ℤ) (m : Migration) (ms : List Migration)
    → has_version v (versions_of (insert_sorted earlier m ms))
      ≡ eq_ℤ m.version v || has_version v (versions_of ms)
unfolding has_version insert_sorted
has_version-insert_sorted v m [] = refl
has_version-insert_sorted v m (x ∷ ms) = ground (arith, has_version-insert_sorted v m ms)

pub has_version-sort_by :
    (v : ℤ) (ms : List Migration)
    → has_version v (versions_of (sort_by earlier ms)) ≡ has_version v (versions_of ms)
unfolding has_version sort_by
has_version-sort_by v [] = refl
has_version-sort_by v (m ∷ ms) =
    ground (arith, has_version-sort_by v ms, has_version-insert_sorted v m (sort_by earlier ms))

-- All of the migrations have been recorded.
unfoldable pub all_recorded : List ℤ → List Migration → Bool
all_recorded versions [] = true
all_recorded versions (m ∷ ms) = has_version m.version versions && all_recorded versions ms

-- Where each pending version has been recorded, nothing is pending.
module _ (before after : List ℤ)
    (kept : (v : ℤ) → has_version v before ≡ true → has_version v after ≡ true) where
  pub pending_of-done :
      (entries : List Entry) (pending : List Migration)
      → pending_of before entries ≡ inr pending
      → all_recorded after pending ≡ true
      → pending_of after entries ≡ inr []
  unfolding pending_of all_recorded
  pending_of-done [] pending was all = refl
  pending_of-done (e ∷ entries) pending was all = elim (Sum-cases (version_of e)) [
    | inl (err, bad) ↦ absurd (ground (arith, bad, was))
    | inr (none, other) ↦ ground (arith, other, was, pending_of-done entries pending)
    | inr (some v, numbered) ↦ elim (Sum-cases (pending_of before entries)) [
      | inl (err, bad) ↦ ground (arith, numbered, bad, was, kept v, pending_of-done entries pending)
      | inr (rest, ok) ↦
          ground (arith, numbered, ok, was, all, kept v, pending_of-done entries rest)
    ]
  ]

pub all_recorded-append :
    (before : List ℤ) (done ms : List Migration)
    → ((v : ℤ) → has_version v (versions_of ms) ≡ true → has_version v (versions_of done) ≡ true)
    → all_recorded (before ++ versions_of done) ms ≡ true
unfolding all_recorded has_version
all_recorded-append before done [] within = refl
all_recorded-append before done (m ∷ ms) within = ground (
  arith,
  within m.version,
  has_version-append m.version before (versions_of done),
  all_recorded-append before done ms (λ v there. within v (ground (arith, there))),
)
