-- ===== src/SqlStore/Agreement.antt =====
-- The hosts of the two implementations of the repository interface:
-- internal/controlplane/storage/sqlstore/host.go against
-- internal/controlplane/storage/memory/memory.go.
use docker_monitoring.Prelude.{
  ◌≡◌, refl, sym, ap, ap₂, ◌∙◌, subst, Option, none, some, List, [], ◌∷◌, Text, arith, Option-cases,
  inl, inr, lookup,
}
use docker_monitoring.Storage.{StoreError}
use docker_monitoring.Storage.Memory
use docker_monitoring.Storage.Memory.{Memory, or_now, of_lookup, new_memory}
use docker_monitoring.Storage.Memory.Refinement.{
  HostWrite, creates, updates, deletes, HostMap, map_write, map_writes, write_hosts,
  write_hosts-map_writes,
}
use docker_monitoring.History.{TimeText}
use docker_monitoring.SqlStore.{Tables}
use docker_monitoring.SqlStore.Rows.{first_row, query_row}
use docker_monitoring.SqlStore.Hosts.{create_host, get_host, update_host, delete_host}
use docker_monitoring.SqlStore.Times.{TimeLaws, IsHostInRange, scan_host-host_row}
use docker_monitoring.SqlStore.{empty_tables}
use docker_monitoring.SqlStore.HostRows.{
  stamped, InRange, Agrees, create_host-Agrees, create_host-fresh, update_host-error,
  delete_host-error, update_host-Agrees, delete_host-Agrees, absent_update-hosts,
  absent_delete-hosts,
}

-- The writes that the program makes: a host is created under a new ID, an update keeps the creation
-- time that was read, and the times are before the year 10000.
abbrev pub IsUsual : HostMap → HostWrite → Type 0
IsUsual m (creates now h) = (m h.id ≡ none) × IsHostInRange (stamped now h)
IsUsual m (updates h) =
    IsHostInRange h × (elim (m h.id) [ none ↦ Unit | some old ↦ h.created_at ≡ old.created_at ])
IsUsual m (deletes id) = Unit

abbrev pub AreUsual : HostMap → List HostWrite → Type 0
AreUsual m [] = Unit
AreUsual m (w ∷ rest) = IsUsual m w × AreUsual (map_write m w).0 rest

module _ {F : Type 0} (times : TimeText) where
  unfoldable pub write_row : Tables F → HostWrite → Tables F × Option StoreError
  write_row s (creates now h) =
      let (after, _, failed) = create_host times s now h in (after, failed)
  write_row s (updates h) = update_host times s h
  write_row s (deletes id) = delete_host s id

  unfoldable pub write_rows : Tables F → List HostWrite → Tables F × List (Option StoreError)
  unfolding write_row
  write_rows s [] = (s, [])
  write_rows s (w ∷ rest) =
      let (after, failed) = write_row s w in
      let (last, more) = write_rows after rest in (last, failed ∷ more)

module _ {F : Type 0} (times : TimeText) where
  write_row-Agrees :
      (s : Tables F) (m : HostMap) (w : HostWrite)
      → Agrees times s m
      → IsUsual m w
      → ((write_row times s w).1 ≡ (map_write m w).1)
        × Agrees times (write_row times s w).0 (map_write m w).0
  unfolding write_row map_write
  write_row-Agrees s m (creates now h) agrees (new, range) = (
    create_host-fresh times s m h now agrees new,
    λ id. create_host-Agrees times s m now h id agrees new range,
  )
  write_row-Agrees s m (updates h) agrees (range, kept) = elim (Option-cases (m h.id)) [
    | inl absent ↦ (
      ground (arith, update_host-error times s m h agrees, absent),
      rw (absent, map_write)
          (λ id. (absent_update-hosts times s m h id agrees absent, (agrees id).1)),
    )
    | inr (old, there) ↦ (
      ground (arith, update_host-error times s m h agrees, there),
      rw (there, map_write)
          (λ id.
            update_host-Agrees times s m h old id agrees there (ground (arith, kept, there)) range),
    )
  ]
  write_row-Agrees s m (deletes gone) agrees usual = elim (Option-cases (m gone)) [
    | inl absent ↦ (
      ground (arith, delete_host-error times s m gone agrees, absent),
      rw (absent, map_write)
          (λ id. (absent_delete-hosts times s m gone id agrees absent, (agrees id).1)),
    )
    | inr (old, there) ↦ (
      ground (arith, delete_host-error times s m gone agrees, there),
      rw (there, map_write) (λ id. delete_host-Agrees times s m gone id agrees),
    )
  ]

  write_rows-Agrees :
      (s : Tables F) (m : HostMap) (writes : List HostWrite)
      → Agrees times s m
      → AreUsual m writes
      → ((write_rows times s writes).1 ≡ (map_writes m writes).1)
        × Agrees times (write_rows times s writes).0 (map_writes m writes).0
  unfolding write_rows map_writes
  write_rows-Agrees s m [] agrees usual = (refl, agrees)
  write_rows-Agrees s m (w ∷ rest) agrees (usual, more) =
      let (error, after) = write_row-Agrees s m w agrees usual in
      let (errors, last) =
        write_rows-Agrees (write_row times s w).0 (map_write m w).0 rest after more in
      (ap₂ (λ (e : Option StoreError) (es : List (Option StoreError)). e ∷ es) error errors, last)

abbrev pub absent_all : HostMap
absent_all id = none

module _ {F : Type 0} (times : TimeText) (laws : TimeLaws times) where
  read-Agrees :
      (s : Tables F) (m : HostMap) (id : Text)
      → Agrees times s m
      → get_host times s id ≡ of_lookup (m id)
  unfolding get_host of_lookup query_row
  read-Agrees s m id agrees = elim (Option-cases (m id)) [
    | inl absent ↦ ground (arith, absent, agrees id)
    | inr (h, there) ↦ ground (
      arith,
      there,
      (agrees id).0,
      scan_host-host_row times laws h (subst InRange there (agrees id).1),
    )
  ]

-- The two implementations of the repository interface agree on hosts: from empty stores, over any
-- sequence of creations under new IDs, of updates that keep the creation time of the host they
-- update, and of deletions, with times before the year 10000, the SQL store and the in-memory store
-- return the same errors, and GetHost then returns the same from both for every ID.
pub write_rows-write_hosts :
    (F : Type 0) (times : TimeText) (writes : List HostWrite) (id : Text)
    → TimeLaws times
    → AreUsual absent_all writes
    → ((write_rows {F = F} times empty_tables writes).1 ≡ (write_hosts {F = F} new_memory writes).1)
      × (get_host times (write_rows {F = F} times empty_tables writes).0 id
          ≡ Memory.get_host (write_hosts {F = F} new_memory writes).0 id)
unfolding Memory.get_host first_row empty_tables new_memory lookup
write_rows-write_hosts F times writes id laws usual =
    let (errors, agrees) =
      write_rows-Agrees {F = F} times empty_tables absent_all writes (λ id. (refl, tt)) usual in
    let (hosts, failures) = write_hosts-map_writes {F = F} new_memory writes in
    (
      errors ∙ sym failures,
      read-Agrees times laws (write_rows times empty_tables writes).0
            (map_writes absent_all writes).0 id agrees
          ∙ ap (λ (m : HostMap). of_lookup (m id)) (sym hosts),
    )
