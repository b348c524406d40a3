-- ===== src/Storage/Memory/Refinement.antt =====
-- The hosts of internal/controlplane/storage/memory/memory.go as a partial function of their IDs.
use docker_monitoring.Prelude.{
  ℕ, ◌≡◌, refl, ap, ap₂, ◌∙◌, Option, none, some, List, [], ◌∷◌, Text, text_eq, lookup,
  lookup-insert, lookup-delete, arith, if◌then◌else◌, Option-cases, inl, inr,
}
use docker_monitoring.Models.{Host}
use docker_monitoring.Storage.{StoreError, not_found}
use docker_monitoring.Storage.Memory.{Memory, or_now, create_host, update_host, delete_host}

-- The writes of the repository interface's host methods; a creation has the clock's reading.
pub data HostWrite : Type 0 where
  creates : ℕ → Host → HostWrite
  updates : Host → HostWrite
  deletes : Text → HostWrite

-- At most one host for each ID.
abbrev pub HostMap : Type 0
HostMap = Text → Option Host

abbrev pub at_id : HostMap → Text → Option Host → HostMap
at_id m id value other = if text_eq id other then value else m other

-- A write of the in-memory store on that map: it creates over a host that is there, and reports
-- ErrNotFound for an update or a deletion of one that is not.
unfoldable pub map_write : HostMap → HostWrite → HostMap × Option StoreError
map_write m (creates now h) =
    (at_id m h.id (some (record h { created_at = or_now h.created_at now })), none)
map_write m (updates h) = elim (m h.id) [
  | none ↦ (m, some not_found)
  | some old ↦ (at_id m h.id (some h), none)
]
map_write m (deletes id) = elim (m id) [
  | none ↦ (m, some not_found)
  | some old ↦ (at_id m id none, none)
]

unfoldable pub map_writes : HostMap → List HostWrite → HostMap × List (Option StoreError)
unfolding map_write
map_writes m [] = (m, [])
map_writes m (write ∷ rest) =
    let (after, failed) = map_write m write in
    let (last, more) = map_writes after rest in (last, failed ∷ more)

module _ {F : Type 0} where
  unfoldable pub write_host : Memory F → HostWrite → Memory F × Option StoreError
  write_host s (creates now h) =
      let (after, stamped, failed) = create_host s now h in (after, failed)
  write_host s (updates h) = update_host s h
  write_host s (deletes id) = delete_host s id

  unfoldable pub write_hosts : Memory F → List HostWrite → Memory F × List (Option StoreError)
  unfolding write_host
  write_hosts s [] = (s, [])
  write_hosts s (write ∷ rest) =
      let (after, failed) = write_host s write in
      let (last, more) = write_hosts after rest in (last, failed ∷ more)

  -- The hosts of the store by their IDs.
  abbrev pub hosts_of : Memory F → HostMap
  hosts_of s id = lookup id s.hosts

  write_host-error :
      (s : Memory F) (write : HostWrite) → (write_host s write).1 ≡ (map_write (hosts_of s) write).1
  unfolding write_host map_write create_host update_host delete_host
  write_host-error s (creates now h) = refl
  write_host-error s (updates h) = ground arith
  write_host-error s (deletes id) = ground arith

  write_host-hosts :
      (s : Memory F) (write : HostWrite) (id : Text)
      → hosts_of (write_host s write).0 id ≡ (map_write (hosts_of s) write).0 id
  unfolding write_host map_write create_host update_host delete_host
  write_host-hosts s (creates now h) id = lookup-insert h.id id _ s.hosts
  write_host-hosts s (updates h) id = elim (Option-cases (lookup h.id s.hosts)) [
    | inl absent ↦ ground (arith, absent)
    | inr (old, there) ↦ ground (arith, there, lookup-insert h.id id h s.hosts)
  ]
  write_host-hosts s (deletes gone) id = elim (Option-cases (lookup gone s.hosts)) [
    | inl absent ↦ ground (arith, absent)
    | inr (old, there) ↦ ground (arith, there, lookup-delete gone id s.hosts)
  ]

  -- A sequence of writes of hosts, from any store, as one on the partial function from IDs to hosts:
  -- the same errors, and the same host under each ID.
  pub write_hosts-map_writes :
      (s : Memory F) (writes : List HostWrite)
      → (hosts_of (write_hosts s writes).0 ≡ (map_writes (hosts_of s) writes).0)
        × ((write_hosts s writes).1 ≡ (map_writes (hosts_of s) writes).1)
  unfolding write_hosts map_writes
  write_hosts-map_writes s [] = (refl, refl)
  write_hosts-map_writes s (write ∷ rest) =
      let after = (write_host s write).0 in
      let same : hosts_of after ≡ (map_write (hosts_of s) write).0 =
        λ i id. write_host-hosts s write id i in
      let (hosts, errors) = write_hosts-map_writes after rest in
      (
        hosts ∙ ap (λ (m : HostMap). (map_writes m rest).0) same,
        ap₂ (λ (e : Option StoreError) (es : List (Option StoreError)). e ∷ es)
            (write_host-error s write) (errors ∙ ap (λ (m : HostMap). (map_writes m rest).1) same),
      )
