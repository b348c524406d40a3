-- ===== src/SqlStore/HostRows.antt =====
-- The row of a host under the statements of internal/controlplane/storage/sqlstore/host.go, where
-- the table holds the rows of a partial function from IDs to hosts.
use docker_monitoring.Prelude.{
  ℕ, ◌≡◌, refl, sym, ap, ◌∙◌, true, false, Option, none, some, Text, text_eq, text_eq_iff, arith,
  Bool-cases, inl, inr,
}
use docker_monitoring.Models.{Host}
use docker_monitoring.Storage.{not_found}
use docker_monitoring.Storage.Memory.{or_now}
use docker_monitoring.Storage.Memory.Refinement.{HostMap, at_id}
use docker_monitoring.History.{TimeText}
use docker_monitoring.SqlStore.{Tables, HostRow}
use docker_monitoring.SqlStore.Rows.{first_row, has_row}
use docker_monitoring.SqlStore.Scans.{host_row}
use docker_monitoring.SqlStore.Hosts.{is_host, create_host, set_host, update_host, delete_host}
use docker_monitoring.SqlStore.Lookup.{
  has_row-first_row, affected-first_row, first_row-append, first_row-other, first_row-key,
  first_row-update, first_row-delete,
}
use docker_monitoring.SqlStore.Times.{IsHostInRange}

-- A host as the store keeps it: with a creation time.
abbrev pub stamped : ℕ → Host → Host
stamped now h = record h { created_at = or_now h.created_at now }

abbrev pub row_of : TimeText → Option Host → Option HostRow
row_of times none = none
row_of times (some h) = some (host_row times h)

abbrev pub InRange : Option Host → Type 0
InRange none = Unit
InRange (some h) = IsHostInRange h

abbrev pub Agrees : {F : Type 0} → TimeText → Tables F → HostMap → Type 0
Agrees times s m =
    (id : Text) → (first_row (is_host id) s.hosts ≡ row_of times (m id)) × InRange (m id)

host_row-stamp :
    (times : TimeText) (h old : Host)
    → h.id ≡ old.id
    → h.created_at ≡ old.created_at
    → set_host times h (host_row times old) ≡ host_row times h
unfolding set_host host_row
host_row-stamp times h old same kept = ground arith

set_host-id : (times : TimeText) (h : Host) (r : HostRow) → (set_host times h r).id ≡ r.id
unfolding set_host
set_host-id times h r = refl

host_row-id : (times : TimeText) (h : Host) → (host_row times h).id ≡ h.id
unfolding host_row
host_row-id times h = refl

module _ {F : Type 0} (times : TimeText) (s : Tables F) (m : HostMap)
    (agrees : Agrees times s m) where
  known_row :
      (id : Text) → has_row (is_host id) s.hosts ≡ (elim (m id) [ none ↦ false | some _ ↦ true ])
  known_row id = ground (arith, has_row-first_row (is_host id) s.hosts, (agrees id).0)

  row_id : (id : Text) (h : Host) → m id ≡ some h → h.id ≡ id
  row_id id h e =
      sym (host_row-id times h)
      ∙ first_row-key (λ r. r.id) id s.hosts (host_row times h)
          ((agrees id).0 ∙ ap (row_of times) e)

module _ {F : Type 0} (times : TimeText) (s : Tables F) (m : HostMap) where
  pub create_host-Agrees :
      (now : ℕ) (h : Host) (id : Text)
      → Agrees times s m
      → m h.id ≡ none
      → IsHostInRange (stamped now h)
      → (first_row (is_host id) (create_host times s now h).0.hosts
          ≡ row_of times (at_id m h.id (some (stamped now h)) id))
        × InRange (at_id m h.id (some (stamped now h)) id)
  unfolding create_host host_row
  create_host-Agrees now h id agrees new range =
      let row = host_row times (stamped now h) in
      elim (Bool-cases (text_eq h.id id)) [
        | inl same ↦ (
          ground (
            arith,
            same,
            text_eq_iff h.id id,
            known_row times s m agrees h.id,
            new,
            first_row-append (is_host id) s.hosts row,
          ),
          ground (arith, same, range),
        )
        | inr other ↦ (
          ground (
            arith,
            other,
            known_row times s m agrees h.id,
            new,
            (agrees id).0,
            first_row-other (is_host id) s.hosts row,
          ),
          ground (arith, other, (agrees id).1),
        )
      ]

  pub create_host-fresh :
      (h : Host) (now : ℕ) → Agrees times s m → m h.id ≡ none → (create_host times s now h).2 ≡ none
  unfolding create_host
  create_host-fresh h now agrees new = ground (arith, known_row times s m agrees h.id, new)

  pub update_host-error :
      (h : Host)
      → Agrees times s m
      → (update_host times s h).1 ≡ (elim (m h.id) [ none ↦ some not_found | some _ ↦ none ])
  unfolding update_host
  update_host-error h agrees =
      ground (arith, known_row times s m agrees h.id, affected-first_row (is_host h.id) s.hosts)

  pub delete_host-error :
      (id : Text)
      → Agrees times s m
      → (delete_host s id).1 ≡ (elim (m id) [ none ↦ some not_found | some _ ↦ none ])
  unfolding delete_host
  delete_host-error id agrees =
      ground (arith, known_row times s m agrees id, affected-first_row (is_host id) s.hosts)

  pub update_host-Agrees :
      (h old : Host) (id : Text)
      → Agrees times s m
      → m h.id ≡ some old
      → h.created_at ≡ old.created_at
      → IsHostInRange h
      → (first_row (is_host id) (update_host times s h).0.hosts
          ≡ row_of times (at_id m h.id (some h) id))
        × InRange (at_id m h.id (some h) id)
  unfolding update_host
  update_host-Agrees h old id agrees there kept range =
      let moved =
        first_row-update (λ r. r.id) (set_host times h) h.id id s.hosts (set_host-id times h) in
      elim (Bool-cases (text_eq h.id id)) [
        | inl same ↦ (
          ground (
            arith,
            same,
            text_eq_iff h.id id,
            there,
            (agrees h.id).0,
            moved,
            host_row-stamp times h old (sym (row_id times s m agrees h.id old there)) kept,
          ),
          ground (arith, same, range),
        )
        | inr other ↦
            (ground (arith, other, moved, (agrees id).0), ground (arith, other, (agrees id).1))
      ]

  pub delete_host-Agrees :
      (gone id : Text)
      → Agrees times s m
      → (first_row (is_host id) (delete_host s gone).0.hosts ≡ row_of times (at_id m gone none id))
        × InRange (at_id m gone none id)
  unfolding delete_host
  delete_host-Agrees gone id agrees = elim (Bool-cases (text_eq gone id)) [
    | inl same ↦
        (ground (arith, same, first_row-delete (λ r. r.id) gone id s.hosts), ground (arith, same))
    | inr other ↦ (
      ground (arith, other, first_row-delete (λ r. r.id) gone id s.hosts, (agrees id).0),
      ground (arith, other, (agrees id).1),
    )
  ]

  -- A statement on an absent host changes no host.
  pub absent_update-hosts :
      (h : Host) (id : Text)
      → Agrees times s m
      → m h.id ≡ none
      → first_row (is_host id) (update_host times s h).0.hosts ≡ row_of times (m id)
  unfolding update_host
  absent_update-hosts h id agrees absent = ground (
    arith,
    first_row-update (λ r. r.id) (set_host times h) h.id id s.hosts (set_host-id times h),
    text_eq_iff h.id id,
    absent,
    (agrees h.id).0,
    (agrees id).0,
  )

  pub absent_delete-hosts :
      (gone id : Text)
      → Agrees times s m
      → m gone ≡ none
      → first_row (is_host id) (delete_host s gone).0.hosts ≡ row_of times (m id)
  unfolding delete_host
  absent_delete-hosts gone id agrees absent = ground (
    arith,
    first_row-delete (λ r. r.id) gone id s.hosts,
    text_eq_iff gone id,
    absent,
    (agrees gone).0,
    (agrees id).0,
  )
