-- ===== src/Storage/Laws.antt =====
-- What the registry relies on of a store's hosts (internal/controlplane/storage/store.go), and the
-- in-memory store as an implementation of it.
use docker_monitoring.Prelude.{
  ℕ, ◌≡◌, refl, none, some, [], ◌∷◌, Text, text_eq, text_eq_iff, Map, lookup, lookup-insert,
  if◌then◌else◌, arith,
}
use docker_monitoring.Models.{Host, Event, Container, Metric}
use docker_monitoring.Storage.{Store, StoreError, found}
use docker_monitoring.Storage.Memory.{
  Memory, get_host, update_host, append_event, upsert_container, record_metric,
}
use docker_monitoring.Storage.Memory.Instance.{memory_store}
use docker_monitoring.Storage.Memory.Keys.{IsWellKeyed, IsKeyed, write-IsWellKeyed}
use docker_monitoring.Storage.Memory.Records.{updates_host, appends_event, write}

-- `IsValid` is the store's own invariant.
pub record HostLaws {F S : Type 0} (ops : Store F S) : Type 1 where
  pub IsValid : S → Type 0
  pub get_host-id :
      (s : S) (id : Text) (h : Host) → IsValid s → ops.get_host s id ≡ found h → h.id ≡ id
  pub get_host-update :
      (s : S) (h : Host) (other : Text)
      → (ops.update_host s h).1 ≡ none
      → ops.get_host (ops.update_host s h).0 other
        ≡ (if text_eq h.id other then found h else ops.get_host s other)
  pub get_host-append :
      (s : S) (now : ℕ) (e : Event) (other : Text)
      → ops.get_host (ops.append_event s now e).0 other ≡ ops.get_host s other
  -- A write that fails changes no host.
  pub get_host-failed :
      (s : S) (h : Host) (e : StoreError) (other : Text)
      → (ops.update_host s h).1 ≡ some e
      → ops.get_host (ops.update_host s h).0 other ≡ ops.get_host s other
  pub get_host-upsert_container :
      (s : S) (now : ℕ) (c : Container) (other : Text)
      → ops.get_host (ops.upsert_container s now c).0 other ≡ ops.get_host s other
  pub get_host-record_metric :
      (s : S) (m : Metric F) (other : Text)
      → ops.get_host (ops.record_metric s m).0 other ≡ ops.get_host s other
  pub update-IsValid : (s : S) (h : Host) → IsValid s → IsValid (ops.update_host s h).0
  pub append-IsValid :
      (s : S) (now : ℕ) (e : Event) → IsValid s → IsValid (ops.append_event s now e).0

lookup-IsKeyed :
    (m : Map Host) (k : Text) (h : Host) → IsKeyed (λ x. x.id) m → lookup k m ≡ some h → h.id ≡ k
unfolding lookup
lookup-IsKeyed [] k h v e = ground arith
lookup-IsKeyed ((j, w) ∷ m) k h v e = ground (arith, text_eq_iff j k, lookup-IsKeyed m k h v.1)

module _ {F : Type 0} where
  pub get_host-id-memory :
      (s : Memory F) (id : Text) (h : Host) → IsWellKeyed s → get_host s id ≡ found h → h.id ≡ id
  unfolding get_host
  get_host-id-memory s id h v e = ground (arith, lookup-IsKeyed s.hosts id h v.hosts_keyed)

  pub get_host-update-memory :
      (s : Memory F) (h : Host) (other : Text)
      → (update_host s h).1 ≡ none
      → get_host (update_host s h).0 other
        ≡ (if text_eq h.id other then found h else get_host s other)
  unfolding get_host update_host
  get_host-update-memory s h other e = ground (arith, lookup-insert h.id other h s.hosts)

  pub get_host-append-memory :
      (s : Memory F) (now : ℕ) (e : Event) (other : Text)
      → get_host (append_event s now e).0 other ≡ get_host s other
  unfolding get_host append_event
  get_host-append-memory s now e other = refl

  pub get_host-failed-memory :
      (s : Memory F) (h : Host) (e : StoreError) (other : Text)
      → (update_host s h).1 ≡ some e
      → get_host (update_host s h).0 other ≡ get_host s other
  unfolding get_host update_host
  get_host-failed-memory s h e other failed = ground arith

  pub get_host-upsert_container-memory :
      (s : Memory F) (now : ℕ) (c : Container) (other : Text)
      → get_host (upsert_container s now c).0 other ≡ get_host s other
  unfolding get_host upsert_container
  get_host-upsert_container-memory s now c other = refl

  pub get_host-record_metric-memory :
      (s : Memory F) (m : Metric F) (other : Text)
      → get_host (record_metric s m).0 other ≡ get_host s other
  unfolding get_host record_metric
  get_host-record_metric-memory s m other = refl

  pub update-IsWellKeyed :
      (s : Memory F) (h : Host) → IsWellKeyed s → IsWellKeyed (update_host s h).0
  unfolding write
  update-IsWellKeyed s h v = write-IsWellKeyed s (updates_host h) v

  pub append-IsWellKeyed :
      (s : Memory F) (now : ℕ) (e : Event) → IsWellKeyed s → IsWellKeyed (append_event s now e).0
  unfolding write
  append-IsWellKeyed s now e v = write-IsWellKeyed s (appends_event now e) v

  abbrev pub memory_laws : HostLaws (memory_store F)
  memory_laws = record {
    IsValid = IsWellKeyed;
    get_host-id = get_host-id-memory;
    get_host-update = get_host-update-memory;
    get_host-append = get_host-append-memory;
    get_host-failed = get_host-failed-memory;
    get_host-upsert_container = get_host-upsert_container-memory;
    get_host-record_metric = get_host-record_metric-memory;
    update-IsValid = update-IsWellKeyed;
    append-IsValid = append-IsWellKeyed;
  }
