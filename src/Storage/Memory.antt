-- ===== src/Storage/Memory.antt =====
-- internal/controlplane/storage/memory/memory.go: the store that keeps everything in maps.
-- Each method holds the store's lock for all of its body, and copies what it stores and returns, so
-- a record here is a value. The entries of a map stand in the order in which Go's `range` visits
-- them; nothing is assumed of that order. `sort.Slice` is insertion sort: it may leave records that
-- compare equal in either order, of which this is one.
pub mod Events
pub mod Records
pub mod Keys
pub mod Accounts
pub mod Instance
pub mod Refinement
use docker_monitoring.Prelude.{
  ℕ, ◌+◌, Bool, true, false, not, ◌&&◌, ◌||◌, Option, none, some, List, [], ◌∷◌, ◌++◌, Text, codes,
  text_eq, Map, lookup, insert, delete, length, ltb, leb, ◌==◌, if◌then◌else◌,
}
use docker_monitoring.Prelude.Int.{ℤ, pos, leb_ℤ, ltb_ℤ}
use docker_monitoring.Models.{
  Host, Container, Metric, User, Session, Event, EventSeverity, severity_eq,
}
use docker_monitoring.Storage.{Store, StoreError, not_found, Found, found, missing, EventFilter}

pub record Memory (F : Type 0) : Type 0 where
  pub hosts : Map Host
  pub containers : Map Container
  pub metrics : Map (Metric F)
  pub events : List Event  -- oldest first
  pub users : Map User
  pub sessions : Map Session

-- The values of a map, as `range` visits them.
unfoldable pub values {ℓ} : {V : Type ℓ} → Map V → List V
values [] = []
values ((k, v) ∷ m) = v ∷ values m

unfoldable pub find_first {ℓ} : {A : Type ℓ} → (A → Bool) → List A → Found A
find_first test [] = missing not_found
find_first test (x ∷ xs) = if test x then found x else find_first test xs

unfoldable pub of_lookup {ℓ} : {A : Type ℓ} → Option A → Found A
of_lookup none = missing not_found
of_lookup (some a) = found a

module _ {ℓ} {A : Type ℓ} (less : A → A → Bool) where
  unfoldable pub insert_sorted : A → List A → List A
  insert_sorted x [] = x ∷ []
  insert_sorted x (y ∷ ys) = if less y x then y ∷ insert_sorted x ys else x ∷ y ∷ ys

  unfoldable pub sort_by : List A → List A
  sort_by [] = []
  sort_by (x ∷ xs) = insert_sorted x (sort_by xs)

-- `<` on Go strings.
unfoldable pub text_lt : Text → Text → Bool
text_lt s [] = false
text_lt [] (d ∷ t) = true
text_lt (c ∷ s) (d ∷ t) = ltb c d || ((c == d) && text_lt s t)

unfoldable pub keep_host : Text → List Container → List Container
keep_host id [] = []
keep_host id (c ∷ cs) =
    let rest = keep_host id cs in if text_eq c.host_id id then c ∷ rest else rest

unfoldable pub drop_user : Text → Map Session → Map Session
drop_user user_id [] = []
drop_user user_id ((k, v) ∷ m) =
    let rest = drop_user user_id m in if text_eq v.user_id user_id then rest else (k, v) ∷ rest

-- `if x.CreatedAt.IsZero() { x.CreatedAt = time.Now().UTC() }`
abbrev pub or_now : ℕ → ℕ → ℕ
or_now created now = if created == 0 then now else created

unfoldable pub metric_key : Text → Text → Text
metric_key entity_type entity_id = entity_type ++ codes "/" ++ entity_id

-- The `continue` conditions of ListEvents: an absent criterion passes everything.
abbrev pub text_passes : Option Text → Option Text → Bool
text_passes none value = true
text_passes (some wanted) none = false
text_passes (some wanted) (some value) = text_eq value wanted

abbrev pub type_passes : Option Text → Text → Bool
type_passes none value = true
type_passes (some wanted) value = text_eq value wanted

abbrev pub severity_passes : Option EventSeverity → EventSeverity → Bool
severity_passes none value = true
severity_passes (some wanted) value = severity_eq value wanted

abbrev pub from_passes : Option ℕ → ℕ → Bool
from_passes none at = true
from_passes (some start) at = not (ltb at start)

abbrev pub to_passes : Option ℕ → ℕ → Bool
to_passes none at = true
to_passes (some stop) at = not (ltb stop at)

unfoldable pub passes : EventFilter → Event → Bool
passes filter e =
    text_passes filter.host_id e.host_id
    && (text_passes filter.container_id e.container_id
        && (type_passes filter.event_type e.event_type
            && (severity_passes filter.severity e.severity
                && (from_passes filter.from_time e.created_at
                    && to_passes filter.to_time e.created_at))))

-- The loop of ListEvents, over the events that are left, newest first.
unfoldable pub scan_events : EventFilter → List Event → List Event → List Event
scan_events filter out [] = out
scan_events filter out (e ∷ older) =
    let grown = out ++ (e ∷ []) in
    let go_on = scan_events filter grown older in
    let skip = scan_events filter out older in
    if passes filter e
    then (if ltb_ℤ (pos 0) filter.limit && leb_ℤ filter.limit (pos (length grown))
        then grown
        else go_on)
    else skip

unfoldable pub newest_first : List Event → List Event → List Event
newest_first acc [] = acc
newest_first acc (e ∷ rest) = newest_first (e ∷ acc) rest

module _ {F : Type 0} where
  unfoldable pub new_memory : Memory F
  new_memory = record {
    hosts = [];
    containers = [];
    metrics = [];
    events = [];
    users = [];
    sessions = [];
  }

  unfoldable pub create_host : Memory F → ℕ → Host → Memory F × Host × Option StoreError
  create_host s now h =
      let stamped = record h { created_at = or_now h.created_at now } in
      (record s { hosts = insert h.id stamped s.hosts }, stamped, none)

  unfoldable pub get_host : Memory F → Text → Found Host
  unfolding of_lookup
  get_host s id = of_lookup (lookup id s.hosts)

  unfoldable pub list_hosts : Memory F → Found (List Host)
  list_hosts s = found (sort_by (λ a b. ltb a.created_at b.created_at) (values s.hosts))

  unfoldable pub update_host : Memory F → Host → Memory F × Option StoreError
  update_host s h = elim (lookup h.id s.hosts) [
    | none ↦ (s, some not_found)
    | some _ ↦ (record s { hosts = insert h.id h s.hosts }, none)
  ]

  unfoldable pub delete_host : Memory F → Text → Memory F × Option StoreError
  delete_host s id = elim (lookup id s.hosts) [
    | none ↦ (s, some not_found)
    | some _ ↦ (record s { hosts = delete id s.hosts }, none)
  ]

  unfoldable pub upsert_container : Memory F → ℕ → Container → Memory F × Option StoreError
  upsert_container s now c =
      let stamped = record c { created_at = or_now c.created_at now } in
      (record s { containers = insert c.id stamped s.containers }, none)

  unfoldable pub get_container : Memory F → Text → Found Container
  unfolding of_lookup
  get_container s id = of_lookup (lookup id s.containers)

  unfoldable pub list_containers_by_host : Memory F → Text → Found (List Container)
  list_containers_by_host s host_id =
      found (sort_by (λ a b. text_lt a.name b.name) (keep_host host_id (values s.containers)))

  unfoldable pub delete_container : Memory F → Text → Memory F × Option StoreError
  delete_container s id = elim (lookup id s.containers) [
    | none ↦ (s, some not_found)
    | some _ ↦ (record s { containers = delete id s.containers }, none)
  ]

  unfoldable pub record_metric : Memory F → Metric F → Memory F × Option StoreError
  record_metric s m =
      (record s { metrics = insert (metric_key m.entity_type m.entity_id) m s.metrics }, none)

  unfoldable pub latest_metric : Memory F → Text → Text → Found (Metric F)
  unfolding of_lookup
  latest_metric s entity_type entity_id =
      of_lookup (lookup (metric_key entity_type entity_id) s.metrics)

  unfoldable pub append_event : Memory F → ℕ → Event → Memory F × Event × Option StoreError
  append_event s now e =
      let stamped = record e { created_at = or_now e.created_at now } in
      (record s { events = s.events ++ (stamped ∷ []) }, stamped, none)

  unfoldable pub list_events : Memory F → EventFilter → Found (List Event)
  list_events s filter = found (scan_events filter [] (newest_first [] s.events))
