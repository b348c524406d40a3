-- ===== src/SqlStore/EventLog.antt =====
-- ListEvents of internal/controlplane/storage/sqlstore/event.go against that of
-- internal/controlplane/storage/memory/memory.go.
use docker_monitoring.Prelude.{
  ℕ, ◌<◌, ◌≡◌, refl, sym, ap, ap₂, ◌∙◌, Bool, true, ◌&&◌, Option, none, some, List, [], ◌∷◌, ◌++◌,
  map, keep, All, Text, arith, Option-cases,
}
use mathlib.Core.List.{reverse, reverse-cons}
use docker_monitoring.Models.{Event, EventSeverity}
use docker_monitoring.Storage.{EventFilter}
use docker_monitoring.Storage.Memory
use docker_monitoring.Storage.Memory.{
  Memory, passes, from_passes, to_passes, text_passes, type_passes, severity_passes, text_lt,
  insert_sorted, sort_by,
}
use docker_monitoring.Storage.Memory.Events.{bounded, list_events-bounded}
use docker_monitoring.History.{TimeText}
use docker_monitoring.SqlStore.{Tables, EventRow}
use docker_monitoring.SqlStore.Rows.{scan_rows, query}
use docker_monitoring.SqlStore.Scans.{event_row, scan_event}
use docker_monitoring.SqlStore.Events.{
  Clause, host_is, container_is, type_is, severity_is, created_from, created_to, text_argument,
  severity_argument, all_hold, clause_holds, list_events,
}
use docker_monitoring.SqlStore.Bindings.{clause_for, where_clauses, selection-bind_args}
use docker_monitoring.SqlStore.Times.{TimeLaws, time_limit, IsTimely, scan_event-event_row}
use docker_monitoring.SqlStore.Lists.{
  insert_sorted-last, All-reverse, All-keep, keep-reverse, bounded-map, bounded-All, map-reverse,
}

-- Each event is from before the later ones of the list, and all are before the year 10000.
abbrev pub IsRising : List Event → Type 0
IsRising [] = Unit
IsRising (e ∷ later) =
    (e.created_at < time_limit) × All (λ x. e.created_at < x.created_at) later × IsRising later

abbrev IsEarly : Event → Type 0
IsEarly e = e.created_at < time_limit

IsRising-IsEarly : (events : List Event) → IsRising events → All IsEarly events
IsRising-IsEarly [] rising = tt
IsRising-IsEarly (e ∷ later) (early, before, rising) = (early, IsRising-IsEarly later rising)

keep-IsRising :
    (test : Event → Bool) (events : List Event) → IsRising events → IsRising (keep test events)
keep-IsRising test [] rising = tt
keep-IsRising test (e ∷ later) (early, before, rising) = ground (
  arith,
  early,
  All-keep (λ x. e.created_at < x.created_at) test later before,
  keep-IsRising test later rising,
)

all_hold-append :
    (a b : List Clause) (r : EventRow) → all_hold (a ++ b) r ≡ (all_hold a r && all_hold b r)
unfolding all_hold
all_hold-append [] b r = refl
all_hold-append ((c, x) ∷ a) b r = ground (arith, all_hold-append a b r)

all_hold-both :
    (a b : List Clause) (r : EventRow) (p q : Bool)
    → all_hold a r ≡ p
    → all_hold b r ≡ q
    → all_hold (a ++ b) r ≡ (p && q)
all_hold-both a b r p q left right = all_hold-append a b r ∙ ap₂ (λ x y. x && y) left right

module _ (times : TimeText) (laws : TimeLaws times) where
  from_clause :
      (o : Option ℕ) (e : Event)
      → IsTimely o
      → IsEarly e
      → all_hold
          (clause_for created_from (λ t. text_argument (times.format_time t)) o)
          (event_row times e)
        ≡ from_passes o e.created_at
  unfolding all_hold clause_holds event_row
  from_clause none e timely early = refl
  from_clause (some t) e timely early =
      ground (arith, laws.format-order e.created_at t early timely)

  to_clause :
      (o : Option ℕ) (e : Event)
      → IsTimely o
      → IsEarly e
      → all_hold
          (clause_for created_to (λ t. text_argument (times.format_time t)) o)
          (event_row times e)
        ≡ to_passes o e.created_at
  unfolding all_hold clause_holds event_row
  to_clause none e timely early = refl
  to_clause (some t) e timely early = ground (arith, laws.format-order t e.created_at timely early)

  host_clause :
      (o : Option Text) (e : Event)
      → all_hold (clause_for host_is text_argument o) (event_row times e) ≡ text_passes o e.host_id
  unfolding all_hold clause_holds event_row
  host_clause none e = refl
  host_clause (some id) e = ground (arith, Option-cases e.host_id)

  container_clause :
      (o : Option Text) (e : Event)
      → all_hold (clause_for container_is text_argument o) (event_row times e)
        ≡ text_passes o e.container_id
  unfolding all_hold clause_holds event_row
  container_clause none e = refl
  container_clause (some id) e = ground (arith, Option-cases e.container_id)

  type_clause :
      (o : Option Text) (e : Event)
      → all_hold (clause_for type_is text_argument o) (event_row times e)
        ≡ type_passes o e.event_type
  unfolding all_hold clause_holds event_row
  type_clause none e = refl
  type_clause (some id) e = ground arith

  severity_clause :
      (o : Option EventSeverity) (e : Event)
      → all_hold (clause_for severity_is severity_argument o) (event_row times e)
        ≡ severity_passes o e.severity
  unfolding all_hold clause_holds event_row
  severity_clause none e = refl
  severity_clause (some severity) e = ground arith

  -- The WHERE clause selects what the filter lets pass.
  all_hold-passes :
      (filter : EventFilter) (e : Event)
      → IsTimely filter.from_time
      → IsTimely filter.to_time
      → IsEarly e
      → all_hold (where_clauses times filter) (event_row times e) ≡ passes filter e
  unfolding passes
  all_hold-passes filter e from_ok to_ok early =
      let r = event_row times e in
      all_hold-both _ _ r _ _ (host_clause filter.host_id e) (
        all_hold-both _ _ r _ _ (container_clause filter.container_id e) (
          all_hold-both _ _ r _ _ (type_clause filter.event_type e) (
            all_hold-both _ _ r _ _ (severity_clause filter.severity e) (
              all_hold-both _ _ r _ _ (from_clause filter.from_time e from_ok early)
                (to_clause filter.to_time e to_ok early)))))

  keep-clauses :
      (filter : EventFilter) (events : List Event)
      → IsTimely filter.from_time
      → IsTimely filter.to_time
      → All IsEarly events
      → keep (all_hold (where_clauses times filter)) (map (event_row times) events)
        ≡ map (event_row times) (keep (passes filter) events)
  keep-clauses filter [] from_ok to_ok all = refl
  keep-clauses filter (e ∷ events) from_ok to_ok (early, all) = ground (
    arith,
    all_hold-passes filter e from_ok to_ok early,
    keep-clauses filter events from_ok to_ok all,
  )

  less_rows :
      (e : Event) (later : List Event)
      → IsEarly e
      → All IsEarly later
      → All (λ x. e.created_at < x.created_at) later
      → All
          (λ y. text_lt (event_row times e).created_at y.created_at ≡ true)
          (map (event_row times) later)
  unfolding event_row
  less_rows e [] early all before = tt
  less_rows e (x ∷ later) early (here, all) (first, before) = (
    ground (arith, laws.format-order e.created_at x.created_at early here),
    less_rows e later early all before,
  )

  -- ORDER BY created_at DESC reverses events that are rising.
  sort_by-rising :
      (events : List Event)
      → IsRising events
      → sort_by (λ a b. text_lt b.created_at a.created_at) (map (event_row times) events)
        ≡ reverse (map (event_row times) events)
  unfolding sort_by
  sort_by-rising [] rising = refl
  sort_by-rising (e ∷ later) (early, before, rising) =
      ap (insert_sorted _ (event_row times e)) (sort_by-rising later rising)
      ∙ insert_sorted-last _ (event_row times e) (reverse (map (event_row times) later)) (
          All-reverse _ (map (event_row times) later)
            (less_rows e later early (IsRising-IsEarly later rising) before))
      ∙ sym (reverse-cons (event_row times e) (map (event_row times) later))

  scan_rows-map :
      (events : List Event)
      → All IsEarly events
      → scan_rows (scan_event times) (map (event_row times) events) ≡ some events
  unfolding scan_rows
  scan_rows-map [] all = refl
  scan_rows-map (e ∷ events) (early, all) =
      ground (arith, scan_event-event_row times laws e early, scan_rows-map events all)

  rows_listed :
      (filter : EventFilter) (events : List Event)
      → IsTimely filter.from_time
      → IsTimely filter.to_time
      → IsRising events
      → sort_by
          (λ a b. text_lt b.created_at a.created_at)
          (keep (all_hold (where_clauses times filter)) (map (event_row times) events))
        ≡ map (event_row times) (keep (passes filter) (reverse events))
  rows_listed filter events from_ok to_ok rising =
      ap (sort_by _) (keep-clauses filter events from_ok to_ok (IsRising-IsEarly events rising))
      ∙ sort_by-rising (keep (passes filter) events) (keep-IsRising (passes filter) events rising)
      ∙ sym (map-reverse (event_row times) (keep (passes filter) events))
      ∙ ap (map (event_row times)) (sym (keep-reverse (passes filter) events))

module _ {F : Type 0} (times : TimeText) where
  -- The two implementations of ListEvents agree before the year 10000: where the SQL store has the
  -- rows of the events that the in-memory store holds, each event is from a later time than those
  -- before it, and the times of the events and of the filter, if it has any, are before that year in
  -- UTC, ListEvents returns the same list from both, in the same order, for any limit and any other
  -- fields of the filter.
  pub list_events-list_events :
      (s : Tables F) (m : Memory F) (filter : EventFilter)
      → TimeLaws times
      → s.events ≡ map (event_row times) m.events
      → IsRising m.events
      → IsTimely filter.from_time
      → IsTimely filter.to_time
      → list_events times s filter ≡ Memory.list_events m filter
  unfolding list_events query
  list_events-list_events s m filter laws same rising from_ok to_ok =
      let listed = bounded filter.limit (keep (passes filter) (reverse m.events)) in
      let rows =
        ap
          (λ (rs : List EventRow). bounded filter.limit (
            sort_by (λ a b. text_lt b.created_at a.created_at)
              (keep (all_hold (where_clauses times filter)) rs)))
          same
        ∙ ap (bounded filter.limit) (rows_listed times laws filter m.events from_ok to_ok rising)
        ∙ bounded-map (event_row times) filter.limit (keep (passes filter) (reverse m.events)) in
      let early : All IsEarly listed = bounded-All IsEarly filter.limit _ (
        All-keep IsEarly (passes filter) (reverse m.events)
          (All-reverse IsEarly m.events (IsRising-IsEarly m.events rising))) in
      ground (
        arith,
        selection-bind_args times filter,
        rows,
        scan_rows-map times laws listed early,
        list_events-bounded m filter,
      )
