-- ===== src/SqlStore/Events.antt =====
-- internal/controlplane/storage/sqlstore/event.go
use docker_monitoring.Prelude.{
  ℕ, zero, suc, Bool, true, false, not, ◌||◌, ◌&&◌, ◌++◌, Option, none, some, List, [], ◌∷◌, keep,
  Text, codes, text_eq, if◌then◌else◌,
}
use docker_monitoring.Prelude.Int.{ℤ, pos, negsuc}
use docker_monitoring.Models.{Event, EventSeverity, severity_eq}
use docker_monitoring.Storage.{StoreError, backend_failed, Found, missing, EventFilter}
use docker_monitoring.Storage.Memory.{or_now, text_lt, sort_by}
use docker_monitoring.Storage.Memory.Events.{bounded}
use docker_monitoring.Strings.{format_uint}
use docker_monitoring.History.{TimeText}
use docker_monitoring.SqlStore.{Tables, EventRow}
use docker_monitoring.SqlStore.Rows.{has_row, is_reference, refused_if, query}
use docker_monitoring.SqlStore.Scans.{event_row, scan_event}
use docker_monitoring.SqlStore.Hosts.{is_host}
use docker_monitoring.SqlStore.Containers.{is_container}
use docker_monitoring.SqlStore.Accounts.{is_user}

-- A condition that ListEvents appends to `where`, and an element of `args`.
pub data Condition : Type 0 where
  host_is container_is type_is severity_is created_from created_to : Condition

pub data Argument : Type 0 where
  text_argument : Text → Argument
  severity_argument : EventSeverity → Argument

abbrev pub condition_text : Condition → Text
condition_text host_is = codes "host_id = ?"
condition_text container_is = codes "container_id = ?"
condition_text type_is = codes "type = ?"
condition_text severity_is = codes "severity = ?"
condition_text created_from = codes "created_at >= ?"
condition_text created_to = codes "created_at <= ?"

-- The slices `where` and `args`.
pub record Selection : Type 0 where
  pub conditions : List Condition
  pub args : List Argument

-- `if filter.X != nil { where = append(where, ...); args = append(args, ...) }`
abbrev pub select_if {ℓ} :
    {A : Type ℓ} → Condition → (A → Argument) → Option A → Selection → Selection
select_if condition argument none q = q
select_if condition argument (some a) q = record {
  conditions = q.conditions ++ (condition ∷ []);
  args = q.args ++ (argument a ∷ []);
}

unfoldable pub selection : TimeText → EventFilter → Selection
selection times filter =
    let start : Selection = record { conditions = []; args = [] } in
    let by_host = select_if host_is text_argument filter.host_id start in
    let by_container = select_if container_is text_argument filter.container_id by_host in
    let by_type = select_if type_is text_argument filter.event_type by_container in
    let by_severity = select_if severity_is severity_argument filter.severity by_type in
    let by_from =
      select_if created_from (λ t. text_argument (times.format_time t)) filter.from_time
        by_severity in
    select_if created_to (λ t. text_argument (times.format_time t)) filter.to_time by_from

-- A condition with the argument that its placeholder stands for.
abbrev pub Clause : Type 0
Clause = Condition × Argument

-- The database gives the arguments to the placeholders from left to right, and refuses a statement
-- with more or fewer of them.
unfoldable pub bind_args : List Condition → List Argument → Option (List Clause)
bind_args [] [] = some []
bind_args [] (a ∷ args) = none
bind_args (c ∷ conditions) [] = none
bind_args (c ∷ conditions) (a ∷ args) =
    let rest = bind_args conditions args in
    elim rest [ none ↦ none | some clauses ↦ some ((c, a) ∷ clauses) ]

-- A comparison with NULL does not hold.
abbrev pub column_is : Text → Option Text → Bool
column_is wanted none = false
column_is wanted (some value) = text_eq value wanted

-- A condition on a row; the columns hold text.
unfoldable pub clause_holds : EventRow → Condition → Argument → Bool
clause_holds r host_is (text_argument id) = column_is id r.host_id
clause_holds r container_is (text_argument id) = column_is id r.container_id
clause_holds r type_is (text_argument event_type) = text_eq r.event_type event_type
clause_holds r severity_is (severity_argument severity) = severity_eq r.severity severity
clause_holds r created_from (text_argument start) = not (text_lt r.created_at start)
clause_holds r created_to (text_argument stop) = not (text_lt stop r.created_at)
clause_holds r _ _ = false

-- AND
unfoldable pub all_hold : List Clause → EventRow → Bool
unfolding clause_holds
all_hold [] r = true
all_hold ((c, a) ∷ clauses) r = clause_holds r c a && all_hold clauses r

-- strings.Join(where, " AND ")
unfoldable pub joined : List Condition → Text
joined [] = []
joined (c ∷ []) = condition_text c
joined (c ∷ d ∷ conditions) = condition_text c ++ (codes " AND " ++ joined (d ∷ conditions))

abbrev pub where_text : List Condition → Text
where_text [] = []
where_text (c ∷ conditions) = codes " WHERE " ++ joined (c ∷ conditions)

abbrev pub limit_text : ℤ → Text
limit_text (negsuc n) = []
limit_text (pos zero) = []
limit_text (pos (suc n)) = codes " LIMIT " ++ format_uint (suc n)

abbrev pub select_events : Text
select_events =
    codes
      "SELECT id, type, severity, host_id, container_id, user_id, message, metadata, created_at FROM events"

-- The text that ListEvents gives to the database.
unfoldable pub events_query : TimeText → EventFilter → Text
events_query times filter =
    select_events
    ++ (where_text (selection times filter).conditions
        ++ (codes " ORDER BY created_at DESC" ++ limit_text filter.limit))

module _ {F : Type 0} (times : TimeText) where
  unfoldable pub append_event : Tables F → ℕ → Event → Tables F × Event × Option StoreError
  append_event s now e =
      let stamped = record e { created_at = or_now e.created_at now } in
      let broken =
        has_row (λ r. text_eq r.id e.id) s.events
        || (not (is_reference (λ id. has_row (is_host id) s.hosts) e.host_id)
            || (not (is_reference (λ id. has_row (is_container id) s.containers) e.container_id)
                || not (is_reference (λ id. has_row (is_user id) s.users) e.user_id))) in
      (
        (if broken then s else record s { events = s.events ++ (event_row times stamped ∷ []) }),
        stamped,
        refused_if broken,
      )

  -- What the text of `events_query` with the arguments denotes.
  unfoldable pub list_events : Tables F → EventFilter → Found (List Event)
  list_events s filter =
      let q = selection times filter in
      elim (bind_args q.conditions q.args) [
        | none ↦ missing backend_failed
        | some clauses ↦ query (scan_event times) (
            bounded filter.limit (
              sort_by (λ a b. text_lt b.created_at a.created_at)
                (keep (all_hold clauses) s.events)))
      ]
