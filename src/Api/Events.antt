-- ===== src/Api/Events.antt =====
-- internal/controlplane/api/events.go: the filter that a query stands for.
use docker_monitoring.Prelude.{
  Option, none, some, Text, codes, text_eq, is_empty, ◌⊎◌, inl, inr, ℕ, if◌then◌else◌, ◌==◌,
}
use docker_monitoring.Prelude.Int.{ℤ, pos, negsuc}
use docker_monitoring.Models.{EventSeverity, info, warning, critical_severity, other_severity}
use docker_monitoring.Storage.{Store, EventFilter, found, missing}
use docker_monitoring.Strings.{atoi}
use docker_monitoring.Http.{json}
use docker_monitoring.Api.{EventQuery, ApiReply, replies, refuse, events_body}

-- models.EventSeverity(v)
unfoldable pub severity_of : Text → EventSeverity
severity_of v =
    if text_eq v (codes "info")
    then info
    else if text_eq v (codes "warning")
    then warning
    else if text_eq v (codes "critical")
    then critical_severity
    else other_severity v

abbrev pub given : Text → Option Text
given v = if is_empty v then none else some v

-- A limit that is not a positive number counts as none.
unfoldable pub limit_of : Text → ℤ
unfolding atoi
limit_of v = elim (atoi v) [
  | none ↦ pos 100
  | some (pos n) ↦ if n == 0 then pos 100 else pos n
  | some (negsuc n) ↦ pos 100
]

module _ (parse_rfc3339 : Text → Option ℕ) where
  -- `none` where the parameter is there and does not parse.
  unfoldable pub time_of : Text → Option (Option ℕ)
  time_of v =
      if is_empty v
      then some none
      else elim (parse_rfc3339 v) [ none ↦ none | some t ↦ some (some t) ]

  unfoldable pub filter_of : EventQuery → Text ⊎ EventFilter
  unfolding severity_of limit_of time_of
  filter_of q = elim (time_of q.from_text) [
    | none ↦ inl (codes "invalid 'from' timestamp, expected RFC3339")
    | some from_time ↦ elim (time_of q.to_text) [
      | none ↦ inl (codes "invalid 'to' timestamp, expected RFC3339")
      | some to_time ↦ inr (record {
        host_id = given q.host;
        container_id = given q.container;
        event_type = given q.event_type;
        severity = if is_empty q.severity then none else some (severity_of q.severity);
        from_time = from_time;
        to_time = to_time;
        limit = limit_of q.limit;
      })
    ]
  ]

  unfoldable pub handle_list_events : {F S : Type 0} → Store F S → S → EventQuery → ApiReply
  unfolding filter_of
  handle_list_events ops s q = elim (filter_of q) [
    | inl msg ↦ refuse 400 msg
    | inr filter ↦ elim (ops.list_events s filter) [
      | missing e ↦ refuse 500 (codes "failed to list events")
      | found events ↦ replies none (json 200 (events_body events))
    ]
  ]
