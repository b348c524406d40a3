-- ===== src/Recorder.antt =====
-- internal/controlplane/events/events.go: an event is stored, and pushed to the hub only then.
use docker_monitoring.Prelude.{Option, none, some, [], ◌∷◌, ◌++◌, Text, codes, if◌then◌else◌}
use docker_monitoring.Models.{Event, EventSeverity}
use docker_monitoring.Storage.{Store, StoreError}
use docker_monitoring.World.{Env, World, event_payload, ticked, drawn}

pub record RecordInput : Type 0 where
  pub event_type : Text
  pub severity : EventSeverity
  pub host_id : Option Text
  pub container_id : Option Text
  pub user_id : Option Text
  pub message : Text

abbrev pub events_topic : Text
events_topic = codes "events"

module _ {F S : Type 0} (env : Env) (ops : Store F S) where
  -- The event that Record builds; the store fills in its time.
  unfoldable pub event_from : World F S → RecordInput → Event
  event_from w input = record {
    id = env.new_id w.draws;
    event_type = input.event_type;
    severity = input.severity;
    host_id = input.host_id;
    container_id = input.container_id;
    user_id = input.user_id;
    message = input.message;
    created_at = 0;
  }

  unfoldable pub push_event : World F S → Event → World F S
  push_event w e =
      if w.event_push
      then record w { sent = w.sent ++ ((events_topic, event_payload e) ∷ []) }
      else w

  unfoldable pub record_event : World F S → RecordInput → World F S × Option StoreError
  record_event w input =
      let (s, e, failure) = ops.append_event w.store (env.clock w.reads) (event_from w input) in
      let after = record (ticked (drawn w)) { store = s } in
      elim failure [ some x ↦ (after, some x) | none ↦ (push_event after e, none) ]
