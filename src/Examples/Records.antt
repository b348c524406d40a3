-- ===== src/Examples/Records.antt =====
-- The in-memory store on concrete records.
use docker_monitoring.Prelude.{ℕ, none, some, List, [], ◌∷◌, codes}
use docker_monitoring.Prelude.Int.{pos}
use docker_monitoring.Models.{Event, info}
use docker_monitoring.Storage.{EventFilter}
use docker_monitoring.Storage.Memory.Records.{Write, creates_host, appends_event, deletes_host}
use docker_monitoring.Examples.Fixtures.{host_id, host_one}

abbrev connected : Event
connected = record {
  id = codes "e1";
  event_type = codes "host.connected";
  severity = info;
  host_id = some host_id;
  container_id = none;
  user_id = none;
  message = codes "up";
  created_at = 0;
}

abbrev writes : List (Write ℕ)
writes =
    creates_host 1 host_one
    ∷ appends_event 7 connected
    ∷ deletes_host host_id
    ∷ appends_event 9 (record connected { created_at = 8 })
    ∷ []

abbrev newest : EventFilter
newest = record {
  host_id = some host_id;
  container_id = none;
  event_type = none;
  severity = some info;
  from_time = none;
  to_time = none;
  limit = pos 1;
}
