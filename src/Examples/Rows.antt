-- ===== src/Examples/Rows.antt =====
-- The SQL store on concrete inputs, beside the in-memory store and under the handlers.
use docker_monitoring.Prelude.{
  ℕ, ◌*◌, ◌^◌, ◌≡◌, refl, true, false, none, some, List, [], ◌∷◌, codes, text_eq, ◌&&◌,
  if◌then◌else◌, arith, lookup,
}
use docker_monitoring.Prelude.Int.{pos}
use docker_monitoring.Models.{Container, normal, Metric, Event, info, running, unhealthy}
use docker_monitoring.Storage.{found, backend_failed, EventFilter}
use docker_monitoring.Storage.Memory
use docker_monitoring.Storage.Memory.{Memory, text_lt, new_memory}
use docker_monitoring.Storage.Memory.Refinement.{
  HostWrite, creates, updates, deletes, map_write, write_hosts,
}
use docker_monitoring.Storage.Memory.Records.{
  Write, creates_host, upserts_container, appends_event, deletes_host,
}
use docker_monitoring.World.{World, ticked, drawn}
use docker_monitoring.Registry.{err, store_failed}
use docker_monitoring.Telemetry.{Known, id_in, ContainerReport, TelemetryReport, evaluate_reports}
use docker_monitoring.Telemetry.Ingest.{ingest_telemetry}
use docker_monitoring.Http.{no_content}
use docker_monitoring.Api.{Server, replies}
use docker_monitoring.Api.Handlers.{handle_delete_host}
use docker_monitoring.Sql.{sqlite, postgres}
use docker_monitoring.SqlStore.{Tables, empty_tables}
use docker_monitoring.SqlStore.Rows.{first_row, has_row, query_row}
use docker_monitoring.SqlStore.Scans.{
  fits, to_int64, metric_row, host_row, scan_host, scan_time, null_time, bool_to_int, event_row,
}
use docker_monitoring.SqlStore.Hosts.{get_host, delete_host}
use docker_monitoring.SqlStore.Containers.{is_container}
use docker_monitoring.SqlStore.Events.{list_events}
use docker_monitoring.SqlStore.Metrics.{metric_fits, record_metric, latest_metric}
use docker_monitoring.SqlStore.Instance.{sql_store}
use docker_monitoring.SqlStore.Times.{TimeLaws, IsMetricInRange}
use docker_monitoring.SqlStore.Agreement.{AreUsual, absent_all, write_rows, write_rows-write_hosts}
use docker_monitoring.SqlStore.References.{IsReferential}
use docker_monitoring.SqlStore.Integrity.{sql_writes, sql_writes-IsReferential}
use docker_monitoring.SqlStore.Deletes.{IsCascade}
use docker_monitoring.SqlStore.EventLog.{list_events-list_events}
use docker_monitoring.SqlStore.Readings.{record_then_latest, ingest-too_large}
use docker_monitoring.SqlStore.ForeignKeys.{
  handle_delete_host-unrecorded, evaluate_reports-unrecorded,
}
use docker_monitoring.Examples.Fixtures.{
  times, real_column, fixed_point, env, host_one, host_id, thresholds, calm,
}

times_lawful : TimeLaws times
unfolding text_lt
times_lawful = record {
  parse-format = λ t early. refl;
  format-order = λ t u early late. ground arith;
}

abbrev web : Container
web = record {
  id = codes "c1";
  host_id = host_id;
  docker_container_id = codes "d1";
  name = codes "web";
  image = codes "nginx";
  status = running;
  health_status = unhealthy;
  restart_count = pos 0;
  monitoring_mode = normal;
  tags = [];
  created_at = 0;
  last_seen_at = none;
}

abbrev web_event : Event
web_event = record {
  id = codes "e1";
  event_type = codes "test";
  severity = info;
  host_id = some host_id;
  container_id = some (codes "c1");
  user_id = none;
  message = [];
  created_at = 3;
}

abbrev host_writes : List HostWrite
host_writes =
    creates 9 host_one
    ∷ updates (record host_one { agent_enrolled = true })
    ∷ deletes (codes "h2")
    ∷ []

usual : AreUsual absent_all host_writes
unfolding map_write text_eq
usual = (
  (refl, record { created = omega arith; heartbeat = tt; issued = tt }),
  ((record { created = omega arith; heartbeat = tt; issued = tt }, refl), (tt, tt)),
)

write_rows-write_hosts_example :
    ((write_rows {F = ℕ} times empty_tables host_writes).1
      ≡ (write_hosts {F = ℕ} new_memory host_writes).1)
    × (get_host times (write_rows {F = ℕ} times empty_tables host_writes).0 host_id
        ≡ Memory.get_host (write_hosts {F = ℕ} new_memory host_writes).0 host_id)
write_rows-write_hosts_example =
    write_rows-write_hosts ℕ times host_writes host_id times_lawful usual

abbrev row_writes : List (Write ℕ)
row_writes =
    creates_host 9 host_one
    ∷ upserts_container 9 web
    ∷ appends_event 10 web_event
    ∷ deletes_host host_id
    ∷ []

sql_writes-IsReferential_example :
    IsReferential (sql_writes postgres times empty_tables row_writes)
    × IsCascade (sql_writes postgres times empty_tables row_writes) host_id
sql_writes-IsReferential_example = sql_writes-IsReferential postgres times row_writes host_id

abbrev rows_of_web : Tables ℕ
rows_of_web = record empty_tables {
  hosts = host_row times host_one ∷ [];
  events = event_row times web_event ∷ [];
}

abbrev memory_of_web : Memory ℕ
memory_of_web = record new_memory { events = web_event ∷ [] }

abbrev late_events : EventFilter
late_events = record {
  host_id = some host_id;
  container_id = none;
  event_type = none;
  severity = some info;
  from_time = some 2;
  to_time = none;
  limit = pos 5;
}

list_events-list_events_example :
    list_events times rows_of_web late_events ≡ Memory.list_events memory_of_web late_events
list_events-list_events_example =
    list_events-list_events times rows_of_web memory_of_web late_events times_lawful refl
      (omega arith, tt, tt) (omega arith) tt

abbrev large : Metric ℕ
large = record calm { entity_id = host_id; mem_limit_bytes = 8 * 2 ^ 30 }

-- Its percentage has more digits than the column keeps.
abbrev busy : Metric ℕ
busy = record calm { entity_id = host_id; cpu_percent = 123456 }

busy_in_range : IsMetricInRange busy
busy_in_range = record {
  used = omega arith;
  limit = omega arith;
  rx = omega arith;
  tx = omega arith;
  collected = omega arith;
}

busy_fits : metric_fits postgres (metric_row times busy) ≡ true
unfolding metric_fits metric_row fits to_int64
busy_fits = refl

record_then_latest_example :
    ((record_metric postgres times empty_tables busy).1 ≡ none)
    × (latest_metric times (record_metric postgres times empty_tables busy).0 (codes "host") host_id
        ≡ (if text_eq (codes "host") (codes "host") && text_eq host_id host_id
            then found (record busy { cpu_percent = 123000 })
            else latest_metric times empty_tables (codes "host") host_id))
record_then_latest_example =
    record_then_latest postgres times empty_tables busy 123000 (codes "host") host_id times_lawful
      busy_in_range refl busy_fits

abbrev server : Server
server = record {
  auth = none;
  session_ttl = 1000;
  cookie_secure = false;
  registry = true;
  ca = none;
  hub = true;
}

abbrev sql_world : World ℕ (Tables ℕ)
sql_world = record {
  store = rows_of_web;
  monitor = some (record { cfg = thresholds; state = [] });
  event_push = true;
  metric_push = true;
  historical = false;
  sent = [];
  samples = [];
  reads = 0;
  draws = 0;
}

reads_back : get_host times rows_of_web host_id ≡ found host_one
unfolding get_host query_row first_row scan_host scan_time host_row null_time bool_to_int text_eq
reads_back = refl

abbrev large_report : TelemetryReport ℕ
large_report = record { containers = []; metrics = large ∷ [] }

ingest-too_large_example :
    (ingest_telemetry env (sql_store ℕ postgres times) sql_world host_id large_report).1
    ≡ err (store_failed backend_failed)
ingest-too_large_example =
    ingest-too_large env times sql_world host_id host_one large_report large [] reads_back refl refl
      (omega arith) (omega arith)

handle_delete_host-unrecorded_example :
    handle_delete_host env (sql_store ℕ sqlite times) server sql_world host_id ≡ (
      record (ticked (drawn sql_world)) { store = (delete_host rows_of_web host_id).0 },
      replies none (no_content 204),
    )
handle_delete_host-unrecorded_example =
    handle_delete_host-unrecorded env sqlite times server sql_world host_id host_one reads_back

abbrev crashed : ContainerReport
crashed = record {
  docker_container_id = codes "d1";
  name = codes "web";
  image = codes "nginx";
  status = running;
  health_status = unhealthy;
  restart_count = pos 0;
}

abbrev known : Known
known = (codes "d1", (codes "c1", none)) ∷ []

no_rows : has_row (is_container (id_in known (codes "d1"))) sql_world.store.containers ≡ false
unfolding has_row empty_tables lookup text_eq
no_rows = refl

evaluate_reports-unrecorded_example :
    ((evaluate_reports env (sql_store ℕ sqlite times) sql_world host_id known (crashed ∷ [])).store
      ≡ sql_world.store)
    × ((evaluate_reports env (sql_store ℕ sqlite times) sql_world host_id known (crashed ∷ [])).sent
        ≡ [])
evaluate_reports-unrecorded_example =
    evaluate_reports-unrecorded env sqlite times sql_world host_id known (crashed ∷ [])
      (no_rows, tt)
