-- ===== src/Examples/Tables.antt =====
-- The SQL store's tables, its files of statements, and the queue of a closed connection, on concrete
-- inputs.
use docker_monitoring.Prelude.{
  ℕ, ◌+◌, ◌*◌, ◌≡◌, ◌⊎◌, refl, true, false, none, some, Option, List, [], ◌∷◌, ◌++◌, Text, codes,
  length, ltb, text_eq, inr,
}
use docker_monitoring.Prelude.Int.{pos}
use docker_monitoring.Strings.{
  has_suffix, cut, atoi, parse_uint, scan_uint, is_digit, split_by, push, trim_space, trim_left,
  trim_right, is_space, has_prefix, after_prefix,
}
use docker_monitoring.Monitoring.{second}
use docker_monitoring.Storage.Memory.{text_lt, sort_by, insert_sorted}
use docker_monitoring.Hub.{Client}
use docker_monitoring.Hub.Pump.{sends, pings, sends_in, run_pump, pump_terminates}
use docker_monitoring.History.{Row, is_old, run_tx, fold_in, upsert, same_bucket}
use docker_monitoring.History.Passes.{rollup_old_minute_buckets, group_rows}
use docker_monitoring.History.Tables.{samples_of}
use docker_monitoring.History.Counts.{
  HistoryCall, records, rolls_up, run_history, recorded, history-samples_of,
}
use docker_monitoring.Migrations.{
  Entry, Migration, Database, MigrateError, pending_of, version_of, has_version, migrate,
  apply_pending, apply_migration, exec_all, split_statements, strip_lines, before_comment,
  trimmed_parts,
}
use docker_monitoring.Migrations.Current.{run_files, migrate-prefix, migrate-again}
use docker_monitoring.Migrations.Pending.{earlier, versions_of}
use docker_monitoring.Examples.Fixtures.{times, fixed_point, hot, host_id}

abbrev leaving : Client ℕ
leaving = record {
  pending = 7 ∷ [];
  closed = true;
  written = [];
  lost = [];
  returned = false;
  dropping = 0;
}

enough_rounds :
    ltb (length leaving.pending) (sends_in (sends true ∷ pings true ∷ sends true ∷ [])) ≡ true
unfolding sends_in
enough_rounds = refl

pump_terminates_example :
    (run_pump leaving (sends true ∷ pings true ∷ sends true ∷ [])).returned ≡ true
pump_terminates_example =
    pump_terminates leaving (sends true ∷ pings true ∷ sends true ∷ []) refl enough_rounds

abbrev hourly : List (HistoryCall ℕ)
hourly =
    records (λ n. false) hot
    ∷ records (λ n. false) hot
    ∷ rolls_up (λ n. false) (7 * 3600 * second)
    ∷ []

history-samples_of_example :
    samples_of (codes "host") [] (run_history times hourly [])
    ≡ samples_of {F = ℕ} (codes "host") [] [] + recorded (codes "host") [] hourly
history-samples_of_example = history-samples_of times hourly [] (codes "host") []

abbrev bucket : Row ℕ
bucket = record {
  entity_type = codes "host";
  entity_id = host_id;
  bucket_start = 60 * second ∷ [];
  resolution = 60;
  sample_count = 3;
  avg = record { cpu_percent = 1; mem_used = 2; mem_limit = 3; net_rx = 4; net_tx = 5 };
}

rolls : (rollup_old_minute_buckets times (λ n. false) (7 * 3600 * second) (bucket ∷ [])).1 ≡ none
unfolding rollup_old_minute_buckets group_rows fold_in upsert same_bucket run_tx is_old text_lt
rolls = refl

-- The tables are the statements that have been run.
abbrev runs : List Text → Text → Option (List Text)
runs tables stmt = some (tables ++ (stmt ∷ []))

abbrev files : List Entry
files =
    record { name = codes "0002_b.sql"; is_dir = false; content = some (codes "B;C") }
    ∷ record { name = codes "0001_a.sql"; is_dir = false; content = some (codes "A") }
    ∷ []

abbrev empty_database : Database (List Text)
empty_database = record { tables = []; versions = none }

abbrev both : List Migration
both =
    record { version = pos 2; content = some (codes "B;C") }
    ∷ record { version = pos 1; content = some (codes "A") }
    ∷ []

is_pending : pending_of [] files ≡ inr both
unfolding pending_of version_of has_suffix cut atoi parse_uint scan_uint is_digit has_version
    text_eq
is_pending = refl

migrate-prefix_example :
    (done : List Migration) × (todo : List Migration) × (sort_by earlier both ≡ done ++ todo)
    × (run_files runs done [] ≡ some (migrate runs (λ n. false) files empty_database).0.tables)
    × ((migrate runs (λ n. false) files empty_database).0.versions ≡ some (versions_of done))
    × ((todo ≡ [])
        ⊎ ((err : MigrateError) × ((migrate runs (λ n. false) files empty_database).1 ≡ some err)))
migrate-prefix_example =
    migrate-prefix runs (λ n. false) files empty_database both refl refl is_pending

abbrev migrated : Database (List Text)
migrated = record {
  tables = codes "A" ∷ codes "B" ∷ codes "C" ∷ [];
  versions = some (pos 1 ∷ pos 2 ∷ []);
}

runs_once : migrate runs (λ n. false) files empty_database ≡ (migrated, none)
unfolding migrate pending_of version_of has_suffix cut atoi parse_uint scan_uint is_digit
    has_version sort_by insert_sorted apply_pending apply_migration exec_all split_statements
    strip_lines before_comment trimmed_parts split_by push trim_space trim_left trim_right is_space
    has_prefix after_prefix text_eq
runs_once = refl

migrate-again_example : migrate runs (λ n. false) files migrated ≡ (migrated, none)
migrate-again_example =
    migrate-again runs (λ n. false) (λ n. false) files empty_database migrated runs_once refl refl
