-- ===== src/Examples/Fixtures.antt =====
-- Concrete inputs: a fixed-point stand-in for float64, a clock that ticks every second, hashes that
-- mark their argument, an authority that signs every request, and a store with one host.
use docker_monitoring.Prelude.{
  ℕ, ◌+◌, ◌-◌, ◌*◌, ◌/◌, true, false, none, some, [], ◌∷◌, Text, codes, leb, ltb,
}
use docker_monitoring.Prelude.Int.{pos}
use docker_monitoring.Models.{Float64, Host, remote, unknown, normal, Metric}
use docker_monitoring.Monitoring.{ThresholdConfig, second}
use docker_monitoring.Storage.Memory.{Memory}
use docker_monitoring.World.{Env, World}
use docker_monitoring.Pki.{X509}
use docker_monitoring.History.{TimeText}
use docker_monitoring.Sql.{sqlite, postgres}
use docker_monitoring.SqlStore.{RealColumn}
use docker_monitoring.Auth.{Passwords}
use docker_monitoring.Prelude.{text_eq}

-- Ten-thousandths.
instance abbrev pub fixed_point : Float64 ℕ
fixed_point = record {
  of_ℕ = λ n. n * 10000;
  add = λ a b. a + b;
  sub = λ a b. a - b;
  mul = λ a b. a * b / 10000;
  div = λ a b. a * 10000 / b;
  ge = λ a b. leb b a;
  lt = λ a b. ltb a b;
}

-- SQLite keeps a value, PostgreSQL its first digits.
instance abbrev pub real_column : RealColumn ℕ
real_column = record {
  kept = λ dialect x. elim dialect [ sqlite ↦ some x | postgres ↦ some (x / 1000 * 1000) ];
}

abbrev pub thresholds : ThresholdConfig ℕ
thresholds = record {
  cpu_critical_percent = 900000;
  cpu_recovery_percent = 750000;
  mem_critical_percent = 900000;
  mem_recovery_percent = 750000;
  hysteresis_window = pos (60 * second);
  min_consecutive_normal_samples = pos 3;
  normal_interval_seconds = pos 60;
  critical_interval_seconds = pos 10;
  manual_interval_seconds = pos 2;
}

abbrev pub metric_at : Text → Text → ℕ → Metric ℕ
metric_at entity_type entity_id cpu = record {
  entity_type = entity_type;
  entity_id = entity_id;
  cpu_percent = cpu * 10000;
  mem_used_bytes = 1;
  mem_limit_bytes = 10;
  net_rx_bytes = 0;
  net_tx_bytes = 0;
  collected_at = 0;
  mode = normal;
  interval_seconds = pos 60;
}

abbrev pub calm : Metric ℕ
calm = metric_at (codes "host") [] 20

abbrev pub hot : Metric ℕ
hot = metric_at (codes "host") [] 95

abbrev pub env : Env
env = record {
  clock = λ n. (1000 + n) * second;
  new_id = λ n. b'e' ∷ n ∷ [];
  random_token = λ n. some (b't' ∷ n ∷ []);
  hash_token = λ t. b'#' ∷ t;
  fingerprint = λ t. b'!' ∷ t;
  name_uuid = λ t. b'u' ∷ t;
}

abbrev pub authority : X509
authority = record {
  parse_certificate_request = λ der. some (record { requested_name = der; public_key = der });
  check_signature = λ csr. true;
  random_serial = λ n. some n;
  create_certificate = λ template key. some template.common_name;
  encode_pem = λ der. der;
}

abbrev pub host_id : Text
host_id = codes "h1"

abbrev pub host_one : Host
host_one = record {
  id = host_id;
  name = codes "one";
  address = codes "10.0.0.1";
  kind = remote;
  agent_id = [];
  connection_status = unknown;
  docker_version = [];
  os_info = [];
  monitoring_mode = normal;
  last_heartbeat_at = none;
  created_at = 5;
  enrollment_token_hash = [];
  enrollment_issued_at = none;
  agent_enrolled = false;
  cert_fingerprint = [];
}

-- The host with a token that was issued at the clock's first reading.
abbrev pub token : Text
token = codes "secret"

abbrev pub host_waiting : Host
host_waiting = record host_one {
  enrollment_token_hash = b'#' ∷ token;
  enrollment_issued_at = some (1000 * second);
}

abbrev pub store_with : Host → Memory ℕ
store_with host = record {
  hosts = (host_id, host) ∷ [];
  containers = [];
  metrics = [];
  events = [];
  users = [];
  sessions = [];
}

abbrev pub world_with : Host → World ℕ (Memory ℕ)
world_with host = record {
  store = store_with host;
  monitor = some (record { cfg = thresholds; state = [] });
  event_push = true;
  metric_push = true;
  historical = false;
  sent = [];
  samples = [];
  reads = 0;
  draws = 0;
}

-- A time is the text of its nanoseconds, as one byte.
abbrev pub times : TimeText
times = record {
  format_time = λ t. t ∷ [];
  parse_time = λ s. elim s [ [] ↦ none | c ∷ rest ↦ some c ];
}

-- A stored hash is the password behind a dollar sign.
abbrev pub dollars : Passwords
dollars = record {
  hash_password = λ n password. some (b'$' ∷ password);
  verify_password = λ password hash. some (text_eq (b'$' ∷ password) hash);
  dummy_hash = codes "$dummy-password-for-timing-parity-only";
}
