-- ===== src/Examples/Starts.antt =====
-- Starts of the two programs on concrete files and settings, and a request to the Docker daemon.
use docker_monitoring.Prelude.{
  ℕ, ◌≡◌, refl, sym, true, false, ◌&&◌, not, none, some, Option, List, [], ◌∷◌, Text, codes,
  text_eq, is_empty, lookup, insert, ◌==◌, if◌then◌else◌, inl, inr, arith,
}
use docker_monitoring.Prelude.Int.{pos}
use docker_monitoring.Storage.Laws.{memory_laws}
use docker_monitoring.Storage.Memory.Instance.{memory_store}
use docker_monitoring.World.{World}
use docker_monitoring.Migrations.{Database}
use docker_monitoring.Sql.{Answers}
use docker_monitoring.Config.{
  Config, Lookups, load, get_env, get_env_int, get_env_bool, settings, check_settings,
}
use docker_monitoring.Pki.{Template}
use docker_monitoring.Pki.Authority.{
  Keys, Certificate, Authority, generate_ca, ca_template, cert_pem, key_pem,
}
use docker_monitoring.Startup.{
  Files, Faults, first_bytes, failed_write, new_ca, persist_ca, load_or_generate_ca,
}
use docker_monitoring.Startup.Restart.{no_faults}
use docker_monitoring.Pki.Export.{KeysLaws}
use docker_monitoring.Startup.Enrolling.{
  AgentConfig, Identity, AgentKeys, ClientChecks, key_not_cached, agent_identity, enroll_agent,
  enroll_and_cache, cache_identity, exchange_csr,
}
use docker_monitoring.Startup.Exchange.{delivered}
use docker_monitoring.Startup.Cached.{restart-same_identity}
use docker_monitoring.Prelude.{suc}
use docker_monitoring.Startup.Lockout.{GetsNowhere, lost_key-locks_out}
use docker_monitoring.Startup.Settings.{
  Ready, has_history, memory_backend, open_backend, equip, start,
}
use docker_monitoring.Startup.Checks.{start-ready}
use docker_monitoring.Pki.{agent_template, issue_agent_cert}
use docker_monitoring.Registry.{save_host, token_accepted, enroll_check, enroll_commit, enroll}
use docker_monitoring.AgentApi.{enroll_with, handle_enroll}
use docker_monitoring.Transport.{enroll_answered}
use docker_monitoring.Storage.Memory.{Memory, get_host, update_host}
use docker_monitoring.Docker.{action_stop, exec_path, path_escape, escape_byte, is_kept}
use docker_monitoring.Examples.Agents.{store_with-IsWellKeyed}
use docker_monitoring.Examples.Fixtures.{
  fixed_point, env, authority, host_waiting, world_with, host_id, token,
}

-- A certificate is a mark and the key; a key is its own public key and its own PEM.
abbrev keys : Keys
keys = record {
  generate_key = λ n. some (b'k' ∷ n ∷ []);
  public_of = λ key. key;
  create_certificate = λ t signer public key. some ((if t.is_ca then 1 else 0) ∷ public);
  parse_certificate = λ der. elim der [
    | [] ↦ none
    | c ∷ rest ↦ some (record { raw = c ∷ rest; public_key = some rest; is_ca = c == 1 })
  ];
  marshal_key = λ key. some key;
  parse_key = λ der. some der;
  encode_pem = λ kind der. der;
  decode_pem = λ pem. some pem;
  parse_ip = λ s. none;
}

parsed_raw : (der : Text) (c : Certificate) → keys.parse_certificate der ≡ some c → c.raw ≡ der
parsed_raw [] c e = absurd (ground arith)
parsed_raw (d ∷ rest) c e = ground arith

parsed_created :
    (t : Template) (signer : Option Certificate) (public key der : Text) (c : Certificate)
    → keys.create_certificate t signer public key ≡ some der
    → keys.parse_certificate der ≡ some c
    → (c.public_key ≡ some public) × (c.is_ca ≡ t.is_ca)
parsed_created t signer public key [] c made e = absurd (ground arith)
parsed_created t signer public key (d ∷ rest) c made e = (ground arith, ground arith)

keys_lawful : KeysLaws keys
keys_lawful = record {
  decode_pem-encode_pem = λ kind der. refl;
  parse_key-marshal_key = λ key der e. sym e;
  parse_certificate-raw = parsed_raw;
  parse_certificate-created = parsed_created;
}

abbrev secret_only : Lookups
secret_only key = if text_eq key (codes "DM_SESSION_SECRET") then some (codes "s") else none

abbrev secret_config : Config
secret_config = record {
  http_addr = codes ":8080";
  storage_driver = codes "memory";
  database_url = [];
  normal_interval_seconds = pos 60;
  critical_interval_seconds = pos 10;
  manual_interval_seconds = pos 2;
  hysteresis_seconds = pos 60;
  historical_metrics_enabled = false;
  historical_retention_days = pos 90;
  session_secret = codes "s";
  agent_addr = codes ":8443";
  ca_dir = codes "./data/ca";
  session_ttl_hours = pos 24;
  cookie_secure = true;
  bootstrap_admin_email = [];
  bootstrap_admin_password = [];
}

loads : load secret_only ≡ inr secret_config
unfolding load settings check_settings get_env get_env_int get_env_bool text_eq
loads = refl

abbrev new_authority : Authority
new_authority = record {
  cert = record { raw = 1 ∷ b'k' ∷ 7 ∷ []; public_key = some (b'k' ∷ 7 ∷ []); is_ca = true };
  key = b'k' ∷ 7 ∷ [];
}

abbrev ca_files : Files
ca_files =
    (codes "./data/ca/ca-key.pem", b'k' ∷ 7 ∷ [])
    ∷ (codes "./data/ca/ca-cert.pem", 1 ∷ b'k' ∷ 7 ∷ [])
    ∷ []

abbrev ready : Ready
ready = record {
  config = secret_config;
  backend = memory_backend;
  ca = new_authority;
  historical = false;
}

abbrev no_answers : Answers
no_answers = record {
  open_fails = false;
  wal_fails = false;
  foreign_keys_fails = false;
  ping_fails = false;
  migrate_fails = λ n. false;
}

abbrev nothing_there : Database (List Text)
nothing_there = record { tables = []; versions = none }

abbrev runs_nothing : List Text → Text → Option (List Text)
runs_nothing tables statement = none

first_start :
    start runs_nothing no_answers []
      (λ path. path)
      no_faults
      keys
      authority
      secret_only
      nothing_there
      []
      7
      9
    ≡ (nothing_there, (ca_files, inr ready))
unfolding start open_backend equip load settings check_settings get_env get_env_int get_env_bool
    text_eq load_or_generate_ca new_ca persist_ca generate_ca ca_template cert_pem key_pem lookup
    insert
first_start = refl

start-ready_example :
    (load secret_only ≡ inr secret_config)
    × (is_empty secret_config.session_secret ≡ false)
    × ((text_eq secret_config.storage_driver (codes "postgres")
          && is_empty secret_config.database_url)
        ≡ false)
    × ((false && not (has_history memory_backend)) ≡ false)
    × (load_or_generate_ca keys authority no_faults ca_files (codes "./data/ca") 8 20
        ≡ (ca_files, inr new_authority))
start-ready_example =
    start-ready runs_nothing no_answers [] (λ path. path) no_faults keys authority secret_only
      nothing_there nothing_there [] ca_files 7 9 8 20 ready keys_lawful first_start

-- The agent's side: a key is its own PEM, and a request carries the name.
abbrev agent_keys : AgentKeys
agent_keys = record {
  generate_key = λ n. some (b'a' ∷ n ∷ []);
  create_csr = λ name key. some (name);
  marshal_key = λ key. some key;
  encode_pem = λ kind der. der;
  accepts_ca = λ pem. true;
}

abbrev settings_of_agent : AgentConfig
settings_of_agent = record {
  control_plane_addr = codes "localhost:8443";
  host_id = host_id;
  docker_socket = [];
  cert_dir = codes "certs";
  enrollment_token = token;
  normal_interval_seconds = pos 60;
}

abbrev ca_only : Files
ca_only = (codes "certs/ca.pem", codes "ca") ∷ []

abbrev cert_written : Files
cert_written =
    (codes "certs/ca.pem", codes "ca")
    ∷ (codes "certs/agent-cert.pem", host_id)
    ∷ (codes "certs/agent-key.pem", [])
    ∷ []

abbrev all_written : Files
all_written =
    (codes "certs/ca.pem", codes "ca")
    ∷ (codes "certs/agent-cert.pem", codes "c")
    ∷ (codes "certs/agent-key.pem", codes "k")
    ∷ []

-- A control plane that only counts its enrolments.
abbrev counts : ℕ → Text → Text → Text → ℕ × Option Identity
counts n name with_token ca = (suc n, some (record { cert_pem = codes "c"; key_pem = codes "k" }))

identity_got :
    agent_identity counts no_faults settings_of_agent 0 ca_only
    ≡ (1, (all_written, inr (record { cert_pem = codes "c"; key_pem = codes "k" })))
unfolding agent_identity enroll_and_cache cache_identity failed_write lookup insert text_eq
identity_got = refl

restart-same_identity_example :
    agent_identity counts no_faults settings_of_agent 5 all_written
    ≡ (5, (all_written, inr (record { cert_pem = codes "c"; key_pem = codes "k" })))
restart-same_identity_example =
    restart-same_identity counts no_faults settings_of_agent 0 1 5 ca_only all_written
      (record { cert_pem = codes "c"; key_pem = codes "k" }) identity_got

abbrev key_unwritable : Faults
key_unwritable = record no_faults {
  write_fails = λ path. text_eq path (codes "certs/agent-key.pem");
  left_behind = λ path. some 0;
}

abbrev agent_enrolls :
    ℕ → World ℕ (Memory ℕ) → Text → Text → Text → World ℕ (Memory ℕ) × Option Identity
agent_enrolls draw w =
    enroll_agent agent_keys (delivered env (memory_store ℕ) authority (λ pem. some pem)) w draw

abbrev after_first : World ℕ (Memory ℕ)
after_first =
    (agent_identity (agent_enrolls 3) key_unwritable settings_of_agent (world_with host_waiting)
      ca_only).0

key_lost :
    agent_identity
      (agent_enrolls 3)
      key_unwritable
      settings_of_agent
      (world_with host_waiting)
      ca_only
    ≡ (after_first, (cert_written, inl key_not_cached))
unfolding agent_identity enroll_and_cache cache_identity failed_write first_bytes lookup insert
    text_eq enroll_agent exchange_csr delivered handle_enroll enroll_with enroll_answered enroll
    enroll_check enroll_commit token_accepted get_host update_host save_host issue_agent_cert
    agent_template
key_lost = refl

no_key : lookup (codes "certs/agent-key.pem") ca_only ≡ none
unfolding lookup text_eq
no_key = refl

-- An empty text is no key.
abbrev client_checks : ClientChecks
client_checks = record { is_key_pair = λ cert key. not (is_empty key); accepts_pem = λ pem. true }

no_pair :
    (cert key : Text)
    → lookup (codes "certs/agent-cert.pem") cert_written ≡ some cert
    → lookup (codes "certs/agent-key.pem") cert_written ≡ some key
    → client_checks.is_key_pair cert key ≡ false
unfolding lookup text_eq
no_pair cert key has_cert has_key = ground (arith, has_key)

lost_key-locks_out_example :
    GetsNowhere client_checks
      (agent_identity
        (agent_enrolls 4)
        no_faults
        (record settings_of_agent { enrollment_token = codes "new" })
        (record after_first { reads = 5; draws = 6 })
        cert_written).1.1
lost_key-locks_out_example =
    lost_key-locks_out env (memory_store ℕ) authority memory_laws (λ pem. some pem) agent_keys
      client_checks key_unwritable settings_of_agent (world_with host_waiting) after_first ca_only
      cert_written 3 5 6 4 (codes "new") (store_with-IsWellKeyed host_waiting refl) no_key key_lost
      no_pair refl

abbrev odd_id : Text
odd_id = codes "../a b?"

-- The escapes are those of RFC 3986.
stop_path : exec_path odd_id action_stop ≡ codes "/containers/..%2Fa%20b%3F/stop"
unfolding path_escape escape_byte is_kept
stop_path = refl
