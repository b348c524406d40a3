-- ===== src/Examples/Pages.antt =====
-- Requests to the browser's API and to the agents' listener, on concrete inputs.
use docker_monitoring.Prelude.{
  ℕ, ◌*◌, ◌≡◌, refl, true, false, none, some, [], ◌∷◌, codes, text_eq, lookup,
}
use docker_monitoring.Strings.{after_prefix}
use docker_monitoring.Models.{User, Session, viewer, local}
use docker_monitoring.Monitoring.{second}
use docker_monitoring.Storage.Laws.{memory_laws}
use docker_monitoring.Storage.Memory.{Memory, values, find_first, of_lookup, get_host}
use docker_monitoring.Storage.Memory.Instance.{memory_store}
use docker_monitoring.Storage.Memory.Accounts.{get_user, get_session_by_token_hash}
use docker_monitoring.Storage.Memory.Keys.{IsWellKeyed}
use docker_monitoring.World.{World}
use docker_monitoring.Registry.{err, token_invalid, token_accepted, enroll_check}
use docker_monitoring.Auth.{Passwords, granted, authenticate, admit, is_over}
use docker_monitoring.Access.{create_host, session_token_from_request}
use docker_monitoring.AgentApi.{EnrollRequest, AgentRequest, posts_heartbeat, serve}
use docker_monitoring.AgentApi.Identity.{serve-other_host}
use docker_monitoring.Api.{CreateHostRequest, Server}
use docker_monitoring.Api.Handlers.{create_host_fault}
use docker_monitoring.Api.Dispatch.{Call}
use docker_monitoring.Api.Dispatch
use docker_monitoring.Api.Viewer.{serve-viewer}
use docker_monitoring.Prelude.Int.{pos}
use docker_monitoring.Telemetry.Ingest.{ingest_telemetry}
use docker_monitoring.Agent.{Daemon, Collector, batch_of, collect_containers, collect_and_report}
use docker_monitoring.Transport.EndToEnd.{sends_to, adopted, cycle-adopts}
use docker_monitoring.Examples.Fixtures.{
  fixed_point, env, authority, host_id, host_one, host_waiting, store_with, world_with,
}

abbrev waiting : World ℕ (Memory ℕ)
waiting = world_with host_waiting

waiting-IsWellKeyed : IsWellKeyed (store_with host_waiting)
waiting-IsWellKeyed = record {
  hosts_keyed = (refl, tt);
  containers_keyed = tt;
  metrics_keyed = tt;
  users_keyed = tt;
  sessions_keyed = tt;
}

-- A heartbeat on another host's certificate.
abbrev beat : AgentRequest ℕ
beat = posts_heartbeat (some (record { docker_version = codes "27.0"; os_info = [] }))

other_name : text_eq (codes "h2") host_id ≡ false
unfolding text_eq
other_name = refl

serve-other_host_example :
    get_host
      (serve env
        (memory_store ℕ)
        authority
        (λ pem. some pem)
        waiting
        (some (codes "h2" ∷ []))
        beat).0.store
      host_id
    ≡ get_host waiting.store host_id
serve-other_host_example =
    serve-other_host env (memory_store ℕ) memory_laws authority (λ pem. some pem) waiting
      (codes "h2") host_id [] beat waiting-IsWellKeyed refl other_name

abbrev guess : EnrollRequest
guess = record { host_id = host_id; token = codes "guess"; csr_pem = codes "csr" }

is_refused : enroll_check env (memory_store ℕ) waiting host_id (codes "guess") ≡ err token_invalid
unfolding enroll_check token_accepted get_host of_lookup lookup text_eq
is_refused = refl

abbrev looker : User
looker = record {
  id = codes "u2";
  email = codes "v@example.org";
  display_name = codes "V";
  password_hash = codes "$y";
  role = viewer;
  created_at = 1;
  last_login_at = none;
}

abbrev looker_session : Session
looker_session = record {
  id = codes "s2";
  user_id = codes "u2";
  token_hash = codes "#look";
  created_at = 1;
  expires_at = 2000 * second;
}

abbrev looked_at : World ℕ (Memory ℕ)
looked_at = record (world_with host_one) {
  store = record (store_with host_one) {
    users = (codes "u2", looker) ∷ [];
    sessions = (codes "s2", looker_session) ∷ [];
  };
}

abbrev passwords : Passwords
passwords = record {
  hash_password = λ n p. some p;
  verify_password = λ p h. some (text_eq p h);
  dummy_hash = [];
}

abbrev server : Server
server = record {
  auth = some passwords;
  session_ttl = 1000;
  cookie_secure = true;
  registry = true;
  ca = none;
  hub = true;
}

abbrev new_laptop : CreateHostRequest
new_laptop = record { name = codes "laptop"; address = []; kind = local }

-- The creation of a host, with the viewer's token.
abbrev creation : Call
creation = record {
  request = record { route = create_host; cookie = some (codes "look"); authorization = [] };
  login_body = none;
  create_body = some new_laptop;
  query = record {
    host = [];
    container = [];
    event_type = [];
    severity = [];
    from_text = [];
    to_text = [];
    limit = [];
  };
}

is_admitted :
    (authenticate env (memory_store ℕ) looked_at (session_token_from_request creation.request)).1
    ≡ granted looker
unfolding authenticate admit is_over session_token_from_request after_prefix
    get_session_by_token_hash get_user find_first values of_lookup lookup text_eq
is_admitted = refl

serve-viewer_example :
    ((Dispatch.serve env (memory_store ℕ) server (λ t. none) looked_at creation).0.store
      ≡ looked_at.store)
    × ((Dispatch.serve env (memory_store ℕ) server (λ t. none) looked_at creation).0.monitor
        ≡ looked_at.monitor)
    × ((Dispatch.serve env (memory_store ℕ) server (λ t. none) looked_at creation).0.sent
        ≡ looked_at.sent)
serve-viewer_example =
    serve-viewer env (memory_store ℕ) server (λ t. none) looked_at creation passwords looker refl
      is_admitted refl refl

is_sound : create_host_fault new_laptop ≡ none
unfolding create_host_fault
is_sound = refl

-- A daemon without containers, whose host statistics fail.
abbrev quiet : Daemon ℕ
quiet = record {
  ping = true;
  list_containers = some [];
  inspect = λ id. none;
  stats = λ id. none;
  host_sample = none;
  parse_time = λ t. none;
  now = 77;
}

abbrev agent : Collector
agent = record { interval = pos (60 * second); reset_tick = false; collect_now = false }

empty_batch : batch_of quiet agent ≡ some ([], [])
unfolding batch_of collect_containers
empty_batch = refl

cycle-adopts_example :
    collect_and_report quiet
      (sends_to env (memory_store ℕ) authority (λ pem. some pem) waiting b'h' (codes "1") [])
      agent
    ≡ adopted agent
        (ingest_telemetry env
          (memory_store ℕ)
          waiting
          host_id
          (record { containers = []; metrics = [] })).1
cycle-adopts_example =
    cycle-adopts env (memory_store ℕ) authority (λ pem. some pem) waiting b'h' (codes "1") [] quiet
      agent [] [] empty_batch
