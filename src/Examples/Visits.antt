-- ===== src/Examples/Visits.antt =====
-- Requests to the API, and the agent's cycle, on concrete inputs.
use docker_monitoring.Prelude.{
  ℕ, ◌+◌, ◌*◌, ◌≡◌, ◌≤◌, ◌⊎◌, refl, true, false, none, some, List, [], ◌∷◌, codes, text_eq, lookup,
}
use docker_monitoring.Prelude.Int.{pos}
use docker_monitoring.Strings.{after_prefix}
use docker_monitoring.Models.{User, admin, Session}
use docker_monitoring.Monitoring.{second, Engine, entity_host}
use docker_monitoring.Storage.{found}
use docker_monitoring.Storage.Memory.{Memory, values, find_first, of_lookup, get_host}
use docker_monitoring.Storage.Memory.Instance.{memory_store}
use docker_monitoring.Storage.Memory.Accounts.{get_user, get_session_by_token_hash}
use docker_monitoring.World.{World}
use docker_monitoring.Auth.{authenticate, admit, is_over}
use docker_monitoring.Access.{
  delete_host, Request, reaches, admin_only, route_path, route_guard, require_admin,
  is_public_route, session_token_from_request, with_session_auth,
}
use docker_monitoring.Access.Admission.{reaches-session}
use docker_monitoring.Live.{is_known}
use docker_monitoring.Stats.{CpuStats, StatsRaw}
use docker_monitoring.Agent.{Summary, Daemon, Collector}
use docker_monitoring.Agent.Loop.{
  Moment, requests, wakes, woken_now, woken_timer, run, causes, waiting_request, run-cycles,
}
use docker_monitoring.Examples.Fixtures.{
  fixed_point, env, thresholds, host_id, host_one, store_with, world_with,
}

abbrev root_user : User
root_user = record {
  id = codes "u1";
  email = codes "root@example.org";
  display_name = codes "Root";
  password_hash = codes "$x";
  role = admin;
  created_at = 1;
  last_login_at = none;
}

abbrev root_session : Session
root_session = record {
  id = codes "s1";
  user_id = codes "u1";
  token_hash = codes "#pass";
  created_at = 1;
  expires_at = 2000 * second;
}

abbrev served : World ℕ (Memory ℕ)
served = record (world_with host_one) {
  store = record (store_with host_one) {
    users = (codes "u1", root_user) ∷ [];
    sessions = (codes "s1", root_session) ∷ [];
  };
}

abbrev deletion : Request
deletion = record {
  route = delete_host host_id;
  cookie = none;
  authorization = codes "Bearer pass";
}

passes_gate : (with_session_auth env (memory_store ℕ) served deletion).1 ≡ reaches (some root_user)
unfolding with_session_auth route_guard require_admin admin_only route_path is_public_route
    session_token_from_request after_prefix authenticate admit is_over get_session_by_token_hash
    get_user find_first values of_lookup lookup text_eq
passes_gate = refl

reaches-session_example :
    (u : User) × (some root_user ≡ some u)
    × ((admin_only (delete_host host_id) ≡ false) ⊎ (u.role ≡ admin))
    × (sess : Session) × (get_session_by_token_hash served.store
          (env.hash_token (session_token_from_request deletion))
        ≡ found sess)
    × (1000 * second ≤ sess.expires_at)
    × (get_user served.store sess.user_id ≡ found u)
reaches-session_example =
    reaches-session env (memory_store ℕ) served deletion (some root_user) refl passes_gate

abbrev engine : Engine ℕ
engine = record { cfg = thresholds; state = [] }

knows_host : is_known (memory_store ℕ) served.store entity_host host_id ≡ true
unfolding is_known get_host of_lookup lookup text_eq
knows_host = refl

abbrev counters : CpuStats
counters = record { total_usage = 5; percpu_count = 2; system_usage = 9; online_cpus = 0 }

abbrev raw : StatsRaw
raw = record {
  read_at = codes "2024";
  networks = (codes "eth0", 7, 8) ∷ [];
  cpu = counters;
  precpu = counters;
  mem_usage = 100;
  mem_limit = 200;
  mem_stats = (codes "cache", 30) ∷ [];
}

abbrev summary : Summary
summary = record { id = codes "c1"; names = codes "/db" ∷ []; image = codes "pg" }

abbrev daemon : Daemon ℕ
daemon = record {
  ping = true;
  list_containers = some (summary ∷ []);
  inspect = λ id.
      some (record {
        state = codes "running";
        is_running = true;
        health = none;
        restart_count = pos 0;
      });
  stats = λ id. some raw;
  host_sample = none;
  parse_time = λ t. none;
  now = 77;
}

abbrev idle : Collector
idle = record { interval = pos (60 * second); reset_tick = false; collect_now = false }

abbrev moments : List (Moment ℕ)
moments =
    requests
    ∷ requests
    ∷ wakes woken_now daemon (λ cs ms. none)
    ∷ wakes woken_timer daemon (λ cs ms. none)
    ∷ []

run-cycles_example :
    (run (record { collector = idle; cycles = 0 }) moments).cycles
      + waiting_request (run (record { collector = idle; cycles = 0 }) moments)
    ≤ 0 + 0 + causes false moments
run-cycles_example = run-cycles (record { collector = idle; cycles = 0 }) moments
