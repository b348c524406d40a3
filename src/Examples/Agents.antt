-- ===== src/Examples/Agents.antt =====
-- Enrolment and heartbeats on a concrete host.
use docker_monitoring.Prelude.{
  ℕ, ◌*◌, ◌≡◌, refl, none, [], ◌∷◌, Text, codes, text_eq, arith, lookup, insert,
}
use docker_monitoring.Models.{Host}
use docker_monitoring.Monitoring.{second}
use docker_monitoring.Storage.{found}
use docker_monitoring.Storage.Laws.{memory_laws}
use docker_monitoring.Storage.Memory.{Memory, get_host, update_host}
use docker_monitoring.Storage.Memory.Instance.{memory_store}
use docker_monitoring.Storage.Memory.Keys.{IsWellKeyed}
use docker_monitoring.World.{World}
use docker_monitoring.Pki.{issued, agent_template, issue_agent_cert}
use docker_monitoring.Registry.{
  ok, err, token_invalid, save_host, issue_enrollment_token, token_accepted, enroll_check,
  enroll_commit, enroll, heartbeat, alive,
}
use docker_monitoring.Registry.Enrollment.{
  Accepted, enroll-Accepted, enroll_once, issue_then_enroll,
}
use docker_monitoring.Registry.Race.{enroll_twice}
use docker_monitoring.Examples.Fixtures.{
  env, authority, host_id, host_one, host_waiting, token, store_with, world_with,
}

pub store_with-IsWellKeyed : (h : Host) → h.id ≡ host_id → IsWellKeyed (store_with h)
store_with-IsWellKeyed h e = record {
  hosts_keyed = (ground arith, tt);
  containers_keyed = tt;
  metrics_keyed = tt;
  users_keyed = tt;
  sessions_keyed = tt;
}

abbrev waiting : World ℕ (Memory ℕ)
waiting = world_with host_waiting

signs_all :
    (draw now : ℕ) (request : Text)
    → issue_agent_cert authority draw now request host_id 7_776_000_000_000_000 ≡ issued host_id
unfolding issue_agent_cert agent_template
signs_all draw now request = refl

first_enrolment :
    (enroll env (memory_store ℕ) authority waiting host_id token (codes "csr")).1 ≡ ok host_id
unfolding enroll enroll_check enroll_commit token_accepted get_host update_host save_host
    issue_agent_cert lookup text_eq agent_template
first_enrolment = refl

enroll-Accepted_example :
    (host : Host) × (get_host waiting.store host_id ≡ found host)
    × Accepted env host token (1000 * second)
enroll-Accepted_example =
    enroll-Accepted env (memory_store ℕ) authority waiting host_id token (codes "csr") host_id
      first_enrolment

enroll_once_example :
    (enroll env
      (memory_store ℕ)
      authority
      (record (enroll env (memory_store ℕ) authority waiting host_id token (codes "csr")).0 {
        reads = 5;
        draws = 6;
      })
      host_id
      token
      (codes "other")).1
    ≡ err token_invalid
enroll_once_example =
    enroll_once env (memory_store ℕ) authority memory_laws waiting host_id token (codes "csr")
      host_id 5 6 token (codes "other") (store_with-IsWellKeyed host_waiting refl) first_enrolment

abbrev issuing : World ℕ (Memory ℕ)
issuing = world_with host_one

issued_token : (issue_enrollment_token env (memory_store ℕ) issuing host_id).1 ≡ ok (b't' ∷ 0 ∷ [])
unfolding issue_enrollment_token get_host update_host save_host lookup text_eq
issued_token = refl

takes_writes :
    (h : Host)
    → h.id ≡ host_id
    → (update_host (issue_enrollment_token env (memory_store ℕ) issuing host_id).0.store h).1 ≡ none
unfolding issue_enrollment_token get_host update_host save_host lookup text_eq insert
takes_writes h e = rw e refl

issue_then_enroll_example :
    (enroll env
      (memory_store ℕ)
      authority
      (record (issue_enrollment_token env (memory_store ℕ) issuing host_id).0 {
        reads = 100;
        draws = 7;
      })
      host_id
      (b't' ∷ 0 ∷ [])
      (codes "csr")).1
    ≡ ok host_id
issue_then_enroll_example =
    issue_then_enroll env (memory_store ℕ) authority memory_laws issuing host_id (b't' ∷ 0 ∷ [])
      (codes "csr") host_id 100 7 (store_with-IsWellKeyed host_one refl) issued_token
      (λ e. ground arith) (omega arith) (signs_all 7 _ (codes "csr")) takes_writes

passes_check : enroll_check env (memory_store ℕ) waiting host_id token ≡ ok host_waiting
unfolding enroll_check token_accepted get_host lookup text_eq
passes_check = refl

enroll_twice_example :
    let first =
      enroll_commit env (memory_store ℕ) authority waiting host_id (codes "one") host_waiting in
    (first.1 ≡ ok host_id)
    × ((enroll_commit env (memory_store ℕ) authority first.0 host_id (codes "two") host_waiting).1
        ≡ ok host_id)
enroll_twice_example =
    enroll_twice env authority waiting token (codes "one") (codes "two") host_waiting
      (λ draw now request. host_id) (store_with-IsWellKeyed host_waiting refl) passes_check
      signs_all

beats : (heartbeat env (memory_store ℕ) waiting host_id (codes "27.0") []).1 ≡ ok tt
unfolding heartbeat alive get_host update_host save_host lookup text_eq
beats = refl
