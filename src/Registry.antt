-- ===== src/Registry.antt =====
-- internal/controlplane/agentregistry/registry.go: enrolment tokens, enrolment and heartbeats.
-- The registry runs over any store of the repository interface. It takes no lock across its reads
-- and writes of the store; a function here is one call that no other call interleaves with, except
-- that `enroll` is composed of the two parts around its read, which Registry.Race interleaves.
pub mod Enrollment
pub mod Race
pub mod Liveness
use docker_monitoring.Prelude.{
  ℕ, suc, ◌+◌, ◌*◌, ◌≡◌, Bool, true, false, not, ◌&&◌, ◌||◌, Option, none, some, List, [], ◌∷◌,
  ◌++◌, Text, codes, text_eq, is_empty, if◌then◌else◌,
}
use docker_monitoring.Prelude.Int.{ℤ, pos, sub_ℕ, ltb_ℤ}
use docker_monitoring.Models.{Host, ConnectionStatus, online, unknown, info, status_online}
use docker_monitoring.Monitoring.{second}
use docker_monitoring.Storage.{Store, StoreError, Found, found, missing}
use docker_monitoring.World.{Env, World, ticked, drawn}
use docker_monitoring.Recorder.{RecordInput, record_event}
use docker_monitoring.Pki.{X509, CaError, Issued, issued, refused, issue_agent_cert}

pub data RegistryError : Type 0 where
  token_invalid host_not_found generate_failed : RegistryError
  store_failed : StoreError → RegistryError
  certificate_failed : CaError → RegistryError

pub data Reply {ℓ} (A : Type ℓ) : Type ℓ where
  ok : A → Reply A
  err : RegistryError → Reply A

-- 15 minutes and 90 days.
abbrev pub enrollment_token_ttl : ℕ
enrollment_token_ttl = 900 * second

abbrev pub agent_cert_valid_for : ℕ
agent_cert_valid_for = 7_776_000 * second

-- time.Since(*host.EnrollmentIssuedAt) > enrollmentTokenTTL
abbrev pub expired : ℕ → ℕ → Bool
expired now issued_at = ltb_ℤ (pos enrollment_token_ttl) (sub_ℕ now issued_at)

abbrev pub enrolled_input : Host → RecordInput
enrolled_input host = record {
  event_type = codes "host.agent_enrolled";
  severity = info;
  host_id = some host.id;
  container_id = none;
  user_id = none;
  message = codes "Agent enrolled for host " ++ host.name;
}

abbrev pub connected_input : Host → RecordInput
connected_input host = record {
  event_type = codes "host.connected";
  severity = info;
  host_id = some host.id;
  container_id = none;
  user_id = none;
  message = codes "Host " ++ host.name ++ codes " came online";
}

-- The host with a new token's hash.
abbrev pub with_token : Host → Text → ℕ → Host
with_token host hash now = record host {
  enrollment_token_hash = hash;
  enrollment_issued_at = some now;
  agent_enrolled = false;
}

-- The host that Enroll writes back.
abbrev pub enrolled : Env → Host → Text → Host
enrolled env host cert_pem = record host {
  agent_enrolled = true;
  enrollment_token_hash = [];
  cert_fingerprint = env.fingerprint cert_pem;
  connection_status = unknown;
}

-- The host that Heartbeat writes back.
unfoldable pub alive : Host → ℕ → Text → Text → Host
alive host now docker_version os_info = record host {
  last_heartbeat_at = some now;
  connection_status = online;
  docker_version = if is_empty docker_version then host.docker_version else docker_version;
  os_info = if is_empty os_info then host.os_info else os_info;
}

-- The guards of Enroll on the host's record.
unfoldable pub token_accepted : Env → Host → Text → ℕ → Bool
token_accepted env host token now = elim host.enrollment_issued_at [
  | none ↦ false
  | some issued_at ↦
      not (is_empty host.enrollment_token_hash || host.agent_enrolled)
      && (not (expired now issued_at) && text_eq (env.hash_token token) host.enrollment_token_hash)
]

module _ {F S : Type 0} (env : Env) (ops : Store F S) where
  -- `err := r.store.UpdateHost(ctx, host)`
  unfoldable pub save_host : World F S → Host → World F S × Option StoreError
  save_host w host =
      let (s, failure) = ops.update_host w.store host in (record w { store = s }, failure)

  unfoldable pub issue_enrollment_token : World F S → Text → World F S × Reply Text
  unfolding save_host
  issue_enrollment_token w host_id = elim (ops.get_host w.store host_id) [
    | missing e ↦ (w, err host_not_found)
    | found host ↦ elim (env.random_token w.draws) [
      | none ↦ (drawn w, err generate_failed)
      | some token ↦
          let (after, failure) =
            save_host (ticked (drawn w))
              (with_token host (env.hash_token token) (env.clock w.reads)) in
          elim failure [ some e ↦ (after, err (store_failed e)) | none ↦ (after, ok token) ]
    ]
  ]

  -- Enroll up to its last guard: what it has read of the store, and whether the token is accepted.
  unfoldable pub enroll_check : World F S → Text → Text → Reply Host
  unfolding token_accepted
  enroll_check w host_id token = elim (ops.get_host w.store host_id) [
    | missing e ↦ err host_not_found
    | found host ↦
        if token_accepted env host token (env.clock w.reads) then ok host else err token_invalid
  ]

module _ {F S : Type 0} (env : Env) (ops : Store F S) (x : X509) where
  -- Enroll from the signing on, with the host that it has read.
  unfoldable pub enroll_commit : World F S → Text → Text → Host → World F S × Reply Text
  unfolding save_host
  enroll_commit w host_id csr_der host =
      elim (issue_agent_cert x w.draws (env.clock w.reads) csr_der host_id agent_cert_valid_for) [
        | refused e ↦ (ticked (drawn w), err (certificate_failed e))
        | issued cert_pem ↦
            let (after, failure) =
              save_host env ops (ticked (drawn w)) (enrolled env host cert_pem) in
            elim failure [
              | some e ↦ (after, err (store_failed e))
              | none ↦ ((record_event env ops after (enrolled_input host)).0, ok cert_pem)
            ]
      ]

  unfoldable pub enroll : World F S → Text → Text → Text → World F S × Reply Text
  unfolding enroll_check enroll_commit
  enroll w host_id token csr_der = elim (enroll_check env ops w host_id token) [
    | err e ↦ (ticked w, err e)
    | ok host ↦ enroll_commit (ticked w) host_id csr_der host
  ]

module _ {F S : Type 0} (env : Env) (ops : Store F S) where
  unfoldable pub heartbeat : World F S → Text → Text → Text → World F S × Reply (Unit {0})
  unfolding save_host
  heartbeat w host_id docker_version os_info = elim (ops.get_host w.store host_id) [
    | missing e ↦ (w, err host_not_found)
    | found host ↦
        let seen = alive host (env.clock w.reads) docker_version os_info in
        let (after, failure) = save_host env ops (ticked w) seen in
        elim failure [
          | some e ↦ (after, err (store_failed e))
          | none ↦ (
            if status_online host.connection_status
                then after
                else (record_event env ops after (connected_input seen)).0,
            ok tt,
          )
        ]
  ]
