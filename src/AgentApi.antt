-- ===== src/AgentApi.antt =====
-- internal/controlplane/agentapi/server.go: the listener that agents call over mutual TLS. crypto/tls
-- verifies the client's certificates: a connection is given with the common names of the verified
-- chain. A body is given as encoding/json decodes it, `none` where it does not; `decode_csr_pem` is
-- encoding/pem's.
pub mod Identity
pub mod Refusal
use docker_monitoring.Prelude.{
  ℕ, Bool, true, false, ◌||◌, Option, none, some, List, [], ◌∷◌, Text, codes, is_empty, map,
  if◌then◌else◌,
}
use docker_monitoring.Prelude.Int.{ℤ}
use docker_monitoring.Models.{Float64, Metric, MonitoringMode, ContainerStatus, HealthStatus}
use docker_monitoring.Storage.{Store}
use docker_monitoring.World.{Env, World}
use docker_monitoring.Http.{Response, json, failure, no_content}
use docker_monitoring.Pki.{X509}
use docker_monitoring.Registry.{
  RegistryError, token_invalid, host_not_found, Reply, ok, err, enroll, heartbeat,
}
use docker_monitoring.Telemetry.{ContainerReport, TelemetryReport, TelemetryResult}
use docker_monitoring.Telemetry.Ingest.{ingest_telemetry}

-- The common names of r.TLS.PeerCertificates, the leaf first; `none` without TLS.
abbrev pub Connection : Type 0
Connection = Option (List Text)

pub record EnrollRequest : Type 0 where
  pub host_id : Text
  pub token : Text
  pub csr_pem : Text

pub record HeartbeatRequest : Type 0 where
  pub docker_version : Text
  pub os_info : Text

pub record TelemetryContainer : Type 0 where
  pub docker_container_id : Text
  pub name : Text
  pub image : Text
  pub status : ContainerStatus
  pub health_status : HealthStatus
  pub restart_count : ℤ

pub record TelemetryRequest (F : Type 0) : Type 0 where
  pub containers : List TelemetryContainer
  pub metrics : List (Metric F)

-- The certificate in PEM, or the mode and the interval.
pub data AgentReply : Type 0 where
  enroll_response : Text → AgentReply
  telemetry_response : MonitoringMode → ℤ → AgentReply

pub data AgentRequest (F : Type 0) : Type 0 where
  posts_enroll : Option EnrollRequest → AgentRequest F
  posts_heartbeat : Option HeartbeatRequest → AgentRequest F
  posts_telemetry : Option (TelemetryRequest F) → AgentRequest F

unfoldable pub container_report : TelemetryContainer → ContainerReport
container_report c = record {
  docker_container_id = c.docker_container_id;
  name = c.name;
  image = c.image;
  status = c.status;
  health_status = c.health_status;
  restart_count = c.restart_count;
}

unfoldable pub telemetry_report : {F : Type 0} → TelemetryRequest F → TelemetryReport F
telemetry_report req = record {
  containers = map container_report req.containers;
  metrics = req.metrics;
}

abbrev pub invalid_body : Response AgentReply
invalid_body = failure 400 (codes "invalid request body")

-- What is written for the registry's error on a heartbeat or a batch.
unfoldable pub registry_failure : RegistryError → Text → Response AgentReply
registry_failure host_not_found msg = failure 404 (codes "host not found")
registry_failure _ msg = failure 500 msg

unfoldable pub enroll_failure : RegistryError → Response AgentReply
enroll_failure token_invalid = failure 401 (codes "enrollment failed")
enroll_failure host_not_found = failure 401 (codes "enrollment failed")
enroll_failure _ = failure 500 (codes "enrollment failed")

-- requireClientCert: the handler gets the leaf's common name.
unfoldable pub require_client_cert :
    {W : Type 0} → (W → Text → W × Response AgentReply) → W → Connection → W × Response AgentReply
require_client_cert next w none = (w, failure 401 (codes "client certificate required"))
require_client_cert next w (some []) = (w, failure 401 (codes "client certificate required"))
require_client_cert next w (some (host_id ∷ chain)) =
    if is_empty host_id
    then (w, failure 401 (codes "client certificate missing identity"))
    else next w host_id

module _ {F S : Type 0} (env : Env) (ops : Store F S) (x : X509)
    (decode_csr_pem : Text → Option Text) where
  -- handleEnroll once the request has its three fields.
  unfoldable pub enroll_with : World F S → EnrollRequest → World F S × Response AgentReply
  enroll_with w req = elim (decode_csr_pem req.csr_pem) [
    | none ↦ (w, failure 400 (codes "csr_pem is not valid PEM"))
    | some csr_der ↦
        let (after, reply) = enroll env ops x w req.host_id req.token csr_der in
        elim reply [
          | err e ↦ (after, enroll_failure e)
          | ok cert_pem ↦ (after, json 200 (enroll_response cert_pem))
        ]
  ]

  unfoldable pub handle_enroll : World F S → Option EnrollRequest → World F S × Response AgentReply
  unfolding enroll_with
  handle_enroll w none = (w, invalid_body)
  handle_enroll w (some req) =
      if is_empty req.host_id || (is_empty req.token || is_empty req.csr_pem)
      then (w, failure 400 (codes "host_id, token, and csr_pem are required"))
      else enroll_with w req

module _ {F S : Type 0} (env : Env) (ops : Store F S) where
  unfoldable pub handle_heartbeat :
      Option HeartbeatRequest → World F S → Text → World F S × Response AgentReply
  unfolding registry_failure
  handle_heartbeat none w host_id = (w, invalid_body)
  handle_heartbeat (some req) w host_id =
      let (after, reply) = heartbeat env ops w host_id req.docker_version req.os_info in
      elim reply [
        | err e ↦ (after, registry_failure e (codes "heartbeat failed"))
        | ok _ ↦ (after, no_content 204)
      ]

module _ {F S : Type 0} ⦃fl : Float64 F⦄ (env : Env) (ops : Store F S) where
  unfoldable pub handle_telemetry :
      Option (TelemetryRequest F) → World F S → Text → World F S × Response AgentReply
  unfolding registry_failure telemetry_report
  handle_telemetry none w host_id = (w, invalid_body)
  handle_telemetry (some req) w host_id =
      let (after, reply) = ingest_telemetry env ops w host_id (telemetry_report req) in
      elim reply [
        | err e ↦ (after, registry_failure e (codes "telemetry ingest failed"))
        | ok r ↦ (after, json 200 (telemetry_response r.mode r.interval_seconds))
      ]

module _ {F S : Type 0} ⦃fl : Float64 F⦄ (env : Env) (ops : Store F S) (x : X509)
    (decode_csr_pem : Text → Option Text) where
  -- routes()
  unfoldable pub serve : World F S → Connection → AgentRequest F → World F S × Response AgentReply
  unfolding handle_enroll handle_heartbeat handle_telemetry require_client_cert
  serve w connection (posts_enroll body) = handle_enroll env ops x decode_csr_pem w body
  serve w connection (posts_heartbeat body) =
      require_client_cert (handle_heartbeat env ops body) w connection
  serve w connection (posts_telemetry body) =
      require_client_cert (handle_telemetry env ops body) w connection
