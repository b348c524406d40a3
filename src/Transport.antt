-- ===== src/Transport.antt =====
-- internal/agent/transport/transport.go: what the agent makes of the control plane's replies. The
-- HTTPS exchange is net/http's: `none` where it fails, else the reply as the server wrote it. A JSON
-- body of another shape leaves the fields that are read at their zero values.
pub mod EndToEnd
use docker_monitoring.Prelude.{
  ℕ, Bool, true, false, ◌||◌, not, Option, none, some, List, [], ◌==◌, Text, map, if◌then◌else◌,
}
use docker_monitoring.Prelude.Int.{ℤ, pos}
use docker_monitoring.Models.{Metric, MonitoringMode, other_mode}
use docker_monitoring.Http.{Response, json, failure, no_content}
use docker_monitoring.Telemetry.{ContainerReport, TelemetryResult}
use docker_monitoring.AgentApi.{
  AgentReply, enroll_response, telemetry_response, TelemetryContainer, TelemetryRequest,
}

abbrev pub status_of : Response AgentReply → ℕ
status_of (json status body) = status
status_of (failure status msg) = status
status_of (no_content status) = status

-- The guard of doJSON on the status.
unfoldable pub is_accepted : Response AgentReply → Bool
is_accepted r = (status_of r == 204) || (status_of r == 200)

-- TelemetryResult{}
abbrev pub no_result : TelemetryResult
no_result = record { mode = other_mode []; interval_seconds = pos 0 }

-- The body as a TelemetryResult; a body that is not there does not decode.
unfoldable pub decode_result : Response AgentReply → Option TelemetryResult
decode_result (json status (telemetry_response mode interval)) =
    some (record { mode = mode; interval_seconds = interval })
decode_result (json status (enroll_response cert_pem)) = some no_result
decode_result (failure status msg) = some no_result
decode_result (no_content status) = none

unfoldable pub send_telemetry : Option (Response AgentReply) → Option TelemetryResult
unfolding is_accepted decode_result
send_telemetry none = none
send_telemetry (some r) =
    if not (is_accepted r)
    then none
    else if status_of r == 204
    then some no_result
    else decode_result r

-- Heartbeat succeeds.
unfoldable pub heartbeat_sent : Option (Response AgentReply) → Bool
unfolding is_accepted
heartbeat_sent none = false
heartbeat_sent (some r) = is_accepted r

-- Enroll from its request on: the certificate in PEM.
unfoldable pub enroll_answered : Option (Response AgentReply) → Option Text
enroll_answered none = none
enroll_answered (some r) = if not (status_of r == 200) then none else elim r [
  | json status (enroll_response cert_pem) ↦ some cert_pem
  | json status (telemetry_response mode interval) ↦ some []
  | failure status msg ↦ some []
  | no_content status ↦ none
]

-- The request of SendTelemetry.
abbrev pub container_sent : ContainerReport → TelemetryContainer
container_sent c = record {
  docker_container_id = c.docker_container_id;
  name = c.name;
  image = c.image;
  status = c.status;
  health_status = c.health_status;
  restart_count = c.restart_count;
}

unfoldable pub telemetry_request :
    {F : Type 0} → List ContainerReport → List (Metric F) → TelemetryRequest F
telemetry_request reports metrics = record {
  containers = map container_sent reports;
  metrics = metrics;
}
