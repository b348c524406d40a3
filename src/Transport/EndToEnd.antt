-- ===== src/Transport/EndToEnd.antt =====
-- A cycle of the agent against the control plane: internal/agent/collector/collector.go over
-- internal/agent/transport/transport.go, internal/controlplane/agentapi/server.go and
-- internal/controlplane/agentregistry/registry.go.
use docker_monitoring.Prelude.{
  ℕ, ◌≡◌, refl, ◌∙◌, ap, Bool, true, false, Option, none, some, List, [], ◌∷◌, Text, codes, map,
  arith,
}
use docker_monitoring.Models.{Float64, Metric}
use docker_monitoring.Storage.{Store}
use docker_monitoring.World.{Env, World}
use docker_monitoring.Http.{Response, json}
use docker_monitoring.Pki.{X509}
use docker_monitoring.Registry.{
  token_invalid, host_not_found, generate_failed, store_failed, certificate_failed, Reply, ok, err,
}
use docker_monitoring.Telemetry.{ContainerReport, TelemetryReport, TelemetryResult}
use docker_monitoring.Telemetry.Ingest.{ingest_telemetry}
use docker_monitoring.AgentApi.{
  AgentReply, telemetry_response, posts_telemetry, container_report, telemetry_report,
  registry_failure, require_client_cert, handle_telemetry, serve,
}
use docker_monitoring.Transport.{
  is_accepted, decode_result, send_telemetry, container_sent, telemetry_request,
}
use docker_monitoring.Agent.{Daemon, Collector, set_interval, seconds, batch_of, collect_and_report}

reports_sent :
    (reports : List ContainerReport) → map container_report (map container_sent reports) ≡ reports
unfolding container_report
reports_sent [] = refl
reports_sent (c ∷ reports) = ap (λ rest. c ∷ rest) (reports_sent reports)

report_sent :
    {F : Type 0} (reports : List ContainerReport) (metrics : List (Metric F))
    → telemetry_report (telemetry_request reports metrics)
      ≡ record { containers = reports; metrics = metrics }
unfolding telemetry_report telemetry_request
report_sent {F = F} reports metrics =
    ap (λ (cs : List ContainerReport). record { containers = cs; metrics = metrics })
      (reports_sent reports)

-- The result that a registry's reply stands for.
abbrev pub result_of : Reply TelemetryResult → Option TelemetryResult
result_of (ok r) = some r
result_of (err e) = none

-- The collector after a cycle, and whether it succeeded, by the registry's reply.
abbrev pub adopted : Collector → Reply TelemetryResult → Collector × Bool
adopted collector (ok r) = (set_interval collector (seconds r.interval_seconds), true)
adopted collector (err e) = (collector, false)

-- What the agent makes of each reply of handleTelemetry.
reply_read :
    {W : Type 0} (after : W) (reply : Reply TelemetryResult)
    → send_telemetry (
        some
          (elim reply as (λ r. W × Response AgentReply) [
            | err e ↦ (after, registry_failure e (codes "telemetry ingest failed"))
            | ok r ↦ (after, json 200 (telemetry_response r.mode r.interval_seconds))
          ]).1)
      ≡ result_of reply
unfolding send_telemetry is_accepted decode_result registry_failure
reply_read after (ok r) = refl
reply_read after (err token_invalid) = refl
reply_read after (err host_not_found) = refl
reply_read after (err generate_failed) = refl
reply_read after (err (store_failed e)) = refl
reply_read after (err (certificate_failed e)) = refl

module _ {F S : Type 0} ⦃fl : Float64 F⦄ (env : Env) (ops : Store F S) (x : X509)
    (decode_csr_pem : Text → Option Text) (w : World F S) (c : ℕ) (name : Text)
    (chain : List Text) where
  -- SendTelemetry to a control plane in the state `w`, on a connection with the certificate.
  abbrev pub sends_to : List ContainerReport → List (Metric F) → Option TelemetryResult
  sends_to reports metrics = send_telemetry (
      some
        (serve env ops x decode_csr_pem w (some ((c ∷ name) ∷ chain))
          (posts_telemetry (some (telemetry_request reports metrics)))).1)

  sends_to-result :
      (reports : List ContainerReport) (metrics : List (Metric F))
      → sends_to reports metrics
        ≡ result_of
            (ingest_telemetry env ops w
              (c ∷ name)
              (record { containers = reports; metrics = metrics })).1
  unfolding serve require_client_cert handle_telemetry
  sends_to-result reports metrics =
      let report = telemetry_report (telemetry_request reports metrics) in
      let ingested = ingest_telemetry env ops w (c ∷ name) report in
      reply_read ingested.0 ingested.1
      ∙ ap
          (λ (report : TelemetryReport F).
            result_of (ingest_telemetry env ops w (c ∷ name) report).1)
          (report_sent reports metrics)

cycle_with :
    {F : Type 0} ⦃fl : Float64 F⦄ (daemon : Daemon F)
    (send : List ContainerReport → List (Metric F) → Option TelemetryResult) (collector : Collector)
    (reports : List ContainerReport) (metrics : List (Metric F)) (reply : Reply TelemetryResult)
    → batch_of daemon collector ≡ some (reports, metrics)
    → send reports metrics ≡ result_of reply
    → collect_and_report daemon send collector ≡ adopted collector reply
unfolding collect_and_report
cycle_with daemon send collector reports metrics (ok r) ready sent = ground (arith, ready, sent)
cycle_with daemon send collector reports metrics (err e) ready sent = ground (arith, ready, sent)

module _ {F S : Type 0} ⦃fl : Float64 F⦄ (env : Env) (ops : Store F S) (x : X509)
    (decode_csr_pem : Text → Option Text) (w : World F S) (c : ℕ) (name : Text) (chain : List Text)
    (daemon : Daemon F) where
  -- The control plane sets the agent's pace: a cycle that reaches the control plane over a
  -- certificate with a name ends with the interval that IngestTelemetry answered to exactly the
  -- containers and metrics of the cycle for the host of that name; where IngestTelemetry fails, the
  -- cycle fails and the interval stays.
  pub cycle-adopts :
      (collector : Collector) (reports : List ContainerReport) (metrics : List (Metric F))
      → batch_of daemon collector ≡ some (reports, metrics)
      → collect_and_report daemon (sends_to env ops x decode_csr_pem w c name chain) collector
        ≡ adopted collector
            (ingest_telemetry env ops w
              (c ∷ name)
              (record { containers = reports; metrics = metrics })).1
  cycle-adopts collector reports metrics ready =
      cycle_with daemon (sends_to env ops x decode_csr_pem w c name chain) collector reports metrics
        (ingest_telemetry env ops w (c ∷ name)
          (record { containers = reports; metrics = metrics })).1
        ready (sends_to-result env ops x decode_csr_pem w c name chain reports metrics)
