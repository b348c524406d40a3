-- ===== src/AgentApi/Identity.antt =====
-- Which hosts' records a client certificate can reach (internal/controlplane/agentapi/server.go over
-- internal/controlplane/agentregistry/registry.go).
use docker_monitoring.Prelude.{
  ◌≡◌, refl, Bool, true, false, Option, none, some, List, [], ◌∷◌, Text, codes, text_eq, arith, inl,
  inr,
}
use docker_monitoring.Models.{Float64}
use docker_monitoring.Storage.{Store, Found-cases}
use docker_monitoring.Storage.Laws.{HostLaws}
use docker_monitoring.World.{Env, World, ticked}
use docker_monitoring.Http.{failure}
use docker_monitoring.Pki.{X509}
use docker_monitoring.Registry.{save_host, alive, heartbeat, connected_input}
use docker_monitoring.Telemetry.Hosts.{
  record_event-get_host, save_host-get_host, ingest_telemetry-get_host,
}
use docker_monitoring.AgentApi.{
  Connection, AgentRequest, posts_enroll, posts_heartbeat, posts_telemetry, HeartbeatRequest,
  TelemetryRequest, telemetry_report, require_client_cert, handle_heartbeat, handle_telemetry,
  serve,
}

module _ {F S : Type 0} ⦃fl : Float64 F⦄ (env : Env) (ops : Store F S) (laws : HostLaws ops)
    (other : Text) where
  heartbeat-get_host :
      (w : World F S) (host_id docker_version os_info : Text)
      → laws.IsValid w.store
      → text_eq host_id other ≡ false
      → ops.get_host (heartbeat env ops w host_id docker_version os_info).0.store other
        ≡ ops.get_host w.store other
  unfolding heartbeat alive
  heartbeat-get_host w host_id docker_version os_info v differs =
      elim (Found-cases (ops.get_host w.store host_id)) [
        | inl (x, lost) ↦ ground (arith, lost)
        | inr (host, got) ↦
            let seen = alive host (env.clock w.reads) docker_version os_info in
            let after = (save_host env ops (ticked w) seen).0 in
            ground (
              arith,
              got,
              laws.get_host-id w.store host_id host v got,
              save_host-get_host env ops laws other (ticked w) seen,
              record_event-get_host env ops laws other after (connected_input seen),
            )
      ]

  handle_heartbeat-get_host :
      (body : Option HeartbeatRequest) (w : World F S) (host_id : Text)
      → laws.IsValid w.store
      → text_eq host_id other ≡ false
      → ops.get_host (handle_heartbeat env ops body w host_id).0.store other
        ≡ ops.get_host w.store other
  unfolding handle_heartbeat
  handle_heartbeat-get_host none w host_id v differs = refl
  handle_heartbeat-get_host (some req) w host_id v differs =
      ground (arith, heartbeat-get_host w host_id req.docker_version req.os_info v differs)

  handle_telemetry-get_host :
      (body : Option (TelemetryRequest F)) (w : World F S) (host_id : Text)
      → laws.IsValid w.store
      → text_eq host_id other ≡ false
      → ops.get_host (handle_telemetry env ops body w host_id).0.store other
        ≡ ops.get_host w.store other
  unfolding handle_telemetry
  handle_telemetry-get_host none w host_id v differs = refl
  handle_telemetry-get_host (some req) w host_id v differs = ground (
    arith,
    ingest_telemetry-get_host env ops laws other w host_id (telemetry_report req) v differs,
  )

-- The routes that are registered under requireClientCert.
abbrev pub needs_certificate : {F : Type 0} → AgentRequest F → Bool
needs_certificate (posts_enroll body) = false
needs_certificate (posts_heartbeat body) = true
needs_certificate (posts_telemetry body) = true

-- The leaf certificate has a common name.
abbrev pub is_named : Connection → Bool
is_named none = false
is_named (some []) = false
is_named (some ([] ∷ chain)) = false
is_named (some ((c ∷ name) ∷ chain)) = true

module _ {F S : Type 0} ⦃fl : Float64 F⦄ (env : Env) (ops : Store F S) (laws : HostLaws ops)
    (x : X509) (decode_csr_pem : Text → Option Text) where
  -- A certificate acts for its own host alone: a heartbeat or a batch on a connection whose leaf
  -- certificate names one host leaves the records of all other hosts as they were, whatever the
  -- body says.
  pub serve-other_host :
      (w : World F S) (name other : Text) (chain : List Text) (request : AgentRequest F)
      → laws.IsValid w.store
      → needs_certificate request ≡ true
      → text_eq name other ≡ false
      → ops.get_host (serve env ops x decode_csr_pem w (some (name ∷ chain)) request).0.store other
        ≡ ops.get_host w.store other
  unfolding serve require_client_cert
  serve-other_host w name other chain (posts_enroll body) v needs differs = absurd (ground arith)
  serve-other_host w name other chain (posts_heartbeat body) v needs differs =
      ground (arith, handle_heartbeat-get_host env ops laws other body w name v differs)
  serve-other_host w name other chain (posts_telemetry body) v needs differs =
      ground (arith, handle_telemetry-get_host env ops laws other body w name v differs)

  -- Without a certificate that has a name, a heartbeat or a batch is refused and changes nothing.
  pub serve-unnamed :
      (w : World F S) (connection : Connection) (request : AgentRequest F)
      → needs_certificate request ≡ true
      → is_named connection ≡ false
      → (msg : Text) × (serve env ops x decode_csr_pem w connection request ≡ (w, failure 401 msg))
  unfolding serve require_client_cert
  serve-unnamed w none (posts_heartbeat body) needs unnamed =
      (codes "client certificate required", refl)
  serve-unnamed w none (posts_telemetry body) needs unnamed =
      (codes "client certificate required", refl)
  serve-unnamed w (some []) (posts_heartbeat body) needs unnamed =
      (codes "client certificate required", refl)
  serve-unnamed w (some []) (posts_telemetry body) needs unnamed =
      (codes "client certificate required", refl)
  serve-unnamed w (some (name ∷ chain)) (posts_heartbeat body) needs unnamed =
      (codes "client certificate missing identity", ground arith)
  serve-unnamed w (some (name ∷ chain)) (posts_telemetry body) needs unnamed =
      (codes "client certificate missing identity", ground arith)
  serve-unnamed w connection (posts_enroll body) needs unnamed = absurd (ground arith)
