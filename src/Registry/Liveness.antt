-- ===== src/Registry/Liveness.antt =====
-- Heartbeats of internal/controlplane/agentregistry/registry.go.
use docker_monitoring.Prelude.{
  ◌≡◌, ap, ◌∙◌, none, Text, text_eq, if◌then◌else◌, arith, ◌⊎◌, inl, inr,
}
use docker_monitoring.Models.{Host}
use docker_monitoring.Storage.{Store, found}
use docker_monitoring.Storage.Laws.{HostLaws}
use docker_monitoring.World.{Env, World, ticked}
use docker_monitoring.Recorder.{record_event}
use docker_monitoring.Registry.{ok, save_host, alive, connected_input, heartbeat}
use docker_monitoring.Registry.Enrollment.{record_event-store}

module _ {F S : Type 0} (env : Env) (ops : Store F S) where
  -- The world once the heartbeat has been written.
  abbrev touched : World F S → Host → World F S
  touched w seen = record (ticked w) { store = (ops.update_host w.store seen).0 }

  heartbeat-parts :
      (w : World F S) (host_id docker_version os_info : Text)
      → (heartbeat env ops w host_id docker_version os_info).1 ≡ ok tt
      → (host : Host) × (ops.get_host w.store host_id ≡ found host)
        × ((ops.update_host w.store (alive host (env.clock w.reads) docker_version os_info)).1
            ≡ none)
        × (((heartbeat env ops w host_id docker_version os_info).0.store
              ≡ (touched w (alive host (env.clock w.reads) docker_version os_info)).store)
            ⊎ ((heartbeat env ops w host_id docker_version os_info).0.store
                ≡ (record_event env ops
                    (touched w (alive host (env.clock w.reads) docker_version os_info))
                    (connected_input
                      (alive host (env.clock w.reads) docker_version os_info))).0.store))
  unfolding heartbeat save_host
  heartbeat-parts w host_id docker_version os_info e = ground arith

module _ {F S : Type 0} (env : Env) (ops : Store F S) (laws : HostLaws ops) where
  reads_back :
      (w : World F S) (host_id other : Text) (host : Host) (docker_version os_info : Text)
      → laws.IsValid w.store
      → ops.get_host w.store host_id ≡ found host
      → (ops.update_host w.store (alive host (env.clock w.reads) docker_version os_info)).1 ≡ none
      → ops.get_host
          (ops.update_host w.store (alive host (env.clock w.reads) docker_version os_info)).0
          other
        ≡ (if text_eq host_id other
            then found (alive host (env.clock w.reads) docker_version os_info)
            else ops.get_host w.store other)
  unfolding alive
  reads_back w host_id other host docker_version os_info v got wrote = ground (
    arith,
    laws.get_host-update w.store (alive host (env.clock w.reads) docker_version os_info) other
        wrote,
    laws.get_host-id w.store host_id host v got,
  )

  -- After a heartbeat that is accepted, the host's record is online with the clock's reading as its
  -- last heartbeat and the reported versions where they are not empty, and every other field of it
  -- as before; every other host is as before.
  pub heartbeat-hosts :
      (w : World F S) (host_id docker_version os_info other : Text)
      → laws.IsValid w.store
      → (heartbeat env ops w host_id docker_version os_info).1 ≡ ok tt
      → (host : Host) × (ops.get_host w.store host_id ≡ found host)
        × (ops.get_host (heartbeat env ops w host_id docker_version os_info).0.store other ≡ (
            if text_eq host_id other
            then found (alive host (env.clock w.reads) docker_version os_info)
            else ops.get_host w.store other))
  heartbeat-hosts w host_id docker_version os_info other v e =
      let (host, got, wrote, after) = heartbeat-parts env ops w host_id docker_version os_info e in
      let seen = alive host (env.clock w.reads) docker_version os_info in
      (
        host,
        got,
        elim after [
          | inl quiet ↦
              ap (λ (s : S). ops.get_host s other) quiet
              ∙ reads_back w host_id other host docker_version os_info v got wrote
          | inr loud ↦
              ap (λ (s : S). ops.get_host s other)
                (loud ∙ record_event-store env ops (touched env ops w seen) (connected_input seen))
              ∙ laws.get_host-append _ _ _ other
              ∙ reads_back w host_id other host docker_version os_info v got wrote
        ],
      )
