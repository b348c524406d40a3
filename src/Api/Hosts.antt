-- ===== src/Api/Hosts.antt =====
-- Hosts over the API (internal/controlplane/api/hosts.go), on the in-memory store.
use docker_monitoring.Prelude.{suc, ◌≡◌, none, some, Text, codes, text_eq_refl, arith}
use docker_monitoring.Models.{Host}
use docker_monitoring.Storage.{found}
use docker_monitoring.Storage.Laws.{memory_laws}
use docker_monitoring.Storage.Memory.{Memory, create_host, delete_host, get_host, of_lookup}
use docker_monitoring.Storage.Memory.Instance.{memory_store}
use docker_monitoring.Storage.Memory.Records.{get_host-writes}
use docker_monitoring.World.{Env, World, ticked, drawn}
use docker_monitoring.Telemetry.Hosts.{record_event-get_host}
use docker_monitoring.Http.{json, no_content}
use docker_monitoring.Api.{CreateHostRequest, replies, refuse, host_body, Server}
use docker_monitoring.Api.Handlers.{
  create_host_fault, new_host, registered_input, removed_input, handle_create_host,
  handle_delete_host,
}
use docker_monitoring.Api.Reads.{handle_get_host}

module _ {F : Type 0} (env : Env) (server : Server) where
  -- A created host reads back: a host creation that passes the guards is answered 201 with a host of
  -- the requested name, address and kind, and the same host is then what a request for its ID is
  -- answered with.
  pub create_then_get :
      (w : World F (Memory F)) (req : CreateHostRequest)
      → create_host_fault req ≡ none
      → (h : Host) × ((handle_create_host env (memory_store F) server w (some req)).1
          ≡ replies none (json 201 (host_body h)))
        × (handle_get_host
              (memory_store F)
              (handle_create_host env (memory_store F) server w (some req)).0.store
              h.id
            ≡ replies none (json 200 (host_body h)))
        × (h.name ≡ req.name)
        × (h.address ≡ req.address)
        × (h.kind ≡ req.kind)
  unfolding handle_create_host handle_get_host new_host create_host
  create_then_get w req sound =
      let fresh = new_host (env.new_id w.draws) (env.clock w.reads) req in
      let h = (create_host w.store (env.clock (suc w.reads)) fresh).1 in
      let after = record (ticked (ticked (drawn w))) {
        store = (create_host w.store (env.clock (suc w.reads)) fresh).0;
      } in
      (
        h,
        ground (arith, sound),
        ground (
          arith,
          sound,
          text_eq_refl h.id,
          record_event-get_host env (memory_store F) memory_laws h.id after (registered_input h),
          (get_host-writes w.store (env.clock (suc w.reads)) fresh h.id h.id).0,
        ),
        ground arith,
        ground arith,
        ground arith,
      )

  -- A deleted host is gone: where the host is there, its deletion is answered 204, and a request for
  -- it is then answered 404.
  pub delete_then_get :
      (w : World F (Memory F)) (id : Text) (h : Host)
      → get_host w.store id ≡ found h
      → ((handle_delete_host env (memory_store F) server w id).1 ≡ replies none (no_content 204))
        × (handle_get_host
              (memory_store F)
              (handle_delete_host env (memory_store F) server w id).0.store
              id
            ≡ refuse 404 (codes "host not found"))
  unfolding handle_delete_host handle_get_host delete_host get_host of_lookup
  delete_then_get w id h there = (
    ground (arith, there),
    (let after = record w { store = (delete_host w.store id).0 } in
        ground (
          arith,
          there,
          text_eq_refl id,
          record_event-get_host env (memory_store F) memory_laws id after (removed_input h),
          (get_host-writes w.store 0 h id id).3,
        )),
  )
