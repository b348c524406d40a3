-- ===== src/Api/Reads.antt =====
-- The handlers of internal/controlplane/api that only read the store (containers.go, hosts.go and
-- ws.go).
use docker_monitoring.Prelude.{Bool, not, none, Text, ◌++◌, codes, if◌then◌else◌}
use docker_monitoring.Storage.{Store, not_found, found, missing}
use docker_monitoring.Http.{json}
use docker_monitoring.Api.{
  host_body, hosts_body, container_body, containers_body, ApiReply, replies, upgrades, refuse,
}
use docker_monitoring.Api.Handlers.{host_absent, not_there}

module _ {F S : Type 0} (ops : Store F S) (s : S) where
  unfoldable pub handle_list_hosts : ApiReply
  handle_list_hosts = elim (ops.list_hosts s) [
    | missing e ↦ refuse 500 (codes "failed to list hosts")
    | found hosts ↦ replies none (json 200 (hosts_body hosts))
  ]

  unfoldable pub handle_get_host : Text → ApiReply
  handle_get_host id = elim (ops.get_host s id) [
    | missing e ↦ host_absent e
    | found h ↦ replies none (json 200 (host_body h))
  ]

  -- Once the host is not known to be absent.
  unfoldable pub list_containers_reply : Text → ApiReply
  list_containers_reply id = elim (ops.list_containers_by_host s id) [
    | missing e ↦ refuse 500 (codes "failed to list containers")
    | found containers ↦ replies none (json 200 (containers_body containers))
  ]

  -- Any other error of GetHost is passed over.
  unfoldable pub handle_list_host_containers : Text → ApiReply
  unfolding list_containers_reply
  handle_list_host_containers id = elim (ops.get_host s id) [
    | missing not_found ↦ refuse 404 (codes "host not found")
    | missing _ ↦ list_containers_reply id
    | found h ↦ list_containers_reply id
  ]

  unfoldable pub handle_get_container : Text → ApiReply
  handle_get_container id = elim (ops.get_container s id) [
    | missing e ↦ not_there e (codes "container not found") (codes "failed to get container")
    | found c ↦ replies none (json 200 (container_body c))
  ]

  abbrev pub no_hub : ApiReply
  no_hub = refuse 501 (codes "real-time updates are not enabled on this server")

  unfoldable pub handle_ws_host_stats : Bool → Text → ApiReply
  handle_ws_host_stats hub id = if not hub then no_hub else elim (ops.get_host s id) [
    | missing e ↦ host_absent e
    | found h ↦ upgrades (codes "hosts/" ++ id ++ codes "/stats")
  ]

  unfoldable pub handle_ws_container_stats : Bool → Text → ApiReply
  handle_ws_container_stats hub id = if not hub then no_hub else elim (ops.get_container s id) [
    | missing e ↦ not_there e (codes "container not found") (codes "failed to get container")
    | found c ↦ upgrades (codes "containers/" ++ id ++ codes "/stats")
  ]
