-- ===== src/Api/Dispatch.antt =====
-- internal/controlplane/api/router.go: a request goes through the authentication middleware and the
-- route's guard to its handler. The WebSocket routes are there only on a server with a hub.
use docker_monitoring.Prelude.{ℕ, Option, none, some, Text, codes, if◌then◌else◌, ◌==◌}
use docker_monitoring.Models.{Float64, User}
use docker_monitoring.Storage.{Store}
use docker_monitoring.World.{Env, World}
use docker_monitoring.Monitoring.{EntityKind, entity_host, entity_container}
use docker_monitoring.Live.{LiveReply, handle_live_open, handle_live_close}
use docker_monitoring.Access.{
  Request, Route, health, login, logout, me, list_hosts, create_host, ca_certificate, list_events,
  ws_events, get_host, delete_host, list_host_containers, issue_enrollment_token, host_live_open,
  host_live_close, get_container, container_live_open, container_live_close, ws_host_stats,
  ws_container_stats, Gate, reaches, answered, with_auth_stub, with_session_auth,
}
use docker_monitoring.Http.{json}
use docker_monitoring.Api.{
  LoginRequest, CreateHostRequest, EventQuery, health_body, ApiReply, replies, pem, upgrades,
  refuse, Server,
}
use docker_monitoring.Api.Events.{handle_list_events}
use docker_monitoring.Api.Handlers.{
  profile_of, live_reply, handle_login, handle_logout, handle_create_host, handle_delete_host,
  handle_issue_enrollment_token,
}
use docker_monitoring.Api.Reads.{
  handle_list_hosts, handle_get_host, handle_list_host_containers, handle_get_container, no_hub,
  handle_ws_host_stats, handle_ws_container_stats,
}

-- A request with its body, as the login and the host creation decode it, and its query.
pub record Call : Type 0 where
  pub request : Request
  pub login_body : Option LoginRequest
  pub create_body : Option CreateHostRequest
  pub query : EventQuery

-- The message of a status that a guard writes.
abbrev pub gate_message : ℕ → Text
gate_message status =
    if status == 403 then codes "admin role required" else codes "authentication required"

unfoldable pub handle_me : Option User → ApiReply
handle_me none = refuse 501 (codes "authentication is not configured on this server")
handle_me (some u) = replies none (json 200 (profile_of u))

unfoldable pub handle_ca_certificate : Server → ApiReply
handle_ca_certificate server = elim server.ca [
  | none ↦ refuse 501 (codes "agent enrollment is not enabled on this server")
  | some cert ↦ pem cert
]

module _ {F S : Type 0} ⦃fl : Float64 F⦄ (env : Env) (ops : Store F S) (server : Server)
    (parse_rfc3339 : Text → Option ℕ) where
  abbrev pub live : EntityKind → World F S × LiveReply → World F S × ApiReply
  live kind (w, reply) = (w, live_reply kind reply)

  -- The handler of each route, with the user in the request's context.
  unfoldable pub dispatch : World F S → Option User → Call → Route → World F S × ApiReply
  unfolding handle_me handle_ca_certificate
  dispatch w who call health = (w, replies none (json 200 health_body))
  dispatch w who call login = handle_login env ops server w call.login_body
  dispatch w who call logout = handle_logout env ops server w call.request
  dispatch w who call me = (w, handle_me who)
  dispatch w who call list_hosts = (w, handle_list_hosts ops w.store)
  dispatch w who call create_host = handle_create_host env ops server w call.create_body
  dispatch w who call ca_certificate = (w, handle_ca_certificate server)
  dispatch w who call list_events = (w, handle_list_events parse_rfc3339 ops w.store call.query)
  dispatch w who call ws_events =
      (w, if server.hub then upgrades (codes "events") else no_hub ops w.store)
  dispatch w who call (get_host id) = (w, handle_get_host ops w.store id)
  dispatch w who call (delete_host id) = handle_delete_host env ops server w id
  dispatch w who call (list_host_containers id) = (w, handle_list_host_containers ops w.store id)
  dispatch w who call (issue_enrollment_token id) =
      handle_issue_enrollment_token env ops server w id
  dispatch w who call (host_live_open id) = live entity_host (handle_live_open ops w entity_host id)
  dispatch w who call (host_live_close id) =
      live entity_host (handle_live_close ops w entity_host id)
  dispatch w who call (get_container id) = (w, handle_get_container ops w.store id)
  dispatch w who call (container_live_open id) =
      live entity_container (handle_live_open ops w entity_container id)
  dispatch w who call (container_live_close id) =
      live entity_container (handle_live_close ops w entity_container id)
  dispatch w who call (ws_host_stats id) = (w, handle_ws_host_stats ops w.store server.hub id)
  dispatch w who call (ws_container_stats id) =
      (w, handle_ws_container_stats ops w.store server.hub id)

  unfoldable pub gate : World F S → Request → World F S × Gate
  gate w r = elim server.auth [
    | none ↦ (w, with_auth_stub r)
    | some pw ↦ with_session_auth env ops w r
  ]

  -- Handler(), without its log.
  unfoldable pub serve : World F S → Call → World F S × ApiReply
  unfolding gate dispatch
  serve w call =
      let (after, verdict) = gate w call.request in
      elim verdict [
        | answered status ↦ (after, refuse status (gate_message status))
        | reaches who ↦ dispatch after who call call.request.route
      ]
