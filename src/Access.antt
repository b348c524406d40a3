-- ===== src/Access.antt =====
-- internal/controlplane/api/router.go: which requests reach which handlers. Matching a request to a
-- route is net/http's; a request is given here with the route that it matched.
pub mod Admission
use docker_monitoring.Prelude.{
  ℕ, Bool, true, false, ◌||◌, Option, none, some, List, [], ◌∷◌, ◌++◌, Text, codes, text_eq,
  is_empty, ◌==◌, if◌then◌else◌,
}
use docker_monitoring.Strings.{after_prefix}
use docker_monitoring.Models.{User, Role, admin, viewer}
use docker_monitoring.Storage.{Store}
use docker_monitoring.World.{Env, World}
use docker_monitoring.Auth.{AuthReply, granted, denied, authenticate}

-- The routes of routes() and registerWSRoutes(), with the ID in their path.
pub data Route : Type 0 where
  health login logout me list_hosts create_host ca_certificate list_events ws_events : Route
  get_host delete_host list_host_containers issue_enrollment_token : Text → Route
  host_live_open host_live_close : Text → Route
  get_container container_live_open container_live_close : Text → Route
  ws_host_stats ws_container_stats : Text → Route

unfoldable pub route_path : Route → Text
route_path health = codes "/api/v1/system/health"
route_path login = codes "/api/v1/auth/login"
route_path logout = codes "/api/v1/auth/logout"
route_path me = codes "/api/v1/me"
route_path list_hosts = codes "/api/v1/hosts"
route_path create_host = codes "/api/v1/hosts"
route_path ca_certificate = codes "/api/v1/system/ca-certificate"
route_path list_events = codes "/api/v1/events"
route_path ws_events = codes "/ws/events"
route_path (get_host id) = codes "/api/v1/hosts/" ++ id
route_path (delete_host id) = codes "/api/v1/hosts/" ++ id
route_path (list_host_containers id) = codes "/api/v1/hosts/" ++ id ++ codes "/containers"
route_path (issue_enrollment_token id) = codes "/api/v1/hosts/" ++ id ++ codes "/enrollment-token"
route_path (host_live_open id) = codes "/api/v1/hosts/" ++ id ++ codes "/live"
route_path (host_live_close id) = codes "/api/v1/hosts/" ++ id ++ codes "/live"
route_path (get_container id) = codes "/api/v1/containers/" ++ id
route_path (container_live_open id) = codes "/api/v1/containers/" ++ id ++ codes "/live"
route_path (container_live_close id) = codes "/api/v1/containers/" ++ id ++ codes "/live"
route_path (ws_host_stats id) = codes "/ws/hosts/" ++ id ++ codes "/stats"
route_path (ws_container_stats id) = codes "/ws/containers/" ++ id ++ codes "/stats"

-- The routes that are registered under requireAdmin.
unfoldable pub admin_only : Route → Bool
admin_only create_host = true
admin_only (delete_host id) = true
admin_only (issue_enrollment_token id) = true
admin_only (host_live_open id) = true
admin_only (host_live_close id) = true
admin_only (container_live_open id) = true
admin_only (container_live_close id) = true
admin_only _ = false

-- The session cookie, if there is one, and the Authorization header, empty if there is none.
pub record Request : Type 0 where
  pub route : Route
  pub cookie : Option Text
  pub authorization : Text

unfoldable pub is_public_route : Text → Bool
is_public_route path =
    text_eq path (codes "/api/v1/system/health") || text_eq path (codes "/api/v1/auth/login")

abbrev pub bearer_token : Text → Text
bearer_token header = elim (after_prefix (codes "Bearer ") header) [
  | none ↦ []
  | some token ↦ token
]

unfoldable pub session_token_from_request : Request → Text
session_token_from_request r = elim r.cookie [
  | none ↦ bearer_token r.authorization
  | some value ↦ if is_empty value then bearer_token r.authorization else value
]

-- A request is answered with a status before its handler runs, or reaches the handler, with the
-- user in its context.
pub data Gate : Type 0 where
  reaches : Option User → Gate
  answered : ℕ → Gate

-- requireAdmin, with an auth service or without one.
unfoldable pub require_admin : Bool → Option User → Gate
require_admin false who = reaches who
require_admin true none = answered 401
require_admin true (some u) = elim u.role [ admin ↦ reaches (some u) | viewer ↦ answered 403 ]

-- The registered handler's own guard.
unfoldable pub route_guard : Bool → Route → Option User → Gate
unfolding require_admin
route_guard has_auth route who =
    if admin_only route then require_admin has_auth who else reaches who

-- withAuthStub
unfoldable pub with_auth_stub : Request → Gate
unfolding route_guard
with_auth_stub r =
    if is_public_route (route_path r.route)
    then route_guard false r.route none
    else if elim r.cookie [ none ↦ true | some value ↦ is_empty value ]
    then (if is_empty r.authorization then answered 401 else route_guard false r.route none)
    else route_guard false r.route none

module _ {F S : Type 0} (env : Env) (ops : Store F S) where
  unfoldable pub with_session_auth : World F S → Request → World F S × Gate
  unfolding route_guard
  with_session_auth w r =
      if is_public_route (route_path r.route)
      then (w, route_guard true r.route none)
      else (let (after, reply) = authenticate env ops w (session_token_from_request r) in
          elim reply [
            | denied _ ↦ (after, answered 401)
            | granted u ↦ (after, route_guard true r.route (some u))
          ])
