-- ===== src/Access/Admission.antt =====
-- Who reaches the handlers of internal/controlplane/api/router.go under real authentication.
use docker_monitoring.Prelude.{◌≤◌, ◌≡◌, refl, Bool, true, false, ◌⊎◌, Option, some, text_eq, arith}
use docker_monitoring.Models.{User, Session, admin}
use docker_monitoring.Storage.{Store, found}
use docker_monitoring.World.{Env, World}
use docker_monitoring.Auth.{granted, authenticate}
use docker_monitoring.Auth.Sessions.{authenticate-granted}
use docker_monitoring.Access.{
  Route, health, login, logout, me, list_hosts, create_host, ca_certificate, list_events, ws_events,
  get_host, delete_host, list_host_containers, issue_enrollment_token, host_live_open,
  host_live_close, get_container, container_live_open, container_live_close, ws_host_stats,
  ws_container_stats, route_path, admin_only, Request, is_public_route, session_token_from_request,
  reaches, require_admin, route_guard, with_session_auth,
}

-- Only the health check and the login are public.
abbrev pub is_open : Route → Bool
is_open health = true
is_open login = true
is_open _ = false

is_public_route_lem : (route : Route) → is_public_route (route_path route) ≡ is_open route
unfolding is_public_route route_path text_eq
is_public_route_lem health = refl
is_public_route_lem login = refl
is_public_route_lem logout = refl
is_public_route_lem me = refl
is_public_route_lem list_hosts = refl
is_public_route_lem create_host = refl
is_public_route_lem ca_certificate = refl
is_public_route_lem list_events = refl
is_public_route_lem ws_events = refl
is_public_route_lem (get_host id) = refl
is_public_route_lem (delete_host id) = refl
is_public_route_lem (list_host_containers id) = refl
is_public_route_lem (issue_enrollment_token id) = refl
is_public_route_lem (host_live_open id) = refl
is_public_route_lem (host_live_close id) = refl
is_public_route_lem (get_container id) = refl
is_public_route_lem (container_live_open id) = refl
is_public_route_lem (container_live_close id) = refl
is_public_route_lem (ws_host_stats id) = refl
is_public_route_lem (ws_container_stats id) = refl

module _ {F S : Type 0} (env : Env) (ops : Store F S) where
  gate-parts :
      (w : World F S) (r : Request) (who : Option User)
      → is_open r.route ≡ false
      → (with_session_auth env ops w r).1 ≡ reaches who
      → (u : User) × ((authenticate env ops w (session_token_from_request r)).1 ≡ granted u)
        × (who ≡ some u)
        × ((admin_only r.route ≡ false) ⊎ (u.role ≡ admin))
  unfolding with_session_auth route_guard require_admin
  gate-parts w r who guarded e = ground (arith, is_public_route_lem r.route)

  -- A request reaches the handler of a route that is not the health check or the login only with a
  -- token, from its cookie or its bearer header, of a stored session that is not past its expiry,
  -- and in the name of that session's user; a handler registered under requireAdmin is reached by
  -- administrators alone.
  pub reaches-session :
      (w : World F S) (r : Request) (who : Option User)
      → is_open r.route ≡ false
      → (with_session_auth env ops w r).1 ≡ reaches who
      → (u : User) × (who ≡ some u)
        × ((admin_only r.route ≡ false) ⊎ (u.role ≡ admin))
        × (sess : Session) × (ops.get_session_by_token_hash w.store
              (env.hash_token (session_token_from_request r))
            ≡ found sess)
        × (env.clock w.reads ≤ sess.expires_at)
        × (ops.get_user w.store sess.user_id ≡ found u)
  reaches-session w r who guarded e =
      let (u, admitted, named, allowed) = gate-parts w r who guarded e in
      let (_, rest) =
        (authenticate-granted env ops w (session_token_from_request r) u).0 admitted in
      let (sess, got, in_time, owner) = rest in (u, named, allowed, sess, got, in_time, owner)
