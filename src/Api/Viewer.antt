-- ===== src/Api/Viewer.antt =====
-- What a request can change by who sends it (internal/controlplane/api/router.go).
use docker_monitoring.Prelude.{
  ℕ, ◌≡◌, ◌⊎◌, refl, ap, Bool, true, false, Option, none, some, Text, codes, arith, Bool-cases, inl,
  inr,
}
use docker_monitoring.Models.{Float64, User, viewer}
use docker_monitoring.Storage.{Store, Found-cases, not_found}
use docker_monitoring.World.{Env, World, ticked}
use docker_monitoring.Auth.{Passwords, AuthError, granted, denied, authenticate, admit}
use docker_monitoring.Access.{
  Route, health, login, logout, me, list_hosts, create_host, ca_certificate, list_events, ws_events,
  get_host, delete_host, list_host_containers, issue_enrollment_token, host_live_open,
  host_live_close, get_container, container_live_open, container_live_close, ws_host_stats,
  ws_container_stats, admin_only, is_public_route, route_path, require_admin, route_guard,
  with_session_auth, session_token_from_request,
}
use docker_monitoring.Api.{refuse, Server}
use docker_monitoring.Api.Dispatch.{Call, dispatch, gate, serve}

-- The routes that open or end a session.
abbrev pub changes_session : Route → Bool
changes_session login = true
changes_session logout = true
changes_session _ = false

module _ {F S : Type 0} (env : Env) (ops : Store F S) where
  granted_world :
      (w : World F S) (token : Text) (u : User)
      → (authenticate env ops w token).1 ≡ granted u
      → (authenticate env ops w token).0 ≡ ticked w
  unfolding authenticate admit
  granted_world w token u ok =
      elim (Found-cases (ops.get_session_by_token_hash w.store (env.hash_token token))) [
        | inl (not_found, lost) ↦ absurd (ground (arith, lost, ok))
        | inl (e, lost) ↦ absurd (ground (arith, lost, ok))
        | inr (sess, there) ↦ ground (arith, there, ok)
      ]

module _ {F S : Type 0} ⦃fl : Float64 F⦄ (env : Env) (ops : Store F S) (server : Server)
    (parse_rfc3339 : Text → Option ℕ) where
  dispatch_reads :
      (w : World F S) (who : Option User) (call : Call) (route : Route)
      → admin_only route ≡ false
      → changes_session route ≡ false
      → (dispatch env ops server parse_rfc3339 w who call route).0 ≡ w
  unfolding dispatch admin_only
  dispatch_reads w who call health free keeps = refl
  dispatch_reads w who call login free keeps = absurd (ground arith)
  dispatch_reads w who call logout free keeps = absurd (ground arith)
  dispatch_reads w who call me free keeps = refl
  dispatch_reads w who call list_hosts free keeps = refl
  dispatch_reads w who call create_host free keeps = absurd (ground arith)
  dispatch_reads w who call ca_certificate free keeps = refl
  dispatch_reads w who call list_events free keeps = refl
  dispatch_reads w who call ws_events free keeps = refl
  dispatch_reads w who call (get_host id) free keeps = refl
  dispatch_reads w who call (delete_host id) free keeps = absurd (ground arith)
  dispatch_reads w who call (list_host_containers id) free keeps = refl
  dispatch_reads w who call (issue_enrollment_token id) free keeps = absurd (ground arith)
  dispatch_reads w who call (host_live_open id) free keeps = absurd (ground arith)
  dispatch_reads w who call (host_live_close id) free keeps = absurd (ground arith)
  dispatch_reads w who call (get_container id) free keeps = refl
  dispatch_reads w who call (container_live_open id) free keeps = absurd (ground arith)
  dispatch_reads w who call (container_live_close id) free keeps = absurd (ground arith)
  dispatch_reads w who call (ws_host_stats id) free keeps = refl
  dispatch_reads w who call (ws_container_stats id) free keeps = refl

  serve_viewer-world :
      (w : World F S) (call : Call) (pw : Passwords) (u : User)
      → server.auth ≡ some pw
      → (authenticate env ops w (session_token_from_request call.request)).1 ≡ granted u
      → u.role ≡ viewer
      → changes_session call.request.route ≡ false
      → ((serve env ops server parse_rfc3339 w call).0 ≡ w)
        ⊎ ((serve env ops server parse_rfc3339 w call).0 ≡ ticked w)
  unfolding serve gate with_session_auth route_guard require_admin
  serve_viewer-world w call pw u configured admitted role keeps =
      let route = call.request.route in
      let token = session_token_from_request call.request in
      elim (Bool-cases (is_public_route (route_path route))) [
        | inl public ↦ elim (Bool-cases (admin_only route)) [
          | inl guarded ↦ inl (ground (arith, configured, public, guarded))
          | inr free ↦ inl (
              ground (arith, configured, public, free, dispatch_reads w none call route free keeps))
        ]
        | inr private ↦ elim (Bool-cases (admin_only route)) [
          | inl guarded ↦ inr (
              ground (
                arith,
                configured,
                private,
                guarded,
                admitted,
                role,
                granted_world env ops w token u admitted,
              ))
          | inr free ↦ inr (
              ground (
                arith,
                configured,
                private,
                free,
                admitted,
                granted_world env ops w token u admitted,
                dispatch_reads (ticked w) (some u) call route free keeps,
              ))
        ]
      ]

  -- A viewer changes nothing: a request on the session of a viewer, other than a login or a logout,
  -- leaves the store, the monitoring engine and what has been broadcast as they are.
  pub serve-viewer :
      (w : World F S) (call : Call) (pw : Passwords) (u : User)
      → server.auth ≡ some pw
      → (authenticate env ops w (session_token_from_request call.request)).1 ≡ granted u
      → u.role ≡ viewer
      → changes_session call.request.route ≡ false
      → ((serve env ops server parse_rfc3339 w call).0.store ≡ w.store)
        × ((serve env ops server parse_rfc3339 w call).0.monitor ≡ w.monitor)
        × ((serve env ops server parse_rfc3339 w call).0.sent ≡ w.sent)
  serve-viewer w call pw u configured admitted role keeps =
      elim (serve_viewer-world w call pw u configured admitted role keeps) [
        | inl same ↦ (ap (λ v. v.store) same, ap (λ v. v.monitor) same, ap (λ v. v.sent) same)
        | inr same ↦ (ap (λ v. v.store) same, ap (λ v. v.monitor) same, ap (λ v. v.sent) same)
      ]

  -- Without a session, a request on any route but the health check and the login is answered 401
  -- and changes nothing but what its authentication does.
  pub serve-denied :
      (w : World F S) (call : Call) (pw : Passwords) (e : AuthError)
      → server.auth ≡ some pw
      → (authenticate env ops w (session_token_from_request call.request)).1 ≡ denied e
      → is_public_route (route_path call.request.route) ≡ false
      → serve env ops server parse_rfc3339 w call ≡ (
        (authenticate env ops w (session_token_from_request call.request)).0,
        refuse 401 (codes "authentication required"),
      )
  unfolding serve gate with_session_auth
  serve-denied w call pw e configured rejected private =
      ground (arith, configured, rejected, private)
