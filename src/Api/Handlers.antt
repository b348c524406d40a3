-- ===== src/Api/Handlers.antt =====
-- The handlers of internal/controlplane/api (auth.go, containers.go, enrollment.go, health.go,
-- hosts.go, live.go and ws.go), and router.go's dispatch to them.
use docker_monitoring.Prelude.{
  ℕ, suc, true, false, ◌||◌, not, Option, none, some, Text, [], ◌++◌, codes, is_empty,
  if◌then◌else◌, ◌*◌, ◌==◌,
}
use docker_monitoring.Models.{Host, local, remote, other_kind, User, info, unknown, normal}
use docker_monitoring.Storage.{Store, StoreError, not_found, found, missing}
use docker_monitoring.World.{Env, World, ticked, drawn}
use docker_monitoring.Recorder.{RecordInput, record_event}
use docker_monitoring.Registry.{host_not_found, ok, err, issue_enrollment_token}
use docker_monitoring.Auth.{granted, denied, invalid_credentials, login, logout}
use docker_monitoring.Access.{Request, session_token_from_request}
use docker_monitoring.Live.{LiveReply, live_status, live_mode}
use docker_monitoring.Monitoring.{EntityKind, entity_host, entity_container}
use docker_monitoring.Http.{json, failure, no_content}
use docker_monitoring.Api.{
  LoginRequest, CreateHostRequest, Cookie, Body, profile, host_body, token_body, live_body,
  ApiReply, replies, refuse, Server,
}

-- time.Unix(0, 0)
abbrev pub unix_epoch : ℕ
unix_epoch = 62135596800 * 1000000000

abbrev pub profile_of : User → Body
profile_of u =
    profile
      (record { user_id = u.id; email = u.email; display_name = u.display_name; role = u.role })

-- What is answered where the store does not find the entity.
abbrev pub not_there : StoreError → Text → Text → ApiReply
not_there not_found absent failed = refuse 404 absent
not_there _ absent failed = refuse 500 failed

abbrev pub host_absent : StoreError → ApiReply
host_absent e = not_there e (codes "host not found") (codes "failed to get host")

-- eventsHostRegistered and eventsHostRemoved.
unfoldable pub host_event : Text → Host → Text → RecordInput
host_event event_type h what = record {
  event_type = event_type;
  severity = info;
  host_id = some h.id;
  container_id = none;
  user_id = none;
  message = codes "Host " ++ h.name ++ what;
}

abbrev pub registered_input : Host → RecordInput
registered_input h = host_event (codes "host.connected") h (codes " registered")

abbrev pub removed_input : Host → RecordInput
removed_input h = host_event (codes "host.disconnected") h (codes " removed")

-- The guards of handleCreateHost: what is wrong with a request.
unfoldable pub create_host_fault : CreateHostRequest → Option Text
create_host_fault req =
    if is_empty req.name then some (codes "name is required") else elim req.kind [
      | local ↦ none
      | remote ↦
          if is_empty req.address then some (codes "address is required for remote hosts") else none
      | other_kind _ ↦ some (codes "kind must be 'local' or 'remote'")
    ]

-- The record that handleCreateHost builds.
unfoldable pub new_host : Text → ℕ → CreateHostRequest → Host
new_host id now req = record {
  id = id;
  name = req.name;
  address = req.address;
  kind = req.kind;
  agent_id = [];
  connection_status = unknown;
  docker_version = [];
  os_info = [];
  monitoring_mode = normal;
  last_heartbeat_at = none;
  created_at = now;
  enrollment_token_hash = [];
  enrollment_issued_at = none;
  agent_enrolled = false;
  cert_fingerprint = [];
}

abbrev pub absent_entity : EntityKind → Text
absent_entity entity_host = codes "host not found"
absent_entity entity_container = codes "container not found"

-- What the handlers of live.go write: the status 501 is for a server without an engine.
abbrev pub live_reply : EntityKind → LiveReply → ApiReply
live_reply kind (live_status status) =
    if status == 501
    then refuse 501 (codes "adaptive monitoring is not enabled on this server")
    else refuse status (absent_entity kind)
live_reply kind (live_mode mode interval) = replies none (json 200 (live_body mode interval))

module _ {F S : Type 0} (env : Env) (ops : Store F S) (server : Server) where
  -- handleLogin after Login.
  unfoldable pub answer_login : World F S → Text → ℕ → Text → World F S × ApiReply
  answer_login w token expires user_id =
      let cookie : Option Cookie = some (record {
        value = token;
        secure = server.cookie_secure;
        expires = expires;
        delete_now = false;
      }) in
      elim (ops.get_user w.store user_id) [
        | missing e ↦ (w, replies cookie (failure 500 (codes "login failed")))
        | found u ↦ (w, replies cookie (json 200 (profile_of u)))
      ]

  unfoldable pub handle_login : World F S → Option LoginRequest → World F S × ApiReply
  unfolding answer_login
  handle_login w body = elim server.auth [
    | none ↦ (w, refuse 501 (codes "authentication is not configured on this server"))
    | some pw ↦ elim body [
      | none ↦ (w, refuse 400 (codes "invalid request body"))
      | some req ↦
          if is_empty req.email || is_empty req.password
          then (w, refuse 400 (codes "email and password are required"))
          else let (after, reply) = login env ops pw server.session_ttl w req.email req.password in
            elim reply [
              | denied invalid_credentials ↦ (after, refuse 401 (codes "invalid email or password"))
              | denied _ ↦ (after, refuse 500 (codes "login failed"))
              | granted (token, sess) ↦ answer_login after token sess.expires_at sess.user_id
            ]
    ]
  ]

  abbrev pub cleared_cookie : ApiReply
  cleared_cookie =
      replies
        (some (record {
          value = [];
          secure = server.cookie_secure;
          expires = unix_epoch;
          delete_now = true;
        }))
        (no_content 204)

  unfoldable pub handle_logout : World F S → Request → World F S × ApiReply
  handle_logout w r = elim server.auth [
    | none ↦ (w, replies none (no_content 204))
    | some pw ↦
        let token = session_token_from_request r in
        if is_empty token
        then (w, cleared_cookie)
        else let (after, failed) = logout env ops w token in
          elim failed [
            | some e ↦ (after, refuse 500 (codes "logout failed"))
            | none ↦ (after, cleared_cookie)
          ]
  ]

  unfoldable pub handle_create_host : World F S → Option CreateHostRequest → World F S × ApiReply
  unfolding create_host_fault new_host host_event
  handle_create_host w none = (w, refuse 400 (codes "invalid request body"))
  handle_create_host w (some req) = elim (create_host_fault req) [
    | some msg ↦ (w, refuse 400 msg)
    | none ↦
        let (s, h, failed) =
          ops.create_host w.store (env.clock (suc w.reads))
            (new_host (env.new_id w.draws) (env.clock w.reads) req) in
        let after = record (ticked (ticked (drawn w))) { store = s } in
        elim failed [
          | some e ↦ (after, refuse 500 (codes "failed to create host"))
          | none ↦ (
            (record_event env ops after (registered_input h)).0,
            replies none (json 201 (host_body h)),
          )
        ]
  ]

  unfoldable pub handle_delete_host : World F S → Text → World F S × ApiReply
  unfolding host_event
  handle_delete_host w id = elim (ops.get_host w.store id) [
    | missing e ↦ (w, host_absent e)
    | found h ↦
        let (s, failed) = ops.delete_host w.store id in
        let after = record w { store = s } in
        elim failed [
          | some e ↦ (after, refuse 500 (codes "failed to delete host"))
          | none ↦ ((record_event env ops after (removed_input h)).0, replies none (no_content 204))
        ]
  ]

  unfoldable pub handle_issue_enrollment_token : World F S → Text → World F S × ApiReply
  handle_issue_enrollment_token w id =
      if not server.registry
      then (w, refuse 501 (codes "agent enrollment is not enabled on this server"))
      else let (after, reply) = issue_enrollment_token env ops w id in
        elim reply [
          | err host_not_found ↦ (after, refuse 404 (codes "host not found"))
          | err _ ↦ (after, refuse 500 (codes "failed to issue enrollment token"))
          | ok token ↦ (after, replies none (json 200 (token_body token)))
        ]
