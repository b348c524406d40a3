-- ===== src/Docker.antt =====
-- internal/agent/docker/client.go and containers.go: requests to the Docker daemon and what becomes
-- of its replies. The exchange over the Unix socket is net/http's, and reading a JSON value is
-- encoding/json's: both are arguments. `W` is the state of the daemon.
pub mod Paths
use docker_monitoring.Prelude.{
  ℕ, ◌+◌, ◌-◌, ◌*◌, ◌/◌, ◌%◌, ◌≡◌, Bool, true, false, not, ◌||◌, ◌&&◌, Option, none, some, List, [],
  ◌∷◌, ◌++◌, Text, codes, is_empty, leb, ltb, ◌==◌, if◌then◌else◌, ◌⊎◌, inl, inr,
}
use docker_monitoring.Storage.Memory.Events.{take}

pub record HttpReply : Type 0 where
  pub status : ℕ
  pub body : Text

-- An *APIError, a failure of the exchange, and a body that does not decode.
pub data DockerError : Type 0 where
  api_error : ℕ → Text → Text → DockerError
  unreachable bad_body : DockerError

pub data Method : Type 0 where
  get_method post_method : Method

pub data ContainerAction : Type 0 where
  action_start action_stop action_restart : ContainerAction
  other_action : Text → ContainerAction

abbrev pub action_text : ContainerAction → Text
action_text action_start = codes "start"
action_text action_stop = codes "stop"
action_text action_restart = codes "restart"
action_text (other_action s) = s

abbrev pub is_letter : ℕ → Bool
is_letter c = (leb b'a' c && leb c b'z') || (leb b'A' c && leb c b'Z')

-- The bytes that url.PathEscape leaves as they are.
unfoldable pub is_kept : ℕ → Bool
is_kept c =
    is_letter c
    || ((leb b'0' c && leb c b'9')
        || ((c == b'-')
            || ((c == b'_')
                || ((c == b'.')
                    || ((c == b'~')
                        || ((c == b'$')
                            || ((c == b'&')
                                || ((c == b'+')
                                    || ((c == b':') || ((c == b'=') || (c == b'@')))))))))))

abbrev pub hex_digit : ℕ → ℕ
hex_digit n = if ltb n 10 then b'0' + n else b'A' + (n - 10)

-- url.PathEscape
unfoldable pub escape_byte : ℕ → Text
escape_byte c = if is_kept c then c ∷ [] else b'%' ∷ hex_digit (c / 16) ∷ hex_digit (c % 16) ∷ []

unfoldable pub path_escape : Text → Text
path_escape [] = []
path_escape (c ∷ s) = escape_byte c ++ path_escape s

-- The message of a reply that is not 2xx: its JSON's, or its first 4096 bytes.
unfoldable pub error_message : (Text → Option Text) → Text → Text
error_message message_of body =
    let raw = take 4096 body in
    elim (message_of raw) [ none ↦ raw | some m ↦ if is_empty m then raw else m ]

-- do, after the exchange: the body of a 2xx reply.
unfoldable pub reply_of : (Text → Option Text) → Text → Option HttpReply → DockerError ⊎ Text
unfolding error_message
reply_of message_of path none = inl unreachable
reply_of message_of path (some r) =
    if ltb r.status 200 || leb 300 r.status
    then inl (api_error r.status path (error_message message_of r.body))
    else inr r.body

abbrev pub failure_of : DockerError ⊎ Text → Option DockerError
failure_of (inl e) = some e
failure_of (inr body) = none

-- What the caller gets of a body that is decoded.
abbrev pub decoded {ℓ} : {A : Type ℓ} → (Text → Option A) → DockerError ⊎ Text → DockerError ⊎ A
decoded decode (inl e) = inl e
decoded decode (inr body) = elim (decode body) [ none ↦ inl bad_body | some a ↦ inr a ]

abbrev pub inspect_path : Text → Text
inspect_path id = codes "/containers/" ++ (path_escape id ++ codes "/json")

abbrev pub exec_path : Text → ContainerAction → Text
exec_path id action = codes "/containers/" ++ (path_escape id ++ (b'/' ∷ action_text action))

abbrev pub is_known_action : ContainerAction → Bool
is_known_action (other_action s) = false
is_known_action _ = true

module _ {W : Type 0} (send : W → Method → Text → W × Option HttpReply)
    (message_of : Text → Option Text) where
  unfoldable pub do_request : W → Method → Text → W × (DockerError ⊎ Text)
  unfolding reply_of
  do_request w method path =
      let (after, reply) = send w method path in (after, reply_of message_of path reply)

  unfoldable pub ping_daemon : W → W × Option DockerError
  unfolding do_request
  ping_daemon w =
      let (after, result) = do_request w get_method (codes "/_ping") in (after, failure_of result)

  unfoldable pub fetch_version {ℓ} : {A : Type ℓ} → (Text → Option A) → W → W × (DockerError ⊎ A)
  unfolding do_request
  fetch_version decode w =
      let (after, result) = do_request w get_method (codes "/version") in
      (after, decoded decode result)

  unfoldable pub fetch_containers {ℓ} : {A : Type ℓ} → (Text → Option A) → W → W × (DockerError ⊎ A)
  unfolding do_request
  fetch_containers decode w =
      let (after, result) = do_request w get_method (codes "/containers/json?all=true") in
      (after, decoded decode result)

  unfoldable pub inspect_container {ℓ} :
      {A : Type ℓ} → (Text → Option A) → W → Text → W × (DockerError ⊎ A)
  unfolding do_request
  inspect_container decode w id =
      let (after, result) = do_request w get_method (inspect_path id) in
      (after, decoded decode result)

  -- Exec: an action that is not one of the three is refused here.
  unfoldable pub exec_action : W → Text → ContainerAction → W × Option DockerError
  unfolding do_request
  exec_action w id action =
      if is_known_action action
      then (let (after, result) = do_request w post_method (exec_path id action) in
          (after, failure_of result))
      else (
        w,
        some (
            api_error 400 (codes "/containers/" ++ id)
              (codes "unknown action: " ++ action_text action)),
      )
