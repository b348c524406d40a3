-- ===== src/Api.antt =====
-- internal/controlplane/api: the handlers of the browser's API, behind the guards of Access. A body
-- is given as encoding/json decodes it, `none` where it does not; time.Parse is a parameter. The
-- WebSocket upgrade is the hub's: a handler that gets so far is answered by the topic it serves.
pub mod Events
pub mod Handlers
pub mod Reads
pub mod Dispatch
pub mod Viewer
pub mod Hosts
use docker_monitoring.Prelude.{ℕ, Bool, Option, none, some, List, Text, Option, codes}
use docker_monitoring.Prelude.Int.{ℤ}
use docker_monitoring.Models.{Host, Container, Event, User, Role, HostKind, MonitoringMode}
use docker_monitoring.Http.{Response, failure}
use docker_monitoring.Auth.{Passwords}

pub record LoginRequest : Type 0 where
  pub email : Text
  pub password : Text

pub record LoginResponse : Type 0 where
  pub user_id : Text
  pub email : Text
  pub display_name : Text
  pub role : Role

pub record CreateHostRequest : Type 0 where
  pub name : Text
  pub address : Text
  pub kind : HostKind

-- The parameters of the query, empty where they are absent.
pub record EventQuery : Type 0 where
  pub host : Text
  pub container : Text
  pub event_type : Text
  pub severity : Text
  pub from_text : Text
  pub to_text : Text
  pub limit : Text

-- The session cookie that a reply sets: its value, whether it is Secure, and when it expires; a
-- cookie with a negative MaxAge is deleted at once.
pub record Cookie : Type 0 where
  pub value : Text
  pub secure : Bool
  pub expires : ℕ
  pub delete_now : Bool

pub data Body : Type 0 where
  health_body : Body
  profile : LoginResponse → Body
  host_body : Host → Body
  hosts_body : List Host → Body
  container_body : Container → Body
  containers_body : List Container → Body
  events_body : List Event → Body
  token_body : Text → Body
  live_body : MonitoringMode → ℤ → Body

pub data ApiReply : Type 0 where
  replies : Option Cookie → Response Body → ApiReply
  pem : Text → ApiReply
  upgrades : Text → ApiReply

abbrev pub refuse : ℕ → Text → ApiReply
refuse status msg = replies none (failure status msg)

-- The fields of Server that the handlers test for nil, and its settings; `registry` is whether there
-- is one, `ca` the CA's certificate.
pub record Server : Type 0 where
  pub auth : Option Passwords
  pub session_ttl : ℕ
  pub cookie_secure : Bool
  pub registry : Bool
  pub ca : Option Text
  pub hub : Bool
