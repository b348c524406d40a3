-- ===== src/Startup/Enrolling.antt =====
-- cmd/agent/main.go until it has its collector, with Enroll and NewClient of
-- internal/agent/transport/transport.go. os.LookupEnv, fmt.Sscanf and Go's crypto are
-- arguments; `W` is the state of what the agent talks to.
use docker_monitoring.Prelude.{
  ℕ, Bool, not, Option, none, some, Text, [], ◌∷◌, ◌++◌, codes, insert, is_empty, if◌then◌else◌,
  ◌⊎◌, inl, inr,
}
use docker_monitoring.Prelude.Int.{ℤ, pos, leb_ℤ}
use docker_monitoring.Http.{Response}
use docker_monitoring.AgentApi.{AgentReply, EnrollRequest, HeartbeatRequest}
use docker_monitoring.Docker.{DockerError}
use docker_monitoring.Transport.{enroll_answered}
use docker_monitoring.Config.{Lookups, get_env}
use docker_monitoring.Startup.{Files, Faults, read_file, failed_write}

pub record AgentConfig : Type 0 where
  pub control_plane_addr : Text
  pub host_id : Text
  pub docker_socket : Text
  pub cert_dir : Text
  pub enrollment_token : Text
  pub normal_interval_seconds : ℤ

-- getEnvInt of the agent: os.Getenv is the empty text for a variable that is not set, and
-- `sscanf_int` is what fmt.Sscanf reads with "%d".
unfoldable pub positive_env : (Text → Option ℤ) → Lookups → Text → ℤ → ℤ
positive_env sscanf_int env key fallback = elim (env key) [
  | none ↦ fallback
  | some [] ↦ fallback
  | some (c ∷ v) ↦ elim (sscanf_int (c ∷ v)) [
    | none ↦ fallback
    | some n ↦ if leb_ℤ n (pos 0) then fallback else n
  ]
]

unfoldable pub load_config : (Text → Option ℤ) → Lookups → AgentConfig
unfolding positive_env get_env
load_config sscanf_int env = record {
  control_plane_addr = get_env env (codes "DM_AGENT_CONTROL_PLANE_ADDR") (codes "localhost:8443");
  host_id = get_env env (codes "DM_AGENT_HOST_ID") [];
  docker_socket = get_env env (codes "DM_AGENT_DOCKER_SOCKET") (codes "/var/run/docker.sock");
  cert_dir = get_env env (codes "DM_AGENT_CERT_DIR") (codes "/etc/docker-monitor-agent/certs");
  enrollment_token = get_env env (codes "DM_AGENT_ENROLLMENT_TOKEN") [];
  normal_interval_seconds =
      positive_env sscanf_int env (codes "DM_AGENT_NORMAL_INTERVAL_SECONDS") (pos 60);
}

-- A certificate and its private key, in PEM.
pub record Identity : Type 0 where
  pub cert_pem : Text
  pub key_pem : Text

-- Go's crypto/x509 and encoding/pem, as Enroll uses them.
pub record AgentKeys : Type 0 where
  pub generate_key : ℕ → Option Text
  pub create_csr : Text → Text → Option Text
  pub marshal_key : Text → Option Text
  pub encode_pem : Text → Text → Text
  pub accepts_ca : Text → Bool

module _ {W : Type 0} (k : AgentKeys)
    (send : W → EnrollRequest → W × Option (Response AgentReply)) where
  -- Enroll once the request has been built: the exchange, and the key's PEM.
  unfoldable pub exchange_csr : W → EnrollRequest → Text → W × Option Identity
  exchange_csr w req key =
      let (after, reply) = send w req in
      elim (enroll_answered reply) [
        | none ↦ (after, none)
        | some cert_pem ↦ elim (k.marshal_key key) [
          | none ↦ (after, none)
          | some der ↦ (
            after,
            some (record {
              cert_pem = cert_pem;
              key_pem = k.encode_pem (codes "EC PRIVATE KEY") der;
            }),
          )
        ]
      ]

  -- Enroll
  unfoldable pub enroll_agent : W → ℕ → Text → Text → Text → W × Option Identity
  unfolding exchange_csr
  enroll_agent w draw host_id token ca_pem = elim (k.generate_key draw) [
    | none ↦ (w, none)
    | some key ↦ elim (k.create_csr host_id key) [
      | none ↦ (w, none)
      | some der ↦
          if not (k.accepts_ca ca_pem)
          then (w, none)
          else exchange_csr w
              (record {
                host_id = host_id;
                token = token;
                csr_pem = k.encode_pem (codes "CERTIFICATE REQUEST") der;
              })
              key
    ]
  ]

-- Why main exits before it has a certificate.
pub data AgentExit : Type 0 where
  no_host_id no_ca no_token enrollment_failed : AgentExit
  no_cert_directory certificate_not_cached key_not_cached : AgentExit

abbrev pub ca_path : Text → Text
ca_path dir = dir ++ codes "/ca.pem"

abbrev pub agent_cert_path : Text → Text
agent_cert_path dir = dir ++ codes "/agent-cert.pem"

abbrev pub agent_key_path : Text → Text
agent_key_path dir = dir ++ codes "/agent-key.pem"

-- The certificate is written first, then the key.
unfoldable pub cache_identity : Faults → Files → Text → Identity → Files × (AgentExit ⊎ Identity)
unfolding failed_write
cache_identity faults files dir i =
    if faults.mkdir_fails dir
    then (files, inl no_cert_directory)
    else if faults.write_fails (agent_cert_path dir)
    then (failed_write faults files (agent_cert_path dir) i.cert_pem, inl certificate_not_cached)
    else (let with_cert = insert (agent_cert_path dir) i.cert_pem files in
        if faults.write_fails (agent_key_path dir)
        then (failed_write faults with_cert (agent_key_path dir) i.key_pem, inl key_not_cached)
        else (insert (agent_key_path dir) i.key_pem with_cert, inr i))

module _ {W : Type 0} (enroll : W → Text → Text → Text → W × Option Identity)
    (faults : Faults) where
  -- What main does where a file of the cached identity cannot be read.
  unfoldable pub enroll_and_cache :
      AgentConfig → Text → W → Files → W × (Files × (AgentExit ⊎ Identity))
  unfolding cache_identity
  enroll_and_cache cfg ca w files =
      if is_empty cfg.enrollment_token
      then (w, (files, inl no_token))
      else let (after, reply) = enroll w cfg.host_id cfg.enrollment_token ca in
        elim reply [
          | none ↦ (after, (files, inl enrollment_failed))
          | some i ↦ (after, cache_identity faults files cfg.cert_dir i)
        ]

  -- main, until it has a certificate and its key.
  unfoldable pub agent_identity : AgentConfig → W → Files → W × (Files × (AgentExit ⊎ Identity))
  unfolding enroll_and_cache
  agent_identity cfg w files =
      if is_empty cfg.host_id
      then (w, (files, inl no_host_id))
      else elim (read_file faults files (ca_path cfg.cert_dir)) [
        | none ↦ (w, (files, inl no_ca))
        | some ca ↦ elim (read_file faults files (agent_cert_path cfg.cert_dir)) [
          | none ↦ enroll_and_cache cfg ca w files
          | some cert ↦ elim (read_file faults files (agent_key_path cfg.cert_dir)) [
            | none ↦ enroll_and_cache cfg ca w files
            | some key ↦ (w, (files, inr (record { cert_pem = cert; key_pem = key })))
          ]
        ]
      ]

-- tls.X509KeyPair and AppendCertsFromPEM.
pub record ClientChecks : Type 0 where
  pub is_key_pair : Text → Text → Bool
  pub accepts_pem : Text → Bool

-- What NewClient makes the transport of: the address, the identity and the CA that it trusts.
pub record AgentClient : Type 0 where
  pub addr : Text
  pub identity : Identity
  pub trusted : Text

unfoldable pub new_agent_client : ClientChecks → Text → Identity → Text → Option AgentClient
new_agent_client checks addr i ca_pem =
    if not (checks.is_key_pair i.cert_pem i.key_pem)
    then none
    else if not (checks.accepts_pem ca_pem)
    then none
    else some (record { addr = addr; identity = i; trusted = ca_pem })

-- What the daemon says of itself.
pub record VersionInfo : Type 0 where
  pub version : Text
  pub api_version : Text
  pub os_name : Text
  pub arch : Text

-- The heartbeat that main sends: the fields stay empty where the daemon does not answer.
unfoldable pub heartbeat_of : DockerError ⊎ VersionInfo → HeartbeatRequest
heartbeat_of (inl e) = record { docker_version = []; os_info = [] }
heartbeat_of (inr v) = record { docker_version = v.version; os_info = v.os_name }

-- Why main exits after it has a certificate.
pub data ConnectExit : Type 0 where
  no_client daemon_unreachable : ConnectExit

-- main from NewClient to the collector.
unfoldable pub connect_agent :
    ClientChecks → AgentConfig → Identity → Text → Option DockerError → ConnectExit ⊎ AgentClient
unfolding new_agent_client
connect_agent checks cfg i ca_pem ping =
    elim (new_agent_client checks cfg.control_plane_addr i ca_pem) [
      | none ↦ inl no_client
      | some client ↦ elim ping [ some e ↦ inl daemon_unreachable | none ↦ inr client ]
    ]
