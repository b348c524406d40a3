-- ===== src/Pki.antt =====
-- internal/controlplane/pki/ca.go: IssueAgentCert. The X.509, ECDSA and PEM routines it calls are
-- Go's; they are the fields of `X509`. The CA itself is in Pki.Authority.
pub mod Authority
pub mod Export
use docker_monitoring.Prelude.{
  ℕ, ◌+◌, ◌-◌, ◌*◌, Bool, false, Option, none, some, List, [], ◌∷◌, Text, if◌then◌else◌,
}
use docker_monitoring.Monitoring.{second}

pub data ExtKeyUsage : Type 0 where
  client_auth server_auth : ExtKeyUsage

pub data KeyUsage : Type 0 where
  digital_signature key_encipherment cert_sign crl_sign : KeyUsage

-- The fields that the program sets of an `x509.Certificate` used as a template.
pub record Template : Type 0 where
  pub serial_number : ℕ
  pub common_name : Text
  pub not_before : ℕ
  pub not_after : ℕ
  pub dns_names : List Text
  pub ip_addresses : List Text
  pub key_usage : List KeyUsage
  pub is_ca : Bool
  pub ext_key_usage : Option ExtKeyUsage

pub record Csr : Type 0 where
  pub requested_name : Text
  pub public_key : Text

pub record X509 : Type 0 where
  pub parse_certificate_request : Text → Option Csr
  pub check_signature : Csr → Bool
  pub random_serial : ℕ → Option ℕ
  -- Signs a template with the CA's key, for a public key; DER.
  pub create_certificate : Template → Text → Option Text
  pub encode_pem : Text → Text

pub data CaError : Type 0 where
  bad_csr bad_signature no_serial sign_failed : CaError

pub data Issued : Type 0 where
  issued : Text → Issued
  refused : CaError → Issued

-- `time.Now().Add(-5 * time.Minute)`; a clock in the first five minutes of year 1 does not occur.
abbrev pub backdated : ℕ → ℕ
backdated now = now - 300 * second

-- The template of IssueAgentCert.
unfoldable pub agent_template : ℕ → ℕ → Text → ℕ → Template
agent_template serial now host_id valid_for = record {
  serial_number = serial;
  common_name = host_id;
  not_before = backdated now;
  not_after = now + valid_for;
  dns_names = [];
  ip_addresses = [];
  key_usage = digital_signature ∷ key_encipherment ∷ [];
  is_ca = false;
  ext_key_usage = some client_auth;
}

module _ (x : X509) where
  -- `draw` numbers the random serial.
  unfoldable pub issue_agent_cert : ℕ → ℕ → Text → Text → ℕ → Issued
  issue_agent_cert draw now csr_der host_id valid_for = elim (x.parse_certificate_request csr_der) [
    | none ↦ refused bad_csr
    | some csr ↦
        if x.check_signature csr
        then elim (x.random_serial draw) [
          | none ↦ refused no_serial
          | some serial ↦
              elim (x.create_certificate (agent_template serial now host_id valid_for)
                csr.public_key) [
                  | none ↦ refused sign_failed
                  | some der ↦ issued (x.encode_pem der)
                ]
        ]
        else refused bad_signature
  ]
