-- ===== src/Pki/Authority.antt =====
-- internal/controlplane/pki/ca.go: the CA's own key and certificate, and the certificate of the
-- control plane's listener. Go's crypto, X.509, PEM and net.ParseIP are the fields of `Keys`.
use docker_monitoring.Prelude.{
  ℕ, ◌+◌, Bool, true, false, not, Option, none, some, List, [], ◌∷◌, Text, text_eq, codes,
  if◌then◌else◌, ◌⊎◌, inl, inr,
}
use docker_monitoring.Pki.{
  X509, Template, digital_signature, key_encipherment, cert_sign, crl_sign, server_auth, backdated,
}

-- The fields of a parsed certificate that the program reads: its DER, its subject's public key,
-- where that is an ECDSA key, and whether it is a CA's.
pub record Certificate : Type 0 where
  pub raw : Text
  pub public_key : Option Text
  pub is_ca : Bool

pub record Authority : Type 0 where
  pub cert : Certificate
  pub key : Text

-- `generate_key n` is the n-th ecdsa.GenerateKey, if it succeeds. A template is signed by a
-- certificate (none: by itself) with its key, for a public key.
pub record Keys : Type 0 where
  pub generate_key : ℕ → Option Text
  pub public_of : Text → Text
  pub create_certificate : Template → Option Certificate → Text → Text → Option Text
  pub parse_certificate : Text → Option Certificate
  pub marshal_key : Text → Option Text
  pub parse_key : Text → Option Text
  pub encode_pem : Text → Text → Text
  pub decode_pem : Text → Option Text
  pub parse_ip : Text → Option Text

pub data AuthorityError : Type 0 where
  no_key no_serial not_created not_parsed : AuthorityError
  bad_certificate_pem bad_certificate bad_key_pem bad_key key_mismatch not_a_ca : AuthorityError
  not_marshalled not_signed : AuthorityError

unfoldable pub ca_template : ℕ → Text → ℕ → ℕ → Template
ca_template serial common_name now valid_for = record {
  serial_number = serial;
  common_name = common_name;
  not_before = backdated now;
  not_after = now + valid_for;
  dns_names = [];
  ip_addresses = [];
  key_usage = cert_sign ∷ crl_sign ∷ digital_signature ∷ [];
  is_ca = true;
  ext_key_usage = none;
}

-- `switch` on net.ParseIP of each host: the names, and the addresses.
unfoldable pub dns_names_of : (Text → Option Text) → List Text → List Text
dns_names_of parse_ip [] = []
dns_names_of parse_ip (h ∷ hosts) =
    let rest = dns_names_of parse_ip hosts in elim (parse_ip h) [ none ↦ h ∷ rest | some ip ↦ rest ]

unfoldable pub ip_addresses_of : (Text → Option Text) → List Text → List Text
ip_addresses_of parse_ip [] = []
ip_addresses_of parse_ip (h ∷ hosts) =
    let rest = ip_addresses_of parse_ip hosts in
    elim (parse_ip h) [ none ↦ rest | some ip ↦ ip ∷ rest ]

unfoldable pub server_template : ℕ → List Text → List Text → ℕ → ℕ → Template
server_template serial names addresses now valid_for = record {
  serial_number = serial;
  common_name = codes "docker-monitor-control-plane";
  not_before = backdated now;
  not_after = now + valid_for;
  dns_names = names;
  ip_addresses = addresses;
  key_usage = digital_signature ∷ key_encipherment ∷ [];
  is_ca = false;
  ext_key_usage = some server_auth;
}

-- certPub.Equal(&key.PublicKey), for a certificate whose key may be of another kind.
abbrev pub has_key : Certificate → Text → Bool
has_key cert public_key = elim cert.public_key [ none ↦ false | some k ↦ text_eq k public_key ]

module _ (k : Keys) (x : X509) where
  -- GenerateCA, at the `draw`-th reading of the random generator.
  unfoldable pub generate_ca : ℕ → ℕ → Text → ℕ → AuthorityError ⊎ Authority
  unfolding ca_template
  generate_ca draw now common_name valid_for = elim (k.generate_key draw) [
    | none ↦ inl no_key
    | some key ↦ elim (x.random_serial draw) [
      | none ↦ inl no_serial
      | some serial ↦
          elim (k.create_certificate (ca_template serial common_name now valid_for) none
            (k.public_of key) key) [
              | none ↦ inl not_created
              | some der ↦ elim (k.parse_certificate der) [
                | none ↦ inl not_parsed
                | some cert ↦ inr (record { cert = cert; key = key })
              ]
            ]
    ]
  ]

  -- ServerTLSCertificate: the certificate's PEM and the key's.
  unfoldable pub server_tls_certificate :
      Authority → ℕ → ℕ → List Text → ℕ → AuthorityError ⊎ (Text × Text)
  unfolding server_template dns_names_of ip_addresses_of
  server_tls_certificate ca draw now hosts valid_for = elim (k.generate_key draw) [
    | none ↦ inl no_key
    | some key ↦ elim (x.random_serial draw) [
      | none ↦ inl no_serial
      | some serial ↦
          elim (k.create_certificate
            (server_template serial (dns_names_of k.parse_ip hosts)
              (ip_addresses_of k.parse_ip hosts) now valid_for)
            (some ca.cert) (k.public_of key) ca.key) [
              | none ↦ inl not_signed
              | some der ↦ elim (k.marshal_key key) [
                | none ↦ inl not_marshalled
                | some key_der ↦ inr (
                  k.encode_pem (codes "CERTIFICATE") der,
                  k.encode_pem (codes "EC PRIVATE KEY") key_der,
                )
              ]
            ]
    ]
  ]

module _ (k : Keys) where
  unfoldable pub cert_pem : Authority → Text
  cert_pem ca = k.encode_pem (codes "CERTIFICATE") ca.cert.raw

  unfoldable pub key_pem : Authority → Option Text
  key_pem ca = elim (k.marshal_key ca.key) [
    | none ↦ none
    | some der ↦ some (k.encode_pem (codes "EC PRIVATE KEY") der)
  ]

  -- The checks of LoadCA once both blocks have been parsed.
  unfoldable pub matched : Certificate → Text → AuthorityError ⊎ Authority
  matched cert key =
      if not (has_key cert (k.public_of key))
      then inl key_mismatch
      else if not cert.is_ca
      then inl not_a_ca
      else inr (record { cert = cert; key = key })

  unfoldable pub load_ca : Text → Text → AuthorityError ⊎ Authority
  unfolding matched
  load_ca certificate key = elim (k.decode_pem certificate) [
    | none ↦ inl bad_certificate_pem
    | some cert_der ↦ elim (k.parse_certificate cert_der) [
      | none ↦ inl bad_certificate
      | some cert ↦ elim (k.decode_pem key) [
        | none ↦ inl bad_key_pem
        | some key_der ↦ elim (k.parse_key key_der) [
          | none ↦ inl bad_key
          | some private ↦ matched cert private
        ]
      ]
    ]
  ]
