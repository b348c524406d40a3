-- ===== src/Pki/Export.antt =====
-- GenerateCA, and LoadCA on what CertPEM and KeyPEM write (internal/controlplane/pki/ca.go).
use docker_monitoring.Prelude.{
  ℕ, ◌≡◌, sym, subst, true, Option, none, some, Text, codes, text_eq_refl, arith, inl, inr,
  Option-cases,
}
use docker_monitoring.Pki.{X509, Template}
use docker_monitoring.Pki.Authority.{
  Certificate, Authority, Keys, ca_template, generate_ca, cert_pem, key_pem, matched, load_ca,
}

-- What Go's routines promise of one another: PEM and the key's DER read back, and a certificate that
-- was created parses to what its template and its key say.
pub record KeysLaws (k : Keys) : Type 0 where
  pub decode_pem-encode_pem : (kind der : Text) → k.decode_pem (k.encode_pem kind der) ≡ some der
  pub parse_key-marshal_key :
      (key der : Text) → k.marshal_key key ≡ some der → k.parse_key der ≡ some key
  pub parse_certificate-raw :
      (der : Text) (c : Certificate) → k.parse_certificate der ≡ some c → c.raw ≡ der
  pub parse_certificate-created :
      (t : Template) (signer : Option Certificate) (public key der : Text) (c : Certificate)
      → k.create_certificate t signer public key ≡ some der
      → k.parse_certificate der ≡ some c
      → (c.public_key ≡ some public) × (c.is_ca ≡ t.is_ca)

-- What GenerateCA makes: the certificate parses from its own DER, is of the key, and is a CA's.
pub record IsSound (k : Keys) (ca : Authority) : Type 0 where
  pub parses : k.parse_certificate ca.cert.raw ≡ some ca.cert
  pub of_key : ca.cert.public_key ≡ some (k.public_of ca.key)
  pub of_ca : ca.cert.is_ca ≡ true

module _ (k : Keys) (x : X509) (laws : KeysLaws k) where
  pub generate_ca-IsSound :
      (draw now valid_for : ℕ) (name : Text) (ca : Authority)
      → generate_ca k x draw now name valid_for ≡ inr ca
      → IsSound k ca
  unfolding generate_ca ca_template
  generate_ca-IsSound draw now valid_for name ca e = elim (Option-cases (k.generate_key draw)) [
    | inl bad ↦ absurd (ground (arith, bad))
    | inr (key, made) ↦ elim (Option-cases (x.random_serial draw)) [
      | inl bad ↦ absurd (ground (arith, made, bad))
      | inr (serial, drawn) ↦
          elim (Option-cases (
            k.create_certificate (ca_template serial name now valid_for) none (k.public_of key)
              key)) [
                | inl bad ↦ absurd (ground (arith, made, drawn, bad))
                | inr (der, created) ↦ elim (Option-cases (k.parse_certificate der)) [
                  | inl bad ↦ absurd (ground (arith, made, drawn, created, bad))
                  | inr (cert, parsed) ↦
                      let (own, marked) =
                        laws.parse_certificate-created _ none (k.public_of key) key der cert created
                          parsed in
                      let same : record { cert = cert; key = key } ≡ ca =
                        ground (arith, made, drawn, created, parsed) in
                      subst (IsSound k) same (record {
                        parses = ground (arith, laws.parse_certificate-raw der cert parsed, parsed);
                        of_key = own;
                        of_ca = marked;
                      })
                ]
              ]
    ]
  ]

module _ (k : Keys) (laws : KeysLaws k) where
  -- A CA reads back from its PEM.
  pub load_ca-cert_pem :
      (ca : Authority) (key : Text)
      → IsSound k ca
      → key_pem k ca ≡ some key
      → load_ca k (cert_pem k ca) key ≡ inr ca
  unfolding load_ca cert_pem key_pem matched
  load_ca-cert_pem ca key sound exported = elim (Option-cases (k.marshal_key ca.key)) [
    | inl bad ↦ absurd (ground (arith, bad))
    | inr (der, marshalled) ↦
        let encoded : k.encode_pem (codes "EC PRIVATE KEY") der ≡ key =
          ground (arith, marshalled) in
        ground (
          arith,
          sound.parses,
          sound.of_key,
          sound.of_ca,
          sym encoded,
          laws.decode_pem-encode_pem (codes "CERTIFICATE") ca.cert.raw,
          laws.decode_pem-encode_pem (codes "EC PRIVATE KEY") der,
          laws.parse_key-marshal_key ca.key der marshalled,
          text_eq_refl (k.public_of ca.key),
        )
  ]
