-- ===== src/Startup/Exchange.antt =====
-- The agent's enrolment (internal/agent/transport/transport.go) against the control plane's
-- (internal/controlplane/agentapi/server.go).
use docker_monitoring.Prelude.{
  ℕ, ◌≡◌, refl, ◌||◌, Option, none, some, Text, codes, is_empty, arith, ◌⊎◌, inl, inr, Option-cases,
  Bool-cases,
}
use docker_monitoring.Storage.{Store}
use docker_monitoring.World.{Env, World}
use docker_monitoring.Http.{Response}
use docker_monitoring.Pki.{X509}
use docker_monitoring.Registry.{
  RegistryError, token_invalid, host_not_found, generate_failed, store_failed, certificate_failed,
  Reply, ok, err, enroll,
}
use docker_monitoring.AgentApi.{
  AgentReply, EnrollRequest, enroll_failure, enroll_with, handle_enroll,
}
use docker_monitoring.Transport.{enroll_answered}
use docker_monitoring.Startup.Enrolling.{Identity, AgentKeys, exchange_csr, enroll_agent}

-- The agent's request answered by the control plane's handler.
unfoldable pub delivered :
    {F S : Type 0}
    → Env
    → Store F S
    → X509
    → (Text → Option Text)
    → World F S
    → EnrollRequest
    → World F S × Option (Response AgentReply)
delivered env ops x decode_csr_pem w req =
    let (after, reply) = handle_enroll env ops x decode_csr_pem w (some req) in (after, some reply)

pub Reply-cases :
    {A : Type 0} (r : Reply A) → ((e : RegistryError) × (r ≡ err e)) ⊎ ((a : A) × (r ≡ ok a))
Reply-cases (err e) = inl (e, refl)
Reply-cases (ok a) = inr (a, refl)

enroll_failure-answered : (e : RegistryError) → enroll_answered (some (enroll_failure e)) ≡ none
unfolding enroll_answered enroll_failure
enroll_failure-answered token_invalid = refl
enroll_failure-answered host_not_found = refl
enroll_failure-answered generate_failed = refl
enroll_failure-answered (store_failed _) = refl
enroll_failure-answered (certificate_failed _) = refl

module _ {F S : Type 0} (env : Env) (ops : Store F S) (x : X509)
    (decode_csr_pem : Text → Option Text) where
  -- What is answered where the registry refuses.
  pub delivered-refused :
      (w : World F S) (req : EnrollRequest)
      → ((csr_der : Text)
          → (enroll env ops x w req.host_id req.token csr_der).1 ≡ err token_invalid)
      → enroll_answered (delivered env ops x decode_csr_pem w req).1 ≡ none
  unfolding delivered handle_enroll enroll_with enroll_answered enroll_failure
  delivered-refused w req refused =
      elim (Bool-cases (is_empty req.host_id || (is_empty req.token || is_empty req.csr_pem))) [
        | inl bad ↦ ground (arith, bad)
        | inr filled ↦ elim (Option-cases (decode_csr_pem req.csr_pem)) [
          | inl bad ↦ ground (arith, filled, bad)
          | inr (der, decoded) ↦ ground (arith, filled, decoded, refused der)
        ]
      ]

  -- A certificate that came back was issued by the registry.
  pub delivered-accepted :
      (w : World F S) (req : EnrollRequest) (answered : Text)
      → enroll_answered (delivered env ops x decode_csr_pem w req).1 ≡ some answered
      → (csr_der : Text) × (cert : Text) × ((enroll env ops x w req.host_id req.token csr_der).1
          ≡ ok cert)
        × ((delivered env ops x decode_csr_pem w req).0
            ≡ (enroll env ops x w req.host_id req.token csr_der).0)
  unfolding delivered handle_enroll enroll_with enroll_answered
  delivered-accepted w req answered e =
      elim (Bool-cases (is_empty req.host_id || (is_empty req.token || is_empty req.csr_pem))) [
        | inl bad ↦ absurd (ground (arith, bad))
        | inr filled ↦ elim (Option-cases (decode_csr_pem req.csr_pem)) [
          | inl bad ↦ absurd (ground (arith, filled, bad))
          | inr (der, decoded) ↦
              elim (Reply-cases (enroll env ops x w req.host_id req.token der).1) [
                | inl (why, refused) ↦
                    absurd (ground (arith, filled, decoded, refused, enroll_failure-answered why))
                | inr (cert, issued) ↦ (der, cert, issued, ground (arith, filled, decoded, issued))
              ]
        ]
      ]

module _ {F S : Type 0} (env : Env) (ops : Store F S) (x : X509)
    (decode_csr_pem : Text → Option Text) (k : AgentKeys) where
  pub enroll_agent-refused :
      (w : World F S) (draw : ℕ) (host_id token ca : Text)
      → ((csr_der : Text) → (enroll env ops x w host_id token csr_der).1 ≡ err token_invalid)
      → (enroll_agent k (delivered env ops x decode_csr_pem) w draw host_id token ca).1 ≡ none
  unfolding enroll_agent exchange_csr
  enroll_agent-refused w draw host_id token ca refused = elim (Option-cases (k.generate_key draw)) [
    | inl bad ↦ ground (arith, bad)
    | inr (key, made) ↦ elim (Option-cases (k.create_csr host_id key)) [
      | inl bad ↦ ground (arith, made, bad)
      | inr (der, requested) ↦
          let req : EnrollRequest = record {
            host_id = host_id;
            token = token;
            csr_pem = k.encode_pem (codes "CERTIFICATE REQUEST") der;
          } in
          ground (
            arith,
            made,
            requested,
            Bool-cases (k.accepts_ca ca),
            delivered-refused env ops x decode_csr_pem w req refused,
          )
    ]
  ]

  pub enroll_agent-accepted :
      (w : World F S) (draw : ℕ) (host_id token ca : Text) (i : Identity)
      → (enroll_agent k (delivered env ops x decode_csr_pem) w draw host_id token ca).1 ≡ some i
      → (csr_der : Text) × (cert : Text) × ((enroll env ops x w host_id token csr_der).1 ≡ ok cert)
        × ((enroll_agent k (delivered env ops x decode_csr_pem) w draw host_id token ca).0
            ≡ (enroll env ops x w host_id token csr_der).0)
  unfolding enroll_agent exchange_csr
  enroll_agent-accepted w draw host_id token ca i e = elim (Option-cases (k.generate_key draw)) [
    | inl bad ↦ absurd (ground (arith, bad))
    | inr (key, made) ↦ elim (Option-cases (k.create_csr host_id key)) [
      | inl bad ↦ absurd (ground (arith, made, bad))
      | inr (der, requested) ↦
          let req : EnrollRequest = record {
            host_id = host_id;
            token = token;
            csr_pem = k.encode_pem (codes "CERTIFICATE REQUEST") der;
          } in
          elim (Bool-cases (k.accepts_ca ca)) [
            | inr bad ↦ absurd (ground (arith, made, requested, bad))
            | inl trusted ↦
                elim (Option-cases (enroll_answered (delivered env ops x decode_csr_pem w req).1)) [
                  | inl refused ↦ absurd (ground (arith, made, requested, trusted, refused))
                  | inr (answered, accepted) ↦
                      let (csr_der, cert, issued, same) =
                        delivered-accepted env ops x decode_csr_pem w req answered accepted in
                      (
                        csr_der,
                        cert,
                        issued,
                        ground (
                          arith,
                          made,
                          requested,
                          trusted,
                          accepted,
                          same,
                          Option-cases (k.marshal_key key),
                        ),
                      )
                ]
          ]
    ]
  ]
