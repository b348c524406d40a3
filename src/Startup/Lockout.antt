-- ===== src/Startup/Lockout.antt =====
-- An agent whose key could not be written (cmd/agent/main.go), and the token that it has used
-- (internal/controlplane/agentregistry/registry.go).
use docker_monitoring.Prelude.{
  ℕ, ◌≡◌, ◌⊎◌, text_eq, text_eq_refl, sym, subst, ◌∙◌, false, Option, none, some, Text, lookup,
  insert, lookup-insert, is_empty, arith, inl, inr, Option-cases, Bool-cases,
}
use docker_monitoring.Storage.{Store}
use docker_monitoring.Storage.Laws.{HostLaws}
use docker_monitoring.World.{Env, World}
use docker_monitoring.Pki.{X509}
use docker_monitoring.Registry.{token_invalid, err, enroll}
use docker_monitoring.Registry.Enrollment.{enroll_once}
use docker_monitoring.Startup.{Files, Faults, read_file, first_bytes, failed_write}
use docker_monitoring.Startup.Restart.{no_faults}
use docker_monitoring.Startup.Enrolling.{
  AgentConfig, AgentExit, Identity, AgentKeys, ClientChecks, new_agent_client, enrollment_failed,
  key_not_cached, ca_path, agent_cert_path, agent_key_path, enroll_agent, cache_identity,
  enroll_and_cache, agent_identity,
}
use docker_monitoring.Startup.Cached.{paths_apart}
use docker_monitoring.Startup.Exchange.{delivered, enroll_agent-refused, enroll_agent-accepted}

module _ {W : Type 0} (enroll_by : W → Text → Text → Text → W × Option Identity) where
  -- A start that could not write the key has written the certificate; what it left of the key is not
  -- known.
  unkeyed :
      (faults : Faults) (cfg : AgentConfig) (ca : Text) (w after : W) (files then_files : Files)
      → enroll_and_cache enroll_by faults cfg ca w files ≡ (after, (then_files, inl key_not_cached))
      → (i : Identity) × ((enroll_by w cfg.host_id cfg.enrollment_token ca).1 ≡ some i)
        × ((enroll_by w cfg.host_id cfg.enrollment_token ca).0 ≡ after)
        × (failed_write faults
              (insert (agent_cert_path cfg.cert_dir) i.cert_pem files)
              (agent_key_path cfg.cert_dir)
              i.key_pem
            ≡ then_files)
  unfolding enroll_and_cache cache_identity
  unkeyed faults cfg ca w after files then_files e =
      elim (Bool-cases (is_empty cfg.enrollment_token)) [
        | inl bad ↦ absurd (ground (arith, bad))
        | inr good ↦ elim (Option-cases (enroll_by w cfg.host_id cfg.enrollment_token ca).1) [
          | inl refused ↦ absurd (ground (arith, good, refused))
          | inr (i, got) ↦ (
            i,
            got,
            ground (arith, good, got),
            ground (
              arith,
              good,
              got,
              Bool-cases (faults.mkdir_fails cfg.cert_dir),
              Bool-cases (faults.write_fails (agent_cert_path cfg.cert_dir)),
              Bool-cases (faults.write_fails (agent_key_path cfg.cert_dir)),
            ),
          )
        ]
      ]

  -- Without a key on the disk, a start enrols.
  enrols_again :
      (cfg : AgentConfig) (ca : Text) (w : W) (files : Files)
      → is_empty cfg.host_id ≡ false
      → is_empty cfg.enrollment_token ≡ false
      → lookup (ca_path cfg.cert_dir) files ≡ some ca
      → lookup (agent_key_path cfg.cert_dir) files ≡ none
      → (enroll_by w cfg.host_id cfg.enrollment_token ca).1 ≡ none
      → (agent_identity enroll_by no_faults cfg w files).1.1 ≡ inl enrollment_failed
  unfolding agent_identity enroll_and_cache
  enrols_again cfg ca w files named filled there absent refused = ground (
    arith,
    named,
    filled,
    there,
    absent,
    refused,
    Option-cases (lookup (agent_cert_path cfg.cert_dir) files),
  )

  -- With a certificate and a key on the disk, a start takes them as they are.
  takes_cached :
      (cfg : AgentConfig) (ca cert key : Text) (w : W) (files : Files)
      → is_empty cfg.host_id ≡ false
      → lookup (ca_path cfg.cert_dir) files ≡ some ca
      → lookup (agent_cert_path cfg.cert_dir) files ≡ some cert
      → lookup (agent_key_path cfg.cert_dir) files ≡ some key
      → (agent_identity enroll_by no_faults cfg w files).1.1
        ≡ inr (record { cert_pem = cert; key_pem = key })
  unfolding agent_identity
  takes_cached cfg ca cert key w files named there has_cert has_key =
      ground (arith, named, there, has_cert, has_key)

  -- Such a start had a name and the CA's certificate.
  unkeyed_start :
      (faults : Faults) (cfg : AgentConfig) (w after : W) (files then_files : Files)
      → lookup (agent_key_path cfg.cert_dir) files ≡ none
      → agent_identity enroll_by faults cfg w files ≡ (after, (then_files, inl key_not_cached))
      → (ca : Text) × (is_empty cfg.host_id ≡ false)
        × (lookup (ca_path cfg.cert_dir) files ≡ some ca)
        × (enroll_and_cache enroll_by faults cfg ca w files
            ≡ (after, (then_files, inl key_not_cached)))
  unfolding agent_identity
  unkeyed_start faults cfg w after files then_files absent e =
      elim (Bool-cases (is_empty cfg.host_id)) [
        | inl bad ↦ absurd (ground (arith, bad))
        | inr named ↦ elim (Option-cases (read_file faults files (ca_path cfg.cert_dir))) [
          | inl missing ↦ absurd (ground (arith, named, missing))
          | inr (ca, got) ↦ (
            ca,
            named,
            ground (arith, got, Bool-cases (faults.read_fails (ca_path cfg.cert_dir))),
            ground (
              arith,
              named,
              got,
              absent,
              Bool-cases (faults.read_fails (agent_key_path cfg.cert_dir)),
              Option-cases (read_file faults files (agent_cert_path cfg.cert_dir)),
            ),
          )
        ]
      ]

-- A write that fails touches no other file.
failed_write-other :
    (faults : Faults) (files : Files) (path contents other : Text)
    → text_eq path other ≡ false
    → lookup other (failed_write faults files path contents) ≡ lookup other files
unfolding failed_write
failed_write-other faults files path contents other apart =
    elim (Option-cases (faults.left_behind path)) [
      | inl nothing ↦ ground (arith, nothing)
      | inr (n, cut) ↦
          ground (arith, cut, apart, lookup-insert path other (first_bytes n contents) files)
    ]

-- What a start comes to that gets nowhere: its enrolment fails, or NewClient refuses the identity
-- that it reads, whatever the address and the CA.
pub data GetsNowhere (checks : ClientChecks) : AgentExit ⊎ Identity → Type 0 where
  not_enrolled : GetsNowhere checks (inl enrollment_failed)
  no_transport :
      (i : Identity)
      → ((addr ca : Text) → new_agent_client checks addr i ca ≡ none)
      → GetsNowhere checks (inr i)

not_a_pair-GetsNowhere :
    (checks : ClientChecks) (i : Identity)
    → checks.is_key_pair i.cert_pem i.key_pem ≡ false
    → GetsNowhere checks (inr i)
unfolding new_agent_client
not_a_pair-GetsNowhere checks i bad = no_transport i (λ addr ca. ground (arith, bad))

module _ {F S : Type 0} (env : Env) (ops : Store F S) (x : X509) (laws : HostLaws ops)
    (decode_csr_pem : Text → Option Text) (k : AgentKeys) where
  -- An agent that could not write its key is locked out, whatever store with the laws of hosts the
  -- control plane has, from a valid state: if a start without a cached key enrolled but failed to
  -- write the key, and what its files then hold of a certificate and a key is no pair (no key at all,
  -- or a truncated one), then every later start on those files, with whatever non-empty token and
  -- however far the control plane's clock and random generator have moved on, gets nowhere, although
  -- all files can be read and written by then: its enrolment fails, or NewClient refuses the identity
  -- that it finds.
  pub lost_key-locks_out :
      (checks : ClientChecks) (faults : Faults) (cfg : AgentConfig) (w after : World F S)
      (files then_files : Files) (draw : ℕ) (reads draws later_draw : ℕ) (token : Text)
      → laws.IsValid w.store
      → lookup (agent_key_path cfg.cert_dir) files ≡ none
      → agent_identity
          (λ u. enroll_agent k (delivered env ops x decode_csr_pem) u draw)
          faults
          cfg
          w
          files
        ≡ (after, (then_files, inl key_not_cached))
      → ((cert key : Text)
          → lookup (agent_cert_path cfg.cert_dir) then_files ≡ some cert
          → lookup (agent_key_path cfg.cert_dir) then_files ≡ some key
          → checks.is_key_pair cert key ≡ false)
      → is_empty token ≡ false
      → GetsNowhere checks
          (agent_identity
            (λ u. enroll_agent k (delivered env ops x decode_csr_pem) u later_draw)
            no_faults
            (record cfg { enrollment_token = token })
            (record after { reads = reads; draws = draws })
            then_files).1.1
  lost_key-locks_out checks faults cfg w after files then_files draw reads draws later_draw token v
        absent e no_pair filled =
      let enroll_by : World F S → Text → Text → Text → World F S × Option Identity =
        λ u. enroll_agent k (delivered env ops x decode_csr_pem) u draw in
      let again : World F S → Text → Text → Text → World F S × Option Identity =
        λ u. enroll_agent k (delivered env ops x decode_csr_pem) u later_draw in
      let (ca, named, there, tried) =
        unkeyed_start enroll_by faults cfg w after files then_files absent e in
      let (i, got, moved, written) =
        unkeyed enroll_by faults cfg ca w after files then_files tried in
      let (csr_der, cert, issued, same) =
        enroll_agent-accepted env ops x decode_csr_pem k w draw cfg.host_id cfg.enrollment_token ca
          i got in
      let (cert_ca, key_ca, key_cert, cert_key) = paths_apart cfg.cert_dir in
      let with_cert = insert (agent_cert_path cfg.cert_dir) i.cert_pem files in
      let moved_on = record after { reads = reads; draws = draws } in
      let has_ca : lookup (ca_path cfg.cert_dir) then_files ≡ some ca =
        subst (λ (f : Files). lookup (ca_path cfg.cert_dir) f ≡ some ca) written
          (failed_write-other faults with_cert (agent_key_path cfg.cert_dir) i.key_pem
              (ca_path cfg.cert_dir) key_ca
            ∙ lookup-insert (agent_cert_path cfg.cert_dir) (ca_path cfg.cert_dir) i.cert_pem files
            ∙ ground (arith, cert_ca, there)) in
      let has_cert : lookup (agent_cert_path cfg.cert_dir) then_files ≡ some i.cert_pem =
        subst (λ (f : Files). lookup (agent_cert_path cfg.cert_dir) f ≡ some i.cert_pem) written
          (failed_write-other faults with_cert (agent_key_path cfg.cert_dir) i.key_pem
              (agent_cert_path cfg.cert_dir) key_cert
            ∙ lookup-insert (agent_cert_path cfg.cert_dir) (agent_cert_path cfg.cert_dir) i.cert_pem
                files
            ∙ ground (arith, text_eq_refl (agent_cert_path cfg.cert_dir))) in
      elim (Option-cases (lookup (agent_key_path cfg.cert_dir) then_files)) [
        | inl no_key ↦
            subst (GetsNowhere checks)
              (sym (
                enrols_again again (record cfg { enrollment_token = token }) ca moved_on then_files
                  named filled has_ca no_key
                  (enroll_agent-refused env ops x decode_csr_pem k moved_on later_draw cfg.host_id
                    token ca
                    (λ csr.
                      subst
                        (λ (u : World F S).
                          (enroll env ops x (record u { reads = reads; draws = draws }) cfg.host_id
                            token csr).1
                          ≡ err token_invalid)
                        (sym same ∙ moved)
                        (enroll_once env ops x laws w cfg.host_id cfg.enrollment_token csr_der cert
                          reads draws token csr v issued)))))
              not_enrolled
        | inr (cut, has_key) ↦
            subst (GetsNowhere checks)
              (sym (
                takes_cached again (record cfg { enrollment_token = token }) ca i.cert_pem cut
                  moved_on then_files named has_ca has_cert has_key))
              (not_a_pair-GetsNowhere checks (record { cert_pem = i.cert_pem; key_pem = cut })
                (no_pair i.cert_pem cut has_cert has_key))
      ]
