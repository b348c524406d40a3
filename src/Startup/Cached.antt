-- ===== src/Startup/Cached.antt =====
-- An agent that starts again with the files of an earlier start (cmd/agent/main.go).
use docker_monitoring.Prelude.{
  ◌≡◌, subst, false, Option, some, Text, lookup, insert, lookup-insert, codes, text_eq,
  text_eq_refl, is_empty, arith, inl, inr, Option-cases, Bool-cases,
}
use docker_monitoring.Startup.{Files, Faults, read_file}
use docker_monitoring.Startup.Restart.{no_faults, text_eq-append}
use docker_monitoring.Startup.Enrolling.{
  AgentConfig, Identity, ca_path, agent_cert_path, agent_key_path, cache_identity, enroll_and_cache,
  agent_identity,
}

-- What an agent reads that starts with a cached identity.
pub record IsCached (files : Files) (dir : Text) (i : Identity) : Type 0 where
  pub ca : Text
  pub ca_there : lookup (ca_path dir) files ≡ some ca
  pub cert_there : lookup (agent_cert_path dir) files ≡ some i.cert_pem
  pub key_there : lookup (agent_key_path dir) files ≡ some i.key_pem

pub paths_apart :
    (dir : Text)
    → (text_eq (agent_cert_path dir) (ca_path dir) ≡ false)
      × (text_eq (agent_key_path dir) (ca_path dir) ≡ false)
      × (text_eq (agent_key_path dir) (agent_cert_path dir) ≡ false)
      × (text_eq (agent_cert_path dir) (agent_key_path dir) ≡ false)
unfolding text_eq
paths_apart dir = (
  text_eq-append dir (codes "/agent-cert.pem") (codes "/ca.pem"),
  text_eq-append dir (codes "/agent-key.pem") (codes "/ca.pem"),
  text_eq-append dir (codes "/agent-key.pem") (codes "/agent-cert.pem"),
  text_eq-append dir (codes "/agent-cert.pem") (codes "/agent-key.pem"),
)

cache_identity-IsCached :
    (faults : Faults) (files after : Files) (dir ca : Text) (made i : Identity)
    → lookup (ca_path dir) files ≡ some ca
    → cache_identity faults files dir made ≡ (after, inr i)
    → IsCached after dir i
unfolding cache_identity
cache_identity-IsCached faults files after dir ca made i there e =
    let with_cert = insert (agent_cert_path dir) made.cert_pem files in
    let written = insert (agent_key_path dir) made.key_pem with_cert in
    let same : written ≡ after = ground (
      arith,
      Bool-cases (faults.mkdir_fails dir),
      Bool-cases (faults.write_fails (agent_cert_path dir)),
      Bool-cases (faults.write_fails (agent_key_path dir)),
    ) in
    let returned : made ≡ i = ground (
      arith,
      Bool-cases (faults.mkdir_fails dir),
      Bool-cases (faults.write_fails (agent_cert_path dir)),
      Bool-cases (faults.write_fails (agent_key_path dir)),
    ) in
    let (cert_ca, key_ca, key_cert, cert_key) = paths_apart dir in
    subst (λ (f : Files). IsCached f dir i) same
      (record {
        ca = ca;
        ca_there = ground (
          arith,
          cert_ca,
          key_ca,
          there,
          lookup-insert (agent_key_path dir) (ca_path dir) made.key_pem with_cert,
          lookup-insert (agent_cert_path dir) (ca_path dir) made.cert_pem files,
        );
        cert_there = ground (
          arith,
          key_cert,
          returned,
          text_eq_refl (agent_cert_path dir),
          lookup-insert (agent_key_path dir) (agent_cert_path dir) made.key_pem with_cert,
          lookup-insert (agent_cert_path dir) (agent_cert_path dir) made.cert_pem files,
        );
        key_there = ground (
          arith,
          returned,
          text_eq_refl (agent_key_path dir),
          lookup-insert (agent_key_path dir) (agent_key_path dir) made.key_pem with_cert,
        );
      })

module _ {W : Type 0} (enroll_by : W → Text → Text → Text → W × Option Identity) where
  enroll_and_cache-IsCached :
      (faults : Faults) (cfg : AgentConfig) (ca : Text) (w after : W) (files then_files : Files)
      (i : Identity)
      → lookup (ca_path cfg.cert_dir) files ≡ some ca
      → enroll_and_cache enroll_by faults cfg ca w files ≡ (after, (then_files, inr i))
      → IsCached then_files cfg.cert_dir i
  unfolding enroll_and_cache
  enroll_and_cache-IsCached faults cfg ca w after files then_files i there e =
      elim (Bool-cases (is_empty cfg.enrollment_token)) [
        | inl bad ↦ absurd (ground (arith, bad))
        | inr good ↦ elim (Option-cases (enroll_by w cfg.host_id cfg.enrollment_token ca).1) [
          | inl refused ↦ absurd (ground (arith, good, refused))
          | inr (made, got) ↦
              cache_identity-IsCached faults files then_files cfg.cert_dir ca made i there
                (ground (arith, good, got))
        ]
      ]

  -- With a name and the CA's certificate.
  named_identity-IsCached :
      (faults : Faults) (cfg : AgentConfig) (ca : Text) (w after : W) (files then_files : Files)
      (i : Identity)
      → is_empty cfg.host_id ≡ false
      → read_file faults files (ca_path cfg.cert_dir) ≡ some ca
      → agent_identity enroll_by faults cfg w files ≡ (after, (then_files, inr i))
      → IsCached then_files cfg.cert_dir i
  unfolding agent_identity
  named_identity-IsCached faults cfg ca w after files then_files i named got e =
      let there : lookup (ca_path cfg.cert_dir) files ≡ some ca =
        ground (arith, Bool-cases (faults.read_fails (ca_path cfg.cert_dir))) in
      elim (Option-cases (read_file faults files (agent_cert_path cfg.cert_dir))) [
        | inl missing ↦
            enroll_and_cache-IsCached faults cfg ca w after files then_files i there
              (ground (arith, named, got, missing))
        | inr (cert, has_cert) ↦
            elim (Option-cases (read_file faults files (agent_key_path cfg.cert_dir))) [
              | inl missing ↦
                  enroll_and_cache-IsCached faults cfg ca w after files then_files i there
                    (ground (arith, named, got, has_cert, missing))
              | inr (key, has_key) ↦
                  let same : files ≡ then_files = ground (arith, named, got, has_cert, has_key) in
                  let cert_same : cert ≡ i.cert_pem =
                    ground (arith, named, got, has_cert, has_key) in
                  let key_same : key ≡ i.key_pem = ground (arith, named, got, has_cert, has_key) in
                  subst (λ (f : Files). IsCached f cfg.cert_dir i) same
                    (record {
                      ca = ca;
                      ca_there = there;
                      cert_there = ground (
                        arith,
                        cert_same,
                        Bool-cases (faults.read_fails (agent_cert_path cfg.cert_dir)),
                      );
                      key_there = ground (
                        arith,
                        key_same,
                        Bool-cases (faults.read_fails (agent_key_path cfg.cert_dir)),
                      );
                    })
            ]
      ]

  agent_identity-IsCached :
      (faults : Faults) (cfg : AgentConfig) (w after : W) (files then_files : Files) (i : Identity)
      → agent_identity enroll_by faults cfg w files ≡ (after, (then_files, inr i))
      → (is_empty cfg.host_id ≡ false) × IsCached then_files cfg.cert_dir i
  unfolding agent_identity
  agent_identity-IsCached faults cfg w after files then_files i e =
      elim (Bool-cases (is_empty cfg.host_id)) [
        | inl bad ↦ absurd (ground (arith, bad))
        | inr named ↦ elim (Option-cases (read_file faults files (ca_path cfg.cert_dir))) [
          | inl missing ↦ absurd (ground (arith, named, missing))
          | inr (ca, got) ↦
              (named, named_identity-IsCached faults cfg ca w after files then_files i named got e)
        ]
      ]

  start_cached :
      (cfg : AgentConfig) (w : W) (files : Files) (i : Identity)
      → is_empty cfg.host_id ≡ false
      → IsCached files cfg.cert_dir i
      → agent_identity enroll_by no_faults cfg w files ≡ (w, (files, inr i))
  unfolding agent_identity
  start_cached cfg w files i named cached =
      ground (arith, named, cached.ca_there, cached.cert_there, cached.key_there)

  -- An agent enrols once: after a start that got a certificate, enrolled or cached, a later start
  -- with the same settings and files, all of which can be read, gets the same certificate and key,
  -- sends nothing and writes nothing, whatever the control plane's state is by then.
  pub restart-same_identity :
      (faults : Faults) (cfg : AgentConfig) (w after later : W) (files then_files : Files)
      (i : Identity)
      → agent_identity enroll_by faults cfg w files ≡ (after, (then_files, inr i))
      → agent_identity enroll_by no_faults cfg later then_files ≡ (later, (then_files, inr i))
  restart-same_identity faults cfg w after later files then_files i e =
      let (named, cached) = agent_identity-IsCached faults cfg w after files then_files i e in
      start_cached cfg later then_files i named cached
