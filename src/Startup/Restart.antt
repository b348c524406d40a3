-- ===== src/Startup/Restart.antt =====
-- A control plane that starts again (loadOrGenerateCA of cmd/controlplane/main.go and
-- internal/controlplane/pki/ca.go).
use docker_monitoring.Prelude.{
  none, ℕ, ◌≡◌, refl, ap, subst, ◌∙◌, false, some, [], ◌∷◌, ◌++◌, Text, lookup, insert,
  lookup-insert, codes, text_eq, text_eq_refl, arith, inl, inr, Option-cases, Bool-cases, Sum-cases,
}
use docker_monitoring.Pki.{X509}
use docker_monitoring.Pki.Authority.{Authority, Keys, generate_ca, cert_pem, key_pem, load_ca}
use docker_monitoring.Pki.Export.{KeysLaws, IsSound, generate_ca-IsSound, load_ca-cert_pem}
use docker_monitoring.Startup.{
  Files, Faults, read_file, cert_path, key_path, ca_valid_for, persist_ca, new_ca,
  load_or_generate_ca,
}

-- Every call of the package os succeeds.
abbrev pub no_faults : Faults
no_faults = record {
  read_fails = λ path. false;
  write_fails = λ path. false;
  left_behind = λ path. none;
  mkdir_fails = λ path. false;
}

pub text_eq-append : (dir s t : Text) → text_eq (dir ++ s) (dir ++ t) ≡ text_eq s t
unfolding text_eq
text_eq-append [] s t = refl
text_eq-append (c ∷ dir) s t = ground (arith, text_eq-append dir s t)

paths_apart : (dir : Text) → text_eq (cert_path dir) (key_path dir) ≡ false
unfolding text_eq
paths_apart dir = text_eq-append dir (codes "/ca-cert.pem") (codes "/ca-key.pem")

-- What the two files of a CA's directory hold.
record Holds (k : Keys) (files : Files) (dir : Text) (ca : Authority) : Type 0 where
  pub certificate : Text
  pub key : Text
  pub certificate_there : lookup (cert_path dir) files ≡ some certificate
  pub key_there : lookup (key_path dir) files ≡ some key
  pub loads : load_ca k certificate key ≡ inr ca

module _ (k : Keys) (x : X509) where
  -- What it returns is what it was given.
  persist_ca-same :
      (faults : Faults) (files after : Files) (dir : Text) (made ca : Authority)
      → persist_ca k faults files dir made ≡ (after, inr ca)
      → made ≡ ca
  unfolding persist_ca
  persist_ca-same faults files after dir made ca e = elim (Option-cases (key_pem k made)) [
    | inl bad ↦ absurd (ground (arith, bad, Bool-cases (faults.mkdir_fails dir)))
    | inr (key, exported) ↦ ground (
      arith,
      exported,
      Bool-cases (faults.mkdir_fails dir),
      Bool-cases (faults.write_fails (key_path dir)),
      Bool-cases (faults.write_fails (cert_path dir)),
    )
  ]

  persist_ca-Holds :
      (faults : Faults) (files after : Files) (dir : Text) (ca : Authority)
      → KeysLaws k
      → IsSound k ca
      → persist_ca k faults files dir ca ≡ (after, inr ca)
      → Holds k after dir ca
  unfolding persist_ca
  persist_ca-Holds faults files after dir ca laws sound e = elim (Option-cases (key_pem k ca)) [
    | inl bad ↦ absurd (ground (arith, bad, Bool-cases (faults.mkdir_fails dir)))
    | inr (key, exported) ↦
        let written = insert (cert_path dir) (cert_pem k ca) (insert (key_path dir) key files) in
        let same : written ≡ after = ground (
          arith,
          exported,
          Bool-cases (faults.mkdir_fails dir),
          Bool-cases (faults.write_fails (key_path dir)),
          Bool-cases (faults.write_fails (cert_path dir)),
        ) in
        subst (λ (f : Files). Holds k f dir ca) same
          (record {
            certificate = cert_pem k ca;
            key = key;
            certificate_there =
                lookup-insert (cert_path dir) (cert_path dir) (cert_pem k ca) _
                ∙ ground (arith, text_eq_refl (cert_path dir));
            key_there =
                lookup-insert (cert_path dir) (key_path dir) (cert_pem k ca) _
                ∙ ground (
                  arith,
                  paths_apart dir,
                  text_eq_refl (key_path dir),
                  lookup-insert (key_path dir) (key_path dir) key files,
                );
            loads = load_ca-cert_pem k laws ca key sound exported;
          })
  ]

  load_again :
      (files : Files) (dir : Text) (ca : Authority) (draw now : ℕ)
      → Holds k files dir ca
      → load_or_generate_ca k x no_faults files dir draw now ≡ (files, inr ca)
  unfolding load_or_generate_ca
  load_again files dir ca draw now holds =
      ground (arith, holds.certificate_there, holds.key_there, holds.loads)

  new_ca-Holds :
      (faults : Faults) (files after : Files) (dir : Text) (draw now : ℕ) (ca : Authority)
      → KeysLaws k
      → new_ca k x faults files dir draw now ≡ (after, inr ca)
      → Holds k after dir ca
  unfolding new_ca
  new_ca-Holds faults files after dir draw now ca laws e =
      elim (Sum-cases (generate_ca k x draw now (codes "docker-monitor-root") ca_valid_for)) [
        | inl (bad, failed) ↦ absurd (ground (arith, failed))
        | inr (made, generated) ↦
            let persisted : persist_ca k faults files dir made ≡ (after, inr ca) =
              ground (arith, generated) in
            let same = persist_ca-same faults files after dir made ca persisted in
            persist_ca-Holds faults files after dir ca laws
              (generate_ca-IsSound k x laws draw now ca_valid_for (codes "docker-monitor-root") ca
                (generated ∙ ap inr same))
              (subst (λ (a : Authority). persist_ca k faults files dir a ≡ (after, inr ca)) same
                persisted)
      ]

  loaded-Holds :
      (faults : Faults) (files after : Files) (dir certificate key : Text) (draw now : ℕ)
      (ca : Authority)
      → read_file faults files (cert_path dir) ≡ some certificate
      → read_file faults files (key_path dir) ≡ some key
      → load_or_generate_ca k x faults files dir draw now ≡ (after, inr ca)
      → Holds k after dir ca
  unfolding load_or_generate_ca
  loaded-Holds faults files after dir certificate key draw now ca there known e =
      elim (Sum-cases (load_ca k certificate key)) [
        | inl (bad, failed) ↦ absurd (ground (arith, there, known, failed))
        | inr (made, loaded) ↦
            let same : files ≡ after = ground (arith, there, known, loaded) in
            subst (λ (f : Files). Holds k f dir ca) same
              (record {
                certificate = certificate;
                key = key;
                certificate_there = ground (arith, Bool-cases (faults.read_fails (cert_path dir)));
                key_there = ground (arith, Bool-cases (faults.read_fails (key_path dir)));
                loads = ground (arith, there, known, loaded);
              })
      ]

  load_or_generate_ca-Holds :
      (faults : Faults) (files after : Files) (dir : Text) (draw now : ℕ) (ca : Authority)
      → KeysLaws k
      → load_or_generate_ca k x faults files dir draw now ≡ (after, inr ca)
      → Holds k after dir ca
  unfolding load_or_generate_ca
  load_or_generate_ca-Holds faults files after dir draw now ca laws e =
      elim (Option-cases (read_file faults files (cert_path dir))) [
        | inl missing ↦
            new_ca-Holds faults files after dir draw now ca laws (ground (arith, missing))
        | inr (certificate, there) ↦ elim (Option-cases (read_file faults files (key_path dir))) [
          | inl missing ↦
              new_ca-Holds faults files after dir draw now ca laws (ground (arith, there, missing))
          | inr (key, known) ↦
              loaded-Holds faults files after dir certificate key draw now ca there known e
        ]
      ]

  -- A restart keeps the CA: once the control plane has got its CA, loaded or generated, a later start
  -- with the same directory, whose files can be read, gets the same CA, at any time, and writes
  -- nothing.
  pub restart-same_ca :
      (faults : Faults) (files after : Files) (dir : Text) (draw now later_draw later : ℕ)
      (ca : Authority)
      → KeysLaws k
      → load_or_generate_ca k x faults files dir draw now ≡ (after, inr ca)
      → load_or_generate_ca k x no_faults after dir later_draw later ≡ (after, inr ca)
  restart-same_ca faults files after dir draw now later_draw later ca laws e =
      load_again after dir ca later_draw later
        (load_or_generate_ca-Holds faults files after dir draw now ca laws e)
