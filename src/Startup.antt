-- ===== src/Startup.antt =====
-- cmd/controlplane/main.go: what the control plane does before it serves. A directory is a map from
-- paths to contents; which reads and writes of it fail is an argument. Paths are not cleaned.
pub mod Restart
pub mod Enrolling
pub mod Cached
pub mod Exchange
pub mod Lockout
pub mod Settings
pub mod Accounts
pub mod Admin
pub mod Checks
use docker_monitoring.Prelude.{
  ℕ, zero, suc, ◌*◌, ◌≡◌, Bool, true, false, ◌||◌, ◌&&◌, Option, none, some, List, [], ◌∷◌, ◌++◌,
  Text, Map, lookup, insert, codes, text_eq, if◌then◌else◌, ◌⊎◌, inl, inr,
}
use docker_monitoring.Monitoring.{second}
use docker_monitoring.Pki.{X509}
use docker_monitoring.Pki.Authority.{
  Authority, Keys, AuthorityError, generate_ca, cert_pem, key_pem, load_ca,
}

abbrev pub Files : Type 0
Files = Map Text

-- Which calls of the package os report an error, by path. `left_behind` is what a failing WriteFile
-- has done by then: nothing, or truncated the file and written so many bytes.
pub record Faults : Type 0 where
  pub read_fails : Text → Bool
  pub write_fails : Text → Bool
  pub left_behind : Text → Option ℕ
  pub mkdir_fails : Text → Bool

pub data StartupError : Type 0 where
  not_loaded : AuthorityError → StartupError
  not_generated : AuthorityError → StartupError
  no_directory key_not_exported key_not_written certificate_not_written : StartupError

-- os.ReadFile
abbrev pub read_file : Faults → Files → Text → Option Text
read_file faults files path = if faults.read_fails path then none else lookup path files

unfoldable pub first_bytes : ℕ → Text → Text
first_bytes n [] = []
first_bytes zero (c ∷ s) = []
first_bytes (suc n) (c ∷ s) = c ∷ first_bytes n s

-- The files after os.WriteFile has reported an error.
unfoldable pub failed_write : Faults → Files → Text → Text → Files
failed_write faults files path contents = elim (faults.left_behind path) [
  | none ↦ files
  | some n ↦ insert path (first_bytes n contents) files
]

abbrev pub cert_path : Text → Text
cert_path dir = dir ++ codes "/ca-cert.pem"

abbrev pub key_path : Text → Text
key_path dir = dir ++ codes "/ca-key.pem"

-- Ten years.
abbrev pub ca_valid_for : ℕ
ca_valid_for = 10 * 365 * 24 * 3600 * second

module _ (k : Keys) (faults : Faults) where
  -- The end of loadOrGenerateCA: a new CA is written, its key first.
  unfoldable pub persist_ca : Files → Text → Authority → Files × (StartupError ⊎ Authority)
  unfolding failed_write
  persist_ca files dir ca =
      if faults.mkdir_fails dir then (files, inl no_directory) else elim (key_pem k ca) [
        | none ↦ (files, inl key_not_exported)
        | some key ↦
            if faults.write_fails (key_path dir)
            then (failed_write faults files (key_path dir) key, inl key_not_written)
            else (let with_key = insert (key_path dir) key files in
                if faults.write_fails (cert_path dir)
                then (
                  failed_write faults with_key (cert_path dir) (cert_pem k ca),
                  inl certificate_not_written,
                )
                else (insert (cert_path dir) (cert_pem k ca) with_key, inr ca))
      ]

module _ (k : Keys) (x : X509) (faults : Faults) where
  unfoldable pub new_ca : Files → Text → ℕ → ℕ → Files × (StartupError ⊎ Authority)
  unfolding persist_ca
  new_ca files dir draw now =
      elim (generate_ca k x draw now (codes "docker-monitor-root") ca_valid_for) [
        | inl e ↦ (files, inl (not_generated e))
        | inr ca ↦ persist_ca k faults files dir ca
      ]

  unfoldable pub load_or_generate_ca : Files → Text → ℕ → ℕ → Files × (StartupError ⊎ Authority)
  unfolding new_ca
  load_or_generate_ca files dir draw now = elim (read_file faults files (cert_path dir)) [
    | none ↦ new_ca files dir draw now
    | some certificate ↦ elim (read_file faults files (key_path dir)) [
      | none ↦ new_ca files dir draw now
      | some key ↦ elim (load_ca k certificate key) [
        | inl e ↦ (files, inl (not_loaded e))
        | inr ca ↦ (files, inr ca)
      ]
    ]
  ]
