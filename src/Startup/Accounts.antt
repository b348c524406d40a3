-- ===== src/Startup/Accounts.antt =====
-- The end of the control plane's start: the first account and the agents' listener
-- (cmd/controlplane/main.go).
use docker_monitoring.Prelude.{
  ℕ, ◌*◌, ◌||◌, Bool, [], ◌∷◌, Text, codes, is_empty, if◌then◌else◌, ◌⊎◌,
}
use docker_monitoring.Monitoring.{second}
use docker_monitoring.Storage.{Store}
use docker_monitoring.World.{Env, World}
use docker_monitoring.Auth.{AuthError, granted, denied, Passwords, bootstrap_admin}
use docker_monitoring.Pki.{X509}
use docker_monitoring.Pki.Authority.{Authority, Keys, AuthorityError, server_tls_certificate}
use docker_monitoring.Config.{Config}

-- What main does after BootstrapAdminIfNeeded: it exits, logs the new account, or goes on, with or
-- without a warning that nobody can log in.
pub data FirstAccount : Type 0 where
  not_bootstrapped : AuthError → FirstAccount
  admin_created : FirstAccount
  goes_on : Bool → FirstAccount

module _ {F S : Type 0} (env : Env) (ops : Store F S) (pw : Passwords) where
  unfoldable pub start_accounts : Config → World F S → World F S × FirstAccount
  start_accounts cfg w =
      let (after, reply) =
        bootstrap_admin env ops pw w cfg.bootstrap_admin_email cfg.bootstrap_admin_password in
      elim reply [
        | denied e ↦ (after, not_bootstrapped e)
        | granted created ↦ (
          after,
          (if created
              then admin_created
              else goes_on
                  (is_empty cfg.bootstrap_admin_email || is_empty cfg.bootstrap_admin_password)),
        )
      ]

-- The certificate of the agents' listener, for 825 days.
unfoldable pub listener_certificate :
    Keys → X509 → Authority → ℕ → ℕ → AuthorityError ⊎ (Text × Text)
listener_certificate k x ca draw now =
    server_tls_certificate k x ca draw now (codes "localhost" ∷ codes "127.0.0.1" ∷ [])
      (825 * 24 * 3600 * second)
