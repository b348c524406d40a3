-- ===== src/Startup/Checks.antt =====
-- A control plane that goes on to serve (cmd/controlplane/main.go,
-- internal/shared/config/config.go).
use docker_monitoring.Prelude.{
  ℕ, ◌≡◌, false, not, ◌&&◌, Option, none, List, Text, codes, text_eq, is_empty, inl, inr, arith,
  Sum-cases, Bool-cases,
}
use docker_monitoring.Models.{Float64}
use docker_monitoring.Monitoring.{default_thresholds}
use docker_monitoring.Migrations.{Entry, Database}
use docker_monitoring.Sql.{Answers}
use docker_monitoring.Config.{Config, Lookups, get_env_int, settings, check_settings, load}
use docker_monitoring.Pki.{X509}
use docker_monitoring.Pki.Authority.{Keys}
use docker_monitoring.Startup.{Files, Faults, load_or_generate_ca}
use docker_monitoring.Pki.Export.{KeysLaws}
use docker_monitoring.Startup.Restart.{no_faults, restart-same_ca}
use docker_monitoring.Startup.Settings.{
  seconds_of, thresholds_from_config, Backend, has_history, open_backend, Ready, equip, start,
}

-- What Load has checked.
load-checked :
    (env : Lookups) (cfg : Config)
    → load env ≡ inr cfg
    → (is_empty cfg.session_secret ≡ false)
      × ((text_eq cfg.storage_driver (codes "postgres") && is_empty cfg.database_url) ≡ false)
      × (settings env ≡ cfg)
unfolding load check_settings
load-checked env cfg e =
    elim (Bool-cases (
      text_eq (settings env).storage_driver (codes "postgres")
      && is_empty (settings env).database_url)) [
        | inl bad ↦ absurd (ground (arith, bad))
        | inr url ↦ elim (Bool-cases (is_empty (settings env).session_secret)) [
          | inl bad ↦ absurd (ground (arith, url, bad))
          | inr secret ↦
              let same : settings env ≡ cfg = ground (arith, url, secret) in
              (ground (arith, same, secret), ground (arith, same, url), same)
        ]
      ]

module _ {F : Type 0} ⦃fl : Float64 F⦄ where
  -- The defaults of the two programs' parts are the same: if the settings load and none of the four
  -- variables of adaptive monitoring is set, the control plane runs its engine with exactly
  -- DefaultThresholds.
  pub load-default_thresholds :
      (env : Lookups) (cfg : Config)
      → load env ≡ inr cfg
      → env (codes "DM_NORMAL_INTERVAL_SECONDS") ≡ none
      → env (codes "DM_CRITICAL_INTERVAL_SECONDS") ≡ none
      → env (codes "DM_MANUAL_INTERVAL_SECONDS") ≡ none
      → env (codes "DM_HYSTERESIS_SECONDS") ≡ none
      → thresholds_from_config {F = F} cfg ≡ default_thresholds
  unfolding thresholds_from_config default_thresholds settings get_env_int seconds_of
  load-default_thresholds env cfg e normal critical manual hysteresis =
      let (secret, url, same) = load-checked env cfg e in
      ground (arith, same, normal, critical, manual, hysteresis)

module _ (faults : Faults) (k : Keys) (x : X509) where
  equip-ready :
      (cfg : Config) (backend : Backend) (files after : Files) (draw now : ℕ) (r : Ready)
      → equip faults k x cfg backend files draw now ≡ (after, inr r)
      → (r.config ≡ cfg)
        × ((r.historical && not (has_history r.backend)) ≡ false)
        × (load_or_generate_ca k x faults files cfg.ca_dir draw now ≡ (after, inr r.ca))
  unfolding equip
  equip-ready cfg backend files after draw now r e =
      elim (Sum-cases (load_or_generate_ca k x faults files cfg.ca_dir draw now).1) [
        | inl (why, failed) ↦ absurd (ground (arith, failed))
        | inr (ca, got) ↦
            elim (Bool-cases (cfg.historical_metrics_enabled && not (has_history backend))) [
              | inl bad ↦ absurd (ground (arith, got, bad))
              | inr good ↦
                  (ground (arith, got, good), ground (arith, got, good), ground (arith, got, good))
            ]
      ]

module _ {D : Type 0} (exec : D → Text → Option D) (answers : Answers) (entries : List Entry)
    (dir_of : Text → Text) (faults : Faults) (k : Keys) (x : X509) where
  -- A control plane that goes on to serve is well configured: the settings have loaded, with a
  -- session secret, and a database URL if the store is PostgreSQL; historical metrics are on only
  -- with a store that keeps them; and its CA is the one that any later start gets from the same
  -- directory when its files can be read.
  pub start-ready :
      (env : Lookups) (db opened : Database D) (files after : Files) (draw now later_draw later : ℕ)
      (r : Ready)
      → KeysLaws k
      → start exec answers entries dir_of faults k x env db files draw now
        ≡ (opened, (after, inr r))
      → (load env ≡ inr r.config)
        × (is_empty r.config.session_secret ≡ false)
        × ((text_eq r.config.storage_driver (codes "postgres") && is_empty r.config.database_url)
            ≡ false)
        × ((r.historical && not (has_history r.backend)) ≡ false)
        × (load_or_generate_ca k x no_faults after r.config.ca_dir later_draw later
            ≡ (after, inr r.ca))
  unfolding start
  start-ready env db opened files after draw now later_draw later r laws e =
      elim (Sum-cases (load env)) [
        | inl (why, failed) ↦ absurd (ground (arith, failed))
        | inr (cfg, loaded) ↦
            elim (Sum-cases (open_backend exec answers entries dir_of faults cfg db).1) [
              | inl (why, failed) ↦ absurd (ground (arith, loaded, failed))
              | inr (backend, got) ↦
                  let (same, historical, ca) =
                    equip-ready faults k x cfg backend files after draw now r
                      (ground (arith, loaded, got)) in
                  let (secret, url, settled) = load-checked env cfg loaded in
                  (
                    ground (arith, loaded, same),
                    ground (arith, same, secret),
                    ground (arith, same, url),
                    historical,
                    restart-same_ca k x faults files after r.config.ca_dir draw now later_draw later
                        r.ca laws (ground (arith, same, ca)),
                  )
            ]
      ]
