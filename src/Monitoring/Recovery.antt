-- ===== src/Monitoring/Recovery.antt =====
-- When a critical entity recovers (EvaluateMetric of engine.go): the code's counter and start time
-- against the history of its samples.
use docker_monitoring.Prelude.{
  ℕ, suc, ◌+◌, ◌≤◌, ◌≡◌, refl, inl, inr, ◌↔◌, true, false, none, some, List, [], ◌∷◌, arith, length,
  if◌then◌else◌, Bool-cases, All,
}
use docker_monitoring.Prelude.Int.{pos, sub_ℕ, ◌≤ℤ◌, elapsed_le}
use docker_monitoring.Models.{Float64, Metric, normal}
use docker_monitoring.Monitoring.{
  EntityState, ThresholdConfig, recovered, metric_step, recover, watch, finish_streak, count_sample,
  is_clean, mem_percent,
}

-- A sample with the clock's reading at its evaluation. Histories are newest first.
abbrev pub Sample : Type 0 → Type 0
Sample F = ℕ × Metric F

-- An entity that has just become critical.
abbrev pub alarmed : ℕ → EntityState
alarmed viewers = record {
  critical_active = true;
  good_streak_count = 0;
  good_streak_start = 0;
  manual_viewers = viewers;
}

module _ {F : Type 0} ⦃fl : Float64 F⦄ where
  -- The newest samples, back to the last one that was not clean.
  unfoldable pub clean_run : ThresholdConfig F → List (Sample F) → List (Sample F)
  clean_run cfg [] = []
  clean_run cfg ((now, m) ∷ older) =
      let rest = clean_run cfg older in if is_clean cfg m then (now, m) ∷ rest else []

  -- The time of the oldest sample of a history.
  abbrev pub oldest : ℕ → List (Sample F) → ℕ
  oldest d [] = d
  oldest d ((now, m) ∷ older) = oldest now older

  -- The state after a history of samples.
  unfoldable pub observe : ThresholdConfig F → EntityState → List (Sample F) → EntityState
  observe cfg st [] = st
  observe cfg st ((now, m) ∷ older) = (metric_step cfg now m (observe cfg st older)).0

  -- No sample of the history ended the critical condition.
  abbrev pub StaysCritical : ThresholdConfig F → EntityState → List (Sample F) → Type 0
  StaysCritical cfg st [] = st.critical_active ≡ true
  StaysCritical cfg st ((now, m) ∷ older) =
      ((observe cfg st ((now, m) ∷ older)).critical_active ≡ true) × StaysCritical cfg st older

  -- A critical entity whose current run of clean samples is `run`.
  abbrev pub in_run : ℕ → List (Sample F) → EntityState
  in_run viewers run = record {
    critical_active = true;
    good_streak_count = length run;
    good_streak_start = oldest 0 run;
    manual_viewers = viewers;
  }

  metric_step-in_run :
      (cfg : ThresholdConfig F) (viewers now : ℕ) (m : Metric F) (run : List (Sample F))
      → (metric_step cfg now m (in_run viewers run)).0.critical_active ≡ true
      → (metric_step cfg now m (in_run viewers run)).0
        ≡ in_run viewers (if is_clean cfg m then (now, m) ∷ run else [])
  unfolding metric_step recover finish_streak count_sample
  metric_step-in_run cfg viewers now m [] stays = ground arith
  metric_step-in_run cfg viewers now m (s ∷ run) stays = ground arith

  metric_step_of_run :
      (cfg : ThresholdConfig F) (viewers now : ℕ) (m : Metric F) (run : List (Sample F))
      (st : EntityState)
      → st ≡ in_run viewers run
      → (metric_step cfg now m st).0.critical_active ≡ true
      → (metric_step cfg now m st).0
        ≡ in_run viewers (if is_clean cfg m then (now, m) ∷ run else [])
  metric_step_of_run cfg viewers now m run st e stays =
      rw e (metric_step-in_run cfg viewers now m run (rw e at stays))

  -- While an entity stays critical, the counter is the length of the current run of clean samples,
  -- and the start time is that of the run's first sample (0 for an empty run).
  pub observe-clean_run :
      (cfg : ThresholdConfig F) (viewers : ℕ) (history : List (Sample F))
      → StaysCritical cfg (alarmed viewers) history
      → observe cfg (alarmed viewers) history ≡ in_run viewers (clean_run cfg history)
  unfolding observe clean_run
  observe-clean_run cfg viewers [] stays = refl
  observe-clean_run cfg viewers ((now, m) ∷ older) stays =
      metric_step_of_run cfg viewers now m (clean_run cfg older) _
        (observe-clean_run cfg viewers older stays.1) stays.0

  -- The condition for recovery, read off the history.
  abbrev pub Recovers : ThresholdConfig F → ℕ → Metric F → List (Sample F) → Type 0
  Recovers cfg now m run =
      (is_clean cfg m ≡ true)
      × (cfg.min_consecutive_normal_samples ≤ℤ pos (suc (length run)))
      × (cfg.hysteresis_window ≤ℤ sub_ℕ now (oldest now run))

  in_run-Recovers :
      (cfg : ThresholdConfig F) (viewers now : ℕ) (m : Metric F) (run : List (Sample F))
      → ((metric_step cfg now m (in_run viewers run)).1 ≡ some (normal, recovered))
        ↔ Recovers cfg now m run
  unfolding metric_step recover finish_streak count_sample
  in_run-Recovers cfg viewers now m [] = (λ h. ground arith, λ h. ground arith)
  in_run-Recovers cfg viewers now m (s ∷ run) = (λ h. ground arith, λ h. ground arith)

  -- A sample ends the critical condition exactly when it is clean, it makes the run of clean
  -- samples at least `MinConsecutiveNormalSamples` long, and the run has lasted at least
  -- `HysteresisWindow`.
  pub metric_step-Recovers :
      (cfg : ThresholdConfig F) (viewers now : ℕ) (m : Metric F) (history : List (Sample F))
      → StaysCritical cfg (alarmed viewers) history
      → ((metric_step cfg now m (observe cfg (alarmed viewers) history)).1
          ≡ some (normal, recovered))
        ↔ Recovers cfg now m (clean_run cfg history)
  metric_step-Recovers cfg viewers now m history stays =
      rw (observe-clean_run cfg viewers history stays)
        (in_run-Recovers cfg viewers now m (clean_run cfg history))

  -- Every sample of a history was read at `start` or later.
  abbrev pub Since : ℕ → List (Sample F) → Type 0
  Since start history = All (λ s. start ≤ s.0) history

  oldest-Since :
      (cfg : ThresholdConfig F) (start d : ℕ) (history : List (Sample F))
      → start ≤ d
      → Since start history
      → start ≤ oldest d (clean_run cfg history)
  unfolding clean_run
  oldest-Since cfg start d [] h since = h
  oldest-Since cfg start d ((now, m) ∷ older) h since = elim (Bool-cases (is_clean cfg m)) [
    | inl clean ↦ rw clean (oldest-Since cfg start now older since.0 since.1)
    | inr dirty ↦ rw dirty h
  ]

  -- A critical condition lasts: with samples read no earlier than `start`, when the entity became critical, it
  -- recovers only at a time at least the hysteresis window after `start`.
  pub critical_lasts :
      (cfg : ThresholdConfig F) (viewers start window now : ℕ) (m : Metric F)
      (history : List (Sample F))
      → cfg.hysteresis_window ≡ pos window
      → start ≤ now
      → Since start history
      → StaysCritical cfg (alarmed viewers) history
      → (metric_step cfg now m (observe cfg (alarmed viewers) history)).1 ≡ some (normal, recovered)
      → start + window ≤ now
  critical_lasts cfg viewers start window now m history w later since stays ends =
      let r = (metric_step-Recovers cfg viewers now m history stays).0 ends in
      ground (
        arith,
        oldest-Since cfg start now history later since,
        elapsed_le (oldest now (clean_run cfg history)) now window cfg.hysteresis_window w r.2,
      )

  -- The deadband. If what is below a recovery threshold never reaches the critical one, the sample
  -- that ends a critical condition does not start the next one.
  pub recovery_is_stable :
      (cfg : ThresholdConfig F) (now later : ℕ) (m : Metric F) (st : EntityState)
      → ((x : F)
          → fl.lt x cfg.cpu_recovery_percent ≡ true
          → fl.ge x cfg.cpu_critical_percent ≡ false)
      → ((x : F)
          → fl.lt x cfg.mem_recovery_percent ≡ true
          → fl.ge x cfg.mem_critical_percent ≡ false)
      → (metric_step cfg now m st).1 ≡ some (normal, recovered)
      → metric_step cfg later m (metric_step cfg now m st).0 ≡ ((metric_step cfg now m st).0, none)
  unfolding metric_step recover watch finish_streak count_sample is_clean
  recovery_is_stable cfg now later m st cpu mem ends =
      ground (arith, cpu m.cpu_percent, mem (mem_percent m))
