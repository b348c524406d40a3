-- ===== src/Monitoring/Modes.antt =====
-- Monitoring modes: the fastest of several, its polling interval, and what viewers change (engine.go).
use docker_monitoring.Prelude.{
  ℕ, ◌+◌, ◌-◌, ◌≤◌, ◌≡◌, refl, ◌⊎◌, inl, List, [], ◌∷◌, arith, All, ltb, if◌then◌else◌,
}
use docker_monitoring.Prelude.Int.{◌≤ℤ◌}
use docker_monitoring.Models.{Float64, MonitoringMode}
use docker_monitoring.Monitoring.{
  EntityState, ThresholdConfig, Engine, metric_step, recover, watch, finish_streak, count_sample,
  health_step, viewer_open, viewer_close, mode_rank, fastest_from, fastest_mode, interval_seconds,
}
use docker_monitoring.Monitoring.Streak.{
  Input, sample, health_report, open_viewer, close_viewer, input_step, run_inputs,
}

-- `m` is one of the modes of a list.
abbrev pub OneOf : MonitoringMode → List MonitoringMode → Type 0
OneOf m [] = ⊥
OneOf m (x ∷ xs) = (m ≡ x) ⊎ OneOf m xs

abbrev pub NotSlower : MonitoringMode → MonitoringMode → Type 0
NotSlower best m = mode_rank m ≤ mode_rank best

fastest_from-ge :
    (best : MonitoringMode) (ms : List MonitoringMode)
    → (mode_rank best ≤ mode_rank (fastest_from best ms))
      × All (NotSlower (fastest_from best ms)) ms
unfolding fastest_from
fastest_from-ge best [] = ground arith
fastest_from-ge best (m ∷ ms) =
    ground (arith, fastest_from-ge (if ltb (mode_rank best) (mode_rank m) then m else best) ms)

fastest_from-OneOf :
    (best : MonitoringMode) (ms : List MonitoringMode)
    → (fastest_from best ms ≡ best) ⊎ OneOf (fastest_from best ms) ms
unfolding fastest_from
fastest_from-OneOf best [] = inl refl
fastest_from-OneOf best (m ∷ ms) =
    ground (arith, fastest_from-OneOf (if ltb (mode_rank best) (mode_rank m) then m else best) ms)

-- FastestMode of a list with at least one mode is one of them, and no mode of the list polls faster.
pub fastest_mode-fastest :
    (m : MonitoringMode) (ms : List MonitoringMode)
    → OneOf (fastest_mode (m ∷ ms)) (m ∷ ms) × All (NotSlower (fastest_mode (m ∷ ms))) (m ∷ ms)
unfolding fastest_mode
fastest_mode-fastest m ms =
    (fastest_from-OneOf m ms, ((fastest_from-ge m ms).0, (fastest_from-ge m ms).1))

module _ {F : Type 0} where
  -- The configured intervals fall from NORMAL over CRITICAL to MANUAL_REALTIME.
  pub record IntervalsFall (cfg : ThresholdConfig F) : Type 0 where
    pub critical_le : cfg.critical_interval_seconds ≤ℤ cfg.normal_interval_seconds
    pub manual_le : cfg.manual_interval_seconds ≤ℤ cfg.critical_interval_seconds

  interval-antitone :
      (e : Engine F) (a b : MonitoringMode)
      → IntervalsFall e.cfg
      → mode_rank b ≤ mode_rank a
      → interval_seconds e a ≤ℤ interval_seconds e b
  unfolding interval_seconds
  interval-antitone e a b falls h = ground arith

  All-antitone :
      (e : Engine F) (a : MonitoringMode) (ms : List MonitoringMode)
      → IntervalsFall e.cfg
      → All (NotSlower a) ms
      → All (λ m. interval_seconds e a ≤ℤ interval_seconds e m) ms
  All-antitone e a [] falls h = tt
  All-antitone e a (m ∷ ms) falls h =
      (interval-antitone e a m falls h.0, All-antitone e a ms falls h.1)

  -- Where the configured intervals fall with the mode, polling at the interval of the fastest mode
  -- is at least as frequent as each mode of the list asks for.
  pub interval-fastest_mode :
      (e : Engine F) (m : MonitoringMode) (ms : List MonitoringMode)
      → IntervalsFall e.cfg
      → All (λ k. interval_seconds e (fastest_mode (m ∷ ms)) ≤ℤ interval_seconds e k) (m ∷ ms)
  interval-fastest_mode e m ms falls =
      All-antitone e (fastest_mode (m ∷ ms)) (m ∷ ms) falls (fastest_mode-fastest m ms).1

  -- The calls that are not about viewers.
  unfoldable pub without_viewers : List (Input F) → List (Input F)
  without_viewers [] = []
  without_viewers (open_viewer ∷ rest) = without_viewers rest
  without_viewers (close_viewer ∷ rest) = without_viewers rest
  without_viewers (i ∷ rest) = i ∷ without_viewers rest

  -- Viewers open after the calls, when `n` were open before.
  unfoldable pub viewer_count : ℕ → List (Input F) → ℕ
  viewer_count n [] = n
  viewer_count n (open_viewer ∷ rest) = viewer_count (n + 1) rest
  viewer_count n (close_viewer ∷ rest) = viewer_count (n - 1) rest
  viewer_count n (i ∷ rest) = viewer_count n rest

abbrev pub watched_by : ℕ → EntityState → EntityState
watched_by n st = record st { manual_viewers = n }

viewer_open-watched_by :
    (n : ℕ) (st : EntityState) → viewer_open (watched_by n st) ≡ watched_by (n + 1) st
unfolding viewer_open
viewer_open-watched_by n st = refl

viewer_close-watched_by :
    (n : ℕ) (st : EntityState) → viewer_close (watched_by n st) ≡ watched_by (n - 1) st
unfolding viewer_close
viewer_close-watched_by n st = ground arith

module _ {F : Type 0} ⦃fl : Float64 F⦄ where
  input_step-watched_by :
      (cfg : ThresholdConfig F) (n : ℕ) (st : EntityState) (i : Input F)
      → (without_viewers (i ∷ []) ≡ i ∷ [])
      → (input_step cfg (watched_by n st) i).0 ≡ watched_by n (input_step cfg st i).0
  unfolding input_step metric_step recover watch finish_streak count_sample health_step
      without_viewers
  input_step-watched_by cfg n st (sample now m) h = ground arith
  input_step-watched_by cfg n st (health_report s g r p) h = ground arith
  input_step-watched_by cfg n st open_viewer h = ground arith
  input_step-watched_by cfg n st close_viewer h = ground arith

  -- Viewers leave the critical state and the recovery streak alone: the calls do to those what
  -- they do with every viewer call left out, and the viewer count is the balance of opens and
  -- closes, with closes at 0 ignored.
  pub run_inputs-viewers :
      (cfg : ThresholdConfig F) (n : ℕ) (st : EntityState) (inputs : List (Input F))
      → run_inputs cfg (watched_by n st) inputs
        ≡ watched_by (viewer_count n inputs) (run_inputs cfg st (without_viewers inputs))
  unfolding run_inputs without_viewers viewer_count input_step
  run_inputs-viewers cfg n st [] = refl
  run_inputs-viewers cfg n st (sample now m ∷ rest) =
      rw (input_step-watched_by cfg n st (sample now m) refl)
        (run_inputs-viewers cfg n (input_step cfg st (sample now m)).0 rest)
  run_inputs-viewers cfg n st (health_report s g r p ∷ rest) =
      rw (input_step-watched_by cfg n st (health_report s g r p) refl)
        (run_inputs-viewers cfg n (input_step cfg st (health_report s g r p)).0 rest)
  run_inputs-viewers cfg n st (open_viewer ∷ rest) =
      rw (input_step, viewer_open-watched_by n st) (run_inputs-viewers cfg (n + 1) st rest)
  run_inputs-viewers cfg n st (close_viewer ∷ rest) =
      rw (input_step, viewer_close-watched_by n st) (run_inputs-viewers cfg (n - 1) st rest)
