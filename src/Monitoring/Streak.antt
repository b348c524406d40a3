-- ===== src/Monitoring/Streak.antt =====
-- The recovery streak of one entity, and when a step reports a transition (engine.go).
use docker_monitoring.Prelude.{ℕ, ◌≡◌, ◌≢◌, ◌⊎◌, true, false, none, some, List, [], ◌∷◌, arith}
use docker_monitoring.Prelude.Int.{ℤ}
use docker_monitoring.Models.{Float64, Metric, normal, critical, ContainerStatus, HealthStatus}
use docker_monitoring.Monitoring.{
  EntityState, fresh_state, ThresholdConfig, Outcome, recovered, metric_step, recover, watch,
  finish_streak, count_sample, health_step, viewer_open, viewer_close,
}

-- What holds of an entity's state between two calls of the engine.
pub record IsConsistent (st : EntityState) : Type 0 where
  pub idle : (st.critical_active ≡ true) ⊎ (st.good_streak_count ≡ 0)
  pub reset : (st.good_streak_count ≢ 0) ⊎ (st.good_streak_start ≡ 0)

-- One call of the engine about an entity.
pub data Input (F : Type 0) : Type 0 where
  sample : ℕ → Metric F → Input F
  health_report : ContainerStatus → HealthStatus → ℤ → ℤ → Input F
  open_viewer close_viewer : Input F

-- What the returned transition says of the states before and after it.
abbrev pub Reported : EntityState → Outcome → Type 0
Reported st (after, none) = after.critical_active ≡ st.critical_active
Reported st (after, some (mode, reason)) =
    ((st.critical_active ≡ true)
      × (after.critical_active ≡ false)
      × (mode ≡ normal)
      × (reason ≡ recovered))
    ⊎ ((st.critical_active ≡ false) × (after.critical_active ≡ true) × (mode ≡ critical))

module _ {F : Type 0} ⦃fl : Float64 F⦄ where
  unfoldable pub input_step : ThresholdConfig F → EntityState → Input F → Outcome
  input_step cfg st (sample now m) = metric_step cfg now m st
  input_step cfg st (health_report status health restarts previous) =
      health_step status health restarts previous st
  input_step cfg st open_viewer = (viewer_open st, none)
  input_step cfg st close_viewer = (viewer_close st, none)

  unfoldable pub run_inputs : ThresholdConfig F → EntityState → List (Input F) → EntityState
  run_inputs cfg st [] = st
  run_inputs cfg st (i ∷ rest) = run_inputs cfg (input_step cfg st i).0 rest

  input_step-IsConsistent :
      (cfg : ThresholdConfig F) (st : EntityState) (i : Input F)
      → IsConsistent st
      → IsConsistent (input_step cfg st i).0
  unfolding input_step metric_step recover watch finish_streak count_sample health_step viewer_open
      viewer_close
  input_step-IsConsistent cfg st (sample now m) v = ground arith
  input_step-IsConsistent cfg st (health_report s h r p) v = ground arith
  input_step-IsConsistent cfg st open_viewer v = ground arith
  input_step-IsConsistent cfg st close_viewer v = ground arith

  run_inputs-keeps :
      (cfg : ThresholdConfig F) (st : EntityState) (inputs : List (Input F))
      → IsConsistent st
      → IsConsistent (run_inputs cfg st inputs)
  unfolding run_inputs
  run_inputs-keeps cfg st [] v = v
  run_inputs-keeps cfg st (i ∷ rest) v =
      run_inputs-keeps cfg (input_step cfg st i).0 rest (input_step-IsConsistent cfg st i v)

  -- After any calls about an entity, its streak is empty while it is not critical, and an empty
  -- streak has no start time left over.
  pub run_inputs-IsConsistent :
      (cfg : ThresholdConfig F) (inputs : List (Input F))
      → IsConsistent (run_inputs cfg fresh_state inputs)
  run_inputs-IsConsistent cfg inputs =
      run_inputs-keeps cfg fresh_state inputs (record { idle = ground arith; reset = ground arith })

  -- A call returns a transition exactly when it flips the entity's critical flag: into NORMAL as
  -- "recovered" from critical, into CRITICAL from not critical; so the two kinds alternate.
  pub input_step-Reported :
      (cfg : ThresholdConfig F) (st : EntityState) (i : Input F) → Reported st (input_step cfg st i)
  unfolding input_step metric_step recover watch finish_streak count_sample health_step viewer_open
      viewer_close
  input_step-Reported cfg st (sample now m) = ground arith
  input_step-Reported cfg st (health_report s h r p) = ground arith
  input_step-Reported cfg st open_viewer = ground arith
  input_step-Reported cfg st close_viewer = ground arith
