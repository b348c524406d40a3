-- ===== src/Examples/Engine.antt =====
-- The monitoring engine on concrete samples.
use docker_monitoring.Prelude.{
  ℕ, ◌*◌, ◌≡◌, refl, ◌↔◌, ◌≤◌, ◌+◌, some, List, [], ◌∷◌, codes, arith, lookup, text_eq,
}
use docker_monitoring.Prelude.Int.{pos}
use docker_monitoring.Models.{normal, critical, exited, no_health}
use docker_monitoring.Monitoring.{
  fresh_state, entity_host, entity_container, second, recovered, new_engine, get_or_create,
  metric_step, recover, is_clean, mem_percent, finish_streak, count_sample,
}
use docker_monitoring.Monitoring.{enter_critical, container_unhealthy, health_step}
use docker_monitoring.Monitoring.Flapping.{recovered_then_unhealthy}
use docker_monitoring.Models.{running, unhealthy}
use docker_monitoring.Prelude.{◌≢◌}
use docker_monitoring.Monitoring.Streak.{
  Input, sample, open_viewer, close_viewer, Reported, input_step, run_inputs, input_step-Reported,
}
use docker_monitoring.Monitoring.Recovery.{
  Sample, alarmed, observe, clean_run, Recovers, metric_step-Recovers, critical_lasts,
}
use docker_monitoring.Monitoring.Isolation.{
  Call, metric_call, health_call, open_call, run_calls, inputs_about, kind_eq,
  run_calls-independent,
}
use docker_monitoring.Examples.Fixtures.{fixed_point, thresholds, calm, hot}

-- Newest first: a burst at 10 s, then calm samples at 20 s and 40 s.
abbrev samples : List (Sample ℕ)
samples = (40 * second, calm) ∷ (20 * second, calm) ∷ (10 * second, hot) ∷ []

metric_step-Recovers_example :
    ((metric_step thresholds (90 * second) calm (observe thresholds (alarmed 0) samples)).1
      ≡ some (normal, recovered))
    ↔ Recovers thresholds (90 * second) calm (clean_run thresholds samples)
unfolding observe metric_step recover is_clean mem_percent finish_streak count_sample
metric_step-Recovers_example =
    metric_step-Recovers thresholds 0 (90 * second) calm samples (refl, (refl, (refl, refl)))

critical_lasts_example : 5 * second + 60 * second ≤ 90 * second
unfolding observe metric_step recover is_clean mem_percent finish_streak count_sample
critical_lasts_example =
    critical_lasts thresholds 0 (5 * second) (60 * second) (90 * second) calm samples refl
      (omega arith) (omega arith, (omega arith, (omega arith, tt))) (refl, (refl, (refl, refl)))
      refl

-- A burst, a viewer, a crash report and a calm sample, about two entities.
abbrev calls : List (Call ℕ)
calls =
    metric_call (10 * second) entity_host (codes "a") hot
    ∷ open_call entity_container (codes "a")
    ∷ health_call (20 * second) (codes "a") exited no_health (pos 0) (pos 0)
    ∷ metric_call (30 * second) entity_host (codes "a") calm
    ∷ []

run_calls-independent_example :
    get_or_create (run_calls (new_engine thresholds) calls) entity_host (codes "a")
    ≡ run_inputs thresholds fresh_state (sample (10 * second) hot ∷ sample (30 * second) calm ∷ [])
unfolding inputs_about get_or_create new_engine lookup kind_eq text_eq
run_calls-independent_example =
    run_calls-independent (new_engine thresholds) calls entity_host (codes "a")

input_step-Reported_example :
    Reported fresh_state (input_step thresholds fresh_state (sample (10 * second) hot))
input_step-Reported_example = input_step-Reported thresholds fresh_state (sample (10 * second) hot)

-- A viewer comes, the host gets busy, the viewer leaves and another comes.
abbrev visits : List (Input ℕ)
visits = open_viewer ∷ sample (10 * second) hot ∷ close_viewer ∷ open_viewer ∷ []

not_exited : running ≢ exited
not_exited e = ground arith

recovered_then_unhealthy_example :
    let st =
      (metric_step thresholds (90 * second) calm (observe thresholds (alarmed 0) samples)).0 in
    health_step running unhealthy (pos 0) (pos 0) st
    ≡ (enter_critical st, some (critical, container_unhealthy))
unfolding observe metric_step recover is_clean mem_percent finish_streak count_sample
recovered_then_unhealthy_example =
    recovered_then_unhealthy thresholds (90 * second) calm (observe thresholds (alarmed 0) samples)
      running (pos 0) (pos 0) not_exited refl
