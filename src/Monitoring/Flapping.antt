-- ===== src/Monitoring/Flapping.antt =====
-- EvaluateMetric does not read a container's health (internal/controlplane/monitoring/engine.go).
use docker_monitoring.Prelude.{ℕ, ◌≡◌, ◌≢◌, some, arith}
use docker_monitoring.Prelude.Int.{ℤ}
use docker_monitoring.Models.{Float64, Metric, ContainerStatus, exited, unhealthy, normal, critical}
use docker_monitoring.Monitoring.{
  EntityState, ThresholdConfig, recovered, container_unhealthy, enter_critical, metric_step,
  health_step, recover, watch, finish_streak,
}

module _ {F : Type 0} ⦃fl : Float64 F⦄ where
  -- A container that has stayed unhealthy flaps: after a sample ends its critical condition as
  -- "recovered", the next health report of the unhealthy container, unless it has exited, makes it
  -- critical again, whatever its restart counts.
  pub recovered_then_unhealthy :
      (cfg : ThresholdConfig F) (now : ℕ) (m : Metric F) (st : EntityState)
      (status : ContainerStatus) (restarts previous : ℤ)
      → status ≢ exited
      → (metric_step cfg now m st).1 ≡ some (normal, recovered)
      → health_step status unhealthy restarts previous (metric_step cfg now m st).0
        ≡ (enter_critical (metric_step cfg now m st).0, some (critical, container_unhealthy))
  unfolding metric_step recover watch finish_streak health_step
  recovered_then_unhealthy cfg now m st status restarts previous running ends = ground arith
