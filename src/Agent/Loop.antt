-- ===== src/Agent/Loop.antt =====
-- Run of internal/agent/collector/collector.go: the rounds of its loop, and what other goroutines do
-- between them. Which ready case a select takes is Go's choice, so it is given; a channel without
-- a token is not ready.
use docker_monitoring.Prelude.{
  ℕ, suc, ◌+◌, ◌≤◌, ◌≡◌, ◌⊎◌, refl, Bool, true, false, Option, List, [], ◌∷◌, arith, if◌then◌else◌,
  Option-cases, inl, inr,
}
use docker_monitoring.Prelude.Int.{ℤ}
use docker_monitoring.Models.{Float64, Metric}
use docker_monitoring.Telemetry.{ContainerReport, TelemetryResult}
use docker_monitoring.Agent.{
  Daemon, Collector, set_interval, request_now, batch_of, collect_and_report,
}

-- The case of the select that a round takes, other than the end of the context.
pub data Wake : Type 0 where
  woken_reset woken_now woken_timer : Wake

-- A call of CollectNow or SetInterval, or a round of the loop, with what the daemon and the control
-- plane answer in it.
pub data Moment (F : Type 0) : Type 0 where
  requests : Moment F
  retimes : ℤ → Moment F
  wakes :
      Wake → Daemon F → (List ContainerReport → List (Metric F) → Option TelemetryResult) → Moment F

-- The collector, and how many cycles it has run.
pub record Running : Type 0 where
  pub collector : Collector
  pub cycles : ℕ

module _ {F : Type 0} ⦃fl : Float64 F⦄ where
  unfoldable pub cycle :
      Daemon F
      → (List ContainerReport → List (Metric F) → Option TelemetryResult)
      → Running
      → Running
  cycle daemon send r = record {
    collector = (collect_and_report daemon send r.collector).0;
    cycles = suc r.cycles;
  }

  unfoldable pub moment : Running → Moment F → Running
  unfolding set_interval request_now cycle
  moment r requests = record r { collector = request_now r.collector }
  moment r (retimes d) = record r { collector = set_interval r.collector d }
  moment r (wakes woken_reset daemon send) =
      if r.collector.reset_tick
      then record r { collector = record r.collector { reset_tick = false } }
      else r
  moment r (wakes woken_now daemon send) =
      if r.collector.collect_now
      then cycle daemon send (record r { collector = record r.collector { collect_now = false } })
      else r
  moment r (wakes woken_timer daemon send) = cycle daemon send r

  unfoldable pub run : Running → List (Moment F) → Running
  unfolding moment
  run r [] = r
  run r (m ∷ rest) = run (moment r m) rest

-- The timers that fire, and the groups of calls of CollectNow with no round of the loop between
-- them; `open_group` is whether a call has been counted since the last round.
unfoldable pub causes : {F : Type 0} → Bool → List (Moment F) → ℕ
causes open_group [] = 0
causes false (requests ∷ rest) = suc (causes true rest)
causes true (requests ∷ rest) = causes true rest
causes open_group (retimes d ∷ rest) = causes open_group rest
causes open_group (wakes woken_reset daemon send ∷ rest) = causes false rest
causes open_group (wakes woken_now daemon send ∷ rest) = causes false rest
causes open_group (wakes woken_timer daemon send ∷ rest) = suc (causes false rest)

-- A request that no cycle has served yet.
abbrev pub waiting_request : Running → ℕ
waiting_request r = if r.collector.collect_now then 1 else 0

module _ {F : Type 0} ⦃fl : Float64 F⦄ where
  collect-keeps_request :
      (daemon : Daemon F) (send : List ContainerReport → List (Metric F) → Option TelemetryResult)
      (c : Collector)
      → (collect_and_report daemon send c).0.collect_now ≡ c.collect_now
  unfolding collect_and_report set_interval
  collect-keeps_request daemon send c = elim (Option-cases (batch_of daemon c)) [
    | inl down ↦ ground (arith, down)
    | inr ((reports, metrics), ready) ↦ elim (Option-cases (send reports metrics)) [
      | inl lost ↦ ground (arith, ready, lost)
      | inr (r, answered) ↦ ground (arith, ready, answered)
    ]
  ]

  -- Calls of a group find the request of its first call still waiting.
  run-bounded :
      (r : Running) (open_group : Bool) (moments : List (Moment F))
      → (open_group ≡ false) ⊎ (r.collector.collect_now ≡ true)
      → (run r moments).cycles + waiting_request (run r moments)
        ≤ r.cycles + waiting_request r + causes open_group moments
  unfolding run causes moment request_now set_interval cycle
  run-bounded r open_group [] held = omega arith
  run-bounded r false (requests ∷ rest) held =
      ground (arith, run-bounded (moment {F = F} r requests) true rest (inr refl))
  run-bounded r true (requests ∷ rest) held =
      ground (arith, held, run-bounded (moment {F = F} r requests) true rest (inr refl))
  run-bounded r open_group (retimes d ∷ rest) held =
      ground (arith, run-bounded (moment {F = F} r (retimes d)) open_group rest held)
  run-bounded r open_group (wakes woken_reset daemon send ∷ rest) held =
      ground (arith, run-bounded (moment r (wakes woken_reset daemon send)) false rest (inl refl))
  run-bounded r open_group (wakes woken_now daemon send ∷ rest) held = ground (
    arith,
    run-bounded (moment r (wakes woken_now daemon send)) false rest (inl refl),
    collect-keeps_request daemon send (record r.collector { collect_now = false }),
  )
  run-bounded r open_group (wakes woken_timer daemon send ∷ rest) held = ground (
    arith,
    run-bounded (moment r (wakes woken_timer daemon send)) false rest (inl refl),
    collect-keeps_request daemon send r.collector,
  )

  -- Calls of CollectNow coalesce: over any sequence of rounds and calls, the cycles that have been
  -- run and the request that still waits are at most as many as the timers that fired, the groups of
  -- calls of CollectNow with no round of the loop between them, however many calls a group has, and
  -- the request that waited before. A call of SetInterval causes no cycle.
  pub run-cycles :
      (r : Running) (moments : List (Moment F))
      → (run r moments).cycles + waiting_request (run r moments)
        ≤ r.cycles + waiting_request r + causes false moments
  run-cycles r moments = run-bounded r false moments (inl refl)
