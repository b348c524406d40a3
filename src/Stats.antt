-- ===== src/Stats.antt =====
-- internal/agent/docker/stats.go: what becomes of a stats sample of the Docker daemon. Counters are
-- `uint64`; a sum of them wraps, a difference is taken only of a smaller value.
use docker_monitoring.Prelude.{
  ℕ, ◌+◌, ◌-◌, ◌%◌, ◌^◌, ◌≤◌, ◌<◌, ◌≡◌, ◌⊎◌, Bool, false, not, ◌||◌, Option, none, some, List, [],
  ◌∷◌, Text, codes, Map, lookup, ltb, ◌==◌, if◌then◌else◌, arith,
}
use docker_monitoring.Prelude.Int.{ℤ}
use docker_monitoring.Models.{Float64, MonitoringMode, Metric}

-- cpu_stats and precpu_stats; `percpu_count` is the length of percpu_usage.
pub record CpuStats : Type 0 where
  pub total_usage : ℕ
  pub percpu_count : ℕ
  pub system_usage : ℕ
  pub online_cpus : ℕ

-- `networks` is in the order of the loop over the map: bytes received and sent.
pub record StatsRaw : Type 0 where
  pub read_at : Text
  pub networks : List (Text × ℕ × ℕ)
  pub cpu : CpuStats
  pub precpu : CpuStats
  pub mem_usage : ℕ
  pub mem_limit : ℕ
  pub mem_stats : Map ℕ

-- `uint64` addition.
abbrev pub add_uint64 : ℕ → ℕ → ℕ
add_uint64 a b = (a + b) % 2 ^ 64

unfoldable pub rx_total : ℕ → List (Text × ℕ × ℕ) → ℕ
rx_total acc [] = acc
rx_total acc ((name, rx, tx) ∷ rest) = rx_total (add_uint64 acc rx) rest

unfoldable pub tx_total : ℕ → List (Text × ℕ × ℕ) → ℕ
tx_total acc [] = acc
tx_total acc ((name, rx, tx) ∷ rest) = tx_total (add_uint64 acc tx) rest

-- `if v, ok := stats[key]; ok && v < usage`
abbrev pub below : ℕ → Option ℕ → Bool
below usage none = false
below usage (some v) = ltb v usage

abbrev pub or_zero : Option ℕ → ℕ
or_zero none = 0
or_zero (some v) = v

unfoldable pub mem_used_bytes_no_cache : StatsRaw → ℕ
mem_used_bytes_no_cache s =
    let total_inactive = lookup (codes "total_inactive_file") s.mem_stats in
    let inactive = lookup (codes "inactive_file") s.mem_stats in
    let cache = lookup (codes "cache") s.mem_stats in
    if below s.mem_usage total_inactive
    then s.mem_usage - or_zero total_inactive
    else if below s.mem_usage inactive
    then s.mem_usage - or_zero inactive
    else if below s.mem_usage cache
    then s.mem_usage - or_zero cache
    else s.mem_usage

-- OnlineCPUs, or the number of per-CPU counters (as `uint32`), or 1.
unfoldable pub cpu_count : StatsRaw → ℕ
cpu_count s =
    let counters = s.cpu.percpu_count % 2 ^ 32 in
    if not (s.cpu.online_cpus == 0)
    then s.cpu.online_cpus
    else if counters == 0
    then 1
    else counters

module _ {F : Type 0} ⦃fl : Float64 F⦄ where
  unfoldable pub cpu_percent : StatsRaw → F
  unfolding cpu_count
  cpu_percent s =
      let zero_f = fl.of_ℕ 0 in
      let cpu_delta = fl.sub (fl.of_ℕ s.cpu.total_usage) (fl.of_ℕ s.precpu.total_usage) in
      let system_delta = fl.sub (fl.of_ℕ s.cpu.system_usage) (fl.of_ℕ s.precpu.system_usage) in
      if fl.ge zero_f cpu_delta || fl.ge zero_f system_delta
      then zero_f
      else fl.mul (fl.mul (fl.div cpu_delta system_delta) (fl.of_ℕ (cpu_count s))) (fl.of_ℕ 100)

  -- `parsed` is what time.Parse makes of `Read`, `now` the clock.
  unfoldable pub to_metric : StatsRaw → Option ℕ → ℕ → Text → Text → MonitoringMode → ℤ → Metric F
  to_metric s parsed now entity_type entity_id mode interval_seconds = record {
    entity_type = entity_type;
    entity_id = entity_id;
    cpu_percent = cpu_percent s;
    mem_used_bytes = mem_used_bytes_no_cache s;
    mem_limit_bytes = s.mem_limit;
    net_rx_bytes = rx_total 0 s.networks;
    net_tx_bytes = tx_total 0 s.networks;
    collected_at = elim parsed [ none ↦ now | some t ↦ t ];
    mode = mode;
    interval_seconds = interval_seconds;
  }

-- Page cache is taken off memory use without wrapping below zero, whichever key holds it: the
-- reported use is at most the raw use, and is 0 only if that is 0.
pub mem_used-bounds :
    (s : StatsRaw)
    → (mem_used_bytes_no_cache s ≤ s.mem_usage)
      × ((s.mem_usage ≡ 0) ⊎ (0 < mem_used_bytes_no_cache s))
unfolding mem_used_bytes_no_cache
mem_used-bounds s = ground arith
