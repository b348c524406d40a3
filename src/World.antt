-- ===== src/World.antt =====
-- What the control plane's handlers share: the store, the monitoring engine, what has been handed to
-- the WebSocket hub and to the historical store, and how far the two sources of nondeterminism,
-- the clock and the random generator, have been read. Fields of agentregistry.Registry
-- (internal/controlplane/agentregistry/registry.go) and events.Recorder
-- (internal/controlplane/events/events.go).
use docker_monitoring.Prelude.{ℕ, suc, Bool, Option, List, Text}
use docker_monitoring.Models.{Metric, Event}
use docker_monitoring.Monitoring.{Engine}

-- Code outside the repository: the clock, random numbers, hashes and UUIDs. `clock n` is the n-th
-- reading of `time.Now`, `new_id n` the n-th `uuid.NewString`, `random_token n` the base64 of the
-- n-th `rand.Read`, if that succeeds; `hash_token` is the hex SHA-256 of a text, `fingerprint` that
-- of a certificate; `name_uuid` is `uuid.NewSHA1` in the OID name space.
pub record Env : Type 0 where
  pub clock : ℕ → ℕ
  pub new_id : ℕ → Text
  pub random_token : ℕ → Option Text
  pub hash_token : Text → Text
  pub fingerprint : Text → Text
  pub name_uuid : Text → Text

-- What is broadcast: a recorded event, or a metric.
pub data Payload (F : Type 0) : Type 0 where
  event_payload : Event → Payload F
  metric_payload : Metric F → Payload F

pub record World (F S : Type 0) : Type 0 where
  pub store : S
  pub monitor : Option (Engine F)
  pub event_push : Bool  -- Recorder.broadcaster is set
  pub metric_push : Bool  -- Registry.metricBroadcaster is set
  pub historical : Bool  -- Registry.historicalStore is set
  pub sent : List (Text × Payload F)  -- Broadcast calls, oldest first
  pub samples : List (Metric F)  -- RecordHistoricalSample calls, oldest first
  pub reads : ℕ  -- of the clock
  pub draws : ℕ  -- of random identifiers and tokens

module _ {F S : Type 0} where
  abbrev pub ticked : World F S → World F S
  ticked w = record w { reads = suc w.reads }

  abbrev pub drawn : World F S → World F S
  drawn w = record w { draws = suc w.draws }
