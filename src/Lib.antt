-- ===== src/Lib.antt =====
-- docker_monitoring: a control plane that watches Docker hosts through agents, and those agents.
--
-- An agent enrols once with a token and gets a client certificate; then it sends heartbeats and
-- batches of telemetry. The control plane stores them, runs each host and container through an
-- adaptive monitoring engine, records transitions as events, pushes events and metrics to browsers
-- over WebSockets, and answers each batch with the interval at which the agent is to poll next.
-- Users log in to a REST API.
--
-- Where the code is modelled:
--   Models            internal/shared/models/models.go
--   Monitoring        internal/controlplane/monitoring/engine.go: one function per method of Engine;
--                     the body of EvaluateMetric is metric_step, on one entity's state
--   Storage           internal/controlplane/storage/store.go, the interface as a record of operations
--   Storage.Memory    internal/controlplane/storage/memory/memory.go, one function per method
--   World, Recorder   internal/controlplane/events/events.go, and what the handlers share
--   Pki               internal/controlplane/pki/ca.go: IssueAgentCert; Pki.Authority is the rest
--   Registry          internal/controlplane/agentregistry/registry.go: IssueEnrollmentToken, Enroll
--                     (enroll, composed of enroll_check and enroll_commit) and Heartbeat
--   Telemetry         IngestTelemetry of the same file, one function per loop
--   Hub               internal/controlplane/ws/hub.go
--   Auth              internal/controlplane/auth/service.go; Auth.Phc is password.go
--   Access            the routes and guards of internal/controlplane/api/router.go
--   Live              internal/controlplane/api/live.go
--   Api               the other handlers of internal/controlplane/api; Api.Dispatch.serve is the
--                     server's Handler
--   Http, AgentApi    internal/controlplane/agentapi/server.go
--   History           internal/controlplane/storage/sqlstore/historical_metric.go, on the rows that
--                     its SQL statements denote
--   SqlStore          the repository methods of internal/controlplane/storage/sqlstore (host.go,
--                     container.go, event.go, metric.go, session.go, user.go), on the rows that
--                     their SQL statements denote; SqlStore.Instance is the interface
--   Migrations, Sql   migrate.go and store.go of internal/controlplane/storage/sqlstore
--   Strings           Go's strings and strconv, as far as the files above and below use them
--   HostStats         internal/agent/hoststats/hoststats.go
--   Stats             internal/agent/docker/stats.go
--   Docker            internal/agent/docker/client.go and containers.go
--   Agent             internal/agent/collector/collector.go; Agent.Loop is its method Run
--   Transport         internal/agent/transport/transport.go, on the replies of AgentApi
--   Config            internal/shared/config/config.go
--   Startup           cmd/controlplane/main.go until it serves; Startup.Enrolling is
--                     cmd/agent/main.go until it has its collector
--   Examples          concrete inputs for the theorems
--
-- State is passed explicitly. Handlers of the control plane go from a World to a World: the store,
-- the engine, what was handed to the hub, and how far the clock and the random generator have been
-- read. A handler over the store takes any implementation of the interface; a theorem that needs
-- one names the laws it relies on, or the in-memory store. Errors are values. A call is one step,
-- except where a theorem interleaves its parts: the two halves of Enroll in Registry.Race, and in
-- Hub the goroutines that share a client, where a Broadcast's send and its close are two steps.
--
-- Bounds: times are natural numbers of nanoseconds, durations and Go's int are integers over them;
-- nothing here reaches 2 ^ 63 but the retention's product of days and the hysteresis in seconds,
-- which wrap, as sums of uint64 byte counters do, and the byte counts that the SQL store keeps as
-- int64. float64 is a parameter with its operations and no laws; a theorem that needs one of the
-- thresholds' order has it as a hypothesis. Text is a list of bytes. Every loop is structural,
-- but for the digits of a number, which has as many rounds as a uint64 has digits, 20.
--
-- Not modelled: the parsing of SQL (a statement is the function on rows that it denotes, under the
-- keys, foreign keys and column types of 0001_init.sql), the exchange of the HTTP clients, and the
-- listeners, tickers, signals and shutdown of the two programs; they are calls of libraries. Hashes,
-- random numbers, ECDSA, X.509, PEM, JSON, Argon2id and UUIDs are parameters, and so are the effect
-- of a migration's statements on the database, the errors of its driver and of the file system,
-- what a failed write of a file leaves, the environment variables, the text of a time, and what a
-- column of type REAL keeps of a float64 (SqlStore.RealColumn, for latest_metrics; the averages of
-- the historical buckets stay as they are computed).
pub mod Prelude
pub mod Models
pub mod Monitoring
pub mod Storage
pub mod World
pub mod Recorder
pub mod Pki
pub mod Registry
pub mod Telemetry
pub mod Hub
pub mod History
pub mod Migrations
pub mod Sql
pub mod SqlStore
pub mod Startup
pub mod Docker
pub mod Config
pub mod Auth
pub mod Access
pub mod Live
pub mod Stats
pub mod Agent
pub mod Strings
pub mod HostStats
pub mod Http
pub mod AgentApi
pub mod Transport
pub mod Api
mod Examples
