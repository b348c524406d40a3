-- ===== src/SqlStore.antt =====
-- The repository methods of internal/controlplane/storage/sqlstore (host.go, container.go, event.go,
-- metric.go, session.go and user.go) over the schema of its migrations/0001_init.sql. A method's SQL
-- statement is the function on the rows that it denotes: a statement that breaks a key, a foreign
-- key or a column's range reports an error and changes nothing. The database answers every
-- statement otherwise. A column of a Go string type with constants holds the value of that type, and
-- the JSON of a map is the map; texts are valid UTF-8. Foreign keys are enforced, as Open asks
-- SQLite and as PostgreSQL does.
mod Columns
pub mod Rows
pub mod Scans
pub mod Hosts
pub mod Containers
pub mod Accounts
pub mod Metrics
pub mod Events
pub mod Instance
pub mod Lookup
pub mod Times
pub mod HostRows
pub mod Agreement
pub mod ForeignKeys
pub mod Readings
pub mod Bindings
pub mod Arguments
pub mod Lists
pub mod EventLog
pub mod References
pub mod Growth
pub mod Deletes
pub mod Integrity
unfoldable pub use Columns.*
