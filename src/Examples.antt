-- ===== src/Examples.antt =====
-- Runs on concrete inputs: each theorem of the results list that has hypotheses, at an input that
-- meets them.
pub mod Fixtures
mod Engine
mod Records
mod Agents
mod Batches
mod Sockets
mod Accounts
mod Visits
mod Pages
mod Tables
mod Proc
mod Hashes
mod Rows
mod Restarts
mod Starts
