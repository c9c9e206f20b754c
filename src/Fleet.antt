-- ===== src/Fleet.antt =====
-- Agents, their Runtimes and the servers that they run on: packages/db/memory-repository.mjs.
pub mod Samples
pub mod Store
pub mod Alerts
pub mod Heartbeats
pub mod Requests
mod Examples
