-- ===== src/Channel.antt =====
-- Durable channel delivery: packages/db/memory-repository.mjs, the bindings, the inbox, the outbox,
-- receipts, health observations and dead letters.
pub mod Store
pub mod Ingress
pub mod Jobs
pub mod Delivery
pub mod Bindings
pub mod Calls
pub mod Validity
pub mod Leases
pub mod Idempotence
pub mod Examples
pub mod History
