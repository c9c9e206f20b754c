-- ===== src/Control.antt =====
-- The control plane of packages/db/memory-repository.mjs: commands, their approvals and receipts.
pub mod Store
pub mod Leasing
pub mod Receipts
pub mod Effects
pub mod Recording
pub mod Approvals
pub mod Operations
pub mod Lifecycle
pub mod Provisioning
pub mod OwnerConfiguration
pub mod Samples
mod Examples
