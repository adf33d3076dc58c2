-- ===== src/Tests.antt =====
-- Concrete runs: each theorem that has conditions is applied where they hold.
pub mod Data
pub mod Validation
pub mod Stores
pub mod Service
pub mod Starts
pub mod Webhooks
pub mod Threads
pub mod Pages
pub mod Interleaving
pub mod Races
pub mod Main
pub mod Readback
pub mod Reconciled
pub mod Tenants
pub mod Audit
