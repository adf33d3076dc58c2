-- ===== src/Config.antt =====
-- pkg/config: the operator-facing configuration, with its validation, stores, access control, audit
-- log and secret rotation.
pub mod Errors
pub mod Types
pub mod Validate
pub mod Store
pub mod MemStore
pub mod Firestore
pub mod World
pub mod Audit
pub mod Contract
pub mod Tenancy
pub mod Sound
pub mod Secrets
pub mod Rbac
