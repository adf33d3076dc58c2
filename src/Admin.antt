-- ===== src/Admin.antt =====
-- cmd/admin-api: the HTTP service in front of the configuration store.
pub mod Http
pub mod Act
pub mod Recording
pub mod Deps
pub mod Tenants
pub mod Agents
pub mod Swarms
pub mod Connectors
pub mod AdminUsers
pub mod AuditLog
pub mod AuditPage
pub mod Routes
pub mod Silence
pub mod Trail
pub mod Trails
pub mod Reads
pub mod Owners
pub mod Under
pub mod Gate
pub mod Confined
pub mod Isolated
pub mod Phases
pub mod Reconciled
pub mod Unique
pub mod Asking
pub mod Guarded
pub mod Backing
pub mod Logged
pub mod Access
pub mod Ui
pub mod Mux
pub mod Documents
pub mod Recorded
pub mod Rotating
pub mod Keeping
pub mod Every
pub mod Soundness
pub mod Serving
pub mod Concurrent
pub mod Ownerless
pub mod Cost
pub mod Preserved
pub mod Overtaken
pub mod Patched
pub mod Start
pub mod Boot
pub mod Echoes
pub mod Readback
pub mod Steps
pub mod Main
