-- ===== src/Admin/AuditPage.antt =====
-- GET /v1/audit from the request to the store: the mux, the authentication, listAudit and ListAudit.
use sclawion.Config.MemStore.{MemStore}
use sclawion.Config.World.{World}
use sclawion.Admin.Deps.{Deps}
