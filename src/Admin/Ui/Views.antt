-- ===== src/Admin/Ui/Views.antt =====
-- cmd/admin-api/handlers/ui.go: one function per page. Each reads the store and executes a template.
use sclawion.Prelude.{String, List}
use sclawion.Prelude.Int.{pos}
use sclawion.Text.{◌⧺◌}
use sclawion.Config.Store.{AuditFilter}
use sclawion.Admin.Act.{Handler, ◌>>=◌, peek, reply}
use sclawion.Admin.Deps.{Deps}
use sclawion.Admin.Ui.{Templates, base_page, render, or_empty, or_nil}

-- The filter of the page of the audit log.
abbrev pub recent : AuditFilter
recent = record { tenant_id = ""; actor = ""; resource_type = ""; limit = pos 200 }

module _ {S V : Type 0} (templates : Templates) (d : Deps S V) where
  unfoldable pub render_ui_tenants : Handler S V
  unfolding base_page render
  render_ui_tenants r = do
    read_tenants ← peek d.store.list_tenants
    let p = record (base_page d.env r "Tenants" "tenants") { tenants = or_empty read_tenants }
    reply (render templates "tenants.html" p)

  unfoldable pub render_ui_tenant : String → Handler S V
  unfolding base_page render
  render_ui_tenant tid r = do
    read_tenant ← peek (d.store.get_tenant tid)
    read_connectors ← peek (d.store.list_connectors tid)
    read_agents ← peek (d.store.list_agents tid)
    read_swarms ← peek (d.store.list_swarms tid)
    let p = record (base_page d.env r ("Tenant: " ⧺ tid) "tenants") {
      tenant_id = tid;
      tenant = or_nil read_tenant;
      connectors = or_empty read_connectors;
      agents = or_empty read_agents;
      swarms = or_empty read_swarms;
    }
    reply (render templates "tenant.html" p)

  unfoldable pub render_ui_connectors : String → Handler S V
  unfolding base_page render
  render_ui_connectors tid r = do
    read_tenant ← peek (d.store.get_tenant tid)
    read_connectors ← peek (d.store.list_connectors tid)
    let p = record (base_page d.env r ("Connectors: " ⧺ tid) "tenants") {
      tenant_id = tid;
      tenant = or_nil read_tenant;
      connectors = or_empty read_connectors;
    }
    reply (render templates "connectors.html" p)

  unfoldable pub render_ui_agents : String → Handler S V
  unfolding base_page render
  render_ui_agents tid r = do
    read_tenant ← peek (d.store.get_tenant tid)
    read_agents ← peek (d.store.list_agents tid)
    let p = record (base_page d.env r ("Agents: " ⧺ tid) "tenants") {
      tenant_id = tid;
      tenant = or_nil read_tenant;
      agents = or_empty read_agents;
    }
    reply (render templates "agents.html" p)

  unfoldable pub render_ui_swarms : String → Handler S V
  unfolding base_page render
  render_ui_swarms tid r = do
    read_tenant ← peek (d.store.get_tenant tid)
    read_swarms ← peek (d.store.list_swarms tid)
    let p = record (base_page d.env r ("Swarms: " ⧺ tid) "tenants") {
      tenant_id = tid;
      tenant = or_nil read_tenant;
      swarms = or_empty read_swarms;
    }
    reply (render templates "swarms.html" p)

  unfoldable pub render_ui_admin_users : Handler S V
  unfolding base_page render
  render_ui_admin_users r = do
    read_admins ← peek d.store.list_admin_users
    let p = record (base_page d.env r "Admin Users" "admin-users") { admins = or_empty read_admins }
    reply (render templates "admin_users.html" p)

  unfoldable pub render_ui_audit : Handler S V
  unfolding base_page render
  render_ui_audit r = do
    read_audit ← peek (d.store.list_audit recent)
    let p = record (base_page d.env r "Audit" "audit") { audit = or_empty read_audit }
    reply (render templates "audit.html" p)

-- uiPath, with path.Join as `join`
abbrev ui_path : (List String → String) → List String → String
ui_path join parts = "/ui/" ⧺ join parts
