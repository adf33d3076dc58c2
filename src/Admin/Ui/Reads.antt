-- ===== src/Admin/Ui/Reads.antt =====
-- The user interface reads only.
use sclawion.Prelude.{◌≡◌}
use sclawion.Config.World.{World}
use sclawion.Admin.Http.{Request}
use sclawion.Admin.Deps.{Deps}
use sclawion.Admin.Act.{◌▷◌}
use sclawion.Admin.Reads.{
  Reading, Reading-bind, Reading-peek, Reading-reply, Reading-answer, Reading-world,
}
use sclawion.Admin.Ui.Every.{EachPage, ui-At}
use sclawion.Admin.Ui.Routes.{Assets, ui}
use sclawion.Admin.Ui.Views.{
  render_ui_tenants, render_ui_tenant, render_ui_connectors, render_ui_agents, render_ui_swarms,
  render_ui_admin_users, render_ui_audit,
}

module _ {S V : Type 0} (assets : Assets) (d : Deps S V) (r : Request) where
  pages-Reading : EachPage assets d r Reading
  unfolding render_ui_tenants render_ui_tenant render_ui_connectors render_ui_agents
      render_ui_swarms render_ui_admin_users render_ui_audit
  pages-Reading = record {
    on_tenants = Reading-bind (Reading-peek _) λ ts. Reading-reply _;
    on_tenant = λ tid. Reading-bind (Reading-peek _) λ t. Reading-bind (Reading-peek _) λ cs.
        Reading-bind (Reading-peek _) λ ags. Reading-bind (Reading-peek _) λ ss. Reading-reply _;
    on_connectors = λ tid.
        Reading-bind (Reading-peek _) λ t. Reading-bind (Reading-peek _) λ cs. Reading-reply _;
    on_agents = λ tid.
        Reading-bind (Reading-peek _) λ t. Reading-bind (Reading-peek _) λ ags. Reading-reply _;
    on_swarms = λ tid.
        Reading-bind (Reading-peek _) λ t. Reading-bind (Reading-peek _) λ ss. Reading-reply _;
    on_admin_users = Reading-bind (Reading-peek _) λ us. Reading-reply _;
    on_audit = Reading-bind (Reading-peek _) λ es. Reading-reply _;
  }

  pub ui-Reading : Reading (ui assets d r)
  ui-Reading = ui-At assets d r Reading Reading-answer Reading-reply pages-Reading

  -- A request to the user interface, whatever its path, method and caller and whatever the templates
  -- do, leaves the world exactly as it was.
  pub ui-world : (w : World S V) → (ui assets d r ▷ w).1 ≡ w
  ui-world w = Reading-world (ui assets d r) w ui-Reading
