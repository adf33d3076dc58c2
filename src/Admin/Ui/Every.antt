-- ===== src/Admin/Ui/Every.antt =====
-- What holds of every page of the user interface, and of what it answers with no page, holds of what it
-- does with a request.
use sclawion.Prelude.{ℕ, String, List, [], ◌∷◌, ◌==◌, if_either}
use sclawion.Text.{has_prefix, trim_prefix, split_slash}
use sclawion.Admin.Http.{Request, Response, Body, text}
use sclawion.Admin.Act.{Act, answer, reply}
use sclawion.Admin.Deps.{Deps}
use sclawion.Admin.Ui.Routes.{Assets, section_of, ui_section, ui_segments, ui}
use sclawion.Admin.Ui.Views.{
  render_ui_tenants, render_ui_tenant, render_ui_connectors, render_ui_agents, render_ui_swarms,
  render_ui_admin_users, render_ui_audit,
}

-- The property for each page.
pub record EachPage {S V : Type 0} (assets : Assets) (d : Deps S V) (r : Request)
    (P : Act S V Response → Type 0) : Type 0 where
  pub on_tenants : P (render_ui_tenants assets.templates d r)
  pub on_tenant : (tid : String) → P (render_ui_tenant assets.templates d tid r)
  pub on_connectors : (tid : String) → P (render_ui_connectors assets.templates d tid r)
  pub on_agents : (tid : String) → P (render_ui_agents assets.templates d tid r)
  pub on_swarms : (tid : String) → P (render_ui_swarms assets.templates d tid r)
  pub on_admin_users : P (render_ui_admin_users assets.templates d r)
  pub on_audit : P (render_ui_audit assets.templates d r)

module _ {S V : Type 0} (assets : Assets) (d : Deps S V) (r : Request)
    (P : Act S V Response → Type 0) (answers : (status : ℕ) (body : Body) → P (answer status body))
    (replies : (x : Response) → P (reply x)) (page : EachPage assets d r P) where
  ui_section-At : (tid section : String) → P (ui_section assets d tid section r)
  unfolding ui_section
  ui_section-At tid section = if_either P (section == "connectors") (page.on_connectors tid) (
      if_either P (section == "agents") (page.on_agents tid)
        (if_either P (section == "swarms") (page.on_swarms tid) (page.on_tenant tid)))

  ui_segments-At : (segs : List String) → P (ui_segments assets d segs r)
  unfolding ui_segments
  ui_segments-At [] = page.on_tenants
  ui_segments-At (tid ∷ rest) =
      if_either P (tid == "") page.on_tenants (ui_section-At tid (section_of rest))

  pub ui-At : P (ui assets d r)
  unfolding ui
  ui-At = if_either P (r.path == "/ui/static") (answers 301 (text "/ui/static/")) (
      if_either P (has_prefix r.path "/ui/static/") (replies _) (
        if_either P (r.path == "/ui/tenants") page.on_tenants (
          if_either P (has_prefix r.path "/ui/tenants/")
            (ui_segments-At (split_slash (trim_prefix r.path "/ui/tenants/")))
            (if_either P (r.path == "/ui/admin-users") page.on_admin_users (
              if_either P (r.path == "/ui/audit") page.on_audit (
                if_either P (has_prefix r.path "/ui/") page.on_tenants
                  (answers 404 (text "404 page not found"))))))))
