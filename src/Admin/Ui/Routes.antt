-- ===== src/Admin/Ui/Routes.antt =====
-- cmd/admin-api/handlers/ui.go: the mux of the user interface. The server of the embedded files under
-- /ui/static/ is a parameter, from the request without that prefix to the response.
use sclawion.Prelude.{String, List, [], ◌∷◌, ◌==◌, if◌then◌else◌}
use sclawion.Text.{has_prefix, trim_prefix, split_slash}
use sclawion.Admin.Http.{Request, Response, text}
use sclawion.Admin.Act.{Handler, answer, reply}
use sclawion.Admin.Deps.{Deps}
use sclawion.Admin.Routes.{no_page}
use sclawion.Admin.Ui.{Templates}
use sclawion.Admin.Ui.Views.{
  render_ui_tenants, render_ui_tenant, render_ui_connectors, render_ui_agents, render_ui_swarms,
  render_ui_admin_users, render_ui_audit,
}

-- The embedded assets.
pub record Assets : Type 0 where
  pub templates : Templates
  pub static : Request → Response

-- What http.ServeMux answers for a pattern that ends in a slash where the path lacks it.
abbrev pub moved_to : {S V : Type 0} → String → Handler S V
moved_to path r = answer 301 (text path)

-- segs[1], or "overview" where there is none or it is empty
abbrev pub section_of : List String → String
section_of [] = "overview"
section_of (s ∷ rest) = if s == "" then "overview" else s

module _ {S V : Type 0} (assets : Assets) (d : Deps S V) where
  unfoldable pub ui_section : String → String → Handler S V
  ui_section tid section r =
      if section == "connectors"
      then render_ui_connectors assets.templates d tid r
      else if section == "agents"
      then render_ui_agents assets.templates d tid r
      else if section == "swarms"
      then render_ui_swarms assets.templates d tid r
      else render_ui_tenant assets.templates d tid r

  -- The segments behind /ui/tenants/.
  unfoldable pub ui_segments : List String → Handler S V
  ui_segments [] r = render_ui_tenants assets.templates d r
  ui_segments (tid ∷ rest) r =
      if tid == ""
      then render_ui_tenants assets.templates d r
      else ui_section tid (section_of rest) r

  -- The patterns of the mux, the longest first.
  unfoldable pub ui : Handler S V
  ui r =
      if r.path == "/ui/static"
      then moved_to "/ui/static/" r
      else if has_prefix r.path "/ui/static/"
      then reply (assets.static (record r { path = trim_prefix r.path "/ui/static/" }))
      else if r.path == "/ui/tenants"
      then render_ui_tenants assets.templates d r
      else if has_prefix r.path "/ui/tenants/"
      then ui_segments (split_slash (trim_prefix r.path "/ui/tenants/")) r
      else if r.path == "/ui/admin-users"
      then render_ui_admin_users assets.templates d r
      else if r.path == "/ui/audit"
      then render_ui_audit assets.templates d r
      else if has_prefix r.path "/ui/"
      then render_ui_tenants assets.templates d r
      else no_page r
