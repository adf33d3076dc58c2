-- ===== src/Admin/Routes.antt =====
-- cmd/admin-api/handlers/handlers.go: the routes of the JSON API, and which of them need an Owner.
use sclawion.Prelude.{String, List, [], ◌∷◌, ◌==◌, ◌&&◌, if◌then◌else◌}
use sclawion.Text.{has_prefix, trim_prefix, split_slash}
use sclawion.Admin.Http.{text}
use sclawion.Admin.Act.{Handler, answer}
use sclawion.Admin.Deps.{Deps, owner_only}
use sclawion.Admin.Tenants.{list_tenants, get_tenant, create_tenant, patch_tenant, delete_tenant}
use sclawion.Admin.Agents.{list_agents, get_agent, create_agent, patch_agent, delete_agent}
use sclawion.Admin.Swarms.{list_swarms, get_swarm, create_swarm, patch_swarm, delete_swarm}
use sclawion.Admin.Connectors.{list_connectors, get_connector, put_connector, rotate_secret}
use sclawion.Admin.AdminUsers.{list_admin_users, put_admin_user, delete_admin_user}
use sclawion.Admin.AuditLog.{list_audit}

module _ {S V : Type 0} where
  -- http.Error(w, "method not allowed", http.StatusMethodNotAllowed)
  abbrev pub not_allowed : Handler S V
  not_allowed r = answer 405 (text "method not allowed")

  -- http.NotFound(w, r)
  abbrev pub no_page : Handler S V
  no_page r = answer 404 (text "404 page not found")

module _ {S V : Type 0} (d : Deps S V) where
  unfoldable pub handle_connector_path : String → List String → Handler S V
  handle_connector_path tid [] r =
      if r.method == "GET" then list_connectors d tid r else not_allowed r
  handle_connector_path tid (platform ∷ []) r =
      if r.method == "GET"
      then get_connector d tid platform r
      else if r.method == "PUT"
      then owner_only (put_connector d tid platform) r
      else not_allowed r
  handle_connector_path tid (platform ∷ verb ∷ rest) r =
      if verb == "secrets:rotate" && r.method == "POST"
      then owner_only (rotate_secret d tid platform) r
      else no_page r

  unfoldable pub handle_agent_path : String → List String → Handler S V
  handle_agent_path tid [] r =
      if r.method == "GET"
      then list_agents d tid r
      else if r.method == "POST"
      then owner_only (create_agent d tid) r
      else not_allowed r
  handle_agent_path tid (id ∷ rest) r =
      if r.method == "GET"
      then get_agent d tid id r
      else if r.method == "PATCH"
      then owner_only (patch_agent d tid id) r
      else if r.method == "DELETE"
      then owner_only (delete_agent d tid id) r
      else not_allowed r

  unfoldable pub handle_swarm_path : String → List String → Handler S V
  handle_swarm_path tid [] r =
      if r.method == "GET"
      then list_swarms d tid r
      else if r.method == "POST"
      then owner_only (create_swarm d tid) r
      else not_allowed r
  handle_swarm_path tid (id ∷ rest) r =
      if r.method == "GET"
      then get_swarm d tid id r
      else if r.method == "PATCH"
      then owner_only (patch_swarm d tid id) r
      else if r.method == "DELETE"
      then owner_only (delete_swarm d tid id) r
      else not_allowed r

  unfoldable pub route_tenants_list : Handler S V
  route_tenants_list r =
      if r.method == "GET"
      then list_tenants d r
      else if r.method == "POST"
      then owner_only (create_tenant d) r
      else not_allowed r

  -- /v1/tenants/{tid}
  unfoldable pub route_tenant : String → Handler S V
  route_tenant tid r =
      if r.method == "GET"
      then get_tenant d tid r
      else if r.method == "PATCH"
      then owner_only (patch_tenant d tid) r
      else if r.method == "DELETE"
      then owner_only (delete_tenant d tid) r
      else not_allowed r

  -- The segments behind a tenant's id.
  unfoldable pub route_nested : String → List String → Handler S V
  route_nested tid [] r = route_tenant tid r
  route_nested tid (section ∷ rest) r =
      if section == "connectors"
      then handle_connector_path tid rest r
      else if section == "agents"
      then handle_agent_path tid rest r
      else if section == "swarms"
      then handle_swarm_path tid rest r
      else no_page r

  unfoldable pub route_segments : List String → Handler S V
  route_segments [] r = no_page r
  route_segments (tid ∷ rest) r = if tid == "" then no_page r else route_nested tid rest r

  unfoldable pub route_tenants_item : Handler S V
  route_tenants_item r = route_segments (split_slash (trim_prefix r.path "/v1/tenants/")) r

  unfoldable pub route_admin_users : Handler S V
  route_admin_users r =
      if r.method == "GET" then owner_only (list_admin_users d) r else not_allowed r

  -- routeAdminUserItem, from the e-mail in the path
  unfoldable pub route_admin_user : String → Handler S V
  route_admin_user email r =
      if email == ""
      then no_page r
      else if r.method == "PUT"
      then owner_only (put_admin_user d email) r
      else if r.method == "DELETE"
      then owner_only (delete_admin_user d email) r
      else not_allowed r

  unfoldable pub route_admin_user_item : Handler S V
  route_admin_user_item r = route_admin_user (trim_prefix r.path "/v1/admin-users/") r

  -- The patterns of the mux: a path without a final slash is matched whole, one with it as a prefix.
  unfoldable pub new_api : Handler S V
  new_api r =
      if r.path == "/v1/tenants"
      then route_tenants_list r
      else if has_prefix r.path "/v1/tenants/"
      then route_tenants_item r
      else if r.path == "/v1/admin-users"
      then route_admin_users r
      else if has_prefix r.path "/v1/admin-users/"
      then route_admin_user_item r
      else if r.path == "/v1/audit"
      then list_audit d r
      else no_page r
