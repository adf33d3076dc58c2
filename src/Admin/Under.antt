-- ===== src/Admin/Under.antt =====
-- What holds of every handler under a tenant, and of every refusal, holds of what the JSON API does with
-- a path under that tenant.
use sclawion.Prelude.{
  ℕ, ◌≤◌, arith, String, ◌==◌, if_either, List, [], ◌∷◌, ◌&&◌, ◌≡◌, refl, sym, ap, subst, ◌∙◌, inl,
  inr, true, text-cases,
}
use sclawion.Text.{has_prefix, trim_prefix, split_slash}
use sclawion.Event.{Platform}
use sclawion.Admin.Http.{Request, Response, Body, text}
use sclawion.Admin.Act.{Act, answer}
use sclawion.Admin.Deps.{Deps, owner_only}
use sclawion.Admin.AuditLog.{list_audit}
use sclawion.Admin.Tenants.{list_tenants, get_tenant, patch_tenant, delete_tenant}
use sclawion.Admin.Agents.{list_agents, get_agent, create_agent, patch_agent, delete_agent}
use sclawion.Admin.Swarms.{list_swarms, get_swarm, create_swarm, patch_swarm, delete_swarm}
use sclawion.Admin.Connectors.{list_connectors, get_connector, put_connector, rotate_secret}
use sclawion.Admin.AdminUsers.{list_admin_users}
use sclawion.Admin.Routes.{
  handle_connector_path, handle_agent_path, handle_swarm_path, route_tenant, route_nested,
  not_allowed, no_page, new_api, route_tenants_item, route_segments,
}

-- The property for each handler that reads.
pub record EachRead {S V : Type 0} (d : Deps S V) (r : Request) (P : Act S V Response → Type 0)
    : Type 0 where
  pub on_list_tenants : P (list_tenants d r)
  pub on_get_tenant : (tid : String) → P (get_tenant d tid r)
  pub on_list_connectors : (tid : String) → P (list_connectors d tid r)
  pub on_get_connector : (tid : String) (p : Platform) → P (get_connector d tid p r)
  pub on_list_agents : (tid : String) → P (list_agents d tid r)
  pub on_get_agent : (tid id : String) → P (get_agent d tid id r)
  pub on_list_swarms : (tid : String) → P (list_swarms d tid r)
  pub on_get_swarm : (tid id : String) → P (get_swarm d tid id r)
  pub on_list_admin_users : P (list_admin_users d r)
  pub on_list_audit : P (list_audit d r)

-- The property for each handler that writes under the tenant.
pub record EachUnder {S V : Type 0} (d : Deps S V) (r : Request) (P : Act S V Response → Type 0)
    (tid : String) : Type 0 where
  pub on_patch_tenant : P (owner_only (patch_tenant d tid) r)
  pub on_delete_tenant : P (owner_only (delete_tenant d tid) r)
  pub on_create_agent : P (owner_only (create_agent d tid) r)
  pub on_patch_agent : (id : String) → P (owner_only (patch_agent d tid id) r)
  pub on_delete_agent : (id : String) → P (owner_only (delete_agent d tid id) r)
  pub on_create_swarm : P (owner_only (create_swarm d tid) r)
  pub on_patch_swarm : (id : String) → P (owner_only (patch_swarm d tid id) r)
  pub on_delete_swarm : (id : String) → P (owner_only (delete_swarm d tid id) r)
  pub on_put_connector : (p : Platform) → P (owner_only (put_connector d tid p) r)
  pub on_rotate_secret : (p : Platform) → P (owner_only (rotate_secret d tid p) r)

module _ {S V : Type 0} (d : Deps S V) (r : Request) (P : Act S V Response → Type 0)
    (refuses : (status : ℕ) (body : Body) → 400 ≤ status → P (answer status body))
    (read : EachRead d r P) (tid : String) (each : EachUnder d r P tid) where
  denied : P (not_allowed r)
  denied = refuses 405 (text "method not allowed") (omega arith)

  missing : P (no_page r)
  missing = refuses 404 (text "404 page not found") (omega arith)

  handle_connector_path-At : (rest : List String) → P (handle_connector_path d tid rest r)
  unfolding handle_connector_path
  handle_connector_path-At [] = if_either P (r.method == "GET") (read.on_list_connectors tid) denied
  handle_connector_path-At (p ∷ []) =
      if_either P (r.method == "GET") (read.on_get_connector tid p)
        (if_either P (r.method == "PUT") (each.on_put_connector p) denied)
  handle_connector_path-At (p ∷ verb ∷ rest) =
      if_either P (verb == "secrets:rotate" && r.method == "POST") (each.on_rotate_secret p) missing

  handle_agent_path-At : (rest : List String) → P (handle_agent_path d tid rest r)
  unfolding handle_agent_path
  handle_agent_path-At [] =
      if_either P (r.method == "GET") (read.on_list_agents tid)
        (if_either P (r.method == "POST") each.on_create_agent denied)
  handle_agent_path-At (id ∷ rest) = if_either P (r.method == "GET") (read.on_get_agent tid id) (
      if_either P (r.method == "PATCH") (each.on_patch_agent id)
        (if_either P (r.method == "DELETE") (each.on_delete_agent id) denied))

  handle_swarm_path-At : (rest : List String) → P (handle_swarm_path d tid rest r)
  unfolding handle_swarm_path
  handle_swarm_path-At [] =
      if_either P (r.method == "GET") (read.on_list_swarms tid)
        (if_either P (r.method == "POST") each.on_create_swarm denied)
  handle_swarm_path-At (id ∷ rest) = if_either P (r.method == "GET") (read.on_get_swarm tid id) (
      if_either P (r.method == "PATCH") (each.on_patch_swarm id)
        (if_either P (r.method == "DELETE") (each.on_delete_swarm id) denied))

  route_tenant-At : P (route_tenant d tid r)
  unfolding route_tenant
  route_tenant-At = if_either P (r.method == "GET") (read.on_get_tenant tid) (
      if_either P (r.method == "PATCH") each.on_patch_tenant
        (if_either P (r.method == "DELETE") each.on_delete_tenant denied))

  pub route_nested-At : (rest : List String) → P (route_nested d tid rest r)
  unfolding route_nested
  route_nested-At [] = route_tenant-At
  route_nested-At (section ∷ rest) =
      if_either P (section == "connectors") (handle_connector_path-At rest) (
        if_either P (section == "agents") (handle_agent_path-At rest)
          (if_either P (section == "swarms") (handle_swarm_path-At rest) missing))

  -- A path under that tenant.
  pub new_api-Under :
      (rest : List String)
      → has_prefix r.path "/v1/tenants/" ≡ true
      → split_slash (trim_prefix r.path "/v1/tenants/") ≡ tid ∷ rest
      → P (new_api d r)
  unfolding new_api route_tenants_item route_segments has_prefix
  new_api-Under rest under split = elim (text-cases r.path "/v1/tenants") [
    | inl e ↦
        let no : has_prefix "/v1/tenants" "/v1/tenants/" ≡ true =
          ap (λ s. has_prefix s "/v1/tenants/") (sym e) ∙ under in
        absurd cc
    | inr n ↦
        let same : new_api d r ≡ route_segments d (tid ∷ rest) r = rw (n, under, split) refl in
        subst P (sym same) (if_either P (tid == "") missing (route_nested-At rest))
  ]
