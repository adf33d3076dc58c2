-- ===== src/Admin/Every.antt =====
-- What holds of every refusal, of every handler that reads, and of every handler that writes behind its
-- gate, holds of what the JSON API does with a request.
use sclawion.Prelude.{ℕ, ◌≤◌, arith, String, ◌==◌, if_either, List, [], ◌∷◌}
use sclawion.Text.{has_prefix, trim_prefix, split_slash}
use sclawion.Event.{Platform}
use sclawion.Admin.Http.{Request, Response, Body, text}
use sclawion.Admin.Act.{Act, answer}
use sclawion.Admin.Deps.{Deps, owner_only}
use sclawion.Admin.Reads.{
  Reading, Reading-answer, list_tenants-Reading, get_tenant-Reading, list_connectors-Reading,
  get_connector-Reading, list_agents-Reading, get_agent-Reading, list_swarms-Reading,
  get_swarm-Reading, list_admin_users-Reading, list_audit-Reading,
}
use sclawion.Admin.Tenants.{create_tenant, patch_tenant, delete_tenant}
use sclawion.Admin.Agents.{create_agent, patch_agent, delete_agent}
use sclawion.Admin.Swarms.{create_swarm, patch_swarm, delete_swarm}
use sclawion.Admin.Connectors.{put_connector, rotate_secret}
use sclawion.Admin.AdminUsers.{list_admin_users, put_admin_user, delete_admin_user}
use sclawion.Admin.Routes.{
  route_tenants_list, route_segments, route_tenants_item, route_admin_users, route_admin_user,
  route_admin_user_item, new_api, not_allowed, no_page,
}
use sclawion.Admin.Under.{EachRead, EachUnder, route_nested-At}
use sclawion.Admin.Owners.{owner_only-At}

-- The property for each handler that writes.
pub record EachWrite {S V : Type 0} (d : Deps S V) (r : Request) (P : Act S V Response → Type 0)
    : Type 0 where
  pub on_create_tenant : P (owner_only (create_tenant d) r)
  pub on_patch_tenant : (tid : String) → P (owner_only (patch_tenant d tid) r)
  pub on_delete_tenant : (tid : String) → P (owner_only (delete_tenant d tid) r)
  pub on_create_agent : (tid : String) → P (owner_only (create_agent d tid) r)
  pub on_patch_agent : (tid id : String) → P (owner_only (patch_agent d tid id) r)
  pub on_delete_agent : (tid id : String) → P (owner_only (delete_agent d tid id) r)
  pub on_create_swarm : (tid : String) → P (owner_only (create_swarm d tid) r)
  pub on_patch_swarm : (tid id : String) → P (owner_only (patch_swarm d tid id) r)
  pub on_delete_swarm : (tid id : String) → P (owner_only (delete_swarm d tid id) r)
  pub on_put_connector : (tid : String) (p : Platform) → P (owner_only (put_connector d tid p) r)
  pub on_rotate_secret : (tid : String) (p : Platform) → P (owner_only (rotate_secret d tid p) r)
  pub on_put_admin_user : (email : String) → P (owner_only (put_admin_user d email) r)
  pub on_delete_admin_user : (email : String) → P (owner_only (delete_admin_user d email) r)

module _ {S V : Type 0} (d : Deps S V) (r : Request) (P : Act S V Response → Type 0)
    (reads : (m : Act S V Response) → Reading m → P m) where
  -- What holds of every program that reads only holds of these.
  pub EachRead-Reading : EachRead d r P
  EachRead-Reading = record {
    on_list_tenants = reads _ (list_tenants-Reading d r);
    on_get_tenant = λ tid. reads _ (get_tenant-Reading d r tid);
    on_list_connectors = λ tid. reads _ (list_connectors-Reading d r tid);
    on_get_connector = λ tid p. reads _ (get_connector-Reading d r tid p);
    on_list_agents = λ tid. reads _ (list_agents-Reading d r tid);
    on_get_agent = λ tid id. reads _ (get_agent-Reading d r tid id);
    on_list_swarms = λ tid. reads _ (list_swarms-Reading d r tid);
    on_get_swarm = λ tid id. reads _ (get_swarm-Reading d r tid id);
    on_list_admin_users = reads _ (list_admin_users-Reading d r);
    on_list_audit = reads _ (list_audit-Reading d r);
  }

  pub refuses-Reading : (status : ℕ) (body : Body) → 400 ≤ status → P (answer status body)
  refuses-Reading status body h = reads (answer status body) (Reading-answer status body)

module _ {S V : Type 0} (d : Deps S V) (r : Request) (P : Act S V Response → Type 0)
    (refuses : (status : ℕ) (body : Body) → 400 ≤ status → P (answer status body))
    (read : EachRead d r P) (each : EachWrite d r P) where
  denied : P (not_allowed r)
  denied = refuses 405 (text "method not allowed") (omega arith)

  missing : P (no_page r)
  missing = refuses 404 (text "404 page not found") (omega arith)

  route_tenants_list-At : P (route_tenants_list d r)
  unfolding route_tenants_list
  route_tenants_list-At =
      if_either P (r.method == "GET") read.on_list_tenants
        (if_either P (r.method == "POST") each.on_create_tenant denied)

  under : (tid : String) → EachUnder d r P tid
  under tid = record {
    on_patch_tenant = each.on_patch_tenant tid;
    on_delete_tenant = each.on_delete_tenant tid;
    on_create_agent = each.on_create_agent tid;
    on_patch_agent = each.on_patch_agent tid;
    on_delete_agent = each.on_delete_agent tid;
    on_create_swarm = each.on_create_swarm tid;
    on_patch_swarm = each.on_patch_swarm tid;
    on_delete_swarm = each.on_delete_swarm tid;
    on_put_connector = each.on_put_connector tid;
    on_rotate_secret = each.on_rotate_secret tid;
  }

  route_segments-At : (parts : List String) → P (route_segments d parts r)
  unfolding route_segments
  route_segments-At [] = missing
  route_segments-At (tid ∷ rest) =
      if_either P (tid == "") missing (route_nested-At d r P refuses read tid (under tid) rest)

  route_admin_users-At : P (route_admin_users d r)
  unfolding route_admin_users
  route_admin_users-At =
      if_either P (r.method == "GET")
        (owner_only-At P (list_admin_users d) r refuses read.on_list_admin_users) denied

  route_admin_user-At : (email : String) → P (route_admin_user d email r)
  unfolding route_admin_user
  route_admin_user-At email = if_either P (email == "") missing (
      if_either P (r.method == "PUT") (each.on_put_admin_user email)
        (if_either P (r.method == "DELETE") (each.on_delete_admin_user email) denied))

  pub new_api-At : P (new_api d r)
  unfolding new_api route_tenants_item route_admin_user_item
  new_api-At = if_either P (r.path == "/v1/tenants") route_tenants_list-At (
      if_either P (has_prefix r.path "/v1/tenants/")
        (route_segments-At (split_slash (trim_prefix r.path "/v1/tenants/")))
        (if_either P (r.path == "/v1/admin-users") route_admin_users-At (
          if_either P (has_prefix r.path "/v1/admin-users/")
            (route_admin_user-At (trim_prefix r.path "/v1/admin-users/"))
            (if_either P (r.path == "/v1/audit") read.on_list_audit missing))))
