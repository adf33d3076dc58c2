-- ===== src/Admin/Steps/Handlers.antt =====
-- How many steps each handler of the JSON API takes at most.
use sclawion.Prelude.{ℕ, String, arith}
use sclawion.Config.Types.{AuditEntry}
use sclawion.Config.Store.{Write}
use sclawion.Config.World.{Host}
use sclawion.Config.Audit.{Recorder}
use sclawion.Admin.Recording.{recording}
use sclawion.Event.{Platform}
use sclawion.Config.Errors.{Result}
use sclawion.Admin.Http.{Request, Body}
use sclawion.Admin.Act.{Handler, ◌>>=◌, ◌>>◌, save, answer, fetch}
use sclawion.Admin.Deps.{Deps, owner_only}
use sclawion.Admin.Steps.{
  Takes, Takes-le, bind, after, Takes-answer, Takes-check, Takes-demand, Takes-present, Takes-fetch,
  Takes-peek, Takes-save, Takes-time_now, Takes-time_or_now, Takes-recording, Takes-rotating,
}
use sclawion.Admin.Tenants.{list_tenants, get_tenant, create_tenant, patch_tenant, delete_tenant}
use sclawion.Admin.Agents.{list_agents, get_agent, create_agent, patch_agent, delete_agent}
use sclawion.Admin.Swarms.{list_swarms, get_swarm, create_swarm, patch_swarm, delete_swarm}
use sclawion.Admin.Connectors.{list_connectors, get_connector, put_connector, rotate_secret}
use sclawion.Admin.AdminUsers.{list_admin_users, put_admin_user, delete_admin_user}
use sclawion.Admin.AuditLog.{list_audit}
use sclawion.Admin.Owners.{owner_only-At}
use sclawion.Admin.Under.{EachRead}
use sclawion.Admin.Every.{EachWrite, new_api-At}
use sclawion.Admin.Routes.{new_api}

-- The usual end: a write, its record and the answer.
Takes-done :
    {S V : Type 0} (write : Write S) (h : Host) (rec : Recorder S) (e : AuditEntry) (status : ℕ)
    (body : Body)
    → Takes {V = V} 5 (save write >> (recording h rec e >> answer status body))
Takes-done write h rec e status body =
    after (Takes-save _) (after (Takes-recording _ _ _) (Takes-answer _ _))

module _ {S V : Type 0} (d : Deps S V) (r : Request) where
  create_tenant-Takes : Takes 6 (create_tenant d r)
  unfolding create_tenant
  create_tenant-Takes =
      bind (Takes-check _)
        λ t. after (Takes-check _) (bind (Takes-time_now _) λ now. (Takes-done _ _ _ _ _ _))

  patch_tenant-Takes : (tid : String) → Takes 7 (patch_tenant d tid r)
  unfolding patch_tenant
  patch_tenant-Takes tid = bind (Takes-fetch _) λ old.
      bind (Takes-check _)
        λ patch. bind (Takes-time_now _) λ now. after (Takes-check _) (Takes-done _ _ _ _ _ _)

  delete_tenant-Takes : (tid : String) → Takes 5 (delete_tenant d tid r)
  unfolding delete_tenant
  delete_tenant-Takes tid = (Takes-done _ _ _ _ _ _)

  create_agent-Takes : (tid : String) → Takes 6 (create_agent d tid r)
  unfolding create_agent
  create_agent-Takes tid =
      bind (Takes-check _)
        λ a. after (Takes-check _) (bind (Takes-time_now _) λ now. (Takes-done _ _ _ _ _ _))

  patch_agent-Takes : (tid id : String) → Takes 7 (patch_agent d tid id r)
  unfolding patch_agent
  patch_agent-Takes tid id = bind (Takes-fetch _) λ old.
      bind (Takes-check _)
        λ patch. bind (Takes-time_now _) λ now. after (Takes-check _) (Takes-done _ _ _ _ _ _)

  delete_agent-Takes : (tid id : String) → Takes 5 (delete_agent d tid id r)
  unfolding delete_agent
  delete_agent-Takes tid id = (Takes-done _ _ _ _ _ _)

  create_swarm-Takes : (tid : String) → Takes 6 (create_swarm d tid r)
  unfolding create_swarm
  create_swarm-Takes tid =
      bind (Takes-check _)
        λ a. after (Takes-check _) (bind (Takes-time_now _) λ now. (Takes-done _ _ _ _ _ _))

  patch_swarm-Takes : (tid id : String) → Takes 7 (patch_swarm d tid id r)
  unfolding patch_swarm
  patch_swarm-Takes tid id = bind (Takes-fetch _) λ old.
      bind (Takes-check _)
        λ patch. bind (Takes-time_now _) λ now. after (Takes-check _) (Takes-done _ _ _ _ _ _)

  delete_swarm-Takes : (tid id : String) → Takes 5 (delete_swarm d tid id r)
  unfolding delete_swarm
  delete_swarm-Takes tid id = (Takes-done _ _ _ _ _ _)

  put_connector-Takes : (tid : String) (p : Platform) → Takes 7 (put_connector d tid p r)
  unfolding put_connector
  put_connector-Takes tid p = bind (Takes-check _) λ body.
      after (Takes-check _)
        (bind (Takes-peek _) λ old. bind (Takes-time_now _) λ now. (Takes-done _ _ _ _ _ _))

  rotate_secret-Takes : (tid : String) (p : Platform) → Takes 8 (rotate_secret d tid p r)
  unfolding rotate_secret
  rotate_secret-Takes tid p = bind (Takes-check _) λ req. after (Takes-demand _ _ _) (
      after (Takes-demand _ _ _) (
        bind (Takes-present _ _ _) λ configured.
          bind (Takes-rotating _ _ _ _ _ _)
            λ ref. after (Takes-recording _ _ _) (bind (Takes-time_now _) λ now. Takes-answer _ _)))

  put_admin_user-Takes : (email : String) → Takes 6 (put_admin_user d email r)
  unfolding put_admin_user
  put_admin_user-Takes email =
      bind (Takes-check _)
        λ body. bind (Takes-time_or_now _ _) λ added. after (Takes-check _) (Takes-done _ _ _ _ _ _)

  delete_admin_user-Takes : (email : String) → Takes 5 (delete_admin_user d email r)
  unfolding delete_admin_user
  delete_admin_user-Takes email = (Takes-done _ _ _ _ _ _)

  gated : (h : Handler S V) → Takes 8 (h r) → Takes 8 (owner_only h r)
  gated h p =
      owner_only-At (Takes 8) h r
        (λ status body _. Takes-le (Takes-answer status body) (omega arith)) p

  -- A handler that fetches and shows.
  one_read :
      {A : Type 0} (read : S → Result A) (f : A → Body)
      → Takes {V = V} 8 (fetch read >>= λ a. answer 200 (f a))
  one_read read f = Takes-le (bind (Takes-fetch read) λ a. Takes-answer 200 (f a)) (omega arith)

  reads-Takes : EachRead d r (Takes 8)
  unfolding list_tenants get_tenant list_connectors get_connector list_agents get_agent list_swarms
      get_swarm list_admin_users list_audit
  reads-Takes = record {
    on_list_tenants = one_read _ _;
    on_get_tenant = λ tid. one_read _ _;
    on_list_connectors = λ tid. one_read _ _;
    on_get_connector = λ tid p. one_read _ _;
    on_list_agents = λ tid. one_read _ _;
    on_get_agent = λ tid id. one_read _ _;
    on_list_swarms = λ tid. one_read _ _;
    on_get_swarm = λ tid id. one_read _ _;
    on_list_admin_users = one_read _ _;
    on_list_audit = one_read _ _;
  }

  writes-Takes : EachWrite d r (Takes 8)
  writes-Takes = record {
    on_create_tenant = gated _ (Takes-le create_tenant-Takes (omega arith));
    on_patch_tenant = λ tid. gated _ (Takes-le (patch_tenant-Takes tid) (omega arith));
    on_delete_tenant = λ tid. gated _ (Takes-le (delete_tenant-Takes tid) (omega arith));
    on_create_agent = λ tid. gated _ (Takes-le (create_agent-Takes tid) (omega arith));
    on_patch_agent = λ tid id. gated _ (Takes-le (patch_agent-Takes tid id) (omega arith));
    on_delete_agent = λ tid id. gated _ (Takes-le (delete_agent-Takes tid id) (omega arith));
    on_create_swarm = λ tid. gated _ (Takes-le (create_swarm-Takes tid) (omega arith));
    on_patch_swarm = λ tid id. gated _ (Takes-le (patch_swarm-Takes tid id) (omega arith));
    on_delete_swarm = λ tid id. gated _ (Takes-le (delete_swarm-Takes tid id) (omega arith));
    on_put_connector = λ tid p. gated _ (Takes-le (put_connector-Takes tid p) (omega arith));
    on_rotate_secret = λ tid p. gated _ (rotate_secret-Takes tid p);
    on_put_admin_user = λ email. gated _ (Takes-le (put_admin_user-Takes email) (omega arith));
    on_delete_admin_user =
        λ email. gated _ (Takes-le (delete_admin_user-Takes email) (omega arith));
  }

  -- A request to the JSON API.
  pub new_api-Takes : Takes 8 (new_api d r)
  new_api-Takes =
      new_api-At d r (Takes 8) (λ status body _. Takes-le (Takes-answer status body) (omega arith))
        reads-Takes writes-Takes
