-- ===== src/Admin/Soundness.antt =====
-- The JSON API keeps the documents of the store sound, run alone or among other programs.
use sclawion.Admin.Http.{Request}
use sclawion.Admin.Act.{Handler}
use sclawion.Admin.Deps.{Deps, owner_only}
use sclawion.Admin.Routes.{new_api}
use sclawion.Admin.Documents.{Keeps, Keeps-Reading, Keeps-answer}
use sclawion.Admin.Keeping.{
  Wired, create_tenant-Keeps, patch_tenant-Keeps, delete_tenant-Keeps, create_agent-Keeps,
  patch_agent-Keeps, delete_agent-Keeps, create_swarm-Keeps, patch_swarm-Keeps, delete_swarm-Keeps,
  put_connector-Keeps, rotate_secret-Keeps, put_admin_user-Keeps, delete_admin_user-Keeps,
}
use sclawion.Admin.Owners.{owner_only-At}
use sclawion.Admin.Every.{new_api-At, EachRead-Reading}
use sclawion.Admin.Tenants.{create_tenant, patch_tenant, delete_tenant}
use sclawion.Admin.Agents.{create_agent, patch_agent, delete_agent}
use sclawion.Admin.Swarms.{create_swarm, patch_swarm, delete_swarm}
use sclawion.Admin.Connectors.{put_connector, rotate_secret}
use sclawion.Admin.AdminUsers.{put_admin_user, delete_admin_user}

module _ {S V : Type 0} (d : Deps S V) (wd : Wired d) (r : Request) where
  gated : (f : Handler S V) → Keeps wd.contract (f r) → Keeps wd.contract (owner_only f r)
  gated f s = owner_only-At (Keeps wd.contract) f r (λ status body _. Keeps-answer status body) s

  pub new_api-Keeps : Keeps wd.contract (new_api d r)
  new_api-Keeps =
      new_api-At d r (Keeps wd.contract) (λ status body _. Keeps-answer status body)
        (EachRead-Reading d r (Keeps wd.contract) Keeps-Reading)
        (record {
          on_create_tenant = gated (create_tenant d) (create_tenant-Keeps d wd r);
          on_patch_tenant = λ tid. gated (patch_tenant d tid) (patch_tenant-Keeps d wd r tid);
          on_delete_tenant = λ tid. gated (delete_tenant d tid) (delete_tenant-Keeps d wd r tid);
          on_create_agent = λ tid. gated (create_agent d tid) (create_agent-Keeps d wd r tid);
          on_patch_agent = λ tid id. gated (patch_agent d tid id) (patch_agent-Keeps d wd r tid id);
          on_delete_agent =
              λ tid id. gated (delete_agent d tid id) (delete_agent-Keeps d wd r tid id);
          on_create_swarm = λ tid. gated (create_swarm d tid) (create_swarm-Keeps d wd r tid);
          on_patch_swarm = λ tid id. gated (patch_swarm d tid id) (patch_swarm-Keeps d wd r tid id);
          on_delete_swarm =
              λ tid id. gated (delete_swarm d tid id) (delete_swarm-Keeps d wd r tid id);
          on_put_connector =
              λ tid p. gated (put_connector d tid p) (put_connector-Keeps d wd r tid p);
          on_rotate_secret =
              λ tid p. gated (rotate_secret d tid p) (rotate_secret-Keeps d wd r tid p);
          on_put_admin_user =
              λ email. gated (put_admin_user d email) (put_admin_user-Keeps d wd r email);
          on_delete_admin_user =
              λ email. gated (delete_admin_user d email) (delete_admin_user-Keeps d wd r email);
        })
