-- ===== src/Admin/Trails.antt =====
-- Every handler that writes leaves the trail of Admin/Trail.
use sclawion.Prelude.{refl, String, arith}
use sclawion.Event.{Platform}
use sclawion.Config.Types.{SecretKind}
use sclawion.Config.World.{Writer}
use sclawion.Config.Secrets.{SecretRotator}
use sclawion.Admin.Http.{Request, caller_of}
use sclawion.Admin.Act.{◌>>◌}
use sclawion.Admin.Deps.{Deps}
use sclawion.Admin.Silence.{
  Silent-check, Silent-fetch, Silent-save, Silent-peek, Silent-time_now, Silent-demand,
  Silent-present, Silent-attempt, Silent-time_or_now, Silent-settle, Silent-bind, Silent,
}
use sclawion.Admin.Trail.{Trails, bind, after, recorded, done, Closes-answer, Closes-time_now}
use sclawion.Admin.Tenants.{create_tenant, patch_tenant, delete_tenant}
use sclawion.Admin.Agents.{create_agent, patch_agent, delete_agent}
use sclawion.Admin.Swarms.{create_swarm, patch_swarm, delete_swarm}
use sclawion.Admin.Connectors.{put_connector, rotate_secret, rotating}
use sclawion.Admin.AdminUsers.{put_admin_user, delete_admin_user}

module _ {S V : Type 0} (rot : SecretRotator S V) where
  Silent-rotating :
      (writer : Writer V) (tid : String) (p : Platform) (kind : SecretKind) (value : String)
      → Silent (rotating rot writer tid p kind value)
  unfolding rotating ◌>>◌
  Silent-rotating writer tid p kind value = Silent-bind (Silent-attempt _ λ w. refl) λ ref.
      Silent-bind (Silent-fetch _)
        λ c. Silent-bind (Silent-settle _) λ c'. Silent-bind (Silent-save _) λ _. Silent-settle _

module _ {S V : Type 0} (d : Deps S V) (r : Request) where
  pub create_tenant-Trails : Trails (caller_of r) (create_tenant d r)
  unfolding create_tenant
  create_tenant-Trails = bind (Silent-check _) λ t. after (Silent-check _) (
      bind (Silent-time_now _)
        λ n. after (Silent-save _) (done _ _ _ _ refl refl refl (omega arith)))

  pub patch_tenant-Trails : (tid : String) → Trails (caller_of r) (patch_tenant d tid r)
  unfolding patch_tenant
  patch_tenant-Trails tid = bind (Silent-fetch _) λ old. bind (Silent-check _) λ patch.
      bind (Silent-time_now _) λ n.
        after (Silent-check _) (after (Silent-save _) (done _ _ _ _ refl refl refl (omega arith)))

  pub delete_tenant-Trails : (tid : String) → Trails (caller_of r) (delete_tenant d tid r)
  unfolding delete_tenant
  delete_tenant-Trails tid = after (Silent-save _) (done _ _ _ _ refl refl refl (omega arith))

  pub create_agent-Trails : (tid : String) → Trails (caller_of r) (create_agent d tid r)
  unfolding create_agent
  create_agent-Trails tid = bind (Silent-check _) λ t. after (Silent-check _) (
      bind (Silent-time_now _)
        λ n. after (Silent-save _) (done _ _ _ _ refl refl refl (omega arith)))

  pub patch_agent-Trails : (tid id : String) → Trails (caller_of r) (patch_agent d tid id r)
  unfolding patch_agent
  patch_agent-Trails tid id = bind (Silent-fetch _) λ old. bind (Silent-check _) λ patch.
      bind (Silent-time_now _) λ n.
        after (Silent-check _) (after (Silent-save _) (done _ _ _ _ refl refl refl (omega arith)))

  pub delete_agent-Trails : (tid id : String) → Trails (caller_of r) (delete_agent d tid id r)
  unfolding delete_agent
  delete_agent-Trails tid id = after (Silent-save _) (done _ _ _ _ refl refl refl (omega arith))

  pub create_swarm-Trails : (tid : String) → Trails (caller_of r) (create_swarm d tid r)
  unfolding create_swarm
  create_swarm-Trails tid = bind (Silent-check _) λ t. after (Silent-check _) (
      bind (Silent-time_now _)
        λ n. after (Silent-save _) (done _ _ _ _ refl refl refl (omega arith)))

  pub patch_swarm-Trails : (tid id : String) → Trails (caller_of r) (patch_swarm d tid id r)
  unfolding patch_swarm
  patch_swarm-Trails tid id = bind (Silent-fetch _) λ old. bind (Silent-check _) λ patch.
      bind (Silent-time_now _) λ n.
        after (Silent-check _) (after (Silent-save _) (done _ _ _ _ refl refl refl (omega arith)))

  pub delete_swarm-Trails : (tid id : String) → Trails (caller_of r) (delete_swarm d tid id r)
  unfolding delete_swarm
  delete_swarm-Trails tid id = after (Silent-save _) (done _ _ _ _ refl refl refl (omega arith))

  pub put_connector-Trails :
      (tid : String) (p : Platform) → Trails (caller_of r) (put_connector d tid p r)
  unfolding put_connector
  put_connector-Trails tid p = bind (Silent-check _) λ c. after (Silent-check _) (
      bind (Silent-peek _) λ old.
        bind (Silent-time_now _)
          λ n. after (Silent-save _) (done _ _ _ _ refl refl refl (omega arith)))

  pub rotate_secret-Trails :
      (tid : String) (p : Platform) → Trails (caller_of r) (rotate_secret d tid p r)
  unfolding rotate_secret
  rotate_secret-Trails tid p = bind (Silent-check _) λ req.
      after (Silent-demand _ _ _ (omega arith)) (
        after (Silent-demand _ _ _ (omega arith)) (
          bind (Silent-present _ _ _ (omega arith)) λ cfg.
            bind (Silent-rotating _ _ tid p req.kind req.value) λ ref.
              recorded _ _ _ refl refl refl (Closes-time_now _ λ n. Closes-answer _ (omega arith))))

  pub put_admin_user-Trails : (email : String) → Trails (caller_of r) (put_admin_user d email r)
  unfolding put_admin_user
  put_admin_user-Trails email = bind (Silent-check _) λ u. bind (Silent-time_or_now _ _) λ at.
      after (Silent-check _) (after (Silent-save _) (done _ _ _ _ refl refl refl (omega arith)))

  pub delete_admin_user-Trails :
      (email : String) → Trails (caller_of r) (delete_admin_user d email r)
  unfolding delete_admin_user
  delete_admin_user-Trails email = after (Silent-save _) (done _ _ _ _ refl refl refl (omega arith))
