-- ===== src/Admin/Keeping.antt =====
-- Every handler that writes keeps the documents of the store sound, among others that run at once.
use sclawion.Prelude.{◌≡◌, ap, String, Option, none, some}
use sclawion.Event.{Platform}
use sclawion.Config.Errors.{Result, ok, err}
use sclawion.Config.Types.{ConnectorConfig}
use sclawion.Config.MemStore.View
use sclawion.Config.Validate.Accepts.{
  IsConnector, validate_tenant_iff, validate_connector_iff, validate_agent_iff, validate_swarm_iff,
  validate_admin_user_iff,
}
use sclawion.Config.Contract.{Contract}
use sclawion.Config.World.{Writer}
use sclawion.Config.Secrets.{SecretRotator}
use sclawion.Admin.Http.{Request}
use sclawion.Admin.Deps.{Deps}
use sclawion.Admin.Recorded.{Keeps-record}
use sclawion.Admin.Documents.{
  Keeps, Keeps-answer, Keeps-fetch, Keeps-peek, Keeps-time_now, Keeps-time_or_now, Keeps-demand,
  Keeps-save, bind, after, checked, accepted, provided,
}
use sclawion.Admin.Rotating.{Keeps-rotating}
use sclawion.Admin.Tenants.{create_tenant, patch_tenant, delete_tenant}
use sclawion.Admin.Agents.{create_agent, patch_agent, delete_agent}
use sclawion.Admin.Swarms.{create_swarm, patch_swarm, delete_swarm}
use sclawion.Admin.Connectors.{
  put_connector, rotate_secret, wired, with_writer, with_refs_of, addressed,
}
use sclawion.Admin.AdminUsers.{put_admin_user, delete_admin_user}

refs-IsConnector :
    (x : Result ConnectorConfig) (c : ConnectorConfig)
    → IsConnector c
    → IsConnector (with_refs_of x c)
unfolding with_refs_of
refs-IsConnector (ok old) c v = record {
  identifier = v.identifier;
  known = v.known;
  path = v.path;
  least = v.least;
  most = v.most;
}
refs-IsConnector (err e) c v = v

module _ {S V : Type 0} where
  pair_of :
      (o : Option (Writer V)) (x : SecretRotator S V) (y : SecretRotator S V × Writer V)
      → with_writer x o ≡ some y
      → x ≡ y.0
  pair_of none x y e = absurd cc
  pair_of (some w) x y e = let same : (x, w) ≡ y = cc in ap (λ q. q.0) same

  pub some-of_wired :
      (o : Option (SecretRotator S V)) (y : SecretRotator S V × Writer V)
      → wired o ≡ some y
      → o ≡ some y.0
  some-of_wired none y e = absurd cc
  some-of_wired (some x) y e = ap some (pair_of x.writer x y e)

-- The service is wired as `main` does it: one store, which keeps its contract, for the handlers, the
-- recorder and the rotator.
pub record Wired {S V : Type 0} (d : Deps S V) : Type 0 where
  pub contract : Contract d.store
  pub recorder : d.recorder.store ≡ some d.store
  pub rotator : (r : SecretRotator S V) → d.rotator ≡ some r → r.store ≡ d.store

module _ {S V : Type 0} (d : Deps S V) (wd : Wired d) (r : Request) where
  pub create_tenant-Keeps : Keeps wd.contract (create_tenant d r)
  unfolding create_tenant
  create_tenant-Keeps = checked _ λ t e₀. accepted _ λ e.
      let v = (validate_tenant_iff _).0 e in
      bind (Keeps-time_now _) λ n.
        after
          (Keeps-save (View.put_tenant _) (record { identifier = v.identifier; named = v.named }))
          (after (Keeps-record _ _ _ wd.recorder) (Keeps-answer _ _))

  pub patch_tenant-Keeps : (tid : String) → Keeps wd.contract (patch_tenant d tid r)
  unfolding patch_tenant
  patch_tenant-Keeps tid = bind (Keeps-fetch _) λ old. checked _ λ patch e₀.
      bind (Keeps-time_now _) λ n. accepted _ λ e.
        after (Keeps-save (View.put_tenant _) ((validate_tenant_iff _).0 e))
          (after (Keeps-record _ _ _ wd.recorder) (Keeps-answer _ _))

  pub delete_tenant-Keeps : (tid : String) → Keeps wd.contract (delete_tenant d tid r)
  unfolding delete_tenant
  delete_tenant-Keeps tid =
      after (Keeps-save (View.delete_tenant tid) tt)
        (after (Keeps-record _ _ _ wd.recorder) (Keeps-answer _ _))

  pub create_agent-Keeps : (tid : String) → Keeps wd.contract (create_agent d tid r)
  unfolding create_agent
  create_agent-Keeps tid = checked _ λ t e₀. accepted _ λ e.
      let v = (validate_agent_iff _).0 e in
      bind (Keeps-time_now _) λ n.
        after
          (Keeps-save (View.put_agent _) (record {
            tenant = v.tenant;
            identifier = v.identifier;
            named = v.named;
            modelled = v.modelled;
            scope = v.scope;
            budget = v.budget;
          }))
          (after (Keeps-record _ _ _ wd.recorder) (Keeps-answer _ _))

  pub patch_agent-Keeps : (tid id : String) → Keeps wd.contract (patch_agent d tid id r)
  unfolding patch_agent
  patch_agent-Keeps tid id = bind (Keeps-fetch _) λ old. checked _ λ patch e₀.
      bind (Keeps-time_now _) λ n. accepted _ λ e.
        after (Keeps-save (View.put_agent _) ((validate_agent_iff _).0 e))
          (after (Keeps-record _ _ _ wd.recorder) (Keeps-answer _ _))

  pub delete_agent-Keeps : (tid id : String) → Keeps wd.contract (delete_agent d tid id r)
  unfolding delete_agent
  delete_agent-Keeps tid id =
      after (Keeps-save (View.delete_agent tid id) tt)
        (after (Keeps-record _ _ _ wd.recorder) (Keeps-answer _ _))

  pub create_swarm-Keeps : (tid : String) → Keeps wd.contract (create_swarm d tid r)
  unfolding create_swarm
  create_swarm-Keeps tid = checked _ λ t e₀. accepted _ λ e.
      let v = (validate_swarm_iff _).0 e in
      bind (Keeps-time_now _) λ n.
        after
          (Keeps-save (View.put_swarm _) (record {
            tenant = v.tenant;
            identifier = v.identifier;
            topology = v.topology;
            staffed = v.staffed;
            roles = v.roles;
            tokens = v.tokens;
            deploys = v.deploys;
          }))
          (after (Keeps-record _ _ _ wd.recorder) (Keeps-answer _ _))

  pub patch_swarm-Keeps : (tid id : String) → Keeps wd.contract (patch_swarm d tid id r)
  unfolding patch_swarm
  patch_swarm-Keeps tid id = bind (Keeps-fetch _) λ old. checked _ λ patch e₀.
      bind (Keeps-time_now _) λ n. accepted _ λ e.
        after (Keeps-save (View.put_swarm _) ((validate_swarm_iff _).0 e))
          (after (Keeps-record _ _ _ wd.recorder) (Keeps-answer _ _))

  pub delete_swarm-Keeps : (tid id : String) → Keeps wd.contract (delete_swarm d tid id r)
  unfolding delete_swarm
  delete_swarm-Keeps tid id =
      after (Keeps-save (View.delete_swarm tid id) tt)
        (after (Keeps-record _ _ _ wd.recorder) (Keeps-answer _ _))

  pub put_connector-Keeps :
      (tid : String) (p : Platform) → Keeps wd.contract (put_connector d tid p r)
  unfolding put_connector
  put_connector-Keeps tid p = checked _ λ body e₀. accepted _ λ e. bind (Keeps-peek _) λ old.
      bind (Keeps-time_now _) λ n.
        let v = refs-IsConnector old (addressed tid p body) ((validate_connector_iff _).0 e) in
        after
          (Keeps-save (View.put_connector _) (record {
            identifier = v.identifier;
            known = v.known;
            path = v.path;
            least = v.least;
            most = v.most;
          }))
          (after (Keeps-record _ _ _ wd.recorder) (Keeps-answer _ _))

  pub rotate_secret-Keeps :
      (tid : String) (p : Platform) → Keeps wd.contract (rotate_secret d tid p r)
  unfolding rotate_secret
  rotate_secret-Keeps tid p = checked _ λ req e₀. after (Keeps-demand _ _ _) (
      after (Keeps-demand _ _ _) (
        provided _ _ _ λ cfg e.
          bind
            (Keeps-rotating wd.contract cfg.0 cfg.1 tid p req.kind req.value
              (wd.rotator cfg.0 (some-of_wired _ cfg e)))
            λ ref.
              after (Keeps-record _ _ _ wd.recorder)
                (bind (Keeps-time_now _) λ n. Keeps-answer _ _)))

  pub put_admin_user-Keeps : (email : String) → Keeps wd.contract (put_admin_user d email r)
  unfolding put_admin_user
  put_admin_user-Keeps email = checked _ λ u e₀. bind (Keeps-time_or_now _ _) λ at. accepted _ λ e.
      let v = (validate_admin_user_iff _).0 e in
      after (Keeps-save (View.put_admin_user _) (record { address = v.address; role = v.role }))
        (after (Keeps-record _ _ _ wd.recorder) (Keeps-answer _ _))

  pub delete_admin_user-Keeps : (email : String) → Keeps wd.contract (delete_admin_user d email r)
  unfolding delete_admin_user
  delete_admin_user-Keeps email =
      after (Keeps-save (View.delete_admin_user email) tt)
        (after (Keeps-record _ _ _ wd.recorder) (Keeps-answer _ _))
