-- ===== src/Admin/Phases/Handlers.antt =====
-- Every handler that writes a document records it once, and the others record nothing.
use sclawion.Prelude.{ℕ, ◌≡◌, refl, subst, String}
use sclawion.Event.{Platform}
use sclawion.Config.Types.{AuditEntry, SecretKind}
use sclawion.Config.MemStore.View
use sclawion.Config.MemStore.View.{Op, run}
use sclawion.Config.Contract.{Contract}
use sclawion.Config.World.{Writer}
use sclawion.Config.Secrets.{SecretRotator}
use sclawion.Config.Rbac.{IapAuthConfig}
use sclawion.Admin.Http.{Request, Body}
use sclawion.Admin.Act.{Handler, ◌>>◌, save, answer}
use sclawion.Admin.Recording.{recording}
use sclawion.Admin.Deps.{Deps, owner_only}
use sclawion.Admin.Keeping.{Wired, some-of_wired}
use sclawion.Admin.Connectors.{put_connector, rotate_secret, rotating, write_back}
use sclawion.Admin.Tenants.{create_tenant, patch_tenant, delete_tenant}
use sclawion.Admin.Agents.{create_agent, patch_agent, delete_agent}
use sclawion.Admin.Swarms.{create_swarm, patch_swarm, delete_swarm}
use sclawion.Admin.AdminUsers.{put_admin_user, delete_admin_user}
use sclawion.Admin.Routes.{new_api}
use sclawion.Admin.Owners.{owner_only-At}
use sclawion.Admin.Every.{new_api-At, EachRead-Reading, EachWrite}
use sclawion.Admin.Access.{serve_api, signed_in}
use sclawion.Admin.Ui.Routes.{Assets}
use sclawion.Admin.Mux.{serve, serve-At, serve_ui-Reading, iap_auth-At, with_user-At}
use sclawion.Admin.Phases.{IsDocument, Accounts, bind, after}
use sclawion.Admin.Phases.Rules.{
  Accounts-Reading, Accounts-answer, Accounts-check, Accounts-settle, Accounts-demand, provided,
  Accounts-fetch, Accounts-peek, Accounts-time_now, Accounts-time_or_now, Accounts-attempt,
  Accounts-write, Accounts-save, Accounts-recording,
}

module _ {S V : Type 0} (d : Deps S V) (wd : Wired d) where
  -- The usual end of a handler: a document is written, and the write is recorded.
  done :
      (op : Op) (e : AuditEntry) (status : ℕ) (body : Body)
      → IsDocument op
      → e.id ≡ ""
      → Accounts {V = V} d.host wd.contract
          (save (run d.store op) >> (recording d.host d.recorder e >> answer status body))
  done op e status body p unnamed = after (Accounts-save op p) (
      after (Accounts-recording d.host d.recorder e wd.recorder unnamed)
        (Accounts-answer status body))

  module _ (r : Request) where
    create_tenant-Accounts : Accounts d.host wd.contract (create_tenant d r)
    unfolding create_tenant
    create_tenant-Accounts = bind (Accounts-check _) λ a.
        after (Accounts-check _)
          (bind (Accounts-time_now _) λ now. done (View.put_tenant _) _ _ _ tt refl)

    patch_tenant-Accounts : (tid : String) → Accounts d.host wd.contract (patch_tenant d tid r)
    unfolding patch_tenant
    patch_tenant-Accounts tid = bind (Accounts-fetch _) λ old. bind (Accounts-check _) λ patch.
        bind (Accounts-time_now _)
          λ now. after (Accounts-check _) (done (View.put_tenant _) _ _ _ tt refl)

    delete_tenant-Accounts : (tid : String) → Accounts d.host wd.contract (delete_tenant d tid r)
    unfolding delete_tenant
    delete_tenant-Accounts tid = done (View.delete_tenant tid) _ _ _ tt refl

    create_agent-Accounts : (tid : String) → Accounts d.host wd.contract (create_agent d tid r)
    unfolding create_agent
    create_agent-Accounts tid = bind (Accounts-check _) λ a.
        after (Accounts-check _)
          (bind (Accounts-time_now _) λ now. done (View.put_agent _) _ _ _ tt refl)

    patch_agent-Accounts : (tid id : String) → Accounts d.host wd.contract (patch_agent d tid id r)
    unfolding patch_agent
    patch_agent-Accounts tid id = bind (Accounts-fetch _) λ old. bind (Accounts-check _) λ patch.
        bind (Accounts-time_now _)
          λ now. after (Accounts-check _) (done (View.put_agent _) _ _ _ tt refl)

    delete_agent-Accounts :
        (tid id : String) → Accounts d.host wd.contract (delete_agent d tid id r)
    unfolding delete_agent
    delete_agent-Accounts tid id = done (View.delete_agent tid id) _ _ _ tt refl

    create_swarm-Accounts : (tid : String) → Accounts d.host wd.contract (create_swarm d tid r)
    unfolding create_swarm
    create_swarm-Accounts tid = bind (Accounts-check _) λ a.
        after (Accounts-check _)
          (bind (Accounts-time_now _) λ now. done (View.put_swarm _) _ _ _ tt refl)

    patch_swarm-Accounts : (tid id : String) → Accounts d.host wd.contract (patch_swarm d tid id r)
    unfolding patch_swarm
    patch_swarm-Accounts tid id = bind (Accounts-fetch _) λ old. bind (Accounts-check _) λ patch.
        bind (Accounts-time_now _)
          λ now. after (Accounts-check _) (done (View.put_swarm _) _ _ _ tt refl)

    delete_swarm-Accounts :
        (tid id : String) → Accounts d.host wd.contract (delete_swarm d tid id r)
    unfolding delete_swarm
    delete_swarm-Accounts tid id = done (View.delete_swarm tid id) _ _ _ tt refl

    put_connector-Accounts :
        (tid : String) (p : Platform) → Accounts d.host wd.contract (put_connector d tid p r)
    unfolding put_connector
    put_connector-Accounts tid p = bind (Accounts-check _) λ body. after (Accounts-check _) (
        bind (Accounts-peek _)
          λ old. bind (Accounts-time_now _) λ now. done (View.put_connector _) _ _ _ tt refl)

    put_admin_user-Accounts :
        (email : String) → Accounts d.host wd.contract (put_admin_user d email r)
    unfolding put_admin_user
    put_admin_user-Accounts email = bind (Accounts-check _) λ body.
        bind (Accounts-time_or_now _ _)
          λ added. after (Accounts-check _) (done (View.put_admin_user _) _ _ _ tt refl)

    delete_admin_user-Accounts :
        (email : String) → Accounts d.host wd.contract (delete_admin_user d email r)
    unfolding delete_admin_user
    delete_admin_user-Accounts email = done (View.delete_admin_user email) _ _ _ tt refl

    rotating-Accounts :
        (rot : SecretRotator S V) (k : Contract rot.store) (writer : Writer V) (tid : String)
        (p : Platform) (kind : SecretKind) (value : String)
        → Accounts d.host k (rotating rot writer tid p kind value)
    unfolding rotating
    rotating-Accounts rot k writer tid p kind value =
        bind (Accounts-attempt _ λ w. (refl, refl, refl)) λ ref. bind (Accounts-fetch _) λ c.
          bind (Accounts-settle _) λ c'.
            after (Accounts-write (write_back rot c') (View.put_connector c') (λ s. refl) tt)
              (Accounts-settle _)

    rotating_wired :
        (rot : SecretRotator S V) (writer : Writer V) (tid : String) (p : Platform)
        (kind : SecretKind) (value : String)
        → rot.store ≡ d.store
        → Accounts d.host wd.contract (rotating rot writer tid p kind value)
    rotating_wired rot writer tid p kind value same =
        subst (λ st. (k : Contract st) → Accounts d.host k (rotating rot writer tid p kind value))
          same (λ k. rotating-Accounts rot k writer tid p kind value) wd.contract

    rotate_secret-Accounts :
        (tid : String) (p : Platform) → Accounts d.host wd.contract (rotate_secret d tid p r)
    unfolding rotate_secret
    rotate_secret-Accounts tid p = bind (Accounts-check _) λ req. after (Accounts-demand _ _ _) (
        after (Accounts-demand _ _ _) (
          provided _ _ _ λ cfg e.
            bind
              (rotating_wired cfg.0 cfg.1 tid p req.kind req.value
                (wd.rotator cfg.0 (some-of_wired _ cfg e)))
              λ ref.
                after (Accounts-recording _ _ _ wd.recorder refl)
                  (bind (Accounts-time_now _) λ now. Accounts-answer _ _)))

    gated :
        (f : Handler S V)
        → Accounts d.host wd.contract (f r)
        → Accounts d.host wd.contract (owner_only f r)
    gated f p =
        owner_only-At (Accounts d.host wd.contract) f r
          (λ status body _. Accounts-answer status body) p

    writes-Accounts : EachWrite d r (Accounts d.host wd.contract)
    writes-Accounts = record {
      on_create_tenant = gated _ create_tenant-Accounts;
      on_patch_tenant = λ tid. gated _ (patch_tenant-Accounts tid);
      on_delete_tenant = λ tid. gated _ (delete_tenant-Accounts tid);
      on_create_agent = λ tid. gated _ (create_agent-Accounts tid);
      on_patch_agent = λ tid id. gated _ (patch_agent-Accounts tid id);
      on_delete_agent = λ tid id. gated _ (delete_agent-Accounts tid id);
      on_create_swarm = λ tid. gated _ (create_swarm-Accounts tid);
      on_patch_swarm = λ tid id. gated _ (patch_swarm-Accounts tid id);
      on_delete_swarm = λ tid id. gated _ (delete_swarm-Accounts tid id);
      on_put_connector = λ tid p. gated _ (put_connector-Accounts tid p);
      on_rotate_secret = λ tid p. gated _ (rotate_secret-Accounts tid p);
      on_put_admin_user = λ email. gated _ (put_admin_user-Accounts email);
      on_delete_admin_user = λ email. gated _ (delete_admin_user-Accounts email);
    }

    pub new_api-Accounts : Accounts d.host wd.contract (new_api d r)
    new_api-Accounts =
        new_api-At d r (Accounts d.host wd.contract) (λ status body _. Accounts-answer status body)
          (EachRead-Reading d r (Accounts d.host wd.contract) Accounts-Reading) writes-Accounts

module _ {S V : Type 0} (cfg : IapAuthConfig S) (assets : Assets) (d : Deps S V) (wd : Wired d)
    (r : Request) where
  -- A request to the service has an entry in hand only between the steps of Recorder.Record.
  pub serve-Accounts : Accounts d.host wd.contract (serve cfg assets d r)
  unfolding serve_api
  serve-Accounts =
      serve-At cfg assets d r (Accounts d.host wd.contract) Accounts-answer
        (iap_auth-At (Accounts d.host wd.contract) Accounts-answer cfg (new_api d) r λ email e.
          bind (Accounts-peek (cfg.store.get_admin_user email)) λ x.
            with_user-At (Accounts d.host wd.contract) (new_api d) r email x (Accounts-answer _ _)
              (λ user. new_api-Accounts d wd (signed_in r email user)))
        (Accounts-Reading _ (serve_ui-Reading cfg assets d r))
