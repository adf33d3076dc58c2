-- ===== src/Admin/Confined/Handlers.antt =====
-- Every handler under a tenant changes the documents of that tenant only.
use sclawion.Prelude.{ℕ, ◌≡◌, refl, sym, ◌∙◌, subst, inl, inr, String, text-cases, eq_iff, arith}
use sclawion.Event.{Platform}
use sclawion.Config.Errors.{ok}
use sclawion.Config.Types.{
  AuditEntry, ConnectorConfig, SecretKind, SecretRef, kind_signing, kind_oauth,
}
use sclawion.Config.Tenancy.{Touches}
use sclawion.Config.MemStore.View
use sclawion.Config.MemStore.View.{Op, run}
use sclawion.Config.Contract.{Contract, some-of_found}
use sclawion.Config.World.{Writer}
use sclawion.Config.Secrets.{SecretRotator, set_ref}
use sclawion.Admin.Http.{Request, Body}
use sclawion.Admin.Act.{Handler, ◌>>◌, save, settle, answer}
use sclawion.Admin.Recording.{recording}
use sclawion.Admin.Deps.{Deps, owner_only}
use sclawion.Admin.Keeping.{Wired, some-of_wired}
use sclawion.Admin.Rotating.{got, wrap-ok}
use sclawion.Admin.Readback.{with_refs-keys}
use sclawion.Admin.Connectors.{put_connector, rotate_secret, rotating, write_back}
use sclawion.Admin.Tenants.{patch_tenant, delete_tenant, patched_tenant}
use sclawion.Admin.Agents.{create_agent, patch_agent, delete_agent, merge_agent}
use sclawion.Admin.Swarms.{create_swarm, patch_swarm, delete_swarm, patched_swarm}
use sclawion.Admin.Owners.{owner_only-At}
use sclawion.Admin.Under.{EachUnder}
use sclawion.Admin.Confined.{Confines, Confines-ended, bind, after}
use sclawion.Admin.Confined.Rules.{
  Confines-answer, Confines-check, Confines-demand, Confines-peek, Confines-time_now,
  Confines-attempt, Confines-write, Confines-save, Confines-recording, fetched, settled, provided,
}

set_ref-tenant :
    (kind : SecretKind) (ref : SecretRef) (c c' : ConnectorConfig)
    → set_ref kind ref c ≡ ok c'
    → c'.tenant_id ≡ c.tenant_id
unfolding set_ref
set_ref-tenant kind ref c c' e = elim (text-cases kind kind_signing) [
  | inl s ↦ ground (arith, e, eq_iff kind kind_signing)
  | inr s ↦ elim (text-cases kind kind_oauth) [
    | inl o ↦ ground (arith, e, s, eq_iff kind kind_oauth)
    | inr o ↦ absurd (ground (arith, e, s, o))
  ]
]

module _ {S V : Type 0} (rot : SecretRotator S V) (k : Contract rot.store) where
  confined_here :
      (writer : Writer V) (tid : String) (p : Platform) (kind : SecretKind) (value : String)
      → Confines k tid (rotating rot writer tid p kind value)
  unfolding rotating settle
  confined_here writer tid p kind value = bind (Confines-attempt _ λ w. refl) λ ref.
      fetched _ λ w c h e. settled _ λ c' e'.
        let found = got rot k tid p w.store c (wrap-ok _ _ c e) in
        after
          (Confines-write (write_back rot c') (View.put_connector c') (λ s. refl)
            (set_ref-tenant kind ref c c' e' ∙ (h.connector tid p c found).0))
          (Confines-ended _)

Confines-rotating :
    {S V : Type 0} (d : Deps S V) (wd : Wired d) (rot : SecretRotator S V) (writer : Writer V)
    (tid : String) (p : Platform) (kind : SecretKind) (value : String)
    → rot.store ≡ d.store
    → Confines wd.contract tid (rotating rot writer tid p kind value)
Confines-rotating d wd rot writer tid p kind value same =
    subst (λ st. (k : Contract st) → Confines k tid (rotating rot writer tid p kind value)) same
      (λ k. confined_here rot k writer tid p kind value) wd.contract

module _ {S V : Type 0} (d : Deps S V) (wd : Wired d) (tid : String) where
  -- The usual end of a handler.
  done :
      (op : Op) (e : AuditEntry) (status : ℕ) (body : Body)
      → Touches tid op
      → Confines {V = V} wd.contract tid
          (save (run d.store op) >> (recording d.host d.recorder e >> answer status body))
  done op e status body p =
      after (Confines-save op p)
        (after (Confines-recording d.host d.recorder e wd.recorder) (Confines-answer status body))

  module _ (r : Request) where
    patch_tenant-Confines : Confines wd.contract tid (patch_tenant d tid r)
    unfolding patch_tenant patched_tenant
    patch_tenant-Confines = fetched _ λ w old h e. bind (Confines-check _) λ patch.
        bind (Confines-time_now _) λ now. after (Confines-check _) (
          done (View.put_tenant _) _ _ _
            (h.tenant tid old (some-of_found _ old (sym (wd.contract.tenant tid w.store) ∙ e))).0)

    delete_tenant-Confines : Confines wd.contract tid (delete_tenant d tid r)
    unfolding delete_tenant
    delete_tenant-Confines = done (View.delete_tenant tid) _ _ _ refl

    create_agent-Confines : Confines wd.contract tid (create_agent d tid r)
    unfolding create_agent
    create_agent-Confines = bind (Confines-check _) λ a.
        after (Confines-check _)
          (bind (Confines-time_now _) λ now. done (View.put_agent _) _ _ _ refl)

    patch_agent-Confines : (id : String) → Confines wd.contract tid (patch_agent d tid id r)
    unfolding patch_agent merge_agent
    patch_agent-Confines id = fetched _ λ w old h e. bind (Confines-check _) λ patch.
        bind (Confines-time_now _) λ now. after (Confines-check _) (
          done (View.put_agent _) _ _ _
            (h.agent tid id old
              (some-of_found _ old (sym (wd.contract.agent tid id w.store) ∙ e))).0)

    delete_agent-Confines : (id : String) → Confines wd.contract tid (delete_agent d tid id r)
    unfolding delete_agent
    delete_agent-Confines id = done (View.delete_agent tid id) _ _ _ refl

    create_swarm-Confines : Confines wd.contract tid (create_swarm d tid r)
    unfolding create_swarm
    create_swarm-Confines = bind (Confines-check _) λ a.
        after (Confines-check _)
          (bind (Confines-time_now _) λ now. done (View.put_swarm _) _ _ _ refl)

    patch_swarm-Confines : (id : String) → Confines wd.contract tid (patch_swarm d tid id r)
    unfolding patch_swarm patched_swarm
    patch_swarm-Confines id = fetched _ λ w old h e. bind (Confines-check _) λ patch.
        bind (Confines-time_now _) λ now. after (Confines-check _) (
          done (View.put_swarm _) _ _ _
            (h.swarm tid id old
              (some-of_found _ old (sym (wd.contract.swarm tid id w.store) ∙ e))).0)

    delete_swarm-Confines : (id : String) → Confines wd.contract tid (delete_swarm d tid id r)
    unfolding delete_swarm
    delete_swarm-Confines id = done (View.delete_swarm tid id) _ _ _ refl

    put_connector-Confines : (p : Platform) → Confines wd.contract tid (put_connector d tid p r)
    unfolding put_connector
    put_connector-Confines p = bind (Confines-check _) λ body. after (Confines-check _) (
        bind (Confines-peek _) λ old.
          bind (Confines-time_now _)
            λ now. done (View.put_connector _) _ _ _ (with_refs-keys old tid p body).0)

    rotate_secret-Confines : (p : Platform) → Confines wd.contract tid (rotate_secret d tid p r)
    unfolding rotate_secret
    rotate_secret-Confines p = bind (Confines-check _) λ req. after (Confines-demand _ _ _) (
        after (Confines-demand _ _ _) (
          provided _ _ _ λ cfg e.
            bind
              (Confines-rotating d wd cfg.0 cfg.1 tid p req.kind req.value
                (wd.rotator cfg.0 (some-of_wired _ cfg e)))
              λ ref.
                after (Confines-recording _ _ _ wd.recorder)
                  (bind (Confines-time_now _) λ now. Confines-answer _ _)))

    gated :
        (f : Handler S V)
        → Confines wd.contract tid (f r)
        → Confines wd.contract tid (owner_only f r)
    gated f p =
        owner_only-At (Confines wd.contract tid) f r (λ status body _. Confines-answer status body)
          p

    pub under-Confines : EachUnder d r (Confines wd.contract tid) tid
    under-Confines = record {
      on_patch_tenant = gated _ patch_tenant-Confines;
      on_delete_tenant = gated _ delete_tenant-Confines;
      on_create_agent = gated _ create_agent-Confines;
      on_patch_agent = λ id. gated _ (patch_agent-Confines id);
      on_delete_agent = λ id. gated _ (delete_agent-Confines id);
      on_create_swarm = gated _ create_swarm-Confines;
      on_patch_swarm = λ id. gated _ (patch_swarm-Confines id);
      on_delete_swarm = λ id. gated _ (delete_swarm-Confines id);
      on_put_connector = λ p. gated _ (put_connector-Confines p);
      on_rotate_secret = λ p. gated _ (rotate_secret-Confines p);
    }
