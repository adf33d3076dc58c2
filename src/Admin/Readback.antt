-- ===== src/Admin/Readback.antt =====
-- What the handlers of PUT and PATCH under /v1/tenants/ answer, those of GET answer afterwards.
pub mod Paths
use sclawion.Prelude.{
  ◌≡◌, refl, sym, ap, ◌∙◌, ◌⊎◌, inl, inr, String, Bool, true, false, ◌==◌, ◌&&◌, eq_iff, arith,
  Option, none, some, List, [], ◌∷◌, if◌then◌else◌, if_either,
}
use sclawion.Text.{has_prefix, trim_prefix, split_slash}
use sclawion.Event.{Platform}
use sclawion.Config.Errors.{Result, ok, err, not_found}
use sclawion.Config.Types.{AuditEntry, Tenant, ConnectorConfig, AgentProfile, SwarmDef}
use sclawion.Config.MemStore.{found}
use sclawion.Config.MemStore.View
use sclawion.Config.MemStore.View.{View, update, update₂}
use sclawion.Config.Contract.{some-of_found}
use sclawion.Config.World.{World, tick}
use sclawion.Admin.Http.{
  Body, Request, Response, respond, failure, http_status_for, text, tenant, connector, agent, swarm,
}
use sclawion.Admin.Act.{Act, Handler, stored, continue, ◌>>=◌, ◌>>◌, answer, fetch, run, ◌▷◌}
use sclawion.Admin.Deps.{Deps, owner_only}
use sclawion.Admin.Documents.{Sound}
use sclawion.Admin.Keeping.{Wired}
use sclawion.Admin.Echoes.{
  Echoes, Echoes-answer, Echoes-check, Echoes-fetch, Echoes-peek, Echoes-time_now, Echoes-write,
}
use sclawion.Admin.Tenants.{get_tenant, patch_tenant, patched_tenant}
use sclawion.Admin.Agents.{get_agent, patch_agent, merge_agent}
use sclawion.Admin.Swarms.{get_swarm, patch_swarm, patched_swarm}
use sclawion.Admin.Connectors.{get_connector, put_connector, addressed, with_refs_of}

-- What a handler answers that fetches a document and shows it.
abbrev response_of : {A : Type 0} → (A → Body) → Result A → Response
response_of f (ok a) = respond 200 (f a)
response_of f (err e) = respond (http_status_for e) (failure e)

update-at :
    {A : Type 0} (v : Option A) (f : String → Option A) (k k' : String)
    → k ≡ k'
    → update k v f k' ≡ v
update-at v f k k' e = ground (arith, eq_iff k k')

update₂-at :
    {A : Type 0} (v : Option A) (f : String → String → Option A) (t t' k k' : String)
    → t ≡ t'
    → k ≡ k'
    → update₂ t k v f t' k' ≡ v
update₂-at v f t t' k k' e e' = ground (arith, eq_iff t t', eq_iff k k')

pub with_refs-keys :
    (x : Result ConnectorConfig) (tid : String) (p : Platform) (c : ConnectorConfig)
    → ((with_refs_of x (addressed tid p c)).tenant_id ≡ tid)
      × ((with_refs_of x (addressed tid p c)).platform ≡ p)
unfolding with_refs_of addressed
with_refs-keys (ok old) tid p c = (refl, refl)
with_refs-keys (err e) tid p c = (refl, refl)

module _ {S V : Type 0} {A : Type 0} (f : A → Body) where
  continue-shown :
      (x : Result A) (w : World S V)
      → (continue (stored x) (λ a. answer 200 (f a)) ▷ w).0 ≡ response_of f x
  unfolding answer ◌▷◌ run
  continue-shown (ok a) w = refl
  continue-shown (err e) w = refl

  fetch-shown :
      (read : S → Result A) (w : World S V)
      → ((fetch read >>= λ a. answer 200 (f a)) ▷ w).0 ≡ response_of f (read w.store)
  unfolding fetch ◌>>=◌ ◌▷◌ run
  fetch-shown read w = continue-shown (read w.store) w

module _ {S V : Type 0} (d : Deps S V) (wd : Wired d) (r r' : Request) (w : World S V)
    (sound : Sound wd.contract w) where
  get_tenant-shown :
      (tid : String) (v : World S V)
      → (get_tenant d tid r' ▷ v).0
        ≡ response_of tenant (found ((wd.contract.look v.store).tenant tid))
  unfolding get_tenant
  get_tenant-shown tid v =
      fetch-shown tenant (d.store.get_tenant tid) v
      ∙ ap (response_of tenant) (wd.contract.tenant tid v.store)

  get_connector-shown :
      (tid : String) (p : Platform) (v : World S V)
      → (get_connector d tid p r' ▷ v).0
        ≡ response_of connector (found ((wd.contract.look v.store).connector tid p))
  unfolding get_connector
  get_connector-shown tid p v =
      fetch-shown connector (d.store.get_connector tid p) v
      ∙ ap (response_of connector) (wd.contract.connector tid p v.store)

  get_agent-shown :
      (tid id : String) (v : World S V)
      → (get_agent d tid id r' ▷ v).0
        ≡ response_of agent (found ((wd.contract.look v.store).agent tid id))
  unfolding get_agent
  get_agent-shown tid id v =
      fetch-shown agent (d.store.get_agent tid id) v
      ∙ ap (response_of agent) (wd.contract.agent tid id v.store)

  get_swarm-shown :
      (tid id : String) (v : World S V)
      → (get_swarm d tid id r' ▷ v).0
        ≡ response_of swarm (found ((wd.contract.look v.store).swarm tid id))
  unfolding get_swarm
  get_swarm-shown tid id v =
      fetch-shown swarm (d.store.get_swarm tid id) v
      ∙ ap (response_of swarm) (wd.contract.swarm tid id v.store)

  pub patch_agent-Echoes :
      (tid id : String) → Echoes (get_agent d tid id r') (patch_agent d tid id r) w
  unfolding patch_agent merge_agent ◌>>◌
  patch_agent-Echoes tid id =
      let get : Act S V Response = get_agent d tid id r' in
      Echoes-fetch get _ _ w λ old e.
        let (at_tid, at_id, _) =
          sound.agent tid id old
            (some-of_found _ old (sym (wd.contract.agent tid id w.store) ∙ e)) in
        Echoes-check get _ _ w λ patch _. Echoes-time_now get d.host _ w (
          Echoes-check get _ _ (tick d.host w) λ _ _.
            Echoes-write wd.contract get (λ v. response_of agent (found (v.agent tid id)))
              (get_agent-shown tid id) d.host d.recorder wd.recorder (View.put_agent _) _ _
              (tick d.host w) refl
              (λ c.
                ap (λ o. response_of agent (found o))
                  (update₂-at _ (wd.contract.look w.store).agent _ tid _ id at_tid at_id)))

  pub patch_swarm-Echoes :
      (tid id : String) → Echoes (get_swarm d tid id r') (patch_swarm d tid id r) w
  unfolding patch_swarm patched_swarm ◌>>◌
  patch_swarm-Echoes tid id =
      let get : Act S V Response = get_swarm d tid id r' in
      Echoes-fetch get _ _ w λ old e.
        let (at_tid, at_id, _) =
          sound.swarm tid id old
            (some-of_found _ old (sym (wd.contract.swarm tid id w.store) ∙ e)) in
        Echoes-check get _ _ w λ patch _. Echoes-time_now get d.host _ w (
          Echoes-check get _ _ (tick d.host w) λ _ _.
            Echoes-write wd.contract get (λ v. response_of swarm (found (v.swarm tid id)))
              (get_swarm-shown tid id) d.host d.recorder wd.recorder (View.put_swarm _) _ _
              (tick d.host w) refl
              (λ c.
                ap (λ o. response_of swarm (found o))
                  (update₂-at _ (wd.contract.look w.store).swarm _ tid _ id at_tid at_id)))

  pub patch_tenant-Echoes : (tid : String) → Echoes (get_tenant d tid r') (patch_tenant d tid r) w
  unfolding patch_tenant patched_tenant ◌>>◌
  patch_tenant-Echoes tid =
      let get : Act S V Response = get_tenant d tid r' in
      Echoes-fetch get _ _ w λ old e.
        let (at_tid, _) =
          sound.tenant tid old (some-of_found _ old (sym (wd.contract.tenant tid w.store) ∙ e)) in
        Echoes-check get _ _ w λ patch _. Echoes-time_now get d.host _ w (
          Echoes-check get _ _ (tick d.host w) λ _ _.
            Echoes-write wd.contract get (λ v. response_of tenant (found (v.tenant tid)))
              (get_tenant-shown tid) d.host d.recorder wd.recorder (View.put_tenant _) _ _
              (tick d.host w) refl
              (λ c.
                ap (λ o. response_of tenant (found o))
                  (update-at _ (wd.contract.look w.store).tenant _ tid at_tid)))

  pub put_connector-Echoes :
      (tid : String) (p : Platform) → Echoes (get_connector d tid p r') (put_connector d tid p r) w
  unfolding put_connector ◌>>◌
  put_connector-Echoes tid p =
      let get : Act S V Response = get_connector d tid p r' in
      Echoes-check get _ _ w λ body _. Echoes-check get _ _ w λ _ _. Echoes-peek get _ _ w (
        Echoes-time_now get d.host _ w (
          let (at_tid, at_p) = with_refs-keys (d.store.get_connector tid p w.store) tid p body in
          Echoes-write wd.contract get (λ v. response_of connector (found (v.connector tid p)))
            (get_connector-shown tid p) d.host d.recorder wd.recorder (View.put_connector _) _ _
            (tick d.host w) refl
            (λ c.
              ap (λ o. response_of connector (found o))
                (update₂-at _ (wd.contract.look w.store).connector _ tid _ p at_tid at_p))))
