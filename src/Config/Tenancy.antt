-- ===== src/Config/Tenancy.antt =====
-- The tenants of the configuration: what a write to the documents of one leaves of the others.
use sclawion.Prelude.{
  ◌≡◌, ◌≢◌, refl, sym, ap, ◌∙◌, inl, inr, String, Option, none, some, true, eq-false_of_ne,
  Option-cases, arith,
}
use sclawion.Event.{Platform}
use sclawion.Config.Types.{Tenant, ConnectorConfig, AgentProfile, SwarmDef}
use sclawion.Config.MemStore.View.{
  View, Op, update, update₂, spec, put_tenant, delete_tenant, put_connector, put_agent,
  delete_agent, put_swarm, delete_swarm, put_admin_user, delete_admin_user, put_audit,
}

-- What a view shows of every other tenant and of the administrators is what the other shows.
pub record Spares (tid : String) (v v' : View) : Type 0 where
  pub tenant : (u : String) → u ≢ tid → v'.tenant u ≡ v.tenant u
  pub connector : (u : String) (p : Platform) → u ≢ tid → v'.connector u p ≡ v.connector u p
  pub agent : (u id : String) → u ≢ tid → v'.agent u id ≡ v.agent u id
  pub swarm : (u id : String) → u ≢ tid → v'.swarm u id ≡ v.swarm u id
  pub admin : (email : String) → v'.admin email ≡ v.admin email

pub Spares-same : (tid : String) (v v' : View) → v' ≡ v → Spares tid v v'
Spares-same tid v v' e = record {
  tenant = λ u n. ap (λ (x : View). x.tenant u) e;
  connector = λ u p n. ap (λ (x : View). x.connector u p) e;
  agent = λ u id n. ap (λ (x : View). x.agent u id) e;
  swarm = λ u id n. ap (λ (x : View). x.swarm u id) e;
  admin = λ email. ap (λ (x : View). x.admin email) e;
}

-- The write is one of the tenant's, or of an audit entry.
abbrev pub Touches : String → Op → Type 0
Touches tid (put_tenant t) = t.id ≡ tid
Touches tid (delete_tenant t) = t ≡ tid
Touches tid (put_connector c) = c.tenant_id ≡ tid
Touches tid (put_agent a) = a.tenant_id ≡ tid
Touches tid (delete_agent t id) = t ≡ tid
Touches tid (put_swarm sw) = sw.tenant_id ≡ tid
Touches tid (delete_swarm t id) = t ≡ tid
Touches tid (put_admin_user u) = ⊥
Touches tid (delete_admin_user email) = ⊥
Touches tid (put_audit e) = Unit

module _ {V : Type 0} where
  update-other :
      (k tid : String) (x : Option V) (f : String → Option V)
      → k ≡ tid
      → (u : String) → u ≢ tid
      → update k x f u ≡ f u
  update-other k tid x f e u n = ground (arith, eq-false_of_ne k u (λ same. n (sym same ∙ e)))

  update₂-other :
      (t tid k : String) (x : Option V) (f : String → String → Option V)
      → t ≡ tid
      → (u j : String) → u ≢ tid
      → update₂ t k x f u j ≡ f u j
  update₂-other t tid k x f e u j n = ground (arith, eq-false_of_ne t u (λ same. n (sym same ∙ e)))

module _ (tid : String) (v : View) where
  Spares-tenant :
      (f : String → Option Tenant)
      → ((u : String) → u ≢ tid → f u ≡ v.tenant u)
      → Spares tid v (record v { tenant = f })
  Spares-tenant f h = record {
    tenant = h;
    connector = λ u p n. refl;
    agent = λ u id n. refl;
    swarm = λ u id n. refl;
    admin = λ email. refl;
  }

  Spares-connector :
      (f : String → Platform → Option ConnectorConfig)
      → ((u : String) (p : Platform) → u ≢ tid → f u p ≡ v.connector u p)
      → Spares tid v (record v { connector = f })
  Spares-connector f h = record {
    tenant = λ u n. refl;
    connector = h;
    agent = λ u id n. refl;
    swarm = λ u id n. refl;
    admin = λ email. refl;
  }

  Spares-agent :
      (f : String → String → Option AgentProfile)
      → ((u id : String) → u ≢ tid → f u id ≡ v.agent u id)
      → Spares tid v (record v { agent = f })
  Spares-agent f h = record {
    tenant = λ u n. refl;
    connector = λ u p n. refl;
    agent = h;
    swarm = λ u id n. refl;
    admin = λ email. refl;
  }

  Spares-swarm :
      (f : String → String → Option SwarmDef)
      → ((u id : String) → u ≢ tid → f u id ≡ v.swarm u id)
      → Spares tid v (record v { swarm = f })
  Spares-swarm f h = record {
    tenant = λ u n. refl;
    connector = λ u p n. refl;
    agent = λ u id n. refl;
    swarm = h;
    admin = λ email. refl;
  }

  Spares-update :
      (t : String) (x : Option Tenant)
      → t ≡ tid
      → Spares tid v (record v { tenant = update t x v.tenant })
  Spares-update t x e = Spares-tenant (update t x v.tenant) (update-other t tid x v.tenant e)

  -- A write to the documents of the tenant spares the others.
  pub Spares-spec : (op : Op) → Touches tid op → Spares tid v (spec op v).1
  Spares-spec (put_tenant t) e = Spares-update t.id (some t) e
  Spares-spec (put_connector c) e =
      Spares-connector _ (update₂-other c.tenant_id tid c.platform (some c) v.connector e)
  Spares-spec (put_agent a) e =
      Spares-agent _ (update₂-other a.tenant_id tid a.id (some a) v.agent e)
  Spares-spec (put_swarm sw) e =
      Spares-swarm _ (update₂-other sw.tenant_id tid sw.id (some sw) v.swarm e)
  Spares-spec (put_admin_user u) e = absurd e
  Spares-spec (delete_admin_user email) e = absurd e
  Spares-spec (put_audit a) e = record {
    tenant = λ u n. refl;
    connector = λ u p n. refl;
    agent = λ u id n. refl;
    swarm = λ u id n. refl;
    admin = λ email. refl;
  }
  Spares-spec (delete_tenant t) e = elim (Option-cases (v.tenant t)) [
    | inl f ↦ rw f (Spares-same tid v v refl)
    | inr (x, f) ↦ rw f (Spares-update t (some (record x { disabled = true })) e)
  ]
  Spares-spec (delete_agent t id) e = elim (Option-cases (v.agent t id)) [
    | inl f ↦ rw f (Spares-same tid v v refl)
    | inr (x, f) ↦ rw f (Spares-agent _ (update₂-other t tid id none v.agent e))
  ]
  Spares-spec (delete_swarm t id) e = elim (Option-cases (v.swarm t id)) [
    | inl f ↦ rw f (Spares-same tid v v refl)
    | inr (x, f) ↦ rw f (Spares-swarm _ (update₂-other t tid id none v.swarm e))
  ]
