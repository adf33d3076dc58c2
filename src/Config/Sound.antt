-- ===== src/Config/Sound.antt =====
-- A store whose documents are all accepted by the validators, each under its own keys.
use sclawion.Prelude.{
  ◌≡◌, refl, subst, inl, inr, String, true, Option, none, some, eq_iff, text-cases, arith,
  Option-cases,
}
use sclawion.Event.{Platform}
use sclawion.Config.Types.{Tenant, ConnectorConfig, AgentProfile, SwarmDef, AdminUser}
use sclawion.Config.Validate.Accepts.{IsTenant, IsConnector, IsAgent, IsSwarm, IsAdminUser}
use sclawion.Config.MemStore.View.{
  View, update, update₂, Op, spec, put_tenant, delete_tenant, put_connector, put_agent,
  delete_agent, put_swarm, delete_swarm, put_admin_user, delete_admin_user, put_audit,
}

abbrev pub TenantAt : String → Tenant → Type 0
TenantAt k t = (t.id ≡ k) × IsTenant t

abbrev pub ConnectorAt : String → Platform → ConnectorConfig → Type 0
ConnectorAt u k c = (c.tenant_id ≡ u) × (c.platform ≡ k) × IsConnector c

abbrev pub AgentAt : String → String → AgentProfile → Type 0
AgentAt u k a = (a.tenant_id ≡ u) × (a.id ≡ k) × IsAgent a

abbrev pub SwarmAt : String → String → SwarmDef → Type 0
SwarmAt u k sw = (sw.tenant_id ≡ u) × (sw.id ≡ k) × IsSwarm sw

abbrev pub AdminAt : String → AdminUser → Type 0
AdminAt k u = (u.email ≡ k) × IsAdminUser u

pub record IsSound (v : View) : Type 0 where
  pub tenant : (k : String) (t : Tenant) → v.tenant k ≡ some t → TenantAt k t
  pub connector :
      (u : String) (k : Platform) (c : ConnectorConfig)
      → v.connector u k ≡ some c
      → ConnectorAt u k c
  pub agent : (u k : String) (a : AgentProfile) → v.agent u k ≡ some a → AgentAt u k a
  pub swarm : (u k : String) (sw : SwarmDef) → v.swarm u k ≡ some sw → SwarmAt u k sw
  pub admin : (k : String) (u : AdminUser) → v.admin k ≡ some u → AdminAt k u

module _ {V : Type 0} where
  update_all :
      (P : String → V → Type 0) (k : String) (new : Option V) (f : String → Option V)
      → ((x : V) → new ≡ some x → P k x)
      → ((j : String) (x : V) → f j ≡ some x → P j x)
      → (j : String) (x : V) → update k new f j ≡ some x
      → P j x
  update_all P k new f h g j x e = elim (text-cases k j) [
    | inl same ↦ subst (λ i. P i x) same (h x (ground (arith, eq_iff k j)))
    | inr other ↦ g j x (ground arith)
  ]

  update₂_all :
      (P : String → String → V → Type 0) (t k : String) (new : Option V)
      (f : String → String → Option V)
      → ((x : V) → new ≡ some x → P t k x)
      → ((u j : String) (x : V) → f u j ≡ some x → P u j x)
      → (u j : String) (x : V) → update₂ t k new f u j ≡ some x
      → P u j x
  update₂_all P t k new f h g u j x e = elim (text-cases t u) [
    | inl here ↦ elim (text-cases k j) [
      | inl same ↦
          subst (λ i. P i j x) here
            (subst (λ i. P t i x) same (h x (ground (arith, eq_iff k j, eq_iff t u))))
      | inr other ↦ g u j x (ground arith)
    ]
    | inr away ↦ g u j x (ground arith)
  ]

-- What an operation has to guarantee of the document that it writes.
abbrev pub Writes : Op → Type 0
Writes (put_tenant t) = IsTenant t
Writes (put_connector c) = IsConnector c
Writes (put_agent a) = IsAgent a
Writes (put_swarm sw) = IsSwarm sw
Writes (put_admin_user u) = IsAdminUser u
Writes (delete_tenant tid) = Unit
Writes (delete_agent tid id) = Unit
Writes (delete_swarm tid id) = Unit
Writes (delete_admin_user email) = Unit
Writes (put_audit e) = Unit

-- The one document that was written, of the option that holds it.
just : {A : Type 0} (P : A → Type 0) (a : A) → P a → (x : A) → some a ≡ some x → P x
just P a p x e = let same : a ≡ x = cc in subst P same p

gone : {A : Type 0} (P : A → Type 0) (x : A) → none ≡ some x → P x
gone P x e = absurd cc

module _ (v : View) (h : IsSound v) where
  IsSound-tenants :
      (k : String) (new : Option Tenant)
      → ((t : Tenant) → new ≡ some t → TenantAt k t)
      → IsSound (record v { tenant = update k new v.tenant })
  IsSound-tenants k new p = record {
    tenant = update_all TenantAt k new v.tenant p h.tenant;
    connector = h.connector;
    agent = h.agent;
    swarm = h.swarm;
    admin = h.admin;
  }

  IsSound-connectors :
      (t k : String) (new : Option ConnectorConfig)
      → ((c : ConnectorConfig) → new ≡ some c → ConnectorAt t k c)
      → IsSound (record v { connector = update₂ t k new v.connector })
  IsSound-connectors t k new p = record {
    connector = update₂_all ConnectorAt t k new v.connector p h.connector;
    tenant = h.tenant;
    agent = h.agent;
    swarm = h.swarm;
    admin = h.admin;
  }

  IsSound-agents :
      (t k : String) (new : Option AgentProfile)
      → ((a : AgentProfile) → new ≡ some a → AgentAt t k a)
      → IsSound (record v { agent = update₂ t k new v.agent })
  IsSound-agents t k new p = record {
    agent = update₂_all AgentAt t k new v.agent p h.agent;
    tenant = h.tenant;
    connector = h.connector;
    swarm = h.swarm;
    admin = h.admin;
  }

  IsSound-swarms :
      (t k : String) (new : Option SwarmDef)
      → ((sw : SwarmDef) → new ≡ some sw → SwarmAt t k sw)
      → IsSound (record v { swarm = update₂ t k new v.swarm })
  IsSound-swarms t k new p = record {
    swarm = update₂_all SwarmAt t k new v.swarm p h.swarm;
    tenant = h.tenant;
    connector = h.connector;
    agent = h.agent;
    admin = h.admin;
  }

  IsSound-admins :
      (k : String) (new : Option AdminUser)
      → ((u : AdminUser) → new ≡ some u → AdminAt k u)
      → IsSound (record v { admin = update k new v.admin })
  IsSound-admins k new p = record {
    admin = update_all AdminAt k new v.admin p h.admin;
    tenant = h.tenant;
    connector = h.connector;
    agent = h.agent;
    swarm = h.swarm;
  }

  -- The specification keeps the documents sound, if what it writes is accepted.
  pub spec-IsSound : (op : Op) → Writes op → IsSound (spec op v).1
  spec-IsSound (put_tenant t) p = IsSound-tenants t.id (some t) (just (TenantAt t.id) t (refl, p))
  spec-IsSound (put_connector c) p =
      IsSound-connectors c.tenant_id c.platform (some c)
        (just (ConnectorAt c.tenant_id c.platform) c (refl, refl, p))
  spec-IsSound (put_agent a) p =
      IsSound-agents a.tenant_id a.id (some a) (just (AgentAt a.tenant_id a.id) a (refl, refl, p))
  spec-IsSound (put_swarm sw) p =
      IsSound-swarms sw.tenant_id sw.id (some sw)
        (just (SwarmAt sw.tenant_id sw.id) sw (refl, refl, p))
  spec-IsSound (put_admin_user u) p =
      IsSound-admins u.email (some u) (just (AdminAt u.email) u (refl, p))
  spec-IsSound (put_audit e) p = record {
    tenant = h.tenant;
    connector = h.connector;
    agent = h.agent;
    swarm = h.swarm;
    admin = h.admin;
  }
  spec-IsSound (delete_tenant tid) p = elim (Option-cases (v.tenant tid)) [
    | inl e ↦ rw e h
    | inr (t, e) ↦ rw e (
        IsSound-tenants tid (some (record t { disabled = true })) (
          just (TenantAt tid) (record t { disabled = true })
            (
              (h.tenant tid t e).0,
              record {
                identifier = (h.tenant tid t e).1.identifier;
                named = (h.tenant tid t e).1.named;
              },
            )))
  ]
  spec-IsSound (delete_agent tid id) p = elim (Option-cases (v.agent tid id)) [
    | inl e ↦ rw e h
    | inr (a, e) ↦ rw e (IsSound-agents tid id none (gone (AgentAt tid id)))
  ]
  spec-IsSound (delete_swarm tid id) p = elim (Option-cases (v.swarm tid id)) [
    | inl e ↦ rw e h
    | inr (sw, e) ↦ rw e (IsSound-swarms tid id none (gone (SwarmAt tid id)))
  ]
  spec-IsSound (delete_admin_user email) p = elim (Option-cases (v.admin email)) [
    | inl e ↦ rw e h
    | inr (u, e) ↦ rw e (IsSound-admins email none (gone (AdminAt email)))
  ]
