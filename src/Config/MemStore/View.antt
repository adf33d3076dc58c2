-- ===== src/Config/MemStore/View.antt =====
-- The store as its callers see it: what a read of each key returns, with no trace of the maps. The
-- writes of the interface as values, and what each does to the view.
use sclawion.Prelude.{
  String, true, ◌&&◌, Option, none, some, List, [], ◌∷◌, ◌++◌, ◌==◌, if◌then◌else◌,
}
use sclawion.GoMap.{lookup}
use sclawion.GoMap.Nested.{find}
use sclawion.Event.{Platform}
use sclawion.Config.Errors.{Result, ok, err, not_found}
use sclawion.Config.Types.{Tenant, ConnectorConfig, AgentProfile, SwarmDef, AdminUser, AuditEntry}
use sclawion.Config.Store.{Write, Store}
use sclawion.Config.MemStore.{MemStore}

pub record View : Type 0 where
  pub tenant : String → Option Tenant
  pub connector : String → Platform → Option ConnectorConfig
  pub agent : String → String → Option AgentProfile
  pub swarm : String → String → Option SwarmDef
  pub admin : String → Option AdminUser
  pub audit : List AuditEntry

unfoldable pub view : MemStore → View
view s = record {
  tenant = λ tid. lookup tid s.tenants;
  connector = λ tid p. find tid p s.conns;
  agent = λ tid id. find tid id s.agents;
  swarm = λ tid id. find tid id s.swarms;
  admin = λ email. lookup email s.admins;
  audit = s.audit;
}

abbrev pub update : {V : Type 0} → String → Option V → (String → Option V) → String → Option V
update k v f j = if k == j then v else f j

abbrev pub update₂ :
    {V : Type 0}
    → String
    → String
    → Option V
    → (String → String → Option V)
    → String
    → String
    → Option V
update₂ t k v f u j = if t == u && k == j then v else f u j

-- The writing methods of `Store`.
pub data Op : Type 0 where
  put_tenant : Tenant → Op
  delete_tenant : String → Op
  put_connector : ConnectorConfig → Op
  put_agent : AgentProfile → Op
  delete_agent : String → String → Op
  put_swarm : SwarmDef → Op
  delete_swarm : String → String → Op
  put_admin_user : AdminUser → Op
  delete_admin_user : String → Op
  put_audit : AuditEntry → Op

-- The method of the interface that the operation calls.
abbrev pub run : {S : Type 0} → Store S → Op → Write S
run st (put_tenant t) = st.put_tenant t
run st (delete_tenant tid) = st.delete_tenant tid
run st (put_connector c) = st.put_connector c
run st (put_agent a) = st.put_agent a
run st (delete_agent tid id) = st.delete_agent tid id
run st (put_swarm sw) = st.put_swarm sw
run st (delete_swarm tid id) = st.delete_swarm tid id
run st (put_admin_user u) = st.put_admin_user u
run st (delete_admin_user email) = st.delete_admin_user email
run st (put_audit e) = st.put_audit e

-- Deleting what is not there fails and changes nothing.
abbrev if_present : {V : Type 0} → Option V → (V → View) → View → Result (Unit {0}) × View
if_present none f v = (err not_found, v)
if_present (some x) f v = (ok tt, f x)

-- The specification: one document changes, or one entry is appended. A tenant is never removed,
-- deleting it sets its flag.
abbrev pub spec : Op → View → Result (Unit {0}) × View
spec (put_tenant t) v = (ok tt, record v { tenant = update t.id (some t) v.tenant })
spec (delete_tenant tid) v =
    if_present (v.tenant tid)
      (λ t. record v { tenant = update tid (some (record t { disabled = true })) v.tenant }) v
spec (put_connector c) v =
    (ok tt, record v { connector = update₂ c.tenant_id c.platform (some c) v.connector })
spec (put_agent a) v = (ok tt, record v { agent = update₂ a.tenant_id a.id (some a) v.agent })
spec (delete_agent tid id) v =
    if_present (v.agent tid id) (λ _. record v { agent = update₂ tid id none v.agent }) v
spec (put_swarm sw) v = (ok tt, record v { swarm = update₂ sw.tenant_id sw.id (some sw) v.swarm })
spec (delete_swarm tid id) v =
    if_present (v.swarm tid id) (λ _. record v { swarm = update₂ tid id none v.swarm }) v
spec (put_admin_user u) v = (ok tt, record v { admin = update u.email (some u) v.admin })
spec (delete_admin_user email) v =
    if_present (v.admin email) (λ _. record v { admin = update email none v.admin }) v
spec (put_audit e) v = (ok tt, record v { audit = v.audit ++ e ∷ [] })
