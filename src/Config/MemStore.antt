-- ===== src/Config/MemStore.antt =====
-- pkg/config/memstore.go: the store in memory. Each method runs under the store's lock, so it is one
-- step from a state to the next. The listings take the sort as an argument (Sorting).
pub mod View
pub mod Refinement
pub mod Invariant
pub mod Listings
pub mod AuditLog
use sclawion.Prelude.{
  String, Bool, true, false, not, ◌&&◌, ◌||◌, Option, none, some, List, [], ◌∷◌, ◌++◌, ◌==◌, length,
  take, keep, if◌then◌else◌,
}
use sclawion.Prelude.Int.{ℤ, pos, pos_part, ltb_ℤ}
use sclawion.Sorting.{Sorter}
use sclawion.GoMap.{GoMap, lookup, insert, delete}
use sclawion.GoMap.Listing.{listing}
use sclawion.GoMap.Nested.{Nested, inner, find, put, remove}
use sclawion.Event.{Platform, Time}
use sclawion.Config.Errors.{Result, ok, err, not_found}
use sclawion.Config.Types.{Tenant, ConnectorConfig, AgentProfile, SwarmDef, AdminUser, AuditEntry}
use sclawion.Config.Store.{AuditFilter, Write, Store}

pub record MemStore : Type 0 where
  pub tenants : GoMap Tenant
  pub conns : Nested ConnectorConfig
  pub agents : Nested AgentProfile
  pub swarms : Nested SwarmDef
  pub admins : GoMap AdminUser
  pub audit : List AuditEntry

abbrev pub new_mem_store : MemStore
new_mem_store = record {
  tenants = [];
  conns = [];
  agents = [];
  swarms = [];
  admins = [];
  audit = [];
}

-- `v, ok := …; if !ok { return ErrNotFound }; return v`
abbrev pub found {ℓ} : {A : Type ℓ} → Option A → Result A
found none = err not_found
found (some v) = ok v

unfoldable pub list_tenants : Sorter → MemStore → Result (List Tenant)
list_tenants sorter s = ok (listing (λ t. t.id) sorter s.tenants)

unfoldable pub get_tenant : String → MemStore → Result Tenant
get_tenant tid s = found (lookup tid s.tenants)

unfoldable pub put_tenant : Tenant → Write MemStore
put_tenant t s = (ok tt, record s { tenants = insert t.id t s.tenants })

unfoldable pub delete_tenant : String → Write MemStore
delete_tenant tid s = elim (lookup tid s.tenants) [
  | none ↦ (err not_found, s)
  | some t ↦ (ok tt, record s { tenants = insert tid (record t { disabled = true }) s.tenants })
]

unfoldable pub list_connectors : Sorter → String → MemStore → Result (List ConnectorConfig)
list_connectors sorter tid s = ok (listing (λ c. c.platform) sorter (inner tid s.conns))

unfoldable pub get_connector : String → Platform → MemStore → Result ConnectorConfig
get_connector tid p s = found (find tid p s.conns)

unfoldable pub put_connector : ConnectorConfig → Write MemStore
put_connector c s = (ok tt, record s { conns = put c.tenant_id c.platform c s.conns })

unfoldable pub list_agents : Sorter → String → MemStore → Result (List AgentProfile)
list_agents sorter tid s = ok (listing (λ a. a.id) sorter (inner tid s.agents))

unfoldable pub get_agent : String → String → MemStore → Result AgentProfile
get_agent tid id s = found (find tid id s.agents)

unfoldable pub put_agent : AgentProfile → Write MemStore
put_agent a s = (ok tt, record s { agents = put a.tenant_id a.id a s.agents })

unfoldable pub delete_agent : String → String → Write MemStore
delete_agent tid id s = elim (find tid id s.agents) [
  | none ↦ (err not_found, s)
  | some a ↦ (ok tt, record s { agents = remove tid id s.agents })
]

unfoldable pub list_swarms : Sorter → String → MemStore → Result (List SwarmDef)
list_swarms sorter tid s = ok (listing (λ sw. sw.id) sorter (inner tid s.swarms))

unfoldable pub get_swarm : String → String → MemStore → Result SwarmDef
get_swarm tid id s = found (find tid id s.swarms)

unfoldable pub put_swarm : SwarmDef → Write MemStore
put_swarm sw s = (ok tt, record s { swarms = put sw.tenant_id sw.id sw s.swarms })

unfoldable pub delete_swarm : String → String → Write MemStore
delete_swarm tid id s = elim (find tid id s.swarms) [
  | none ↦ (err not_found, s)
  | some sw ↦ (ok tt, record s { swarms = remove tid id s.swarms })
]

unfoldable pub list_admin_users : Sorter → MemStore → Result (List AdminUser)
list_admin_users sorter s = ok (listing (λ u. u.email) sorter s.admins)

unfoldable pub get_admin_user : String → MemStore → Result AdminUser
get_admin_user email s = found (lookup email s.admins)

unfoldable pub put_admin_user : AdminUser → Write MemStore
put_admin_user u s = (ok tt, record s { admins = insert u.email u s.admins })

unfoldable pub delete_admin_user : String → Write MemStore
delete_admin_user email s = elim (lookup email s.admins) [
  | none ↦ (err not_found, s)
  | some u ↦ (ok tt, record s { admins = delete email s.admins })
]

unfoldable pub put_audit : AuditEntry → Write MemStore
put_audit e s = (ok tt, record s { audit = s.audit ++ e ∷ [] })

-- `f != "" && v != f` does not hold.
abbrev wanted : String → String → Bool
wanted f v = f == "" || v == f

-- The loop keeps an entry that none of the three tests skips.
unfoldable pub passes : AuditFilter → AuditEntry → Bool
passes f e =
    wanted f.tenant_id e.tenant_id
    && wanted f.actor e.actor
    && wanted f.resource_type e.resource_type

-- out[i].At.After(out[j].At)
abbrev pub newer : AuditEntry → AuditEntry → Bool
newer a b = ltb_ℤ b.at a.at

-- `if f.Limit > 0 && len(out) > f.Limit { out = out[:f.Limit] }`
unfoldable pub limited : ℤ → List AuditEntry → List AuditEntry
limited n out = if ltb_ℤ (pos 0) n && ltb_ℤ n (pos (length out)) then take (pos_part n) out else out

unfoldable pub list_audit : Sorter → AuditFilter → MemStore → Result (List AuditEntry)
list_audit sorter f s =
    ok (limited f.limit (sorter.sort AuditEntry newer (keep (passes f) s.audit)))

-- `MemStore` implements `Store`.
abbrev pub mem_store : Sorter → Store MemStore
mem_store sorter = record {
  list_tenants = list_tenants sorter;
  get_tenant = get_tenant;
  put_tenant = put_tenant;
  delete_tenant = delete_tenant;
  list_connectors = list_connectors sorter;
  get_connector = get_connector;
  put_connector = put_connector;
  list_agents = list_agents sorter;
  get_agent = get_agent;
  put_agent = put_agent;
  delete_agent = delete_agent;
  list_swarms = list_swarms sorter;
  get_swarm = get_swarm;
  put_swarm = put_swarm;
  delete_swarm = delete_swarm;
  list_admin_users = list_admin_users sorter;
  get_admin_user = get_admin_user;
  put_admin_user = put_admin_user;
  delete_admin_user = delete_admin_user;
  put_audit = put_audit;
  list_audit = list_audit sorter;
}
