-- ===== src/Config/MemStore/Invariant.antt =====
-- The store's invariant: in every map no key stands twice, and each document stands under its own
-- keys. Every write keeps it.
use sclawion.Prelude.{String, refl, Option-cases, inl, inr, true, List, [], ◌∷◌}
use sclawion.Sorting.{Sorter}
use sclawion.GoMap.{lookup}
use sclawion.GoMap.Laws.{lookup-empty}
use sclawion.GoMap.Kept.{IsKept, insert-IsKept, delete-IsKept}
use sclawion.GoMap.Nested.{find, inner, IsWellKept, put-IsWellKept, remove-IsWellKept}
use sclawion.Config.MemStore
use sclawion.Config.MemStore.{MemStore, new_mem_store, mem_store}
use sclawion.Config.MemStore.View.{
  Op, put_tenant, delete_tenant, put_connector, put_agent, delete_agent, put_swarm, delete_swarm,
  put_admin_user, delete_admin_user, put_audit, run,
}

pub record IsValid (s : MemStore) : Type 0 where
  pub tenants : IsKept (λ t. t.id) s.tenants
  pub conns : IsWellKept (λ c. c.tenant_id) (λ c. c.platform) s.conns
  pub agents : IsWellKept (λ a. a.tenant_id) (λ a. a.id) s.agents
  pub swarms : IsWellKept (λ sw. sw.tenant_id) (λ sw. sw.id) s.swarms
  pub admins : IsKept (λ u. u.email) s.admins

module _ (s : MemStore) (h : IsValid s) where
  delete_tenant-IsValid : (tid : String) → IsValid (MemStore.delete_tenant tid s).1
  unfolding MemStore.delete_tenant
  delete_tenant-IsValid tid = elim (Option-cases (lookup tid s.tenants)) [
    | inl e ↦ rw (e, MemStore.delete_tenant) h
    | inr (t, e) ↦
        rw (e, MemStore.delete_tenant)
          (record {
            tenants =
                insert-IsKept s.tenants h.tenants tid (record t { disabled = true })
                  (h.tenants.keyed tid t e);
            conns = h.conns;
            agents = h.agents;
            swarms = h.swarms;
            admins = h.admins;
          })
  ]

  delete_agent-IsValid : (tid id : String) → IsValid (MemStore.delete_agent tid id s).1
  unfolding MemStore.delete_agent
  delete_agent-IsValid tid id = elim (Option-cases (find tid id s.agents)) [
    | inl e ↦ rw (e, MemStore.delete_agent) h
    | inr (a, e) ↦
        rw (e, MemStore.delete_agent)
          (record {
            tenants = h.tenants;
            conns = h.conns;
            agents = remove-IsWellKept s.agents h.agents tid id;
            swarms = h.swarms;
            admins = h.admins;
          })
  ]

  delete_swarm-IsValid : (tid id : String) → IsValid (MemStore.delete_swarm tid id s).1
  unfolding MemStore.delete_swarm
  delete_swarm-IsValid tid id = elim (Option-cases (find tid id s.swarms)) [
    | inl e ↦ rw (e, MemStore.delete_swarm) h
    | inr (a, e) ↦
        rw (e, MemStore.delete_swarm)
          (record {
            tenants = h.tenants;
            conns = h.conns;
            agents = h.agents;
            swarms = remove-IsWellKept s.swarms h.swarms tid id;
            admins = h.admins;
          })
  ]

  delete_admin_user-IsValid : (email : String) → IsValid (MemStore.delete_admin_user email s).1
  unfolding MemStore.delete_admin_user
  delete_admin_user-IsValid email = elim (Option-cases (lookup email s.admins)) [
    | inl e ↦ rw (e, MemStore.delete_admin_user) h
    | inr (u, e) ↦
        rw (e, MemStore.delete_admin_user)
          (record {
            tenants = h.tenants;
            conns = h.conns;
            agents = h.agents;
            swarms = h.swarms;
            admins = delete-IsKept s.admins h.admins email;
          })
  ]

-- Every write of the in-memory store, failing or not, keeps the invariant.
pub run-IsValid :
    (sorter : Sorter) (op : Op) (s : MemStore) → IsValid s → IsValid (run (mem_store sorter) op s).1
unfolding MemStore.put_tenant MemStore.put_connector MemStore.put_agent MemStore.put_swarm
    MemStore.put_admin_user MemStore.put_audit
run-IsValid sorter (put_tenant t) s h = record {
  tenants = insert-IsKept s.tenants h.tenants t.id t refl;
  conns = h.conns;
  agents = h.agents;
  swarms = h.swarms;
  admins = h.admins;
}
run-IsValid sorter (delete_tenant tid) s h = delete_tenant-IsValid s h tid
run-IsValid sorter (put_connector c) s h = record {
  tenants = h.tenants;
  conns = put-IsWellKept s.conns h.conns c;
  agents = h.agents;
  swarms = h.swarms;
  admins = h.admins;
}
run-IsValid sorter (put_agent a) s h = record {
  tenants = h.tenants;
  conns = h.conns;
  agents = put-IsWellKept s.agents h.agents a;
  swarms = h.swarms;
  admins = h.admins;
}
run-IsValid sorter (delete_agent tid id) s h = delete_agent-IsValid s h tid id
run-IsValid sorter (put_swarm sw) s h = record {
  tenants = h.tenants;
  conns = h.conns;
  agents = h.agents;
  swarms = put-IsWellKept s.swarms h.swarms sw;
  admins = h.admins;
}
run-IsValid sorter (delete_swarm tid id) s h = delete_swarm-IsValid s h tid id
run-IsValid sorter (put_admin_user u) s h = record {
  tenants = h.tenants;
  conns = h.conns;
  agents = h.agents;
  swarms = h.swarms;
  admins = insert-IsKept s.admins h.admins u.email u refl;
}
run-IsValid sorter (delete_admin_user email) s h = delete_admin_user-IsValid s h email
run-IsValid sorter (put_audit e) s h = record {
  tenants = h.tenants;
  conns = h.conns;
  agents = h.agents;
  swarms = h.swarms;
  admins = h.admins;
}

IsKept-empty : {V : Type 0} (key : V → String) → IsKept key []
IsKept-empty {V} key = record {
  unique = tt;
  keyed = λ k v found. cc (lookup-empty {V = V} k, found);
}

IsWellKept-empty : {V : Type 0} (owner key : V → String) → IsWellKept owner key []
unfolding find inner lookup
IsWellKept-empty owner key = record {
  unique = tt;
  unique_inner = λ t. tt;
  keyed = λ t k v found. cc;
}

pub new_mem_store-IsValid : IsValid new_mem_store
new_mem_store-IsValid = record {
  tenants = IsKept-empty _;
  conns = IsWellKept-empty _ _;
  agents = IsWellKept-empty _ _;
  swarms = IsWellKept-empty _ _;
  admins = IsKept-empty _;
}

-- The store after a sequence of writes.
unfoldable pub run_all : Sorter → List Op → MemStore → MemStore
run_all sorter [] s = s
run_all sorter (op ∷ ops) s = run_all sorter ops (run (mem_store sorter) op s).1

-- From a valid store every sequence of writes reaches a valid store.
pub run_all-IsValid :
    (sorter : Sorter) (ops : List Op) (s : MemStore) → IsValid s → IsValid (run_all sorter ops s)
unfolding run_all
run_all-IsValid sorter [] s h = h
run_all-IsValid sorter (op ∷ ops) s h =
    run_all-IsValid sorter ops (run (mem_store sorter) op s).1 (run-IsValid sorter op s h)
