-- ===== src/Config/MemStore/Refinement.antt =====
-- `MemStore` implements the specification of the store's writes, and its reads return the view.
use mathlib.Core.Path.{fun_ext}
use sclawion.Prelude.{String, ◌≡◌, refl, Option-cases, inl, inr, true}
use sclawion.Sorting.{Sorter}
use sclawion.GoMap.{lookup}
use sclawion.GoMap.Laws.{lookup-insert, lookup-delete}
use sclawion.GoMap.Nested.{find, find-put, find-remove}
use sclawion.Config.MemStore
use sclawion.Config.MemStore.{MemStore, mem_store}
use sclawion.Config.MemStore.View.{
  view, Op, put_tenant, delete_tenant, put_connector, put_agent, delete_agent, put_swarm,
  delete_swarm, put_admin_user, delete_admin_user, put_audit, run, spec,
}

-- A document written or removed in the maps is written or removed in the view.
abbrev Refines : Sorter → Op → MemStore → Type 0
Refines sorter op s =
    ((run (mem_store sorter) op s).0 ≡ (spec op (view s)).0)
    × (view (run (mem_store sorter) op s).1 ≡ (spec op (view s)).1)

module _ (sorter : Sorter) (s : MemStore) where
  delete_tenant-Refines : (tid : String) → Refines sorter (delete_tenant tid) s
  unfolding view MemStore.delete_tenant
  delete_tenant-Refines tid = elim (Option-cases (lookup tid s.tenants)) [
    | inl e ↦ rw (e, MemStore.delete_tenant) (refl, refl)
    | inr (t, e) ↦
        rw (e, MemStore.delete_tenant)
          (
            refl,
            λ i. record (view s) {
              tenant =
                  fun_ext (λ j. lookup-insert tid j (record t { disabled = true }) s.tenants) i;
            },
          )
  ]

  delete_agent-Refines : (tid id : String) → Refines sorter (delete_agent tid id) s
  unfolding view MemStore.delete_agent
  delete_agent-Refines tid id = elim (Option-cases (find tid id s.agents)) [
    | inl e ↦ rw (e, MemStore.delete_agent) (refl, refl)
    | inr (a, e) ↦
        rw (e, MemStore.delete_agent)
          (
            refl,
            λ i. record (view s) {
              agent = fun_ext (λ u. fun_ext (λ j. find-remove tid id u j s.agents)) i;
            },
          )
  ]

  delete_swarm-Refines : (tid id : String) → Refines sorter (delete_swarm tid id) s
  unfolding view MemStore.delete_swarm
  delete_swarm-Refines tid id = elim (Option-cases (find tid id s.swarms)) [
    | inl e ↦ rw (e, MemStore.delete_swarm) (refl, refl)
    | inr (sw, e) ↦
        rw (e, MemStore.delete_swarm)
          (
            refl,
            λ i. record (view s) {
              swarm = fun_ext (λ u. fun_ext (λ j. find-remove tid id u j s.swarms)) i;
            },
          )
  ]

  delete_admin_user-Refines : (email : String) → Refines sorter (delete_admin_user email) s
  unfolding view MemStore.delete_admin_user
  delete_admin_user-Refines email = elim (Option-cases (lookup email s.admins)) [
    | inl e ↦ rw (e, MemStore.delete_admin_user) (refl, refl)
    | inr (u, e) ↦
        rw (e, MemStore.delete_admin_user)
          (refl, λ i. record (view s) { admin = fun_ext (λ j. lookup-delete email j s.admins) i })
  ]

-- Every write of the in-memory store returns the error that the specification returns, and leaves a
-- store whose view is the specified one.
pub run-mem_store :
    (sorter : Sorter) (op : Op) (s : MemStore)
    → ((run (mem_store sorter) op s).0 ≡ (spec op (view s)).0)
      × (view (run (mem_store sorter) op s).1 ≡ (spec op (view s)).1)
unfolding view MemStore.put_tenant MemStore.put_connector MemStore.put_agent MemStore.put_swarm
    MemStore.put_admin_user MemStore.put_audit
run-mem_store sorter (put_tenant t) s =
    (refl, λ i. record (view s) { tenant = fun_ext (λ j. lookup-insert t.id j t s.tenants) i })
run-mem_store sorter (delete_tenant tid) s = delete_tenant-Refines sorter s tid
run-mem_store sorter (put_connector c) s = (
  refl,
  λ i. record (view s) {
    connector = fun_ext (λ u. fun_ext (λ j. find-put c.tenant_id c.platform u j c s.conns)) i;
  },
)
run-mem_store sorter (put_agent a) s = (
  refl,
  λ i. record (view s) {
    agent = fun_ext (λ u. fun_ext (λ j. find-put a.tenant_id a.id u j a s.agents)) i;
  },
)
run-mem_store sorter (delete_agent tid id) s = delete_agent-Refines sorter s tid id
run-mem_store sorter (put_swarm sw) s = (
  refl,
  λ i. record (view s) {
    swarm = fun_ext (λ u. fun_ext (λ j. find-put sw.tenant_id sw.id u j sw s.swarms)) i;
  },
)
run-mem_store sorter (delete_swarm tid id) s = delete_swarm-Refines sorter s tid id
run-mem_store sorter (put_admin_user u) s =
    (refl, λ i. record (view s) { admin = fun_ext (λ j. lookup-insert u.email j u s.admins) i })
run-mem_store sorter (delete_admin_user email) s = delete_admin_user-Refines sorter s email
run-mem_store sorter (put_audit e) s = (refl, refl)
