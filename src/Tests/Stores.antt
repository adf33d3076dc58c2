-- ===== src/Tests/Stores.antt =====
-- Runs of the store in memory and of the rotation of secrets.
use sclawion.Prelude.{◌≡◌, refl, List}
use sclawion.Sorting.Insertion.{by_insertion}
use sclawion.Event.{slack}
use sclawion.Config.Errors.{ok}
use sclawion.Config.Types.{Tenant, ConnectorConfig, AgentProfile, SwarmDef, AdminUser, kind_signing}
use sclawion.Config.MemStore.{
  MemStore, new_mem_store, mem_store, list_tenants, list_admin_users, list_connectors, list_agents,
  list_swarms,
}
use sclawion.Config.MemStore.View.{view, run, spec, delete_tenant}
use sclawion.Config.MemStore.Refinement.{run-mem_store}
use sclawion.Config.MemStore.Invariant.{IsValid, run_all, run_all-IsValid, new_mem_store-IsValid}
use sclawion.Config.MemStore.Listings.{Lists, listings-Lists}
use sclawion.Config.Contract.{mem_store_contract}
use sclawion.Config.Secrets.Names.{rotate-shifted}
use sclawion.Text.{◌⧺◌}
use sclawion.Config.Secrets.{rotate, secret_namer, secret_slot}
use sclawion.Config.Secrets.Rotation.{SameButVault, Rotates, rotate-value, rotate-Rotates}
use sclawion.Tests.Data.{busy_ops, rotator, vault, world}

abbrev busy : MemStore
busy = run_all by_insertion busy_ops new_mem_store

busy-IsValid : IsValid busy
busy-IsValid = run_all-IsValid by_insertion busy_ops new_mem_store new_mem_store-IsValid

run-mem_store_example :
    ((run (mem_store by_insertion) (delete_tenant "acme-corp") busy).0
      ≡ (spec (delete_tenant "acme-corp") (view busy)).0)
    × (view (run (mem_store by_insertion) (delete_tenant "acme-corp") busy).1
        ≡ (spec (delete_tenant "acme-corp") (view busy)).1)
run-mem_store_example = run-mem_store by_insertion (delete_tenant "acme-corp") busy

run_all-IsValid_example : IsValid (run_all by_insertion busy_ops new_mem_store)
run_all-IsValid_example = run_all-IsValid by_insertion busy_ops new_mem_store new_mem_store-IsValid

listings-Lists_example :
    ((out : List Tenant) × (list_tenants by_insertion busy ≡ ok out)
      × Lists (λ t. t.id) (view busy).tenant out)
    × ((out : List AdminUser) × (list_admin_users by_insertion busy ≡ ok out)
        × Lists (λ u. u.email) (view busy).admin out)
    × ((out : List ConnectorConfig) × (list_connectors by_insertion "acme-corp" busy ≡ ok out)
        × Lists (λ c. c.platform) ((view busy).connector "acme-corp") out)
    × ((out : List AgentProfile) × (list_agents by_insertion "acme-corp" busy ≡ ok out)
        × Lists (λ a. a.id) ((view busy).agent "acme-corp") out)
    × ((out : List SwarmDef) × (list_swarms by_insertion "acme-corp" busy ≡ ok out)
        × Lists (λ sw. sw.id) ((view busy).swarm "acme-corp") out)
listings-Lists_example = listings-Lists by_insertion "acme-corp" busy busy-IsValid

rotate-Rotates_example :
    Rotates
      (mem_store_contract by_insertion)
      "acme-corp"
      slack
      kind_signing
      (ok (record {
        name = "projects/my-proj/secrets/sclawion-acme-corp-slack-signing";
        version = "1";
      }))
      world
      (rotate rotator vault "acme-corp" slack kind_signing "hunter2" world)
unfolding secret_namer secret_slot
rotate-Rotates_example =
    rotate-Rotates rotator (mem_store_contract by_insertion) vault "acme-corp" slack kind_signing
      "hunter2" world

rotate-value_example :
    ((rotate rotator vault "acme-corp" slack kind_signing "a" world).0
      ≡ (rotate rotator vault "acme-corp" slack kind_signing "b" world).0)
    × SameButVault
        (rotate rotator vault "acme-corp" slack kind_signing "a" world).1
        (rotate rotator vault "acme-corp" slack kind_signing "b" world).1
rotate-value_example = rotate-value rotator vault "acme-corp" slack kind_signing world "a" "b" refl

-- The tenant "acme" has no connector of the platform "corp-slack".
rotate-shifted_example :
    (rotate rotator vault ("acme" ⧺ "-" ⧺ "corp") slack kind_signing "hunter2" world).1.vault
    ≡ (rotate rotator vault "acme" ("corp" ⧺ "-" ⧺ slack) kind_signing "hunter2" world).1.vault
rotate-shifted_example =
    rotate-shifted rotator vault kind_signing "hunter2" world "acme" "corp" slack
