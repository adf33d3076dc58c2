-- ===== src/Config/Contract.antt =====
-- What the admin service relies on in a store: it reads as a View, and each write does to the View what
-- the specification says. MemStore keeps the contract.
use sclawion.Prelude.{String, ◌≡◌, refl, Option, none, some}
use sclawion.Sorting.{Sorter}
use sclawion.Event.{Platform}
use sclawion.Config.Errors.{ok}
use sclawion.Config.Store.{Store}
use sclawion.Config.MemStore.{
  mem_store, found, get_tenant, get_connector, get_agent, get_swarm, get_admin_user,
}
use sclawion.Config.MemStore.View.{View, view, Op, run, spec}
use sclawion.Config.MemStore.Refinement.{run-mem_store}

pub record Contract {S : Type 0} (st : Store S) : Type 0 where
  pub look : S → View
  pub tenant : (tid : String) (s : S) → st.get_tenant tid s ≡ found ((look s).tenant tid)
  pub connector :
      (tid : String) (p : Platform) (s : S)
      → st.get_connector tid p s ≡ found ((look s).connector tid p)
  pub agent : (tid id : String) (s : S) → st.get_agent tid id s ≡ found ((look s).agent tid id)
  pub swarm : (tid id : String) (s : S) → st.get_swarm tid id s ≡ found ((look s).swarm tid id)
  pub admin : (email : String) (s : S) → st.get_admin_user email s ≡ found ((look s).admin email)
  pub writes :
      (op : Op) (s : S)
      → ((run st op s).0 ≡ (spec op (look s)).0) × (look (run st op s).1 ≡ (spec op (look s)).1)

-- A read that succeeds shows what is there.
pub some-of_found : {A : Type 0} (o : Option A) (x : A) → found o ≡ ok x → o ≡ some x
some-of_found none x e = absurd cc
some-of_found (some y) x e = cc

unfoldable pub mem_store_contract : (sorter : Sorter) → Contract (mem_store sorter)
unfolding get_tenant get_connector get_agent get_swarm get_admin_user view
mem_store_contract sorter = record {
  look = view;
  tenant = λ tid s. refl;
  connector = λ tid p s. refl;
  agent = λ tid id s. refl;
  swarm = λ tid id s. refl;
  admin = λ email s. refl;
  writes = λ op s. run-mem_store sorter op s;
}
