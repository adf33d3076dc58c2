-- ===== src/Config/Firestore.antt =====
-- pkg/config/firestore.go: the production store. In this commit it is a stub that keeps nothing.
use sclawion.Prelude.{[]}
use sclawion.Config.Errors.{ok, err, not_found}
use sclawion.Config.Store.{Store}

pub record FirestoreStore : Type 0 where

abbrev pub new_firestore_store : FirestoreStore
new_firestore_store = record {}

abbrev pub firestore_store : Store FirestoreStore
firestore_store = record {
  list_tenants = λ s. err not_found;
  get_tenant = λ tid s. err not_found;
  put_tenant = λ t s. (ok tt, s);
  delete_tenant = λ tid s. (ok tt, s);
  list_connectors = λ tid s. err not_found;
  get_connector = λ tid p s. err not_found;
  put_connector = λ c s. (ok tt, s);
  list_agents = λ tid s. err not_found;
  get_agent = λ tid id s. err not_found;
  put_agent = λ a s. (ok tt, s);
  delete_agent = λ tid id s. (ok tt, s);
  list_swarms = λ tid s. err not_found;
  get_swarm = λ tid id s. err not_found;
  put_swarm = λ sw s. (ok tt, s);
  delete_swarm = λ tid id s. (ok tt, s);
  list_admin_users = λ s. err not_found;
  get_admin_user = λ email s. err not_found;
  put_admin_user = λ u s. (ok tt, s);
  delete_admin_user = λ email s. (ok tt, s);
  put_audit = λ e s. (ok tt, s);
  list_audit = λ f s. ok [];
}
