-- ===== src/Config/MemStore/Listings.antt =====
-- The listings of a valid store: exactly the documents that the reads return, in ascending order of
-- their keys, as a function of the view alone.
use sclawion.Prelude.{String, ◌≡◌, refl, sym, ap, ◌∙◌, Option, some, List, In}
use sclawion.Sorting.{Sorter}
use sclawion.GoMap.{GoMap, lookup}
use sclawion.GoMap.Kept.{IsKept}
use sclawion.GoMap.Listing.{listing, IsAscending}
use sclawion.GoMap.Contents.{
  listing-IsAscending, lookup_of_listed, listed_of_lookup, listing_unique,
}
use sclawion.GoMap.Nested.{Nested, find, inner, find-inner, IsWellKept, inner-IsKeyed}
use sclawion.Config.Errors.{ok}
use sclawion.Config.Types.{Tenant, ConnectorConfig, AgentProfile, SwarmDef, AdminUser}
use sclawion.Config.MemStore.{
  MemStore, list_tenants, list_connectors, list_agents, list_swarms, list_admin_users,
}
use sclawion.Config.MemStore.View.{View, view}
use sclawion.Config.MemStore.Invariant.{IsValid}

-- The documents `doc` returns, each once, by ascending key.
pub record Lists {V : Type 0} (key : V → String) (doc : String → Option V) (out : List V)
    : Type 0 where
  pub ascending : IsAscending key out
  pub sound : (v : V) → In v out → doc (key v) ≡ some v
  pub complete : (k : String) (v : V) → doc k ≡ some v → In v out

Lists-kept :
    {V : Type 0} (key : V → String) (sorter : Sorter) (m : GoMap V)
    → IsKept key m
    → Lists key (λ k. lookup k m) (listing key sorter m)
Lists-kept key sorter m h = record {
  ascending = listing-IsAscending key sorter m h.unique h.keyed;
  sound = lookup_of_listed key sorter m h.unique h.keyed;
  complete = listed_of_lookup key sorter m h.unique h.keyed;
}

module _ {V : Type 0} (owner key : V → String) (sorter : Sorter) (m : Nested V)
    (h : IsWellKept owner key m) (t : String) where
  Lists-inner : Lists key (λ k. find t k m) (listing key sorter (inner t m))
  Lists-inner = record {
    ascending = listing-IsAscending key sorter (inner t m) (h.unique_inner t) (inner-IsKeyed m h t);
    sound = λ v i.
        rw find-inner
          (lookup_of_listed key sorter (inner t m) (h.unique_inner t) (inner-IsKeyed m h t) v i);
    complete = λ k v e.
        listed_of_lookup key sorter (inner t m) (h.unique_inner t) (inner-IsKeyed m h t) k v
          (rw find-inner at e);
  }

-- The five listings of a valid store return the documents that its reads find, each once, by
-- ascending key: ListTenants by ID, disabled tenants included, ListAdminUsers by e-mail, and of one
-- tenant the connectors by platform, the agents and the swarms by ID.
pub listings-Lists :
    (sorter : Sorter) (tid : String) (s : MemStore)
    → IsValid s
    → ((out : List Tenant) × (list_tenants sorter s ≡ ok out)
        × Lists (λ t. t.id) (view s).tenant out)
      × ((out : List AdminUser) × (list_admin_users sorter s ≡ ok out)
          × Lists (λ u. u.email) (view s).admin out)
      × ((out : List ConnectorConfig) × (list_connectors sorter tid s ≡ ok out)
          × Lists (λ c. c.platform) ((view s).connector tid) out)
      × ((out : List AgentProfile) × (list_agents sorter tid s ≡ ok out)
          × Lists (λ a. a.id) ((view s).agent tid) out)
      × ((out : List SwarmDef) × (list_swarms sorter tid s ≡ ok out)
          × Lists (λ sw. sw.id) ((view s).swarm tid) out)
unfolding list_tenants list_admin_users list_connectors list_agents list_swarms view
listings-Lists sorter tid s h = (
  (_, refl, Lists-kept (λ t. t.id) sorter s.tenants h.tenants),
  (_, refl, Lists-kept (λ u. u.email) sorter s.admins h.admins),
  (_, refl, Lists-inner (λ c. c.tenant_id) (λ c. c.platform) sorter s.conns h.conns tid),
  (_, refl, Lists-inner (λ a. a.tenant_id) (λ a. a.id) sorter s.agents h.agents tid),
  (_, refl, Lists-inner (λ sw. sw.tenant_id) (λ sw. sw.id) sorter s.swarms h.swarms tid),
)

same_inner :
    {V : Type 0} (owner key : V → String) (x y : Sorter) (m n : Nested V) (t : String)
    → IsWellKept owner key m
    → IsWellKept owner key n
    → ((k : String) → find t k m ≡ find t k n)
    → listing key x (inner t m) ≡ listing key y (inner t n)
same_inner owner key x y m n t hm hn same =
    listing_unique key x y (inner t m) (inner t n) (hm.unique_inner t) (inner-IsKeyed m hm t)
      (hn.unique_inner t) (inner-IsKeyed n hn t)
      (λ k. sym (find-inner t k m) ∙ (same k ∙ find-inner t k n))

-- Two valid stores with the same view have the same five listings, whatever the order in which
-- their maps are visited and whichever sorts are used.
pub listings_of_view :
    (x y : Sorter) (tid : String) (s t : MemStore)
    → IsValid s
    → IsValid t
    → view s ≡ view t
    → (list_tenants x s ≡ list_tenants y t)
      × (list_admin_users x s ≡ list_admin_users y t)
      × (list_connectors x tid s ≡ list_connectors y tid t)
      × (list_agents x tid s ≡ list_agents y tid t)
      × (list_swarms x tid s ≡ list_swarms y tid t)
unfolding list_tenants list_admin_users list_connectors list_agents list_swarms view
listings_of_view x y tid s t hs ht same = (
  ap ok (
      listing_unique _ x y s.tenants t.tenants hs.tenants.unique hs.tenants.keyed ht.tenants.unique
        ht.tenants.keyed (λ k. ap (λ (v : View). v.tenant k) same)),
  ap ok (
      listing_unique _ x y s.admins t.admins hs.admins.unique hs.admins.keyed ht.admins.unique
        ht.admins.keyed (λ k. ap (λ (v : View). v.admin k) same)),
  ap ok (
      same_inner _ _ x y s.conns t.conns tid hs.conns ht.conns
        (λ k. ap (λ (v : View). v.connector tid k) same)),
  ap ok (
      same_inner _ _ x y s.agents t.agents tid hs.agents ht.agents
        (λ k. ap (λ (v : View). v.agent tid k) same)),
  ap ok (
      same_inner _ _ x y s.swarms t.swarms tid hs.swarms ht.swarms
        (λ k. ap (λ (v : View). v.swarm tid k) same)),
)
