-- ===== src/GoMap/Nested.antt =====
-- Maps of maps, `map[string]map[string]V`, as the store keeps its per-tenant documents.
use sclawion.Prelude.{
  String, ◌≡◌, Option, none, some, [], ◌==◌, eq_iff, if◌then◌else◌, if_either, arith, inl, inr,
  ◌&&◌, Option-cases,
}
use sclawion.GoMap.{GoMap, lookup, insert, delete}
use sclawion.GoMap.Laws.{
  lookup-insert, lookup-delete, lookup-empty, HasUniqueKeys, insert-HasUniqueKeys,
  delete-HasUniqueKeys,
}
use sclawion.GoMap.Listing.{IsKeyed}

abbrev pub Nested : Type 0 → Type 0
Nested V = GoMap (GoMap V)

module _ {V : Type 0} where
  -- m[t], the nil map, which holds nothing, for a missing t
  unfoldable pub inner : String → Nested V → GoMap V
  inner t m = elim (lookup t m) [ none ↦ [] | some i ↦ i ]

  -- i, ok := m[t]; v, ok := i[k]
  unfoldable pub find : String → String → Nested V → Option V
  find t k m = elim (lookup t m) [ none ↦ none | some i ↦ lookup k i ]

  -- if _, ok := m[t]; !ok { m[t] = {} }; m[t][k] = v
  unfoldable pub put : String → String → V → Nested V → Nested V
  put t k v m = elim (lookup t m) [
    | none ↦ insert t (insert k v []) (insert t [] m)
    | some i ↦ insert t (insert k v i) m
  ]

  -- delete(m[t], k)
  unfoldable pub remove : String → String → Nested V → Nested V
  remove t k m = elim (lookup t m) [ none ↦ m | some i ↦ insert t (delete k i) m ]

  pub find-put :
      (t k u j : String) (v : V) (m : Nested V)
      → find u j (put t k v m) ≡ (if t == u && k == j then some v else find u j m)
  unfolding find put
  find-put t k u j v m = elim (Option-cases (lookup t m)) [
    | inl e ↦ ground (
      arith,
      eq_iff t u,
      lookup-insert t u (insert k v []) (insert t [] m),
      lookup-insert t u [] m,
      lookup-insert k j v [],
      lookup-empty {V = V} j,
    )
    | inr (i, e) ↦
        ground (arith, eq_iff t u, lookup-insert t u (insert k v i) m, lookup-insert k j v i)
  ]

  pub find-remove :
      (t k u j : String) (m : Nested V)
      → find u j (remove t k m) ≡ (if t == u && k == j then none else find u j m)
  unfolding find remove
  find-remove t k u j m = elim (Option-cases (lookup t m)) [
    | inl e ↦ ground (arith, eq_iff t u)
    | inr (i, e) ↦ ground (arith, eq_iff t u, lookup-insert t u (delete k i) m, lookup-delete k j i)
  ]

-- A well-formed map of maps: no key twice, in the outer map or in an inner one, and each value under
-- its own two keys.
pub record IsWellKept {V : Type 0} (owner key : V → String) (m : Nested V) : Type 0 where
  pub unique : HasUniqueKeys m
  pub unique_inner : (t : String) → HasUniqueKeys (inner t m)
  pub keyed : (t k : String) (v : V) → find t k m ≡ some v → (owner v ≡ t) × (key v ≡ k)

module _ {V : Type 0} where
  pub find-inner : (t k : String) (m : Nested V) → find t k m ≡ lookup k (inner t m)
  unfolding find inner
  find-inner t k m = ground (arith, lookup-empty {V = V} k)

  inner-put :
      (t k u : String) (v : V) (m : Nested V)
      → inner u (put t k v m) ≡ (if t == u then insert k v (inner t m) else inner u m)
  unfolding inner put
  inner-put t k u v m = elim (Option-cases (lookup t m)) [
    | inl e ↦ ground (
      arith,
      eq_iff t u,
      lookup-insert t u (insert k v []) (insert t [] m),
      lookup-insert t u [] m,
    )
    | inr (i, e) ↦ ground (arith, eq_iff t u, lookup-insert t u (insert k v i) m)
  ]

  inner-remove :
      (t k u : String) (m : Nested V)
      → inner u (remove t k m) ≡ (if t == u then delete k (inner t m) else inner u m)
  unfolding inner remove delete
  inner-remove t k u m = elim (Option-cases (lookup t m)) [
    | inl e ↦ ground (arith, eq_iff t u)
    | inr (i, e) ↦ ground (arith, eq_iff t u, lookup-insert t u (delete k i) m)
  ]

  put-HasUniqueKeys :
      (t k : String) (v : V) (m : Nested V) → HasUniqueKeys m → HasUniqueKeys (put t k v m)
  unfolding put
  put-HasUniqueKeys t k v m h = elim (Option-cases (lookup t m)) [
    | inl e ↦ rw (e, put) (insert-HasUniqueKeys t _ (insert t [] m) (insert-HasUniqueKeys t [] m h))
    | inr (i, e) ↦ rw (e, put) (insert-HasUniqueKeys t _ m h)
  ]

  remove-HasUniqueKeys :
      (t k : String) (m : Nested V) → HasUniqueKeys m → HasUniqueKeys (remove t k m)
  unfolding remove
  remove-HasUniqueKeys t k m h = elim (Option-cases (lookup t m)) [
    | inl e ↦ rw (e, remove) h
    | inr (i, e) ↦ rw (e, remove) (insert-HasUniqueKeys t _ m h)
  ]

  module _ {owner key : V → String} (m : Nested V) (h : IsWellKept owner key m) where
    pub put-IsWellKept : (v : V) → IsWellKept owner key (put (owner v) (key v) v m)
    put-IsWellKept v = record {
      unique = put-HasUniqueKeys (owner v) (key v) v m h.unique;
      unique_inner = λ u. rw inner-put (
          if_either HasUniqueKeys _ (insert-HasUniqueKeys (key v) v _ (h.unique_inner (owner v)))
            (h.unique_inner u));
      keyed = λ u j w found. ground (
        arith,
        find-put (owner v) (key v) u j v m,
        eq_iff (owner v) u,
        eq_iff (key v) j,
        h.keyed u j w,
      );
    }

    pub remove-IsWellKept : (t k : String) → IsWellKept owner key (remove t k m)
    remove-IsWellKept t k = record {
      unique = remove-HasUniqueKeys t k m h.unique;
      unique_inner = λ u. rw inner-remove (
          if_either HasUniqueKeys _ (delete-HasUniqueKeys k _ (h.unique_inner t))
            (h.unique_inner u));
      keyed = λ u j w found.
          ground (arith, find-remove t k u j m, eq_iff t u, eq_iff k j, h.keyed u j w);
    }

    -- The inner map of a tenant is a map of its own, each value under its key.
    pub inner-IsKeyed : (t : String) → IsKeyed key (inner t m)
    inner-IsKeyed t k v found = (h.keyed t k v (rw find-inner found)).1
