-- ===== src/GoMap/Kept.antt =====
-- A map whose values stand under their own keys, and the writes that keep it so.
use sclawion.Prelude.{String, ◌≡◌, eq_iff, arith}
use sclawion.GoMap.{GoMap, insert, delete}
use sclawion.GoMap.Laws.{
  lookup-insert, lookup-delete, HasUniqueKeys, insert-HasUniqueKeys, delete-HasUniqueKeys,
}
use sclawion.GoMap.Listing.{IsKeyed}

pub record IsKept {V : Type 0} (key : V → String) (m : GoMap V) : Type 0 where
  pub unique : HasUniqueKeys m
  pub keyed : IsKeyed key m

module _ {V : Type 0} {key : V → String} (m : GoMap V) (h : IsKept key m) where
  pub insert-IsKept : (k : String) (v : V) → key v ≡ k → IsKept key (insert k v m)
  insert-IsKept k v e = record {
    unique = insert-HasUniqueKeys k v m h.unique;
    keyed = λ j w found. ground (arith, lookup-insert k j v m, eq_iff k j, h.keyed j w);
  }

  pub delete-IsKept : (k : String) → IsKept key (delete k m)
  delete-IsKept k = record {
    unique = delete-HasUniqueKeys k m h.unique;
    keyed = λ j w found. ground (arith, lookup-delete k j m, eq_iff k j, h.keyed j w);
  }
