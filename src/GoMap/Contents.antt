-- ===== src/GoMap/Contents.antt =====
-- What a listing holds: exactly the values of the map, in ascending order of their keys, whatever
-- the order of the iteration and whichever sort is used.
use mathlib.Core.List.Permᴰ
use sclawion.Prelude.{String, ◌≡◌, some, In, In-Permᴰ}
use sclawion.Sorting.{Sorter}
use sclawion.GoMap.{GoMap, lookup, values}
use sclawion.GoMap.Laws.{HasUniqueKeys}
use sclawion.GoMap.Listing.{by_key, by_key-IsStrictWeak, listing, IsKeyed, IsAscending}
use sclawion.GoMap.Ascending.{
  In-values, lookup-key, values-IsDistinct, IsDistinct-Permᴰ, IsAscending-sorted, Ascending_unique,
}

module _ {V : Type 0} (key : V → String) (sorter : Sorter) where
  module _ (m : GoMap V) (unique : HasUniqueKeys m) (keyed : IsKeyed key m) where
    pub listing-IsAscending : IsAscending key (listing key sorter m)
    unfolding listing
    listing-IsAscending =
        IsAscending-sorted key _
          (IsDistinct-Permᴰ key (sorter.sort-Perm V (by_key key) (values m))
            (values-IsDistinct key m unique keyed))
          (sorter.sort-IsSorted V (by_key key) (values m) (by_key-IsStrictWeak key))

    pub lookup_of_listed : (v : V) → In v (listing key sorter m) → lookup (key v) m ≡ some v
    unfolding listing
    lookup_of_listed v i =
        lookup-key key v m unique keyed (In-Permᴰ (sorter.sort-Perm V (by_key key) (values m)) i)

    pub listed_of_lookup : (k : String) (v : V) → lookup k m ≡ some v → In v (listing key sorter m)
    unfolding listing
    listed_of_lookup k v found =
        In-Permᴰ (Permᴰ.symm (sorter.sort-Perm V (by_key key) (values m))) (In-values k v m found)

-- The same lookups give the same listing.
pub listing_unique :
    {V : Type 0} (key : V → String) (s t : Sorter) (m n : GoMap V)
    → HasUniqueKeys m
    → IsKeyed key m
    → HasUniqueKeys n
    → IsKeyed key n
    → ((k : String) → lookup k m ≡ lookup k n)
    → listing key s m ≡ listing key t n
listing_unique key s t m n um km un kn same =
    Ascending_unique key _ _ (listing-IsAscending key s m um km) (listing-IsAscending key t n un kn)
      (λ v i.
        listed_of_lookup key t n un kn (key v) v
          (rw (← same (key v)) (lookup_of_listed key s m um km v i)))
      (λ v i.
        listed_of_lookup key s m um km (key v) v
          (rw (same (key v)) (lookup_of_listed key t n un kn v i)))
