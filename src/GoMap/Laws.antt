-- ===== src/GoMap/Laws.antt =====
-- What a read sees after a write, for every pair of keys, and the invariant of a map: no key twice.
use sclawion.Prelude.{String, ◌≡◌, refl, none, some, [], ◌∷◌, ◌==◌, eq_iff, if◌then◌else◌, arith}
use sclawion.GoMap.{GoMap, lookup, insert, delete}

module _ {ℓ} {V : Type ℓ} where
  pub lookup-insert :
      (key asked : String) (new : V) (m : GoMap V)
      → lookup asked (insert key new m) ≡ (if key == asked then some new else lookup asked m)
  unfolding lookup insert
  lookup-insert key asked new [] = refl
  lookup-insert key asked new ((held, old) ∷ others) = ground (
    arith,
    lookup-insert key asked new others,
    eq_iff held asked,
    eq_iff held key,
    eq_iff key asked,
  )

  pub lookup-delete :
      (k j : String) (m : GoMap V) → lookup j (delete k m) ≡ (if k == j then none else lookup j m)
  unfolding lookup delete
  lookup-delete k j [] = ground arith
  lookup-delete k j ((i, v) ∷ m) =
      ground (arith, lookup-delete k j m, eq_iff i k, eq_iff i j, eq_iff k j)

  -- No key stands twice.
  abbrev pub HasUniqueKeys : GoMap V → Type ℓ
  HasUniqueKeys [] = Unit
  HasUniqueKeys ((k, v) ∷ m) = (lookup k m ≡ none) × HasUniqueKeys m

  pub insert-HasUniqueKeys :
      (k : String) (v : V) (m : GoMap V) → HasUniqueKeys m → HasUniqueKeys (insert k v m)
  unfolding insert lookup
  insert-HasUniqueKeys k v [] h = (refl, tt)
  insert-HasUniqueKeys k v ((j, w) ∷ m) (fresh, h) =
      ground (arith, eq_iff j k, eq_iff k j, lookup-insert k j v m, insert-HasUniqueKeys k v m h)

  pub delete-HasUniqueKeys :
      (k : String) (m : GoMap V) → HasUniqueKeys m → HasUniqueKeys (delete k m)
  unfolding delete lookup
  delete-HasUniqueKeys k [] h = tt
  delete-HasUniqueKeys k ((j, w) ∷ m) (fresh, h) =
      ground (arith, eq_iff k j, lookup-delete k j m, delete-HasUniqueKeys k m h)

  pub lookup-empty : (k : String) → lookup {V = V} k [] ≡ none
  unfolding lookup
  lookup-empty k = refl

pub ruleset map_laws = (lookup-insert, lookup-delete, lookup-empty)
