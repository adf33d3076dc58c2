-- ===== src/GoMap.antt =====
-- Go's `map[string]V` as an association list, in the order that `range` happens to visit it. A key
-- type such as `event.Platform` is a string too.
pub mod Laws
pub mod Listing
pub mod Ascending
pub mod Contents
pub mod Kept
pub mod Nested
use sclawion.Prelude.{String, Option, none, some, List, [], ◌∷◌, ◌==◌, if◌then◌else◌, map}

abbrev pub GoMap {ℓ} : Type ℓ → Type ℓ
GoMap V = List (String × V)

module _ {ℓ} {V : Type ℓ} where
  -- v, ok := m[k]
  unfoldable pub lookup : String → GoMap V → Option V
  lookup key [] = none
  lookup key ((held, value) ∷ others) = if held == key then some value else lookup key others

  -- m[k] = v
  unfoldable pub insert : String → V → GoMap V → GoMap V
  insert key new [] = (key, new) ∷ []
  insert key new ((held, old) ∷ others) =
      if held == key then (key, new) ∷ others else (held, old) ∷ insert key new others

  -- delete(m, k)
  unfoldable pub delete : String → GoMap V → GoMap V
  delete k [] = []
  delete k ((j, v) ∷ m) = let rest = delete k m in if j == k then rest else (j, v) ∷ rest

  -- The values that `for _, v := range m` visits.
  unfoldable pub values : GoMap V → List V
  values [] = []
  values ((k, v) ∷ m) = v ∷ values m
