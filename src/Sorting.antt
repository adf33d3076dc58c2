-- ===== src/Sorting.antt =====
-- `sort.Slice`: the slice is permuted so that no element is less than one before it. The order of
-- elements neither of which is less than the other is left open by the library, so the sort is a
-- parameter, with these two facts of its documentation.
pub mod Insertion
use mathlib.Core.List.{Permᴰ}
use sclawion.Prelude.{◌≡◌, ◌⊎◌, Bool, true, false, List, [], ◌∷◌, All}

-- What `sort.Slice` asks of `less`: a strict weak ordering.
pub record IsStrictWeak {A : Type 0} (less : A → A → Bool) : Type 0 where
  pub irrefl : (a : A) → less a a ≡ false
  pub trans : (a b c : A) → less a b ≡ true → less b c ≡ true → less a c ≡ true
  pub cotrans : (a b c : A) → less a c ≡ true → (less a b ≡ true) ⊎ (less b c ≡ true)

-- No element is less than one before it.
abbrev pub IsSorted : {A : Type 0} → (A → A → Bool) → List A → Type 0
IsSorted less [] = Unit
IsSorted less (x ∷ xs) = All (λ y. less y x ≡ false) xs × IsSorted less xs

pub record Sorter : Type 1 where
  pub sort : (A : Type 0) → (A → A → Bool) → List A → List A
  pub sort-Perm : (A : Type 0) (less : A → A → Bool) (xs : List A) → Permᴰ (sort A less xs) xs
  pub sort-IsSorted :
      (A : Type 0) (less : A → A → Bool) (xs : List A)
      → IsStrictWeak less
      → IsSorted less (sort A less xs)
