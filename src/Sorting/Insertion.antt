-- ===== src/Sorting/Insertion.antt =====
-- An insertion sort meets the contract of `sort.Slice`.
use mathlib.Core.List.{Permᴰ}
use mathlib.Core.List.Permᴰ
use sclawion.Prelude.{
  ◌≡◌, refl, inl, inr, Bool, true, false, List, [], ◌∷◌, All, Bool-cases, arith, if◌then◌else◌,
}
use sclawion.Sorting.{IsStrictWeak, IsSorted, Sorter}

module _ {A : Type 0} (less : A → A → Bool) where
  unfoldable pub place : A → List A → List A
  place x [] = x ∷ []
  place x (y ∷ ys) = if less y x then y ∷ place x ys else x ∷ y ∷ ys

  unfoldable pub insertion : List A → List A
  unfolding place
  insertion [] = []
  insertion (x ∷ xs) = place x (insertion xs)

  place-Perm : (x : A) (ys : List A) → Permᴰ (place x ys) (x ∷ ys)
  unfolding place
  place-Perm x [] = Permᴰ.refl _
  place-Perm x (y ∷ ys) = elim (Bool-cases (less y x)) [
    | inl below ↦ rw below (Permᴰ.trans (Permᴰ.cons refl (place-Perm x ys)) (Permᴰ.swap refl refl))
    | inr above ↦ rw above (Permᴰ.refl _)
  ]

  pub insertion-Perm : (xs : List A) → Permᴰ (insertion xs) xs
  unfolding insertion
  insertion-Perm [] = Permᴰ.nil
  insertion-Perm (x ∷ xs) =
      Permᴰ.trans (place-Perm x (insertion xs)) (Permᴰ.cons refl (insertion-Perm xs))

  module _ (weak : IsStrictWeak less) where
    not_below_of_above : (x y : A) → less y x ≡ true → less x y ≡ false
    not_below_of_above x y h = ground (arith, weak.trans x y x, weak.irrefl x)

    not_below_trans : (x y z : A) → less y x ≡ false → less z y ≡ false → less z x ≡ false
    not_below_trans x y z h k = ground (arith, weak.cotrans z y x)

    All-not_below_trans :
        (x y : A) (zs : List A)
        → less y x ≡ false
        → All (λ z. less z y ≡ false) zs
        → All (λ z. less z x ≡ false) zs
    All-not_below_trans x y [] h k = tt
    All-not_below_trans x y (z ∷ zs) h (p, k) =
        (not_below_trans x y z h p, All-not_below_trans x y zs h k)

    All-place :
        (x y : A) (zs : List A)
        → less x y ≡ false
        → All (λ z. less z y ≡ false) zs
        → All (λ z. less z y ≡ false) (place x zs)
    unfolding place
    All-place x y [] h k = (h, tt)
    All-place x y (z ∷ zs) h (p, k) = ground (arith, All-place x y zs h k)

    place-IsSorted : (x : A) (ys : List A) → IsSorted less ys → IsSorted less (place x ys)
    unfolding place
    place-IsSorted x [] s = (tt, tt)
    place-IsSorted x (y ∷ ys) (below, s) = elim (Bool-cases (less y x)) [
      | inl h ↦ rw h (All-place x y ys (not_below_of_above x y h) below, place-IsSorted x ys s)
      | inr h ↦ rw h ((h, All-not_below_trans x y ys h below), (below, s))
    ]

    pub insertion-IsSorted : (xs : List A) → IsSorted less (insertion xs)
    unfolding insertion
    insertion-IsSorted [] = tt
    insertion-IsSorted (x ∷ xs) = place-IsSorted x (insertion xs) (insertion-IsSorted xs)

abbrev pub by_insertion : Sorter
by_insertion = record {
  sort = λ A less xs. insertion less xs;
  sort-Perm = λ A less xs. insertion-Perm less xs;
  sort-IsSorted = λ A less xs weak. insertion-IsSorted less weak xs;
}
