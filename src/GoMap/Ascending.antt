-- ===== src/GoMap/Ascending.antt =====
-- Lists in ascending order of a key: a sorted list with distinct keys is one, and two with the same
-- members are the same list.
use mathlib.Core.List.{Permᴰ}
use sclawion.Prelude.{
  String, ◌≡◌, inl, inr, refl, sym, ap, ap₂, ◌∙◌, true, false, some, List, [], ◌∷◌, ◌==◌, ◌≢◌,
  subst, eq_iff, eq_refl, arith, All, In, here, there, All-In, All-of_In, All-Permᴰ, Bool-cases,
}
use sclawion.Text.{less, less_irrefl, less_trans, less_connex}
use sclawion.Sorting.{IsSorted}
use sclawion.GoMap.{GoMap, lookup, values}
use sclawion.GoMap.Listing.{by_key, IsKeyed, IsAscending}
use sclawion.GoMap.Laws.{HasUniqueKeys}

module _ {ℓ} {V : Type ℓ} where
  pub In-values : (k : String) (v : V) (m : GoMap V) → lookup k m ≡ some v → In v (values m)
  unfolding lookup values
  In-values k v [] h = cc
  In-values k v ((j, w) ∷ m) h = elim (Bool-cases (j == k)) [
    | inl same ↦ here (ground arith)
    | inr other ↦ there (In-values k v m (ground arith))
  ]

  lookup-values :
      (v : V) (m : GoMap V)
      → HasUniqueKeys m
      → In v (values m)
      → (k : String) × (lookup k m ≡ some v)
  unfolding lookup values
  lookup-values v ((j, w) ∷ m) h (here e) = (j, rw (eq_refl j) (ap some (sym e)))
  lookup-values v ((j, w) ∷ m) (fresh, h) (there i) =
      let (k, found) = lookup-values v m h i in (k, ground (arith, eq_iff j k))
  lookup-values v [] h i = elim i [ ]

module _ {V : Type 0} (key : V → String) where
  IsKeyed-tail :
      (k : String) (v : V) (m : GoMap V)
      → HasUniqueKeys ((k, v) ∷ m)
      → IsKeyed key ((k, v) ∷ m)
      → IsKeyed key m
  unfolding lookup
  IsKeyed-tail k v m (fresh, h) keyed j w found = keyed j w (ground (arith, eq_iff k j))

  pub lookup-key :
      (v : V) (m : GoMap V)
      → HasUniqueKeys m
      → IsKeyed key m
      → In v (values m)
      → lookup (key v) m ≡ some v
  lookup-key v m h keyed i = let (k, found) = lookup-values v m h i in rw (keyed k v found) found

  -- No two elements share a key.
  abbrev pub IsDistinct : List V → Type 0
  IsDistinct [] = Unit
  IsDistinct (x ∷ xs) = All (λ y. key x ≢ key y) xs × IsDistinct xs

  pub values-IsDistinct : (m : GoMap V) → HasUniqueKeys m → IsKeyed key m → IsDistinct (values m)
  unfolding values lookup
  values-IsDistinct [] h keyed = tt
  values-IsDistinct ((k, v) ∷ m) (fresh, h) keyed =
      let keyed' = IsKeyed-tail k v m (fresh, h) keyed in
      (
        All-of_In (values m)
            (λ w i e. cc (fresh, lookup-key w m h keyed' i, keyed k v (rw (lookup, eq_refl k)))),
        values-IsDistinct m h keyed',
      )

  pub IsDistinct-Permᴰ : {xs ys : List V} → Permᴰ xs ys → IsDistinct ys → IsDistinct xs
  IsDistinct-Permᴰ Permᴰ.nil h = tt
  IsDistinct-Permᴰ (Permᴰ.cons e p) (q, h) = (All-Permᴰ _ p (rw e q), IsDistinct-Permᴰ p h)
  IsDistinct-Permᴰ (Permᴰ.swap {l = l} e f) ((q, r), (t, d)) = (
    (
      (λ w. q (sym (ap key f) ∙ (sym w ∙ ap key e))),
      subst (λ z. All (λ y. key z ≢ key y) l) (sym e) t,
    ),
    (subst (λ z. All (λ y. key z ≢ key y) l) (sym f) r, d),
  )
  IsDistinct-Permᴰ (Permᴰ.trans p q) h = IsDistinct-Permᴰ p (IsDistinct-Permᴰ q h)

  ascends : (x y : V) → key x ≢ key y → less (key y) (key x) ≡ false → less (key x) (key y) ≡ true
  ascends x y d s = elim (Bool-cases (less (key x) (key y))) [
    | inl below ↦ below
    | inr level ↦ absurd (d (less_connex (key x) (key y) level s))
  ]

  pub IsAscending-sorted :
      (xs : List V) → IsDistinct xs → IsSorted (by_key key) xs → IsAscending key xs
  IsAscending-sorted [] d s = tt
  IsAscending-sorted (x ∷ xs) (d, ds) (s, ss) = (
    All-of_In xs (λ y i. ascends x y (All-In _ xs d i) (All-In _ xs s i)),
    IsAscending-sorted xs ds ss,
  )

  not_both_below : (s t : String) → less s t ≡ true → less t s ≡ true → ⊥
  not_both_below s t p q = cc (less_irrefl s, less_trans s t s p q)

  same_head :
      (x y : V) (xs ys : List V)
      → All (λ z. less (key x) (key z) ≡ true) xs
      → All (λ z. less (key y) (key z) ≡ true) ys
      → In x (y ∷ ys)
      → In y (x ∷ xs)
      → x ≡ y
  same_head x y xs ys p q (here e) j = e
  same_head x y xs ys p q (there i) (here e) = sym e
  same_head x y xs ys p q (there i) (there j) =
      absurd (not_both_below (key x) (key y) (All-In _ xs p j) (All-In _ ys q i))

  -- A later element stands in the tail of any other list with the same head.
  In-tail :
      (x y v : V) (ys : List V) → x ≡ y → less (key x) (key v) ≡ true → In v (y ∷ ys) → In v ys
  In-tail x y v ys e h (here i) = cc (less_irrefl (key x), ap key (i ∙ sym e))
  In-tail x y v ys e h (there i) = i

  pub Ascending_unique :
      (xs ys : List V)
      → IsAscending key xs
      → IsAscending key ys
      → ((v : V) → In v xs → In v ys)
      → ((v : V) → In v ys → In v xs)
      → xs ≡ ys
  Ascending_unique [] [] a b f g = refl
  Ascending_unique [] (y ∷ ys) a b f g = elim (g y (here refl)) [ ]
  Ascending_unique (x ∷ xs) [] a b f g = elim (f x (here refl)) [ ]
  Ascending_unique (x ∷ xs) (y ∷ ys) (p, a) (q, b) f g =
      let e = same_head x y xs ys p q (f x (here refl)) (g y (here refl)) in
      ap₂ ◌∷◌ e (
        Ascending_unique xs ys a b (λ v i. In-tail x y v ys e (All-In _ xs p i) (f v (there i)))
          (λ v i. In-tail y x v xs (sym e) (All-In _ ys q i) (g v (there i))))
