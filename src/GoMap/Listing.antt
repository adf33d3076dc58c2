-- ===== src/GoMap/Listing.antt =====
-- The listings of the store: the values of a map, in whatever order `range` visits them, put in
-- ascending order of a key by `sort.Slice`.
use sclawion.Prelude.{String, ◌≡◌, ◌⊎◌, inl, inr, Bool, true, some, List, [], ◌∷◌, All, Bool-cases}
use sclawion.Text.{less, less_irrefl, less_trans, less_connex}
use sclawion.Sorting.{IsStrictWeak, Sorter}
use sclawion.GoMap.{GoMap, lookup, values}

module _ {V : Type 0} (key : V → String) where
  abbrev pub by_key : V → V → Bool
  by_key a b = less (key a) (key b)

  -- `sort.Slice(out, func(i, j int) bool { return out[i].K < out[j].K })` over the map's values.
  unfoldable pub listing : Sorter → GoMap V → List V
  listing sorter m = sorter.sort V by_key (values m)

  less_cotrans : (s t u : String) → less s u ≡ true → (less s t ≡ true) ⊎ (less t u ≡ true)
  less_cotrans s t u h = elim (Bool-cases (less s t)) [
    | inl below ↦ inl below
    | inr above ↦ elim (Bool-cases (less t s)) [
      | inl under ↦ inr (less_trans t s u under h)
      | inr level ↦ inr (rw (← less_connex s t above level) h)
    ]
  ]

  pub by_key-IsStrictWeak : IsStrictWeak by_key
  by_key-IsStrictWeak = record {
    irrefl = λ a. less_irrefl (key a);
    trans = λ a b c. less_trans (key a) (key b) (key c);
    cotrans = λ a b c. less_cotrans (key a) (key b) (key c);
  }

  -- Each value stands under its own key.
  abbrev pub IsKeyed : GoMap V → Type 0
  IsKeyed m = (k : String) (v : V) → lookup k m ≡ some v → key v ≡ k

  -- Every key is less than all keys after it.
  abbrev pub IsAscending : List V → Type 0
  IsAscending [] = Unit
  IsAscending (x ∷ xs) = All (λ y. less (key x) (key y) ≡ true) xs × IsAscending xs
