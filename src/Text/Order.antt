-- ===== src/Text/Order.antt =====
-- The order of Go's strings, `s < t`, and its laws.
use Prim.Native.Char.{Char, code}
use Prim.Native.String.{[], ◌∷◌}
use text.Mathlib.TextEquality.{Char-path}
use sclawion.Prelude.{◌≡◌, refl, String, Bool, true, false, ◌&&◌, ◌||◌, ltb, nat_eq, arith}

-- `s < t`: lexicographic.
unfoldable pub less : String → String → Bool
less [] [] = false
less [] (d ∷ t) = true
less (c ∷ s) [] = false
less (c ∷ s) (d ∷ t) = ltb (code c) (code d) || (nat_eq (code c) (code d) && less s t)

less_example : less "acme" "acne" ≡ true
unfolding less
less_example = refl

pub less_irrefl : (s : String) → less s s ≡ false
unfolding less
less_irrefl [] = refl
less_irrefl (c ∷ s) = ground (arith, less_irrefl s)

pub less_trans : (s t u : String) → less s t ≡ true → less t u ≡ true → less s u ≡ true
unfolding less
less_trans [] [] u p q = cc
less_trans [] (d ∷ t) [] p q = cc
less_trans [] (d ∷ t) (e ∷ u) p q = refl
less_trans (c ∷ s) [] u p q = cc
less_trans (c ∷ s) (d ∷ t) [] p q = cc
less_trans (c ∷ s) (d ∷ t) (e ∷ u) p q = ground (arith, less_trans s t u)

cons_path : (c d : Char) (s t : String) → code c ≡ code d → s ≡ t → ◌≡◌ {A = String} (c ∷ s) (d ∷ t)
cons_path c d s t p q = λ i. (Char-path c d p i) ∷ (q i)

-- Two texts neither of which is below the other are the same.
pub less_connex : (s t : String) → less s t ≡ false → less t s ≡ false → s ≡ t
unfolding less
less_connex [] [] p q = refl
less_connex [] (d ∷ t) p q = cc
less_connex (c ∷ s) [] p q = cc
less_connex (c ∷ s) (d ∷ t) p q =
    cons_path c d s t (ground arith) (less_connex s t (ground arith) (ground arith))
