-- ===== src/Bytes.antt =====
-- Go's byte strings as the connectors use them: `[]byte` and header values, whose bytes need not be
-- text; `strings.HasPrefix` and `TrimPrefix` on them, `encoding/hex` and `strconv.ParseInt`.
pub mod Hex
pub mod HexText
pub mod Laws
use sclawion.Prelude.{
  ℕ, zero, suc, ◌+◌, ◌-◌, ◌*◌, ◌^◌, ◌<◌, String, Option, none, some, Bool, true, false, List, [],
  ◌∷◌, leb, nat_eq, ◌≡◌, refl, ◌&&◌, if◌then◌else◌, All,
}
use sclawion.Prelude.Int.{ℤ, pos, negsuc}
use sclawion.Text.{codes}

abbrev pub Bytes : Type 0
Bytes = List ℕ

-- Every element is a byte.
abbrev pub AreBytes : Bytes → Type 0
AreBytes xs = All (λ x. x < 256) xs

-- The bytes of a text in ASCII; of any text, for `parse_int`, which refuses the others.
abbrev pub bytes : String → Bytes
bytes s = codes s

-- Equality of two byte strings.
unfoldable pub bytes_eq : Bytes → Bytes → Bool
bytes_eq [] [] = true
bytes_eq [] (y ∷ ys) = false
bytes_eq (x ∷ xs) [] = false
bytes_eq (x ∷ xs) (y ∷ ys) = nat_eq x y && bytes_eq xs ys

-- What is left of `s` behind the prefix `p`, if it begins so.
unfoldable pub after_prefix : Bytes → Bytes → Option Bytes
after_prefix [] s = some s
after_prefix (c ∷ p) [] = none
after_prefix (c ∷ p) (d ∷ s) = if nat_eq c d then after_prefix p s else none

-- strings.HasPrefix(s, p)
unfoldable pub has_prefix : Bytes → Bytes → Bool
unfolding after_prefix
has_prefix s p = elim (after_prefix p s) [ none ↦ false | some t ↦ true ]

-- strings.TrimPrefix(s, p)
unfoldable pub trim_prefix : Bytes → Bytes → Bytes
unfolding after_prefix
trim_prefix s p = elim (after_prefix p s) [ none ↦ s | some t ↦ t ]

abbrev pub is_empty : Bytes → Bool
is_empty [] = true
is_empty (c ∷ s) = false

-- The value of decimal digits, with what stood before them.
unfoldable pub decimal : ℕ → Bytes → Option ℕ
decimal n [] = some n
decimal n (c ∷ s) =
    let rest = decimal (n * 10 + (c - b'0')) s in if leb b'0' c && leb c b'9' then rest else none

-- One digit or more.
abbrev pub digits : Bytes → Option ℕ
digits [] = none
digits (c ∷ s) = decimal 0 (c ∷ s)

abbrev pub at_most : ℕ → (ℕ → ℤ) → Option ℕ → Option ℤ
at_most bound sign none = none
at_most bound sign (some n) = if leb n bound then some (sign n) else none

abbrev pub minus : ℕ → ℤ
minus zero = pos 0
minus (suc n) = negsuc n

-- strconv.ParseInt(s, 10, 64), and strconv.Atoi(s) on a 64-bit machine: an optional sign, digits, and
-- no overflow of the signed range.
unfoldable pub parse_int : Bytes → Option ℤ
unfolding decimal
parse_int [] = none
parse_int (c ∷ s) =
    if nat_eq c b'-'
    then at_most (2 ^ 63) minus (digits s)
    else if nat_eq c b'+'
    then at_most (2 ^ 63 - 1) pos (digits s)
    else at_most (2 ^ 63 - 1) pos (digits (c ∷ s))

parse_int_tests :
    (parse_int (bytes "-12") ≡ some (negsuc 11))
    × (parse_int (bytes "+7") ≡ some (pos 7))
    × (parse_int (bytes "9223372036854775808") ≡ none)
    × (parse_int (bytes "-9223372036854775808") ≡ some (negsuc 9223372036854775807))
    × (parse_int (bytes "1 ") ≡ none)
unfolding parse_int
parse_int_tests = (refl, refl, refl, refl, refl)
