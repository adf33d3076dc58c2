-- ===== src/Text.antt =====
-- What the program uses of Go's text: the order of strings, `strings.TrimSpace`, `strings.Split`,
-- `strings.TrimPrefix` and the character classes of its regular expressions. A Go string that is
-- valid UTF-8 is modelled by its code points; the order of code points is the order of the bytes.
mod Order
unfoldable pub use Order.{less}
pub use Order.{less_irrefl, less_trans, less_connex}
use Prim.Native.Char.{Char, code}
use Prim.Native.String
use Prim.Native.String.{[], ◌∷◌}
use sclawion.Prelude.{
  ℕ, zero, suc, ◌+◌, ◌-◌, ◌*◌, ◌^◌, ◌≡◌, refl, String, Option, none, some, List, Bool, true, false,
  ◌&&◌, ◌||◌, leb, nat_eq, if◌then◌else◌,
}
use sclawion.Prelude.Int.{ℤ, pos, negsuc}

infixr 65 ◌⧺◌
abbrev pub ◌⧺◌ : String → String → String
◌⧺◌ = String.◌++◌

-- `unicode.IsSpace`: the White_Space property.
unfoldable pub is_space : ℕ → Bool
is_space c =
    (leb 9 c && leb c 13)
    || nat_eq c 0x20
    || nat_eq c 0x85
    || nat_eq c 0xA0
    || nat_eq c 0x1680
    || (leb 0x2000 c && leb c 0x200A)
    || nat_eq c 0x2028
    || nat_eq c 0x2029
    || nat_eq c 0x202F
    || nat_eq c 0x205F
    || nat_eq c 0x3000

-- `strings.TrimSpace(s) == ""`
unfoldable pub is_blank : String → Bool
is_blank [] = true
is_blank (c ∷ s) = is_space (code c) && is_blank s

-- The code points of a text.
abbrev pub codes : String → List ℕ
codes [] = List.[]
codes (c ∷ s) = List.◌∷◌ (code c) (codes s)

-- What is left of `s` behind the prefix `p`, if it begins so.
unfoldable pub strip : String → String → Option String
strip [] s = some s
strip (c ∷ p) [] = none
strip (c ∷ p) (d ∷ s) = if nat_eq (code c) (code d) then strip p s else none

-- strings.HasPrefix(s, p)
unfoldable pub has_prefix : String → String → Bool
unfolding strip
has_prefix s p = elim (strip p s) [ none ↦ false | some t ↦ true ]

-- strings.TrimPrefix(s, p)
unfoldable pub trim_prefix : String → String → String
unfolding strip
trim_prefix s p = elim (strip p s) [ none ↦ s | some t ↦ t ]

-- A character in front of the first part.
abbrev push : Char → List String → List String
push c List.[] = List.◌∷◌ (c ∷ []) List.[]
push c (List.◌∷◌ x xs) = List.◌∷◌ (c ∷ x) xs

-- strings.Split(s, "/")
unfoldable pub split_slash : String → List String
split_slash [] = List.◌∷◌ "" List.[]
split_slash (c ∷ s) =
    let rest = split_slash s in if nat_eq (code c) b'/' then List.◌∷◌ "" rest else push c rest

text_tests :
    (split_slash "a/b//" ≡ List.◌∷◌ "a" (List.◌∷◌ "b" (List.◌∷◌ "" (List.◌∷◌ "" List.[]))))
    × (trim_prefix "/v1/tenants/acme" "/v1/tenants/" ≡ "acme")
unfolding split_slash trim_prefix
text_tests = (refl, refl)
