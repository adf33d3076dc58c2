-- ===== src/Bytes/HexText.antt =====
-- hex.EncodeToString as a text.
use Prim.Native.Char.{code}
use Prim.Native.String.{char_at}
use sclawion.Prelude.{
  ℕ, zero, suc, ◌/◌, ◌%◌, ◌<◌, ◌≡◌, refl, ap₂, String, Bool, true, ◌&&◌, [], ◌∷◌, nat_eq, arith,
}
use sclawion.Text.{codes}
use sclawion.Bytes.{Bytes, AreBytes}
use sclawion.Bytes.Hex.{hex_digit, hex_encode}

unfoldable pub hex_text : Bytes → String
hex_text [] = String.[]
hex_text (x ∷ xs) =
    String.◌∷◌ (char_at "0123456789abcdef" (x / 16))
      (String.◌∷◌ (char_at "0123456789abcdef" (x % 16)) (hex_text xs))

digits_agree : ℕ → Bool
digits_agree zero = true
digits_agree (suc n) = nat_eq (code (char_at "0123456789abcdef" n)) (hex_digit n) && digits_agree n

digits_table : digits_agree 16 ≡ true
unfolding digits_agree hex_digit
digits_table = refl

digit_at :
    (k n : ℕ) → digits_agree k ≡ true → n < k → code (char_at "0123456789abcdef" n) ≡ hex_digit n
unfolding digits_agree
digit_at zero n h lt = absurd (omega arith)
digit_at (suc k) n h lt = ground (arith, digit_at k n)

-- The text has the bytes of the code.
pub codes-hex_text : (xs : Bytes) → AreBytes xs → codes (hex_text xs) ≡ hex_encode xs
unfolding hex_text hex_encode
codes-hex_text [] h = refl
codes-hex_text (x ∷ xs) (p, h) =
    ap₂ ◌∷◌ (digit_at 16 (x / 16) digits_table (omega arith))
      (ap₂ ◌∷◌ (digit_at 16 (x % 16) digits_table (omega arith)) (codes-hex_text xs h))
