-- ===== src/Bytes/Hex.antt =====
-- encoding/hex: EncodeToString writes lower-case digits, DecodeString reads both cases and refuses an
-- odd length or any other byte.
use sclawion.Prelude.{
  ℕ, ◌+◌, ◌-◌, ◌*◌, ◌/◌, ◌%◌, ◌<◌, ◌≡◌, refl, ap, Option, none, some, [], ◌∷◌, ltb, leb, ◌&&◌,
  if◌then◌else◌, arith,
}
use sclawion.Bytes.{Bytes, AreBytes}

unfoldable pub hex_digit : ℕ → ℕ
hex_digit n = if ltb n 10 then b'0' + n else b'a' + (n - 10)

unfoldable pub from_hex : ℕ → Option ℕ
from_hex c =
    if leb b'0' c && leb c b'9'
    then some (c - b'0')
    else if leb b'a' c && leb c b'f'
    then some (c - b'a' + 10)
    else if leb b'A' c && leb c b'F'
    then some (c - b'A' + 10)
    else none

unfoldable pub hex_encode : Bytes → Bytes
unfolding hex_digit
hex_encode [] = []
hex_encode (x ∷ xs) = hex_digit (x / 16) ∷ hex_digit (x % 16) ∷ hex_encode xs

abbrev pair : Option ℕ → Option ℕ → Option Bytes → Option Bytes
pair (some hi) (some lo) (some rest) = some ((hi * 16 + lo) ∷ rest)
pair none lo rest = none
pair (some hi) none rest = none
pair (some hi) (some lo) none = none

unfoldable pub hex_decode : Bytes → Option Bytes
unfolding from_hex
hex_decode [] = some []
hex_decode (c ∷ []) = none
hex_decode (c ∷ d ∷ s) = pair (from_hex c) (from_hex d) (hex_decode s)

pub from_hex-hex_digit : (n : ℕ) → n < 16 → from_hex (hex_digit n) ≡ some n
unfolding from_hex hex_digit
from_hex-hex_digit n h = ground arith

-- Decoding undoes encoding.
pub hex_decode-hex_encode : (xs : Bytes) → AreBytes xs → hex_decode (hex_encode xs) ≡ some xs
unfolding hex_decode hex_encode
hex_decode-hex_encode [] h = refl
hex_decode-hex_encode (x ∷ xs) (p, h) =
    ground
      (arith, from_hex-hex_digit (x / 16), from_hex-hex_digit (x % 16), hex_decode-hex_encode xs h)

pub hex_encode-injective :
    (xs ys : Bytes) → AreBytes xs → AreBytes ys → hex_encode xs ≡ hex_encode ys → xs ≡ ys
hex_encode-injective xs ys h k e =
    let back : hex_decode (hex_encode xs) ≡ hex_decode (hex_encode ys) = ap hex_decode e in
    let codes = hex_decode-hex_encode xs h in let codes' = hex_decode-hex_encode ys k in cc
