-- ===== src/Connectors/Discord.antt =====
-- pkg/connectors/discord/discord.go. The function Verify of crypto/ed25519 is a parameter, from the key,
-- the message and the signature to whether it is valid; it panics on a key that has not 32 bytes.
pub mod Splits
use sclawion.Prelude.{
  ℕ, Bool, true, false, ◌||◌, not, Option, none, some, ◌++◌, length, nat_eq, if◌then◌else◌,
}
use sclawion.Bytes.{Bytes, is_empty}
use sclawion.Bytes.Hex.{hex_decode}
use sclawion.Config.Errors.{Result, ok, err, plain, wrapped, malformed}
use sclawion.Connectors.{Headers, Decoder, Encoder, insist}

-- `none` is a panic.
abbrev pub Panicking : Type 0
Panicking = Option (Result (Unit {0}))

abbrev pub Ed25519 : Type 0
Ed25519 = Bytes → Bytes → Bytes → Bool

abbrev ed25519_verify : Ed25519 → Bytes → Bytes → Bytes → Panicking
ed25519_verify valid key msg sig =
    if nat_eq (length key) 32
    then some (insist (valid key msg sig) "discord: signature invalid")
    else none

abbrev after_hex : Ed25519 → Bytes → Bytes → Option Bytes → Panicking
after_hex valid key msg none = some (err (wrapped "discord: bad signature hex: " malformed))
after_hex valid key msg (some sig) = ed25519_verify valid key msg sig

abbrev pub stamp : Headers → Bytes
stamp header = header "X-Signature-Timestamp"

abbrev pub signature : Headers → Bytes
signature header = header "X-Signature-Ed25519"

unfoldable pub verify : Ed25519 → Bytes → Headers → Bytes → Panicking
unfolding hex_decode
verify valid public_key header body =
    let sig_hex = signature header in
    let ts = stamp header in
    if is_empty sig_hex || is_empty ts
    then some (err (plain "discord: missing signature headers"))
    else after_hex valid public_key (ts ++ body) (hex_decode sig_hex)

unfoldable pub decode : Decoder
decode body = err (plain "discord: decoder not implemented")

unfoldable pub encode : Encoder
encode ev = err (plain "discord: encoder not implemented")
