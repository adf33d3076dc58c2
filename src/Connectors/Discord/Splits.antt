-- ===== src/Connectors/Discord/Splits.antt =====
-- Which requests the Discord verifier accepts, and that it does not see where the timestamp ends.
use sclawion.Prelude.{
  ℕ, ◌≡◌, ◌≢◌, ◌↔◌, refl, ap, ◌∙◌, Option, some, none, Bool, true, false, ◌||◌, [], ◌∷◌, ◌++◌,
  length, nat_eq, arith, if◌then◌else◌,
}
use sclawion.Bytes.{Bytes, is_empty}
use sclawion.Bytes.Hex.{hex_decode}
use sclawion.Config.Errors.{ok, err, plain}
use sclawion.Connectors.{Headers, insist}
use sclawion.Connectors.Discord.{Ed25519, after_hex, verify, stamp, signature}

-- The signature was decoded, the key has its length and the signature is valid.
abbrev pub IsValid : Ed25519 → Bytes → Bytes → Option Bytes → Type 0
IsValid valid key msg decoded =
    (sig : Bytes) × (decoded ≡ some sig) × (length key ≡ 32) × (valid key msg sig ≡ true)

checked :
    (n : ℕ) (good : Bool)
    → ((if nat_eq n 32 then some (insist good "discord: signature invalid") else none)
        ≡ some (ok tt))
      ↔ ((n ≡ 32) × (good ≡ true))
checked n true = (λ h. ground arith, λ h. ground arith)
checked n false = (λ h. ground arith, λ h. ground arith)

accepts :
    (valid : Ed25519) (key msg a b : Bytes) (decoded : Option Bytes)
    → ((if is_empty a || is_empty b
          then some (err (plain "discord: missing signature headers"))
          else after_hex valid key msg decoded)
        ≡ some (ok tt))
      ↔ ((a ≢ []) × (b ≢ []) × IsValid valid key msg decoded)
accepts valid key msg [] b o = (λ h. absurd cc, λ (given, _, _). absurd (given refl))
accepts valid key msg (c ∷ a) [] o = (λ h. absurd cc, λ (_, given, _). absurd (given refl))
accepts valid key msg (c ∷ a) (d ∷ b) none = (λ h. absurd cc, λ (_, _, (sig, e, _, _)). absurd cc)
accepts valid key msg (c ∷ a) (d ∷ b) (some sig) = (
  λ h.
      let (sized, good) = (checked (length key) (valid key msg sig)).0 h in
      (λ e. cc, λ e. cc, (sig, refl, sized, good)),
  λ (_, _, (sig', e, sized, good)).
      let same : sig ≡ sig' = cc in
      (checked (length key) (valid key msg sig)).1 (sized, ap (valid key msg) same ∙ good),
)

is_empty-of_ne : (s : Bytes) → s ≢ [] → is_empty s ≡ false
is_empty-of_ne [] h = absurd (h refl)
is_empty-of_ne (c ∷ s) h = refl

-- The Discord verifier accepts a request exactly if both of its headers are there, the signature is
-- hexadecimal, the key has 32 bytes and the signature is valid for the timestamp followed by the
-- body; the time that the timestamp names plays no part.
pub discord_verify_iff :
    (valid : Ed25519) (key : Bytes) (header : Headers) (body : Bytes)
    → (verify valid key header body ≡ some (ok tt)) ↔ (
        (signature header ≢ [])
        × (stamp header ≢ [])
        × IsValid valid key (stamp header ++ body) (hex_decode (signature header)))
unfolding verify
discord_verify_iff valid key header body =
    accepts valid key (stamp header ++ body) (signature header) (stamp header)
      (hex_decode (signature header))

-- Two requests to the Discord verifier with the same signature, both with a timestamp, are treated
-- alike where the timestamp and the body put together are the same: what is signed does not say where
-- the timestamp ends.
pub discord_verify-split :
    (valid : Ed25519) (key : Bytes) (header header' : Headers) (body body' : Bytes)
    → signature header ≡ signature header'
    → stamp header ≢ []
    → stamp header' ≢ []
    → stamp header ++ body ≡ stamp header' ++ body'
    → verify valid key header body ≡ verify valid key header' body'
unfolding verify
discord_verify-split valid key header header' body body' same given given' alike =
    rw (same, is_empty-of_ne (stamp header) given, is_empty-of_ne (stamp header') given', alike)
      refl
