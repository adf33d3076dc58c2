-- ===== src/Auth/Signature.antt =====
-- When a signature matches.
use sclawion.Prelude.{◌≡◌, ◌↔◌, inl, inr, refl, sym, ap, ◌∙◌, true, ◌++◌, arith, Bool-cases}
use sclawion.Bytes.{Bytes, bytes_eq, has_prefix, trim_prefix}
use sclawion.Bytes.Hex.{hex_encode}
use sclawion.Bytes.Laws.{bytes_eq_iff, has_prefix_iff, trim_prefix-append}
use sclawion.Config.Errors.{ok}
use sclawion.Auth.{verify_hmac_sha256}

module _ (hmac : Bytes → Bytes → Bytes) (secret message : Bytes) where
  abbrev pub code : Bytes
  code = hex_encode (hmac secret message)

  -- A signature is accepted exactly if it is the lower-case hexadecimal code of the message.
  pub verify_hmac_sha256_iff :
      (expected : Bytes)
      → (verify_hmac_sha256 hmac secret message expected ≡ ok tt) ↔ (expected ≡ code)
  unfolding verify_hmac_sha256
  verify_hmac_sha256_iff expected = (
    λ h. elim (Bool-cases (bytes_eq code expected)) [
      | inl e ↦ sym ((bytes_eq_iff code expected).0 e)
      | inr e ↦ absurd (ground (arith, e))
    ],
    λ h. rw ((bytes_eq_iff code expected).1 (sym h)) refl,
  )

  -- With a prefix in front of it.
  pub verify-prefixed :
      (p sig : Bytes)
      → ((has_prefix sig p ≡ true)
          × (verify_hmac_sha256 hmac secret message (trim_prefix sig p) ≡ ok tt))
        ↔ (sig ≡ p ++ code)
  verify-prefixed p sig = (
    λ (begins, matches).
        let (t, same) = (has_prefix_iff sig p).0 begins in
        let rest : trim_prefix sig p ≡ t =
          ap (λ s. trim_prefix s p) same ∙ trim_prefix-append p t in
        same ∙ ap (λ s. p ++ s) (sym rest ∙ (verify_hmac_sha256_iff (trim_prefix sig p)).0 matches),
    λ same. (
      (has_prefix_iff sig p).1 (code, same),
      (verify_hmac_sha256_iff (trim_prefix sig p)).1
          (ap (λ s. trim_prefix s p) same ∙ trim_prefix-append p code),
    ),
  )
