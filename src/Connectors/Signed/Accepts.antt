-- ===== src/Connectors/Signed/Accepts.antt =====
-- Which requests the WhatsApp and iMessage verifiers accept.
use sclawion.Prelude.{◌≡◌, ◌≢◌, ◌↔◌, refl, String, Bool, true, false, [], ◌∷◌, ◌++◌, not}
use sclawion.Text.{◌⧺◌}
use sclawion.Bytes.{Bytes, bytes, is_empty, has_prefix, trim_prefix}
use sclawion.Config.Errors.{Result, ok, ◌>>◌}
use sclawion.Auth.{verify_hmac_sha256}
use sclawion.Auth.Signature.{code, verify_hmac_sha256_iff, verify-prefixed}
use sclawion.Connectors.{Headers, insist}
use sclawion.Connectors.Signed.{ImessageVerifier, header_name, verify_whatsapp, verify_imessage}

insist-then :
    (test : Bool) (message : String) (m : Result (Unit {0}))
    → ((insist test message >> m) ≡ ok tt) ↔ ((test ≡ true) × (m ≡ ok tt))
insist-then true message m = (λ h. (refl, h), λ (p, h). h)
insist-then false message m = (λ h. absurd cc, λ (p, h). absurd cc)

not-is_empty_iff : (s : Bytes) → (not (is_empty s) ≡ true) ↔ (s ≢ [])
not-is_empty_iff [] = (λ h. absurd cc, λ h. absurd (h refl))
not-is_empty_iff (c ∷ s) = (λ h e. cc, λ h. refl)

module _ (hmac : Bytes → Bytes → Bytes) (header : Headers) (body : Bytes) where
  -- The WhatsApp verifier accepts a request exactly if its header X-Hub-Signature-256 is "sha256="
  -- with the code of the body.
  pub verify_whatsapp_iff :
      (secret : Bytes)
      → (verify_whatsapp hmac secret header body ≡ ok tt)
        ↔ (header "X-Hub-Signature-256" ≡ bytes "sha256=" ++ code hmac secret body)
  unfolding verify_whatsapp
  verify_whatsapp_iff secret =
      let sig = header "X-Hub-Signature-256" in
      let (to, from) =
        insist-then (has_prefix sig (bytes "sha256="))
          "whatsapp: missing or malformed X-Hub-Signature-256"
          (verify_hmac_sha256 hmac secret body (trim_prefix sig (bytes "sha256="))) in
      let (join, split) = verify-prefixed hmac secret body (bytes "sha256=") sig in
      (λ h. join (to h), λ h. from (split h))

  -- The iMessage verifier accepts a request exactly if its header is not empty and is the code of the
  -- body.
  pub verify_imessage_iff :
      (v : ImessageVerifier)
      → (verify_imessage hmac v header body ≡ ok tt) ↔ (
          (header (header_name v) ≢ [])
          × (header (header_name v) ≡ code hmac v.signing_secret body))
  unfolding verify_imessage
  verify_imessage_iff v =
      let sig = header (header_name v) in
      let (to, from) =
        insist-then (not (is_empty sig)) ("imessage: missing " ⧺ header_name v ⧺ " header")
          (verify_hmac_sha256 hmac v.signing_secret body sig) in
      let (join, split) = verify_hmac_sha256_iff hmac v.signing_secret body sig in
      let (full, filled) = not-is_empty_iff sig in
      (
        λ h. let (given, matches) = to h in (full given, join matches),
        λ (given, same). from (filled given, split same),
      )
