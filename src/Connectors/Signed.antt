-- ===== src/Connectors/Signed.antt =====
-- pkg/connectors/whatsapp and pkg/connectors/imessage: the platforms that sign the body alone.
pub mod Accepts
use sclawion.Prelude.{String, ◌==◌, not, if◌then◌else◌}
use sclawion.Bytes.{Bytes, bytes, is_empty, has_prefix, trim_prefix}
use sclawion.Config.Errors.{err, plain, ◌>>◌}
use sclawion.Auth.{verify_hmac_sha256}
use sclawion.Connectors.{Headers, Verifier, Decoder, Encoder, insist}
use sclawion.Text.{◌⧺◌}

-- The secret of whatsapp.Verifier is its field AppSecret.
unfoldable pub verify_whatsapp : (Bytes → Bytes → Bytes) → Bytes → Verifier
unfolding has_prefix trim_prefix
verify_whatsapp hmac app_secret header body =
    let sig = header "X-Hub-Signature-256" in
    insist (has_prefix sig (bytes "sha256=")) "whatsapp: missing or malformed X-Hub-Signature-256"
    >> verify_hmac_sha256 hmac app_secret body (trim_prefix sig (bytes "sha256="))

pub record ImessageVerifier : Type 0 where
  pub signing_secret : Bytes
  pub header : String

-- The header's name, by default that of Sendblue.
abbrev pub header_name : ImessageVerifier → String
header_name v = if v.header == "" then "sb-signature" else v.header

unfoldable pub verify_imessage : (Bytes → Bytes → Bytes) → ImessageVerifier → Verifier
verify_imessage hmac v header body =
    let sig = header (header_name v) in
    insist (not (is_empty sig)) ("imessage: missing " ⧺ header_name v ⧺ " header")
    >> verify_hmac_sha256 hmac v.signing_secret body sig

unfoldable pub decode_whatsapp : Decoder
decode_whatsapp body = err (plain "whatsapp: decoder not implemented")

unfoldable pub encode_whatsapp : Encoder
encode_whatsapp ev = err (plain "whatsapp: encoder not implemented")

unfoldable pub decode_imessage : Decoder
decode_imessage body =
    err (plain "imessage: decoder not implemented (see package doc for payload shape)")

unfoldable pub encode_imessage : Encoder
encode_imessage ev = err (plain "imessage: encoder not implemented")
