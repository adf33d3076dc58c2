-- ===== src/Tests/Webhooks.antt =====
-- Webhook requests with concrete headers. The code of a message is its length, in one byte.
use sclawion.Prelude.{
  ◌%◌, ◌≡◌, ◌≢◌, ◌↔◌, ◌⊎◌, refl, some, none, Bool, [], ◌∷◌, ◌++◌, length, ◌==◌, nat_eq,
  if◌then◌else◌, arith,
}
use sclawion.Prelude.Int.{pos}
use sclawion.Bytes.{Bytes, bytes, bytes_eq, has_prefix, trim_prefix}
use sclawion.Bytes.Hex.{hex_decode}
use sclawion.Event.{Time}
use sclawion.GoTime.{unix}
use sclawion.Config.Errors.{ok, err, plain}
use sclawion.Auth.{check_timestamp_skew, verify_hmac_sha256}
use sclawion.Auth.Signature.{code}
use sclawion.Auth.Skew.{InWindow, FarAhead, check_timestamp_skew_iff}
use sclawion.Connectors.{Headers}
use sclawion.Connectors.Slack.{SlackVerifier}
use sclawion.Connectors.Slack
use sclawion.Connectors.Slack.Signing.{IsSigned, slack_verify_iff}
use sclawion.Connectors.Slack.Binding.{verify-binds}
use sclawion.Connectors.Signed.{ImessageVerifier, verify_whatsapp, verify_imessage}
use sclawion.Connectors.Signed.Accepts.{verify_whatsapp_iff, verify_imessage_iff}
use sclawion.Connectors.Discord
use sclawion.Connectors.Discord.{Ed25519}
use sclawion.Connectors.Discord.Splits.{IsValid, discord_verify_iff, discord_verify-split}
use sclawion.Connectors.Gchat
use sclawion.Connectors.Gchat.{GchatVerifier}
use sclawion.Connectors.Gchat.Accepts.{HasToken, gchat_verify_iff}

abbrev hmac : Bytes → Bytes → Bytes
hmac key message = (length message % 256) ∷ []

abbrev now : Time
now = pos 63835596800000000000

abbrev slack_verifier : SlackVerifier
slack_verifier = record { signing_secret = bytes "s3cret"; now = some now }

abbrev hello : Bytes
hello = bytes "hi"

abbrev slack_headers : Headers
slack_headers name =
    if name == "X-Slack-Request-Timestamp"
    then bytes "1700000000"
    else if name == "X-Slack-Signature"
    then bytes "v0=10"
    else []

slack_accepts : Slack.verify hmac slack_verifier now slack_headers hello ≡ ok tt
unfolding Slack.verify check_timestamp_skew unix has_prefix verify_hmac_sha256 trim_prefix
slack_accepts = refl

slack_verify_iff_example :
    (Slack.verify hmac slack_verifier now slack_headers hello ≡ ok tt)
    ↔ IsSigned hmac slack_verifier now slack_headers hello
slack_verify_iff_example = slack_verify_iff hmac slack_verifier now slack_headers hello

verify-binds_example : (Slack.stamp slack_headers ≡ Slack.stamp slack_headers) × (hello ≡ hello)
verify-binds_example =
    verify-binds hmac slack_verifier now now slack_headers slack_headers hello hello
      (λ key message. (omega arith, tt)) (λ e. refl) slack_accepts slack_accepts refl

check_timestamp_skew_iff_example :
    (check_timestamp_skew (unix (pos 1700000301)) now ≡ ok tt)
    ↔ (InWindow (unix (pos 1700000301)) now ⊎ FarAhead (unix (pos 1700000301)) now)
check_timestamp_skew_iff_example = check_timestamp_skew_iff (unix (pos 1700000301)) now

-- A second past the window, and 292 years past it.
skew_tests :
    (check_timestamp_skew (unix (pos 1700000300)) now ≡ ok tt)
    × (check_timestamp_skew (unix (pos 1700000301)) now ≢ ok tt)
    × (check_timestamp_skew (unix (pos 10923372037)) now ≡ ok tt)
unfolding check_timestamp_skew unix
skew_tests = (refl, λ e. cc, refl)

abbrev whatsapp_headers : Headers
whatsapp_headers name = if name == "X-Hub-Signature-256" then bytes "sha256=02" else []

verify_whatsapp_iff_example :
    (verify_whatsapp hmac [] whatsapp_headers hello ≡ ok tt)
    ↔ (whatsapp_headers "X-Hub-Signature-256" ≡ bytes "sha256=" ++ code hmac [] hello)
verify_whatsapp_iff_example = verify_whatsapp_iff hmac whatsapp_headers hello []

abbrev bridge : ImessageVerifier
bridge = record { signing_secret = []; header = "" }

abbrev bridge_headers : Headers
bridge_headers name = if name == "sb-signature" then bytes "02" else []

verify_imessage_iff_example : (verify_imessage hmac bridge bridge_headers hello ≡ ok tt) ↔ (
    (bridge_headers "sb-signature" ≢ [])
    × (bridge_headers "sb-signature" ≡ code hmac bridge.signing_secret hello))
verify_imessage_iff_example = verify_imessage_iff hmac bridge_headers hello bridge

signed_tests :
    (verify_whatsapp hmac [] whatsapp_headers hello ≡ ok tt)
    × (verify_imessage hmac bridge bridge_headers hello ≡ ok tt)
unfolding verify_whatsapp verify_imessage verify_hmac_sha256
signed_tests = (refl, refl)

-- A signature is valid if it is one byte, the length of the message.
abbrev ed25519 : Ed25519
ed25519 key msg [] = Bool.false
ed25519 key msg (n ∷ s) = nat_eq n (length msg)

abbrev key : Bytes
key = bytes "0123456789abcdef0123456789abcdef"

abbrev discord_headers : Bytes → Headers
discord_headers ts name =
    if name == "X-Signature-Timestamp"
    then ts
    else if name == "X-Signature-Ed25519"
    then bytes "05"
    else []

discord_verify_iff_example :
    (Discord.verify ed25519 key (discord_headers (bytes "170")) hello ≡ some (ok tt)) ↔ (
      (bytes "05" ≢ [])
      × (bytes "170" ≢ [])
      × IsValid ed25519 key (bytes "170" ++ hello) (hex_decode (bytes "05")))
discord_verify_iff_example = discord_verify_iff ed25519 key (discord_headers (bytes "170")) hello

discord_verify-split_example :
    Discord.verify ed25519 key (discord_headers (bytes "170")) hello
    ≡ Discord.verify ed25519 key (discord_headers (bytes "17")) (bytes "0hi")
discord_verify-split_example =
    discord_verify-split ed25519 key (discord_headers (bytes "170")) (discord_headers (bytes "17"))
      hello (bytes "0hi") refl (λ e. cc) (λ e. cc) refl

-- A valid signature, and a key that is too short.
discord_tests :
    (Discord.verify ed25519 key (discord_headers (bytes "170")) hello ≡ some (ok tt))
    × (Discord.verify ed25519 hello (discord_headers (bytes "170")) hello ≡ none)
unfolding Discord.verify
discord_tests = (refl, refl)

abbrev chat : GchatVerifier
chat = record {
  oidc = λ token audience. if audience == "project" then ok "chat" else err (plain "bad audience");
  audience = "project";
}

abbrev chat_headers : Headers
chat_headers name = if name == "Authorization" then bytes "Bearer eyJ" else []

gchat_verify_iff_example :
    (Gchat.verify chat chat_headers hello ≡ ok tt) ↔ HasToken chat chat_headers hello
gchat_verify_iff_example = gchat_verify_iff chat chat_headers hello

gchat_test : Gchat.verify chat chat_headers hello ≡ ok tt
unfolding Gchat.verify bytes_eq
gchat_test = refl
