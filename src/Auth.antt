-- ===== src/Auth.antt =====
-- pkg/auth/hmac.go: the check of a signature and the window of a timestamp. HMAC-SHA256 is a parameter,
-- from the key and the message to the code.
pub mod Signature
pub mod Skew
use sclawion.Prelude.{ℕ, ◌*◌, if◌then◌else◌}
use sclawion.Prelude.Int.{pos, ltb_ℤ}
use sclawion.Bytes.{Bytes, bytes_eq}
use sclawion.Bytes.Hex.{hex_encode}
use sclawion.Event.{Time}
use sclawion.GoTime.{Duration, second, sub, negate}
use sclawion.Config.Errors.{Result, ok, err, signature_mismatch, timestamp_skew}

abbrev pub max_skew : Duration
max_skew = pos (5 * (60 * second))

-- `subtle.ConstantTimeCompare` is 1 exactly on equal byte strings.
unfoldable pub verify_hmac_sha256 :
    (Bytes → Bytes → Bytes) → Bytes → Bytes → Bytes → Result (Unit {0})
unfolding bytes_eq hex_encode
verify_hmac_sha256 hmac secret message expected_hex =
    let got = hex_encode (hmac secret message) in
    if bytes_eq got expected_hex then ok tt else err signature_mismatch

unfoldable pub check_timestamp_skew : Time → Time → Result (Unit {0})
unfolding sub negate
check_timestamp_skew req_time now =
    let d = sub now req_time in
    let size = if ltb_ℤ d (pos 0) then negate d else d in
    if ltb_ℤ max_skew size then err timestamp_skew else ok tt
