-- ===== src/Connectors/Slack/Signing.antt =====
-- Which requests the Slack verifier accepts.
use sclawion.Prelude.{
  Bool, Option, not, ◌||◌, ◌≡◌, ◌↔◌, refl, ◌⊎◌, none, some, true, false, [], ◌∷◌, ◌++◌, arith,
}
use sclawion.Prelude.Int.{ℤ}
use sclawion.Bytes.{Bytes, bytes, parse_int, has_prefix, trim_prefix, is_empty}
use sclawion.Bytes.Hex.{hex_encode}
use sclawion.Event.{Time}
use sclawion.GoTime.{unix}
use sclawion.Config.Errors.{then-ok, plain, ◌>>=◌, ◌>>◌, wrap, Result, ok, err}
use sclawion.Auth.{verify_hmac_sha256, check_timestamp_skew}
use sclawion.Auth.Signature.{verify-prefixed}
use sclawion.Auth.Skew.{InWindow, FarAhead, check_timestamp_skew_iff}
use sclawion.Connectors.{Headers, insist}
use sclawion.Connectors.Slack.{stamp, signature, parsed, SlackVerifier, now_of, basestring, verify}

-- Every check of a chain passes.
checks :
    (t u : Bool) (p : Option ℤ) (f : ℤ → Result (Unit {0})) (m : Result (Unit {0}))
    → ((insist t "slack: missing signature headers"
          >> (wrap "slack: bad timestamp: " (parsed p) >>= f)
          >> insist u "slack: signature missing v0= prefix"
          >> m)
        ≡ ok tt)
      ↔ ((t ≡ true) × ((n : ℤ) × (p ≡ some n) × (f n ≡ ok tt)) × (u ≡ true) × (m ≡ ok tt))
checks true u none f m = (λ h. absurd cc, λ (_, (n, parses, _), _, _). absurd cc)
checks true true (some n) f m = (
  λ h.
      let (inside, signed) = (then-ok (f n >> ok tt) m).0 h in
      (refl, (n, refl, ((then-ok (f n) (ok tt)).0 inside).0), refl, signed),
  λ (_, (n', same, inside), _, signed).
      (then-ok (f n >> ok tt) m).1 ((then-ok (f n) (ok tt)).1 (cc, refl), signed),
)
checks true false (some n) f m = (
  λ h. absurd (
      ground (
        arith,
        then-ok (f n) (err (plain "slack: signature missing v0= prefix")),
        then-ok (f n >> err (plain "slack: signature missing v0= prefix")) m,
      )),
  λ (_, _, missing, _). absurd cc,
)
checks false u p f m = (λ h. absurd cc, λ h. let missing = h.0 in absurd cc)

parse_int-is_empty : (s : Bytes) (n : ℤ) → parse_int s ≡ some n → is_empty s ≡ false
unfolding parse_int
parse_int-is_empty [] n h = absurd cc
parse_int-is_empty (c ∷ s) n h = refl

module _ (hmac : Bytes → Bytes → Bytes) (v : SlackVerifier) (clock : Time) (header : Headers)
    (body : Bytes) where
  -- The timestamp is a number whose time is in the window, and the signature is that of the timestamp
  -- and the body.
  abbrev pub IsSigned : Type 0
  IsSigned =
      (n : ℤ) × (parse_int (stamp header) ≡ some n)
      × (InWindow (unix n) (now_of v clock) ⊎ FarAhead (unix n) (now_of v clock))
      × (signature header
          ≡ bytes "v0="
            ++ hex_encode
                (hmac v.signing_secret (bytes "v0:" ++ stamp header ++ bytes ":" ++ body)))

  headers_given :
      (n : ℤ) {t : Bytes}
      → parse_int (stamp header) ≡ some n
      → signature header ≡ bytes "v0=" ++ t
      → not (is_empty (stamp header) || is_empty (signature header)) ≡ true
  headers_given n parses same = rw (parse_int-is_empty (stamp header) n parses, same) refl

  -- The Slack verifier accepts a request exactly if its timestamp is a decimal number of 64 bits whose
  -- time is at most five minutes before or after now, or at least 2^63 nanoseconds after it, and its
  -- signature is "v0=" with the code of "v0:", the timestamp, ":" and the body.
  pub slack_verify_iff : (verify hmac v clock header body ≡ ok tt) ↔ IsSigned
  unfolding verify basestring
  slack_verify_iff =
      let (to, from) =
        checks (not (is_empty (stamp header) || is_empty (signature header)))
          (has_prefix (signature header) (bytes "v0=")) (parse_int (stamp header))
          (λ n. check_timestamp_skew (unix n) (now_of v clock))
          (verify_hmac_sha256 hmac v.signing_secret (basestring (stamp header) body)
            (trim_prefix (signature header) (bytes "v0="))) in
      let (split, join) =
        verify-prefixed hmac v.signing_secret (basestring (stamp header) body) (bytes "v0=")
          (signature header) in
      (
        λ h.
            let (_, (n, parses, inside), begins, matches) = to h in
            (
              n,
              parses,
              (check_timestamp_skew_iff (unix n) (now_of v clock)).0 inside,
              split (begins, matches),
            ),
        λ (n, parses, inside, same).
            let (begins, matches) = join same in
            from (
              headers_given n parses same,
              (n, parses, (check_timestamp_skew_iff (unix n) (now_of v clock)).1 inside),
              begins,
              matches,
            ),
      )
