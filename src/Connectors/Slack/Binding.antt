-- ===== src/Connectors/Slack/Binding.antt =====
-- What a Slack signature binds: the timestamp and the body.
use sclawion.Prelude.{
  ℕ, ◌≡◌, refl, Bool-cases, Option-cases, ◌+◌, ◌*◌, ◌-◌, ◌^◌, inl, inr, some, false, [], ◌∷◌, ◌++◌,
  arith, nat_eq, All,
}
use sclawion.Prelude.Int.{ℤ, pos}
use sclawion.Bytes.{Bytes, AreBytes, bytes, parse_int, decimal, digits, at_most, minus}
use sclawion.Bytes.Hex.{hex_encode-injective}
use sclawion.Event.{Time}
use sclawion.Config.Errors.{ok}
use sclawion.Connectors.{Headers}
use sclawion.Connectors.Slack.{stamp, signature, SlackVerifier, basestring, verify}
use sclawion.Connectors.Slack.Signing.{slack_verify_iff}

-- No character is a colon.
abbrev LacksColon : Bytes → Type 0
LacksColon s = All (λ c. nat_eq c b':' ≡ false) s

decimal-LacksColon : (k : ℕ) (s : Bytes) (n : ℕ) → decimal k s ≡ some n → LacksColon s
unfolding decimal
decimal-LacksColon k [] n h = tt
decimal-LacksColon k (c ∷ s) n h =
    let rest : decimal (k * 10 + (c - b'0')) s ≡ some n = ground arith in
    (ground arith, decimal-LacksColon (k * 10 + (c - b'0')) s n rest)

at_most-LacksColon :
    (bound : ℕ) (sign : ℕ → ℤ) (s : Bytes) (n : ℤ)
    → at_most bound sign (digits s) ≡ some n
    → LacksColon s
at_most-LacksColon bound sign [] n h = tt
at_most-LacksColon bound sign (c ∷ s) n h = elim (Option-cases (decimal 0 (c ∷ s))) [
  | inl e ↦ absurd (ground (arith, e, h))
  | inr (k, e) ↦ decimal-LacksColon 0 (c ∷ s) k e
]

-- A number has no colon.
parse_int-LacksColon : (s : Bytes) (n : ℤ) → parse_int s ≡ some n → LacksColon s
unfolding parse_int
parse_int-LacksColon [] n h = tt
parse_int-LacksColon (c ∷ s) n h = elim (Bool-cases (nat_eq c b'-')) [
  | inl m ↦ (ground (arith, m), at_most-LacksColon (2 ^ 63) minus s n (ground (arith, h, m)))
  | inr m ↦ elim (Bool-cases (nat_eq c b'+')) [
    | inl p ↦ (ground (arith, p), at_most-LacksColon (2 ^ 63 - 1) pos s n (ground (arith, h, p)))
    | inr p ↦ at_most-LacksColon (2 ^ 63 - 1) pos (c ∷ s) n (ground (arith, h, m, p))
  ]
]

at_colon :
    (s t x y : Bytes)
    → LacksColon s
    → LacksColon t
    → s ++ bytes ":" ++ x ≡ t ++ bytes ":" ++ y
    → (s ≡ t) × (x ≡ y)
at_colon [] [] x y p q h = (refl, cc)
at_colon [] (d ∷ t) x y p (q, _) h = absurd (ground (arith, h))
at_colon (c ∷ s) [] x y (p, _) q h = absurd (ground (arith, h))
at_colon (c ∷ s) (d ∷ t) x y (p, ps) (q, qs) h =
    let (same, rest) = at_colon s t x y ps qs cc in (cc, rest)

basestring-injective :
    (s t x y : Bytes) (n k : ℤ)
    → parse_int s ≡ some n
    → parse_int t ≡ some k
    → basestring s x ≡ basestring t y
    → (s ≡ t) × (x ≡ y)
unfolding basestring
basestring-injective s t x y n k p q h =
    at_colon s t x y (parse_int-LacksColon s n p) (parse_int-LacksColon t k q) cc

same_code : {p q x y : Bytes} → p ≡ bytes "v0=" ++ x → q ≡ bytes "v0=" ++ y → p ≡ q → x ≡ y
same_code e f same = cc

module _ (hmac : Bytes → Bytes → Bytes) (v : SlackVerifier) (clock clock' : Time)
    (header header' : Headers) (body body' : Bytes) where
  -- Two requests that the Slack verifier accepts under one secret, at whatever times, and that carry
  -- the same signature, have the same timestamp and the same body, provided that HMAC-SHA256 returns
  -- bytes and has no collision on the two texts that are signed.
  pub verify-binds :
      ((key message : Bytes) → AreBytes (hmac key message))
      → (hmac v.signing_secret (basestring (stamp header) body)
            ≡ hmac v.signing_secret (basestring (stamp header') body')
          → basestring (stamp header) body ≡ basestring (stamp header') body')
      → verify hmac v clock header body ≡ ok tt
      → verify hmac v clock' header' body' ≡ ok tt
      → signature header ≡ signature header'
      → (stamp header ≡ stamp header') × (body ≡ body')
  unfolding basestring
  verify-binds of_bytes no_collision h h' same =
      let (n, parses, _, signed) = (slack_verify_iff hmac v clock header body).0 h in
      let (n', parses', _, signed') = (slack_verify_iff hmac v clock' header' body').0 h' in
      basestring-injective (stamp header) (stamp header') body body' n n' parses parses' (
        no_collision
          (hex_encode-injective _ _ (of_bytes _ _) (of_bytes _ _) (same_code signed signed' same)))
