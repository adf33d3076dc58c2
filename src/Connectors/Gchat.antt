-- ===== src/Connectors/Gchat.antt =====
-- pkg/connectors/gchat/gchat.go. The interface auth.OIDCVerifier is a parameter, from the token and the
-- audience to the subject.
pub mod Accepts
use sclawion.Prelude.{
  ℕ, ◌↔◌, ◌⊎◌, refl, sym, ap, ◌∙◌, String, List, [], ◌∷◌, ◌++◌, Bool, true, false, not, ◌||◌, leb,
  length, take, drop, arith, if◌then◌else◌,
}
use sclawion.Bytes.{Bytes, bytes, bytes_eq}
use sclawion.Bytes.Laws.{bytes_eq_iff}
use sclawion.Config.Errors.{Result, ok, err, plain, ◌>>=◌}
use sclawion.Connectors.{Verifier, Headers, Decoder, Encoder, insist}

abbrev pub OidcVerifier : Type 0
OidcVerifier = Bytes → String → Result String

pub record GchatVerifier : Type 0 where
  pub oidc : OidcVerifier
  pub audience : String

abbrev pub bearer : Bytes
bearer = bytes "Bearer "

-- `if _, err := v.OIDC.Verify(...); err != nil { return err }; return nil`
abbrev pub without_subject : Result String → Result (Unit {0})
without_subject (err e) = err e
without_subject (ok subject) = ok tt

unfoldable pub verify : GchatVerifier → Verifier
verify v header body =
    let authz = header "Authorization" in
    if leb (length authz) (length bearer) || not (bytes_eq (take (length bearer) authz) bearer)
    then err (plain "gchat: missing Bearer token")
    else without_subject (v.oidc (drop (length bearer) authz) v.audience)

unfoldable pub decode : Decoder
decode body = err (plain "gchat: decoder not implemented")

unfoldable pub encode : Encoder
encode ev = err (plain "gchat: encoder not implemented")
