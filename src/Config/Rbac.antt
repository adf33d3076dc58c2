-- ===== src/Config/Rbac.antt =====
-- pkg/config/rbac.go: the middleware that turns an IAP token into a caller, and the role gates.
pub mod Identity
pub mod Gates
use sclawion.Prelude.{ℕ, String, Bool, ◌&&◌, not, ◌==◌, Option, none, some, leb, if◌then◌else◌}
use sclawion.Config.Errors.{Result, ok, err, plain}
use sclawion.Config.Types.{Role, role_owner, role_operator, role_viewer, AdminUser}
use sclawion.Config.Store.{Store}
use sclawion.Admin.Http.{Request, text, failure}
use sclawion.Admin.Act.{Handler, ◌>>=◌, answer, peek}

-- auth.IAPClaims
pub record IapClaims : Type 0 where
  pub email : String
  pub sub : String

-- auth.IAPVerifier, from the token and the audience.
abbrev pub IapVerifier : Type 0
IapVerifier = String → String → Result IapClaims

abbrev pub email_of : Result IapClaims → Result String
email_of (ok claims) = ok claims.email
email_of (err e) = err e

pub record IapAuthConfig (S : Type 0) : Type 0 where
  pub verifier : Option IapVerifier
  pub audience : String
  pub store : Store S
  pub env : String
  pub bypass_email : String

abbrev verify_with : Option IapVerifier → String → String → Result String
verify_with none jwt audience = err (plain "rbac: no IAP verifier configured")
verify_with (some verify) jwt audience = email_of (verify jwt audience)

module _ {S : Type 0} where
  unfoldable pub resolve_email : Request → IapAuthConfig S → Result String
  resolve_email r cfg =
      if cfg.env == "dev" && not (cfg.bypass_email == "")
      then ok cfg.bypass_email
      else if r.jwt == ""
      then err (plain "rbac: unauthenticated")
      else verify_with cfg.verifier r.jwt cfg.audience

module _ {S V : Type 0} where
  abbrev pub with_user : String → Result AdminUser → Handler S V → Handler S V
  with_user email (err e) next r = answer 403 (text "rbac: caller not in admin_users")
  with_user email (ok user) next r =
      next (record r { caller = some (record { email = email; role = user.role }) })

  abbrev with_email : IapAuthConfig S → Result String → Handler S V → Handler S V
  with_email cfg (err e) next r = answer 401 (failure e)
  with_email cfg (ok email) next r =
      peek (cfg.store.get_admin_user email) >>= λ user. with_user email user next r

  unfoldable pub iap_auth : IapAuthConfig S → Handler S V → Handler S V
  iap_auth cfg next r = with_email cfg (resolve_email r cfg) next r

-- The map of ranks: a role that it does not hold has rank 0.
unfoldable pub rank : Role → ℕ
rank r =
    if r == role_viewer
    then 1
    else if r == role_operator
    then 2
    else if r == role_owner
    then 3
    else 0

unfoldable pub role_at_least : Role → Role → Bool
unfolding rank
role_at_least have want = leb (rank want) (rank have)

module _ {S V : Type 0} where
  unfoldable pub require_role : Role → Handler S V → Handler S V
  require_role min next r = elim r.caller [
    | none ↦ answer 401 (text "rbac: no caller in context")
    | some c ↦ if role_at_least c.role min then next r else answer 403 (text "rbac: forbidden")
  ]

-- DevBypassEmail, with os.Getenv as `vars`
abbrev pub dev_bypass_email : (String → String) → String
dev_bypass_email vars = vars "ADMIN_API_DEV_IAP_BYPASS_EMAIL"
