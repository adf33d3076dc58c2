-- ===== src/Admin/Start.antt =====
-- cmd/admin-api/main.go: the guard at the start, the configuration of the authentication, and what a
-- freshly started service answers.
use sclawion.Prelude.{String, none, List, [], ◌∷◌, ◌==◌, if◌then◌else◌}
use sclawion.Prelude.Int.{pos}
use sclawion.Config.Errors.{Result, ok, err, plain}
use sclawion.Config.Types.{AdminUser, role_owner}
use sclawion.Config.Store.{Store}
use sclawion.Config.MemStore.View
use sclawion.Config.MemStore.View.{View}
use sclawion.Config.Contract.{Contract}
use sclawion.Config.World.{World}
use sclawion.Config.Rbac.{IapAuthConfig}
use sclawion.Admin.Deps.{Deps}

-- The user that a start in the environment "dev" writes.
abbrev pub dev_owner : String → AdminUser
dev_owner bypass = record {
  email = if bypass == "" then "owner@dev.local" else bypass;
  role = role_owner;
  added_by = "dev-bootstrap";
  added_at = pos 0;
}

abbrev seeded_by : Result (List AdminUser) → Result (Unit {0})
seeded_by (err e) = err e
seeded_by (ok []) = err (plain "admin_users is empty; Terraform must seed at least one Owner")
seeded_by (ok (u ∷ us)) = ok tt

module _ {S : Type 0} where
  -- `bypass` is the variable ADMIN_API_DEV_IAP_BYPASS_EMAIL.
  unfoldable pub require_owner_seed : Store S → String → String → S → Result (Unit {0}) × S
  require_owner_seed st env bypass s =
      if env == "dev"
      then st.put_admin_user (dev_owner bypass) s
      else (seeded_by (st.list_admin_users s), s)

  -- The configuration that `main` builds: no verifier is wired.
  unfoldable pub auth_config : Store S → String → String → String → IapAuthConfig S
  auth_config st env bypass audience = record {
    verifier = none;
    audience = if env == "dev" then "" else audience;
    store = st;
    env = env;
    bypass_email = bypass;
  }

module _ {S : Type 0} (st : Store S) (bypass : String) where
  -- The world after the guard has run in "dev".
  abbrev pub started : {V : Type 0} → World S V → World S V
  started w = record w { store = (require_owner_seed st "dev" bypass w.store).1 }

  abbrev pub dev_auth : String → IapAuthConfig S
  dev_auth audience = auth_config st "dev" bypass audience
