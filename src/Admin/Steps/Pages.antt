-- ===== src/Admin/Steps/Pages.antt =====
-- How many steps the pages of the user interface and the whole service take at most.
use sclawion.Prelude.{ℕ, ◌+◌, arith}
use sclawion.Config.Rbac.{IapAuthConfig, iap_auth}
use sclawion.Admin.Http.{Request, Body}
use sclawion.Admin.Act.{Handler, answer}
use sclawion.Admin.Routes.{new_api}
use sclawion.Admin.Access.{serve_api, signed_in}
use sclawion.Admin.Mux.{serve, serve_ui, serve-At, iap_auth-At, with_user-At}
use sclawion.Admin.Steps.Handlers.{new_api-Takes}
use sclawion.Admin.Deps.{Deps}
use sclawion.Admin.Steps.{Takes, Takes-le, bind, Takes-peek, Takes-reply, Takes-answer}
use sclawion.Admin.Ui.Every.{EachPage, ui-At}
use sclawion.Admin.Ui.Routes.{Assets, ui}
use sclawion.Admin.Ui.Views.{
  render_ui_tenants, render_ui_tenant, render_ui_connectors, render_ui_agents, render_ui_swarms,
  render_ui_admin_users, render_ui_audit,
}

module _ {S V : Type 0} (assets : Assets) (d : Deps S V) (r : Request) where
  pages-Takes : EachPage assets d r (Takes 4)
  unfolding render_ui_tenants render_ui_tenant render_ui_connectors render_ui_agents
      render_ui_swarms render_ui_admin_users render_ui_audit
  pages-Takes = record {
    on_tenants = Takes-le (bind (Takes-peek _) λ ts. Takes-reply _) (omega arith);
    on_tenant = λ tid. bind (Takes-peek _) λ t.
        bind (Takes-peek _)
          λ cs. bind (Takes-peek _) λ ags. bind (Takes-peek _) λ ss. Takes-reply _;
    on_connectors = λ tid.
        Takes-le (bind (Takes-peek _) λ t. bind (Takes-peek _) λ cs. Takes-reply _) (omega arith);
    on_agents = λ tid.
        Takes-le (bind (Takes-peek _) λ t. bind (Takes-peek _) λ ags. Takes-reply _) (omega arith);
    on_swarms = λ tid.
        Takes-le (bind (Takes-peek _) λ t. bind (Takes-peek _) λ ss. Takes-reply _) (omega arith);
    on_admin_users = Takes-le (bind (Takes-peek _) λ us. Takes-reply _) (omega arith);
    on_audit = Takes-le (bind (Takes-peek _) λ es. Takes-reply _) (omega arith);
  }

  pub ui-Takes : Takes 4 (ui assets d r)
  ui-Takes =
      ui-At assets d r (Takes 4) (λ status body. Takes-le (Takes-answer status body) (omega arith))
        (λ x. Takes-le (Takes-reply x) (omega arith)) pages-Takes

module _ {S V : Type 0} (cfg : IapAuthConfig S) where
  answers-Takes : {n : ℕ} (status : ℕ) (body : Body) → Takes {S = S} {V = V} n (answer status body)
  answers-Takes status body = Takes-le (Takes-answer status body) (omega arith)

  -- The authentication adds a read.
  iap_auth-Takes :
      (n : ℕ) (next : Handler S V) (r : Request)
      → ((signed : Request) → Takes n (next signed))
      → Takes (1 + n) (iap_auth cfg next r)
  iap_auth-Takes n next r p = iap_auth-At (Takes (1 + n)) answers-Takes cfg next r λ email e.
      bind (Takes-peek (cfg.store.get_admin_user email)) λ x.
        with_user-At (Takes n) next r email x (answers-Takes _ _)
          (λ user. p (signed_in r email user))

  -- A request to the service takes nine steps at most: one of the authentication, and eight where a
  -- secret is rotated.
  pub serve-Takes : (assets : Assets) (d : Deps S V) (r : Request) → Takes 9 (serve cfg assets d r)
  unfolding serve_api serve_ui
  serve-Takes assets d r =
      serve-At cfg assets d r (Takes 9) answers-Takes
        (iap_auth-Takes 8 (new_api d) r (new_api-Takes d))
        (Takes-le (iap_auth-Takes 4 (ui assets d) r (ui-Takes assets d)) (omega arith))
