-- ===== src/Admin/Asking.antt =====
-- cmd/admin-api/main.go: the first step of a request, which reads the list of administrators where it
-- does anything, and what it leaves to the others, whatever worlds they find.
use sclawion.Prelude.{ℕ, ◌≡◌, refl, sym, ap, subst, ◌∙◌, ◌⊎◌, inl, inr, String}
use sclawion.Config.Errors.{Result, ok, err}
use sclawion.Config.Types.{AdminUser, role_owner}
use sclawion.Config.World.{World}
use sclawion.Config.Rbac.{IapAuthConfig, resolve_email, with_user}
use sclawion.Admin.Http.{Request, Response, Body}
use sclawion.Admin.Act.{Act, ended, step, ◌>>=◌, peek, answer}
use sclawion.Admin.Deps.{Deps}
use sclawion.Admin.Reads.{Still, Reading, Reading-answer}
use sclawion.Admin.Trail.{Trailing}
use sclawion.Admin.Routes.{new_api}
use sclawion.Admin.Gate.{Allowed, new_api-Allowed}
use sclawion.Admin.Access.{signed_in, some_injective, serve_api}
use sclawion.Admin.Ui.Routes.{Assets}
use sclawion.Admin.Mux.{serve, serve-At, iap_auth-At, serve_ui-Reading}

module _ {S V : Type 0} (cfg : IapAuthConfig S) (r : Request) where
  -- What is left only reads, or the e-mail of the request is that of an Owner in the store, and what is
  -- left leaves the trail of this Owner.
  abbrev pub Admits : World S V → Act S V Response → Type 0
  Admits w m =
      Still m
      ⊎ ((email : String) × (user : AdminUser) × (resolve_email r cfg ≡ ok email)
          × (cfg.store.get_admin_user email w.store ≡ ok user)
          × (user.role ≡ role_owner)
          × Trailing (record { email = email; role = user.role }) m)

  -- The first step reads, and admits what is left.
  unfoldable pub Asks : Act S V Response → Type 0
  Asks (ended o) = ⊥
  Asks (step u k) = (w : World S V) → (u w ≡ w) × Admits w (k w)

  record Asking (m : Act S V Response) : Type 0 where
    asking : Still m ⊎ Asks m

  Reading-Asking : (m : Act S V Response) → Reading m → Asking m
  Reading-Asking m p = record { asking = inl p.still }

  module _ (d : Deps S V) where
    admitted :
        (email : String) (user : AdminUser) (w : World S V)
        → resolve_email r cfg ≡ ok email
        → cfg.store.get_admin_user email w.store ≡ ok user
        → Allowed (signed_in r email user) (new_api d (signed_in r email user))
        → Admits w (new_api d (signed_in r email user))
    admitted email user w e f (inl p) = inl p.still
    admitted email user w e f (inr (c, from, owner, t)) = inr (
      email,
      user,
      e,
      f,
      ap (λ c. c.role) (some_injective from) ∙ owner,
      subst (λ c. Trailing c (new_api d (signed_in r email user))) (sym (some_injective from))
          t.trailing,
    )

    known :
        (email : String) (w : World S V) (y : Result AdminUser)
        → resolve_email r cfg ≡ ok email
        → cfg.store.get_admin_user email w.store ≡ y
        → Admits w (with_user email y (new_api d) r)
    known email w (err z) e f = inl (Reading-answer _ _).still
    known email w (ok user) e f =
        admitted email user w e f (new_api-Allowed d (signed_in r email user))

    authenticated :
        (email : String)
        → resolve_email r cfg ≡ ok email
        → Asking
            (peek (cfg.store.get_admin_user email) >>= λ user. with_user email user (new_api d) r)
    unfolding peek ◌>>=◌ Asks
    authenticated email e = record {
      asking = inr λ w. (refl, known email w (cfg.store.get_admin_user email w.store) e refl);
    }

    every_request : (assets : Assets) → Asking (serve cfg assets d r)
    unfolding serve_api
    every_request assets =
        let answers : (status : ℕ) (body : Body) → Asking (answer status body) =
          λ status body. Reading-Asking _ (Reading-answer status body) in
        serve-At cfg assets d r Asking answers
          (iap_auth-At Asking answers cfg (new_api d) r authenticated)
          (Reading-Asking _ (serve_ui-Reading cfg assets d r))

    -- A request to the service only reads, or asks first.
    pub serve-Asks : (assets : Assets) → Still (serve cfg assets d r) ⊎ Asks (serve cfg assets d r)
    serve-Asks assets = (every_request assets).asking
