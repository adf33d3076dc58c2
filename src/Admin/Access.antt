-- ===== src/Admin/Access.antt =====
-- cmd/admin-api/main.go and pkg/config/rbac.go: the JSON API behind the authentication, and who can
-- change anything through it.
use sclawion.Prelude.{◌≡◌, sym, ap, subst, ◌∙◌, ◌⊎◌, inl, inr, String, some, arith}
use sclawion.Config.Errors.{ok, err, Error, Result-cases}
use sclawion.Config.Types.{AdminUser, role_owner}
use sclawion.Config.Rbac.{IapAuthConfig, resolve_email, iap_auth}
use sclawion.Config.World.{World}
use sclawion.Admin.Http.{Request, Response, respond, text, failure}
use sclawion.Admin.Act.{Handler, ◌▷◌, run, answer, peek, ◌>>=◌}
use sclawion.Admin.Deps.{Deps}
use sclawion.Admin.Trail.{Mutates}
use sclawion.Admin.Routes.{new_api}
use sclawion.Admin.Gate.{Served, new_api-Served}

module _ {S V : Type 0} where
  -- mux.Handle("/v1/", authMW(api))
  unfoldable pub serve_api : IapAuthConfig S → Deps S V → Handler S V
  serve_api cfg d = iap_auth cfg (new_api d)

module _ {S V : Type 0} (cfg : IapAuthConfig S) (r : Request) where
  -- The world is as it was, or the e-mail of the request is that of an Owner in the store, and the
  -- trail is this Owner's.
  abbrev pub ByOwner : World S V → Response × World S V → Type 0
  ByOwner w out =
      (out.1 ≡ w)
      ⊎ ((email : String) × (user : AdminUser) × (resolve_email r cfg ≡ ok email)
          × (cfg.store.get_admin_user email w.store ≡ ok user)
          × (user.role ≡ role_owner)
          × Mutates (record { email = email; role = user.role }) w out)

abbrev pub signed_in : Request → String → AdminUser → Request
signed_in r email user = record r { caller = some (record { email = email; role = user.role }) }

pub some_injective : {A : Type 0} {x y : A} → some x ≡ some y → x ≡ y
some_injective e = cc

module _ {S V : Type 0} (cfg : IapAuthConfig S) (next : Handler S V) (r : Request)
    (w : World S V) where
  pub iap_auth-unresolved :
      (x : Error)
      → resolve_email r cfg ≡ err x
      → (iap_auth cfg next r ▷ w) ≡ (respond 401 (failure x), w)
  unfolding iap_auth answer ◌▷◌ run
  iap_auth-unresolved x e = ground (arith, e)

  pub iap_auth-unknown :
      (email : String) (x : Error)
      → resolve_email r cfg ≡ ok email
      → cfg.store.get_admin_user email w.store ≡ err x
      → (iap_auth cfg next r ▷ w) ≡ (respond 403 (text "rbac: caller not in admin_users"), w)
  unfolding iap_auth answer peek ◌>>=◌ ◌▷◌ run
  iap_auth-unknown email x e f = ground (arith, e, f)

  pub iap_auth-known :
      (email : String) (user : AdminUser)
      → resolve_email r cfg ≡ ok email
      → cfg.store.get_admin_user email w.store ≡ ok user
      → (iap_auth cfg next r ▷ w) ≡ (next (signed_in r email user) ▷ w)
  unfolding iap_auth peek ◌>>=◌ ◌▷◌ run
  iap_auth-known email user e f = ground (arith, e, f)

module _ {S V : Type 0} (cfg : IapAuthConfig S) (d : Deps S V) (r : Request) (w : World S V) where
  after_api :
      (email : String) (user : AdminUser)
      → resolve_email r cfg ≡ ok email
      → cfg.store.get_admin_user email w.store ≡ ok user
      → Served (signed_in r email user) w (serve_api cfg d r ▷ w)
      → ByOwner cfg r w (serve_api cfg d r ▷ w)
  after_api email user e f (inl same) = inl same
  after_api email user e f (inr (c, from, owner, m)) = inr (
    email,
    user,
    e,
    f,
    ap (λ c. c.role) (some_injective from) ∙ owner,
    subst (λ c. Mutates c w (serve_api cfg d r ▷ w)) (sym (some_injective from)) m,
  )

  -- A request to the JSON API leaves the world exactly as it was, or the e-mail that its
  -- authentication resolves to is in the store's list of administrators with the role Owner; and
  -- then it answers with an error and logs nothing, or with success and logs one entry, under that
  -- e-mail and role.
  pub serve_api-ByOwner : ByOwner cfg r w (serve_api cfg d r ▷ w)
  unfolding serve_api
  serve_api-ByOwner = elim (Result-cases (resolve_email r cfg)) [
    | inl (x, e) ↦ inl (ap (λ out. out.1) (iap_auth-unresolved cfg (new_api d) r w x e))
    | inr (email, e) ↦ elim (Result-cases (cfg.store.get_admin_user email w.store)) [
      | inl (x, f) ↦ inl (ap (λ out. out.1) (iap_auth-unknown cfg (new_api d) r w email x e f))
      | inr (user, f) ↦ after_api email user e f (
          subst (Served (signed_in r email user) w)
            (sym (iap_auth-known cfg (new_api d) r w email user e f))
            (new_api-Served d (signed_in r email user) w))
    ]
  ]
