-- ===== src/Admin/Mux.antt =====
-- cmd/admin-api/main.go: the mux of the service, with the JSON API and the user interface behind the
-- authentication, and who can change anything through it.
use sclawion.Prelude.{ℕ, ◌≡◌, refl, sym, subst, inl, inr, String, ◌==◌, if◌then◌else◌, if_either}
use sclawion.Text.{has_prefix}
use sclawion.Config.Errors.{Result, ok, err, Result-cases}
use sclawion.Config.Types.{AdminUser}
use sclawion.Config.Store.{Store}
use sclawion.Config.Contract.{Contract}
use sclawion.Config.World.{World}
use sclawion.Config.Rbac.{IapAuthConfig, resolve_email, iap_auth, with_user}
use sclawion.Admin.Http.{Request, Response, Body, nothing, text, failure}
use sclawion.Admin.Act.{Act, Handler, ◌▷◌, ◌>>=◌, answer, peek}
use sclawion.Admin.Deps.{Deps}
use sclawion.Admin.Reads.{Reading, Reading-bind, Reading-peek, Reading-answer, Reading-world}
use sclawion.Admin.Documents.{Keeps, Keeps-peek, Keeps-answer, bind}
use sclawion.Admin.Routes.{no_page}
use sclawion.Admin.Access.{ByOwner, serve_api, serve_api-ByOwner, signed_in}
use sclawion.Admin.Ui.Routes.{Assets, moved_to, ui}
use sclawion.Admin.Ui.Reads.{ui-Reading}

module _ {S V : Type 0} (cfg : IapAuthConfig S) (assets : Assets) (d : Deps S V) where
  -- mux.Handle("/ui/", authMW(handlers.UI(deps)))
  unfoldable pub serve_ui : Handler S V
  serve_ui = iap_auth cfg (ui assets d)

  unfoldable pub serve : Handler S V
  serve r =
      if r.path == "/healthz"
      then answer 200 nothing
      else if r.path == "/v1"
      then moved_to "/v1/" r
      else if has_prefix r.path "/v1/"
      then serve_api cfg d r
      else if r.path == "/ui"
      then moved_to "/ui/" r
      else if has_prefix r.path "/ui/"
      then serve_ui r
      else no_page r

-- The authentication reads the list of administrators, and lets the next program run or answers.
module _ {S V : Type 0} (P : Act S V Response → Type 0)
    (answers : (status : ℕ) (body : Body) → P (answer status body)) (cfg : IapAuthConfig S)
    (next : Handler S V) (r : Request) where
  pub iap_auth-At :
      ((email : String)
        → resolve_email r cfg ≡ ok email
        → P (peek (cfg.store.get_admin_user email) >>= λ user. with_user email user next r))
      → P (iap_auth cfg next r)
  unfolding iap_auth
  iap_auth-At behind = elim (Result-cases (resolve_email r cfg)) [
    | inl (x, e) ↦
        let same : iap_auth cfg next r ≡ answer 401 (failure x) = rw e refl in
        subst P (sym same) (answers 401 (failure x))
    | inr (email, e) ↦
        let same : iap_auth cfg next r
            ≡ (peek (cfg.store.get_admin_user email) >>= λ user. with_user email user next r) =
          rw e refl in
        subst P (sym same) (behind email e)
  ]

module _ {S V : Type 0} (P : Act S V Response → Type 0) (next : Handler S V) (r : Request) where
  pub with_user-At :
      (email : String) (x : Result AdminUser)
      → P (answer 403 (text "rbac: caller not in admin_users"))
      → ((user : AdminUser) → P (next (signed_in r email user)))
      → P (with_user email x next r)
  with_user-At email (err e) q p = q
  with_user-At email (ok user) q p = p user

module _ {S V : Type 0} (cfg : IapAuthConfig S) (next : Handler S V) (r : Request) where
  pub iap_auth-Reading :
      ((signed : Request) → Reading (next signed)) → Reading (iap_auth cfg next r)
  iap_auth-Reading p = iap_auth-At Reading Reading-answer cfg next r λ email e.
      Reading-bind (Reading-peek (cfg.store.get_admin_user email)) λ x.
        with_user-At Reading next r email x (Reading-answer _ _)
          (λ user. p (signed_in r email user))

  pub iap_auth-Keeps :
      {st : Store S} {k : Contract st}
      → ((signed : Request) → Keeps k (next signed))
      → Keeps k (iap_auth cfg next r)
  iap_auth-Keeps {k = k} p = iap_auth-At (Keeps k) Keeps-answer cfg next r λ email e.
      bind (Keeps-peek (cfg.store.get_admin_user email)) λ x.
        with_user-At (Keeps k) next r email x (Keeps-answer _ _)
          (λ user. p (signed_in r email user))

module _ {S V : Type 0} (cfg : IapAuthConfig S) (assets : Assets) (d : Deps S V) (r : Request) where
  pub serve_ui-Reading : Reading (serve_ui cfg assets d r)
  unfolding serve_ui
  serve_ui-Reading = iap_auth-Reading cfg (ui assets d) r (λ signed. ui-Reading assets d signed)

  -- Whatever holds of an answer, of the JSON API and of the user interface, holds of the service.
  pub serve-At :
      (P : Act S V Response → Type 0)
      → ((status : ℕ) (body : Body) → P (answer status body))
      → P (serve_api cfg d r)
      → P (serve_ui cfg assets d r)
      → P (serve cfg assets d r)
  unfolding serve
  serve-At P answers api ui = if_either P (r.path == "/healthz") (answers 200 nothing) (
      if_either P (r.path == "/v1") (answers 301 (text "/v1/")) (
        if_either P (has_prefix r.path "/v1/") api (
          if_either P (r.path == "/ui") (answers 301 (text "/ui/"))
            (if_either P (has_prefix r.path "/ui/") ui (answers 404 (text "404 page not found"))))))

  -- A request to the service, to the JSON API, the user interface or any other path, leaves the world
  -- exactly as it was, or the e-mail that its authentication resolves to is in the store's list of
  -- administrators with the role Owner; and then it answers with an error and logs nothing, or with
  -- success and logs one entry, under that e-mail and role.
  pub serve-ByOwner : (w : World S V) → ByOwner cfg r w (serve cfg assets d r ▷ w)
  serve-ByOwner w =
      let reads : (m : Act S V Response) → Reading m → ByOwner cfg r w (m ▷ w) =
        λ m p. inl (Reading-world m w p) in
      serve-At (λ m. ByOwner cfg r w (m ▷ w)) (λ status body. reads _ (Reading-answer status body))
        (serve_api-ByOwner cfg d r w) (reads _ serve_ui-Reading)
