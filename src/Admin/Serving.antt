-- ===== src/Admin/Serving.antt =====
-- The service over any sequence of requests, one after the other.
use sclawion.Prelude.{◌≡◌, ◌≢◌, refl, ap, ◌∙◌, inl, inr, String, List, [], ◌∷◌}
use sclawion.Config.Errors.{ok}
use sclawion.Config.Types.{AdminUser, role_owner}
use sclawion.Config.World.{World}
use sclawion.Config.Rbac.{IapAuthConfig}
use sclawion.Admin.Http.{Request}
use sclawion.Admin.Act.{◌▷◌}
use sclawion.Admin.Deps.{Deps}
use sclawion.Admin.Routes.{new_api}
use sclawion.Admin.Documents.{Sound, Keeps, Keeps-Reading, Keeps-answer, Keeps-Sound}
use sclawion.Admin.Keeping.{Wired}
use sclawion.Admin.Soundness.{new_api-Keeps}
use sclawion.Admin.Ui.Routes.{Assets}
use sclawion.Admin.Mux.{serve, serve-At, serve_ui-Reading, serve-ByOwner, iap_auth-Keeps}
use sclawion.Admin.Access.{ByOwner, serve_api}

module _ {S V : Type 0} (cfg : IapAuthConfig S) (assets : Assets) (d : Deps S V) where
  -- The world after the requests of http.ListenAndServe.
  unfoldable pub serve_all : List Request → World S V → World S V
  serve_all [] w = w
  serve_all (r ∷ rs) w = serve_all rs (serve cfg assets d r ▷ w).1

  serve_api-Keeps : (wd : Wired d) (r : Request) → Keeps wd.contract (serve_api cfg d r)
  unfolding serve_api
  serve_api-Keeps wd r = iap_auth-Keeps cfg (new_api d) r (λ signed. new_api-Keeps d wd signed)

  -- What the service does with a request keeps the documents sound, whatever runs beside it.
  pub serve-Keeps : (wd : Wired d) (r : Request) → Keeps wd.contract (serve cfg assets d r)
  serve-Keeps wd r =
      serve-At cfg assets d r (Keeps wd.contract) Keeps-answer (serve_api-Keeps wd r)
        (Keeps-Reading _ (serve_ui-Reading cfg assets d r))

  -- If the service is wired to one store that keeps its contract, and every document of the store is
  -- accepted by its validator and stands under its own keys, then this is so after any sequence of
  -- requests to the service, whatever their answers.
  pub serve_all-Sound :
      (wd : Wired d) (rs : List Request) (w : World S V)
      → Sound wd.contract w
      → Sound wd.contract (serve_all rs w)
  unfolding serve_all
  serve_all-Sound wd [] w h = h
  serve_all-Sound wd (r ∷ rs) w h =
      serve_all-Sound wd rs (serve cfg assets d r ▷ w).1
        (Keeps-Sound wd.contract (serve cfg assets d r) w (serve-Keeps wd r) h)

  unchanged :
      (r : Request) (w : World S V)
      → ((email : String) (user : AdminUser)
          → cfg.store.get_admin_user email w.store ≡ ok user
          → user.role ≢ role_owner)
      → ByOwner cfg r w (serve cfg assets d r ▷ w)
      → (serve cfg assets d r ▷ w).1 ≡ w
  unchanged r w none_owns (inl same) = same
  unchanged r w none_owns (inr (email, user, from, held, owner, trail)) =
      absurd (none_owns email user held owner)

  -- If no user that the store returns has the role Owner, then no sequence of requests to the service
  -- changes the world at all.
  pub serve_all-without_owner :
      (rs : List Request) (w : World S V)
      → ((email : String) (user : AdminUser)
          → cfg.store.get_admin_user email w.store ≡ ok user
          → user.role ≢ role_owner)
      → serve_all rs w ≡ w
  unfolding serve_all
  serve_all-without_owner [] w none_owns = refl
  serve_all-without_owner (r ∷ rs) w none_owns =
      ap (serve_all rs) (unchanged r w none_owns (serve-ByOwner cfg assets d r w))
      ∙ serve_all-without_owner rs w none_owns
