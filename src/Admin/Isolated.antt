-- ===== src/Admin/Isolated.antt =====
-- The tenants among themselves: what a request to a path under one of them does to the others.
use sclawion.Prelude.{◌≡◌, true, String, List, ◌∷◌, All}
use sclawion.Text.{has_prefix, trim_prefix, split_slash}
use sclawion.Config.Tenancy.{Spares}
use sclawion.Config.World.{World}
use sclawion.Config.Rbac.{IapAuthConfig}
use sclawion.Admin.Http.{Request, Response}
use sclawion.Admin.Act.{Act}
use sclawion.Admin.Deps.{Deps}
use sclawion.Admin.Documents.{Sound}
use sclawion.Admin.Keeping.{Wired}
use sclawion.Admin.Routes.{new_api}
use sclawion.Admin.Every.{EachRead-Reading}
use sclawion.Admin.Under.{new_api-Under}
use sclawion.Admin.Access.{serve_api, signed_in}
use sclawion.Admin.Ui.Routes.{Assets}
use sclawion.Admin.Mux.{serve, serve-At, serve_ui-Reading, iap_auth-At, with_user-At}
use sclawion.Admin.Guarded.{Goes, replied, goes}
use sclawion.Admin.Confined.{Confined, Confines, bind}
use sclawion.Admin.Confined.Rules.{Confines-Reading, Confines-answer, Confines-peek}
use sclawion.Admin.Confined.Handlers.{under-Confines}

module _ {S V : Type 0} (cfg : IapAuthConfig S) (assets : Assets) (d : Deps S V) (wd : Wired d)
    (r : Request) (tid : String) (rest : List String) where
  confined :
      has_prefix r.path "/v1/tenants/" ≡ true
      → split_slash (trim_prefix r.path "/v1/tenants/") ≡ tid ∷ rest
      → Confines wd.contract tid (serve cfg assets d r)
  unfolding serve_api
  confined under split =
      let P : Act S V Response → Type 0 = Confines wd.contract tid in
      serve-At cfg assets d r P Confines-answer
        (iap_auth-At P Confines-answer cfg (new_api d) r λ email e.
          bind (Confines-peek (cfg.store.get_admin_user email)) λ x.
            with_user-At P (new_api d) r email x (Confines-answer _ _) λ user.
              new_api-Under d (signed_in r email user) P
                (λ status body h. Confines-answer status body)
                (EachRead-Reading d (signed_in r email user) P Confines-Reading) tid
                (under-Confines d wd tid (signed_in r email user)) rest under split)
        (Confines-Reading _ (serve_ui-Reading cfg assets d r))

  Confined-Goes :
      (m : Act S V Response) {ts : List (World S V × World S V)} {x : Response}
      → Goes m ts x
      → Confined wd.contract tid m
      → All (λ t. Sound wd.contract t.0) ts
      → All (λ t. Spares tid (wd.contract.look t.0.store) (wd.contract.look t.1.store)) ts
  unfolding Confined
  Confined-Goes m (replied o) p h = tt
  Confined-Goes m (goes u k w g) p (h, hs) = ((p w h).0, Confined-Goes (k w) g (p w h).1 hs)

  -- If the service is wired to one store that keeps its contract, then a request to a path under
  -- /v1/tenants/tid/ changes no document of another tenant and no administrator, whatever the others do to
  -- the world between its steps: each of its steps leaves these as it finds them, if each finds the
  -- documents of the store accepted by their validators and under their own keys.
  pub serve-Spares :
      (ts : List (World S V × World S V)) (x : Response)
      → has_prefix r.path "/v1/tenants/" ≡ true
      → split_slash (trim_prefix r.path "/v1/tenants/") ≡ tid ∷ rest
      → Goes (serve cfg assets d r) ts x
      → All (λ t. Sound wd.contract t.0) ts
      → All (λ t. Spares tid (wd.contract.look t.0.store) (wd.contract.look t.1.store)) ts
  serve-Spares ts x under split g h = Confined-Goes _ g (confined under split).confined h
