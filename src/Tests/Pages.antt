-- ===== src/Tests/Pages.antt =====
-- Requests to the user interface and to the whole service.
use sclawion.Prelude.{◌≡◌, ◌≢◌, ◌⊎◌, refl, String, ◌==◌, some, [], ◌∷◌, if◌then◌else◌}
use sclawion.Sorting.Insertion.{by_insertion, insertion}
use sclawion.GoMap.{values}
use sclawion.GoMap.Listing.{listing}
use sclawion.Config.Errors.{ok, err, Error}
use sclawion.Config.MemStore.{new_mem_store, put_admin_user, list_admin_users}
use sclawion.Config.Types.{role_viewer}
use sclawion.Admin.Act.{◌▷◌}
use sclawion.Admin.Http.{Request, Caller, respond, text}
use sclawion.Admin.Routes.{new_api}
use sclawion.Admin.Start.{dev_owner}
use sclawion.Admin.Boot.{memory, start, start-dev}
use sclawion.Admin.Access.{ByOwner}
use sclawion.Admin.Mux.{serve, serve-ByOwner}
use sclawion.Admin.Ui.{PageData, render}
use sclawion.Admin.Ui.Routes.{ui}
use sclawion.Admin.Ui.Reads.{ui-world}
use sclawion.Admin.Ui.Unguarded.{ui-admin_users}
use sclawion.Tests.Data.{assets, cfg, create_request, deps, world, ann}

serve-ByOwner_example :
    ByOwner cfg create_request world (serve cfg assets deps create_request ▷ world)
serve-ByOwner_example = serve-ByOwner cfg assets deps create_request world

abbrev viewer : Caller
viewer = record { email = "vi@acme.io"; role = role_viewer }

abbrev page_request : Request
page_request = record create_request {
  method = "GET";
  path = "/ui/tenants/acme/agents";
  caller = some viewer;
}

ui-world_example : (ui assets deps page_request ▷ world).1 ≡ world
ui-world_example = ui-world assets deps page_request world

ui-admin_users_example :
    ((new_api deps (record page_request { method = "GET"; path = "/v1/admin-users" }) ▷ world)
      ≡ (respond 403 (text "owner required"), world))
    × ((p : PageData) × (p.caller ≡ viewer)
        × (p.admins ≡ ann ∷ [])
        × ((ui assets deps (record page_request { path = "/ui/admin-users" }) ▷ world)
            ≡ (render assets.templates "admin_users.html" p, world)))
unfolding list_admin_users listing insertion values
ui-admin_users_example =
    ui-admin_users assets deps page_request world viewer (ann ∷ []) refl (λ e. cc) refl

abbrev vars : String → String
vars name = if name == "ADMIN_API_DEV_IAP_BYPASS_EMAIL" then "dev@acme.io" else ""

start-dev_example :
    (((vars "ENV" ≡ "") ⊎ (vars "ENV" ≡ "dev"))
      × (start by_insertion vars
          ≡ ok (memory (put_admin_user (dev_owner "dev@acme.io") new_mem_store).1)))
    ⊎ ((vars "ENV" ≢ "") × (vars "ENV" ≢ "dev") × ((e : Error) × (start by_insertion vars ≡ err e)))
start-dev_example = start-dev by_insertion vars
