-- ===== src/Admin/Ui/Unguarded.antt =====
-- What the user interface shows to callers that the JSON API refuses.
use sclawion.Prelude.{◌≡◌, ◌≢◌, refl, ap, some, List, eq-false_of_ne}
use sclawion.Text.{has_prefix}
use sclawion.Config.Errors.{ok}
use sclawion.Config.Types.{AdminUser, role_owner}
use sclawion.Config.World.{World}
use sclawion.Admin.Http.{Request, Caller, caller_or_zero, respond, text}
use sclawion.Admin.Act.{◌▷◌, run, peek, reply, ◌>>=◌, answer}
use sclawion.Admin.Deps.{Deps, owner_only}
use sclawion.Admin.Routes.{new_api, route_admin_users}
use sclawion.Admin.Ui.{PageData, render, base_page, or_empty}
use sclawion.Admin.Ui.Routes.{Assets, ui}
use sclawion.Admin.Ui.Views.{render_ui_admin_users}

module _ {S V : Type 0} (assets : Assets) (d : Deps S V) (r : Request) (w : World S V) where
  -- A caller who is not an Owner gets 403 from the JSON API's list of administrators; the user
  -- interface executes its template for the same caller with the whole list.
  pub ui-admin_users :
      (c : Caller) (us : List AdminUser)
      → r.caller ≡ some c
      → c.role ≢ role_owner
      → d.store.list_admin_users w.store ≡ ok us
      → ((new_api d (record r { method = "GET"; path = "/v1/admin-users" }) ▷ w)
          ≡ (respond 403 (text "owner required"), w))
        × ((p : PageData) × (p.caller ≡ c)
            × (p.admins ≡ us)
            × ((ui assets d (record r { path = "/ui/admin-users" }) ▷ w)
                ≡ (render assets.templates "admin_users.html" p, w)))
  unfolding new_api route_admin_users owner_only ui render_ui_admin_users has_prefix base_page peek
      reply ◌>>=◌ answer ◌▷◌ run
  ui-admin_users c us from other held = (
    (rw (from, eq-false_of_ne c.role role_owner other) refl),
    (
      record (base_page d.env (record r { path = "/ui/admin-users" }) "Admin Users" "admin-users") {
        admins = or_empty (d.store.list_admin_users w.store);
      },
      ap caller_or_zero from,
      ap or_empty held,
      refl,
    ),
  )
