-- ===== src/Tests/Main.antt =====
-- The service as it is started on a machine of a developer.
use sclawion.Prelude.{refl, String, ◌==◌, inr, [], ◌∷◌, if◌then◌else◌}
use sclawion.Sorting.Insertion.{by_insertion}
use sclawion.Config.Sound.{IsSound}
use sclawion.Config.MemStore.{MemStore, mem_store, new_mem_store, put_admin_user}
use sclawion.Config.MemStore.View.{view}
use sclawion.Config.Validate.{email_pattern}
use sclawion.Config.World.{World}
use sclawion.Config.Rbac.{IapAuthConfig}
use sclawion.Admin.Act.{ended, run}
use sclawion.Admin.Mux.{serve}
use sclawion.Admin.Deps.{Deps}
use sclawion.Admin.Start.{dev_owner, require_owner_seed}
use sclawion.Admin.Boot.{start, env_or, new_store}
use sclawion.Admin.Main.{main_deps, main_auth, first_world, main_mux-Sound}
use sclawion.Admin.Concurrent.{Reaches, idle, Reaches-alone}
use sclawion.Tests.Data.{assets, create_request, host, json}

abbrev vars : String → String
vars name = if name == "ADMIN_API_DEV_IAP_BYPASS_EMAIL" then "dev@acme.io" else ""

abbrev dev_store : MemStore
dev_store = (put_admin_user (dev_owner "dev@acme.io") new_mem_store).1

abbrev listening : World MemStore String
listening = first_world dev_store "old"

abbrev auth : IapAuthConfig MemStore
auth = main_auth (mem_store by_insertion) vars

abbrev deps : Deps MemStore String
deps = main_deps (mem_store by_insertion) host json vars

served :
    Reaches auth assets deps listening
      (ended (run (serve auth assets deps create_request) listening).0 ∷ [])
      (run (serve auth assets deps create_request) listening).1
served = Reaches-alone auth assets deps listening create_request [] listening idle

main_mux-Sound_example :
    IsSound (view (run (serve auth assets deps create_request) listening).1.store)
unfolding email_pattern start require_owner_seed env_or new_store put_admin_user
main_mux-Sound_example =
    main_mux-Sound by_insertion host json assets vars dev_store "old"
      (ended (run (serve auth assets deps create_request) listening).0 ∷ [])
      (run (serve auth assets deps create_request) listening).1 (inr refl) refl served
