-- ===== src/Tests/Interleaving.antt =====
-- Two requests that are served at once.
use sclawion.Prelude.{◌++◌, length, ◌≤◌, ◌≡◌, String, List, [], ◌∷◌, All}
use sclawion.Config.World.{World, LogLine}
use sclawion.GoMap.{lookup}
use sclawion.Config.MemStore.{MemStore, get_admin_user}
use sclawion.Admin.Act.{ended, run}
use sclawion.Admin.Mux.{serve}
use sclawion.Admin.Documents.{Sound}
use sclawion.Admin.Backing.{requests, worlds, Backed}
use sclawion.Admin.Logged.{Reaches-Logged}
use sclawion.Admin.Guarded.{Guards, among, among-Goes, serve-Guarded}
use sclawion.Admin.Ownerless.{Reaches-without_owner}
use sclawion.Admin.Concurrent.{Reaches, idle, arrives, Reaches-Sound, Reaches-alone}
use sclawion.Tests.Data.{assets, cfg, create_request, deps}
use sclawion.Tests.Service.{wired_deps, seeded, seeded-Sound, ownerless}

-- A request has arrived, and another was served to its end beside it.
served :
    Reaches cfg assets deps seeded
      (ended (run (serve cfg assets deps create_request) seeded).0
        ∷ serve cfg assets deps create_request
        ∷ [])
      (run (serve cfg assets deps create_request) seeded).1
served =
    Reaches-alone cfg assets deps seeded create_request (serve cfg assets deps create_request ∷ [])
      seeded (arrives create_request idle)

Reaches-Sound_example :
    Sound wired_deps.contract (run (serve cfg assets deps create_request) seeded).1
Reaches-Sound_example =
    Reaches-Sound cfg assets deps seeded wired_deps
      (ended (run (serve cfg assets deps create_request) seeded).0
        ∷ serve cfg assets deps create_request
        ∷ [])
      (run (serve cfg assets deps create_request) seeded).1 seeded-Sound served

-- The same where the store holds no Owner.
unowned :
    Reaches cfg assets deps ownerless
      (ended (run (serve cfg assets deps create_request) ownerless).0
        ∷ serve cfg assets deps create_request
        ∷ [])
      (run (serve cfg assets deps create_request) ownerless).1
unowned =
    Reaches-alone cfg assets deps ownerless create_request
      (serve cfg assets deps create_request ∷ []) ownerless (arrives create_request idle)

Reaches-without_owner_example : (run (serve cfg assets deps create_request) ownerless).1 ≡ ownerless
unfolding get_admin_user lookup
Reaches-without_owner_example =
    Reaches-without_owner cfg assets deps ownerless
      (ended (run (serve cfg assets deps create_request) ownerless).0
        ∷ serve cfg assets deps create_request
        ∷ [])
      (run (serve cfg assets deps create_request) ownerless).1 (λ email user held. absurd cc)
      unowned

-- The list of administrators is emptied after each step of the request.
emptying : World MemStore String → World MemStore String
emptying w = record w { store = record w.store { admins = [] } }

serve-Guarded_example :
    Guards cfg create_request
      (among emptying (serve cfg assets deps create_request) seeded).0
      (among emptying (serve cfg assets deps create_request) seeded).1
serve-Guarded_example =
    serve-Guarded cfg create_request assets deps
      (among emptying (serve cfg assets deps create_request) seeded).0
      (among emptying (serve cfg assets deps create_request) seeded).1
      (among-Goes emptying (serve cfg assets deps create_request) seeded)

Reaches-Logged_example :
    (es : List LogLine) × ((run (serve cfg assets deps create_request) seeded).1.log
      ≡ seeded.log ++ es)
    × (length es ≤ length (requests served))
    × All (Backed cfg (requests served) (worlds served)) es
Reaches-Logged_example =
    Reaches-Logged cfg assets deps seeded
      (ended (run (serve cfg assets deps create_request) seeded).0
        ∷ serve cfg assets deps create_request
        ∷ [])
      (run (serve cfg assets deps create_request) seeded).1 served
