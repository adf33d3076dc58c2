-- ===== src/Tests/Tenants.antt =====
-- A request to a path under a tenant.
use sclawion.Prelude.{refl, String, List, [], ◌∷◌, All}
use sclawion.Text.{has_prefix, trim_prefix, split_slash}
use sclawion.Config.Store.{Store}
use sclawion.Config.Contract.{Contract}
use sclawion.Config.Tenancy.{Spares}
use sclawion.Config.MemStore.{MemStore}
use sclawion.Config.World.{World}
use sclawion.Admin.Http.{Request, Response}
use sclawion.Admin.Act.{Act, ended, step}
use sclawion.Admin.Documents.{Sound, Kept}
use sclawion.Admin.Serving.{serve-Keeps}
use sclawion.Admin.Mux.{serve}
use sclawion.Admin.Guarded.{among, among-Goes}
use sclawion.Admin.Isolated.{serve-Spares}
use sclawion.Tests.Data.{assets, cfg, create_request, deps}
use sclawion.Tests.Service.{wired_deps, seeded, seeded-Sound}

-- The new agent of a tenant.
abbrev agent_request : Request
agent_request = record create_request { path = "/v1/tenants/acme-corp/agents" }

abbrev program : Act MemStore String Response
program = serve cfg assets deps agent_request

-- The steps of the request with nothing between them.
abbrev steps : List (World MemStore String × World MemStore String)
steps = (among (λ w. w) program seeded).0

Sound-among :
    {S V : Type 0} {st : Store S} (k : Contract st) (m : Act S V Response) (w : World S V)
    → Kept k m
    → Sound k w
    → All (λ t. Sound k t.0) (among (λ w. w) m w).0
unfolding Kept among
Sound-among k (ended o) w p h = tt
Sound-among k (step u n) w p h = (h, Sound-among k (n w) (u w) (p w h).1 (p w h).0)

serve-Spares_example :
    All
      (λ t.
        Spares "acme-corp"
          (wired_deps.contract.look t.0.store)
          (wired_deps.contract.look t.1.store))
      steps
unfolding has_prefix trim_prefix split_slash
serve-Spares_example =
    serve-Spares cfg assets deps wired_deps agent_request "acme-corp" ("agents" ∷ []) steps
      (among (λ w. w) program seeded).1 refl refl (among-Goes (λ w. w) program seeded)
      (Sound-among wired_deps.contract program seeded
        (serve-Keeps cfg assets deps wired_deps agent_request).kept seeded-Sound)
