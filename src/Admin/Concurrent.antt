-- ===== src/Admin/Concurrent.antt =====
-- http.ListenAndServe: requests that are served at once. Each runs as a goroutine; their steps, which
-- are atomic, interleave in any order.
use sclawion.Prelude.{List, [], ◌∷◌, All}
use sclawion.Config.Store.{Store}
use sclawion.Config.Contract.{Contract}
use sclawion.Config.World.{World}
use sclawion.Config.Rbac.{IapAuthConfig}
use sclawion.Admin.Http.{Request, Response}
use sclawion.Admin.Act.{Act, ended, step, run}
use sclawion.Admin.Deps.{Deps}
use sclawion.Admin.Documents.{Sound, Kept, Keeps}
use sclawion.Admin.Keeping.{Wired}
use sclawion.Admin.Ui.Routes.{Assets}
use sclawion.Admin.Mux.{serve}
use sclawion.Admin.Serving.{serve-Keeps}

-- One of the programs under way takes a step.
pub data Moves {S V : Type 0}
    : List (Act S V Response) → World S V → List (Act S V Response) → World S V → Type 0 where
  here :
      (u : World S V → World S V) (k : World S V → Act S V Response) (ms : List (Act S V Response))
      (w : World S V)
      → Moves (step u k ∷ ms) w (k w ∷ ms) (u w)
  later :
      (m : Act S V Response) {ms ns : List (Act S V Response)} {w v : World S V}
      → Moves ms w ns v
      → Moves (m ∷ ms) w (m ∷ ns) v

-- What the service can come to from a world: a request arrives, or a program takes a step.
pub data Reaches {S V : Type 0} (cfg : IapAuthConfig S) (assets : Assets) (d : Deps S V)
    (start : World S V) : List (Act S V Response) → World S V → Type 0 where
  idle : Reaches cfg assets d start [] start
  arrives :
      (r : Request) {ms : List (Act S V Response)} {w : World S V}
      → Reaches cfg assets d start ms w
      → Reaches cfg assets d start (serve cfg assets d r ∷ ms) w
  moves :
      {ms ns : List (Act S V Response)} {w v : World S V}
      → Reaches cfg assets d start ms w
      → Moves ms w ns v
      → Reaches cfg assets d start ns v

module _ {S V : Type 0} {st : Store S} (k : Contract st) where
  step-Keeps :
      (u : World S V → World S V) (n : World S V → Act S V Response) (w : World S V)
      → Keeps k (step u n)
      → Sound k w
      → Sound k (u w) × Keeps k (n w)
  unfolding Kept
  step-Keeps u n w p h = ((p.kept w h).0, record { kept = (p.kept w h).1 })

  Moves-Keeps :
      {ms ns : List (Act S V Response)} {w v : World S V}
      → Moves ms w ns v
      → All (Keeps k) ms
      → Sound k w
      → Sound k v × All (Keeps k) ns
  Moves-Keeps (here u n ms w) (p, ps) h =
      let (sound, kept) = step-Keeps u n w p h in (sound, (kept, ps))
  Moves-Keeps (later m i) (p, ps) h = let (sound, rest) = Moves-Keeps i ps h in (sound, (p, rest))

module _ {S V : Type 0} (cfg : IapAuthConfig S) (assets : Assets) (d : Deps S V)
    (start : World S V) where
  Reaches-Keeps :
      (wd : Wired d)
      → Sound wd.contract start
      → {ms : List (Act S V Response)} {w : World S V} → Reaches cfg assets d start ms w
      → Sound wd.contract w × All (Keeps wd.contract) ms
  Reaches-Keeps wd h idle = (h, tt)
  Reaches-Keeps wd h (arrives r i) =
      let (sound, kept) = Reaches-Keeps wd h i in (sound, (serve-Keeps cfg assets d wd r, kept))
  Reaches-Keeps wd h (moves i m) =
      let (sound, kept) = Reaches-Keeps wd h i in Moves-Keeps wd.contract m kept sound

  -- If the service is wired to one store that keeps its contract, and every document of the store is
  -- accepted by its validator and stands under its own keys, then this is so at every moment, however
  -- many requests are served at once and however the steps of their programs interleave.
  pub Reaches-Sound :
      (wd : Wired d) (ms : List (Act S V Response)) (w : World S V)
      → Sound wd.contract start
      → Reaches cfg assets d start ms w
      → Sound wd.contract w
  Reaches-Sound wd ms w h i = (Reaches-Keeps wd h i).0

  runs_out :
      (m : Act S V Response) (ms : List (Act S V Response)) (w : World S V)
      → Reaches cfg assets d start (m ∷ ms) w
      → Reaches cfg assets d start (ended (run m w).0 ∷ ms) (run m w).1
  unfolding run
  runs_out (ended o) ms w i = i
  runs_out (step u k) ms w i = runs_out (k w) ms (u w) (moves i (here u k ms w))

  -- From every moment of the service, a request that arrives can be served to its end before any other
  -- program takes a step, in finitely many steps of its own, and then its answer and the world are
  -- those of the request run alone.
  pub Reaches-alone :
      (r : Request) (ms : List (Act S V Response)) (w : World S V)
      → Reaches cfg assets d start ms w
      → Reaches cfg assets d start
          (ended (run (serve cfg assets d r) w).0 ∷ ms)
          (run (serve cfg assets d r) w).1
  Reaches-alone r ms w i = runs_out (serve cfg assets d r) ms w (arrives r i)
