-- ===== src/Admin/Cost.antt =====
-- What the requests that are served at once cost: the steps that the service takes for them.
use sclawion.Prelude.{ℕ, zero, suc, ◌+◌, ◌*◌, ◌≤◌, List, [], ◌∷◌, arith}
use sclawion.Config.World.{World}
use sclawion.Config.Rbac.{IapAuthConfig}
use sclawion.Admin.Http.{Response}
use sclawion.Admin.Act.{Act}
use sclawion.Admin.Deps.{Deps}
use sclawion.Admin.Ui.Routes.{Assets}
use sclawion.Admin.Steps.{Within}
use sclawion.Admin.Steps.Pages.{serve-Takes}
use sclawion.Admin.Concurrent.{Moves, here, later, Reaches, idle, arrives, moves}

module _ {S V : Type 0} where
  -- The steps that the programs have left are `t` in all at most.
  unfoldable Budget : ℕ → List (Act S V Response) → Type 0
  Budget t [] = Unit
  Budget t (m ∷ ms) = (n l : ℕ) × (n + l ≤ t) × Within n m × Budget l ms

  -- A step that is taken is no longer left.
  spend :
      {ms ns : List (Act S V Response)} {w v : World S V}
      → Moves ms w ns v
      → (t : ℕ) → Budget t ms
      → (t' : ℕ) × (suc t' ≤ t) × Budget t' ns
  unfolding Budget Within
  spend (here u k ms w) t (zero, l, h, p, rest) = absurd p
  spend (here u k ms w) t (suc n, l, h, p, rest) =
      (n + l, omega arith, (n, l, omega arith, p w, rest))
  spend (later m i) t (n, l, h, p, rest) =
      let (l', less, rest') = spend i l rest in
      (n + l', omega arith, (n, l', omega arith, p, rest'))

module _ {S V : Type 0} {cfg : IapAuthConfig S} {assets : Assets} {d : Deps S V}
    {start : World S V} where
  -- How many requests arrived, and how many steps were taken.
  unfoldable pub arrived :
      {ms : List (Act S V Response)} {w : World S V} → Reaches cfg assets d start ms w → ℕ
  arrived idle = 0
  arrived (arrives r i) = suc (arrived i)
  arrived (moves i m) = arrived i

  unfoldable pub moved :
      {ms : List (Act S V Response)} {w : World S V} → Reaches cfg assets d start ms w → ℕ
  moved idle = 0
  moved (arrives r i) = moved i
  moved (moves i m) = suc (moved i)

module _ {S V : Type 0} (cfg : IapAuthConfig S) (assets : Assets) (d : Deps S V)
    (start : World S V) where
  budgeted :
      {ms : List (Act S V Response)} {w : World S V} (i : Reaches cfg assets d start ms w)
      → (t : ℕ) × (moved i + t ≤ 9 * arrived i) × Budget t ms
  unfolding arrived moved Budget
  budgeted idle = (0, omega arith, tt)
  budgeted (arrives r i) =
      let (t, h, rest) = budgeted i in
      (9 + t, omega arith, (9, t, omega arith, (serve-Takes cfg assets d r).within, rest))
  budgeted (moves i m) =
      let (t, h, rest) = budgeted i in
      let (t', less, rest') = spend m t rest in (t', omega arith, rest')

  -- At every moment of the service, however many requests are served at once and however the steps of
  -- their programs interleave, it has taken nine steps at most for each request that arrived so far: reads
  -- and writes of the store, versions added to the Secret Manager, readings of the clock and of random
  -- bytes, and lines of the log.
  pub moved-arrived :
      (ms : List (Act S V Response)) (w : World S V) (i : Reaches cfg assets d start ms w)
      → moved i ≤ 9 * arrived i
  moved-arrived ms w i = let (t, h, rest) = budgeted i in omega arith
