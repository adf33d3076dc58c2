-- ===== src/Admin/Logged.antt =====
-- The structured log of a service whose requests are served at once: who stands behind each of its
-- lines.
use sclawion.Prelude.{
  ℕ, ◌+◌, ◌≤◌, ◌≡◌, refl, sym, ap, ◌∙◌, inl, inr, List, [], ◌∷◌, ◌++◌, All, In, here, length,
  length-append, arith, All-mono, All-append,
}
use sclawion.Config.World.{World, LogLine}
use sclawion.Config.Rbac.{IapAuthConfig}
use sclawion.Admin.Http.{Request, Response}
use sclawion.Admin.Act.{Act}
use sclawion.Admin.Deps.{Deps}
use sclawion.Admin.Asking.{serve-Asks}
use sclawion.Admin.Ui.Routes.{Assets}
use sclawion.Admin.Mux.{serve}
use sclawion.Admin.Concurrent.{Moves, here, later, Reaches, idle, arrives, moves}
use mathlib.Core.List.{append_assoc, append-nil}
use sclawion.Admin.Backing.{
  requests, worlds, now_was, Backs-request, Backs-world, Backed, Stage, reading, asking,
  Stage-request, Stage-world, Stage-step,
}

module _ {S V : Type 0} (cfg : IapAuthConfig S) where
  -- The programs may write `t` lines in all at most.
  unfoldable Stages : List Request → List (World S V) → ℕ → List (Act S V Response) → Type 0
  Stages rs ws t [] = Unit
  Stages rs ws t (m ∷ ms) =
      (n : ℕ) × (l : ℕ) × (n + l ≤ t) × Stage cfg rs ws n m × Stages rs ws l ms

  Stages-request :
      (r : Request) (rs : List Request) (ws : List (World S V)) (t : ℕ)
      (ms : List (Act S V Response))
      → Stages rs ws t ms
      → Stages (r ∷ rs) ws t ms
  unfolding Stages
  Stages-request r rs ws t [] p = tt
  Stages-request r rs ws t (m ∷ ms) (n, l, h, p, rest) =
      (n, l, h, Stage-request cfg r p, Stages-request r rs ws l ms rest)

  Stages-world :
      (w : World S V) (rs : List Request) (ws : List (World S V)) (t : ℕ)
      (ms : List (Act S V Response))
      → Stages rs ws t ms
      → Stages rs (w ∷ ws) t ms
  unfolding Stages
  Stages-world w rs ws t [] p = tt
  Stages-world w rs ws t (m ∷ ms) (n, l, h, p, rest) =
      (n, l, h, Stage-world cfg w p, Stages-world w rs ws l ms rest)

  Stages-Moves :
      {rs : List Request} {ws : List (World S V)} {ms ns : List (Act S V Response)}
      {w v : World S V}
      → Moves ms w ns v
      → In w ws
      → (t : ℕ) → Stages rs ws t ms
      → (es : List LogLine) × (t' : ℕ) × (length es + t' ≤ t)
        × (v.log ≡ w.log ++ es)
        × All (Backed cfg rs ws) es
        × Stages rs ws t' ns
  unfolding Stages
  Stages-Moves (here u k ms w) j t (n, l, h, p, rest) =
      let (es, n', less, added, backed, p') = Stage-step cfg u k w j p in
      (es, n' + l, omega arith, added, backed, (n', l, omega arith, p', rest))
  Stages-Moves (later m i) j t (n, l, h, p, rest) =
      let (es, l', less, added, backed, rest') = Stages-Moves i j l rest in
      (es, n + l', omega arith, added, backed, (n, l', omega arith, p, rest'))

module _ {S V : Type 0} (cfg : IapAuthConfig S) (assets : Assets) (d : Deps S V)
    (start : World S V) where
  arriving :
      (r : Request) (rs : List Request) (ws : List (World S V))
      → In r rs
      → (n : ℕ) × (n ≤ 1) × Stage cfg rs ws n (serve cfg assets d r)
  arriving r rs ws i = elim (serve-Asks cfg r d assets) [
    | inl p ↦ (0, omega arith, reading p)
    | inr p ↦ (1, omega arith, asking r i p)
  ]

  logged_so_far :
      {ms : List (Act S V Response)} {w : World S V} (i : Reaches cfg assets d start ms w)
      → (es : List LogLine) × (t : ℕ) × (length es + t ≤ length (requests i))
        × (w.log ≡ start.log ++ es)
        × All (Backed cfg (requests i) (worlds i)) es
        × Stages cfg (requests i) (worlds i) t ms
  unfolding requests worlds Stages
  logged_so_far idle = ([], 0, omega arith, sym (append-nil start.log), tt, tt)
  logged_so_far (arrives r {ms = ms} i) =
      let (es, t, h, added, backed, stages) = logged_so_far i in
      let (n, low, stage) = arriving r (r ∷ requests i) (worlds i) (here refl) in
      (
        es,
        n + t,
        omega arith,
        added,
        All-mono es (λ e (c, b, by). (c, Backs-request cfg r b, by)) backed,
        (n, t, omega arith, stage, Stages-request cfg r (requests i) (worlds i) t ms stages),
      )
  logged_so_far (moves {ns = ns} {v = v} i m) =
      let (es, t, h, added, backed, stages) = logged_so_far i in
      let (more, t', less, adds, new, stages') = Stages-Moves cfg m (now_was i) t stages in
      (
        es ++ more,
        t',
        omega (arith, length-append es more),
        adds ∙ ap (λ l. l ++ more) added ∙ append_assoc start.log es more,
        All-mono (es ++ more) (λ e (c, b, by). (c, Backs-world cfg v b, by))
            (All-append _ es more backed new),
        Stages-world cfg v (requests i) (worlds i) t' ns stages',
      )

  -- At every moment of the service, however the steps of the requests that are served at once
  -- interleave: what was written to the log since the start are lines of successful calls, one at most
  -- for each request that arrived, and each names an e-mail that one of these requests resolves to and
  -- that, at one of the moments up to now, was that of an administrator with the role Owner; it gives
  -- this role.
  pub Reaches-Logged :
      (ms : List (Act S V Response)) (w : World S V) (i : Reaches cfg assets d start ms w)
      → (es : List LogLine) × (w.log ≡ start.log ++ es)
        × (length es ≤ length (requests i))
        × All (Backed cfg (requests i) (worlds i)) es
  Reaches-Logged ms w i =
      let (es, t, h, added, backed, stages) = logged_so_far i in (es, added, omega arith, backed)
