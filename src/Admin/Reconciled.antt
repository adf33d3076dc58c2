-- ===== src/Admin/Reconciled.antt =====
-- The audit log of the store and the structured log of a service whose requests are served at once, and
-- the ids of the entries.
use mathlib.Core.List.{Permᴰ, append-nil}
use sclawion.Prelude.{ℕ, suc, ◌+◌, ◌≤◌, ◌≡◌, subst, String, List, [], ◌∷◌, ◌++◌, map, length, arith}
use sclawion.Config.Types.{AuditEntry}
use sclawion.Config.Store.{Store}
use sclawion.Config.Contract.{Contract}
use sclawion.Config.World.{Host, World, LogLine}
use sclawion.Config.Audit.{log_line}
use sclawion.Config.Rbac.{IapAuthConfig}
use sclawion.Admin.Http.{Response}
use sclawion.Admin.Act.{Act, ended, step}
use sclawion.Admin.Deps.{Deps}
use sclawion.Admin.Keeping.{Wired}
use sclawion.Admin.Ui.Routes.{Assets}
use sclawion.Admin.Concurrent.{Moves, here, later, Reaches, idle, arrives, moves}
use sclawion.Admin.Phases.{Phase, free, named, kept, entries, Accounted}
use sclawion.Admin.Phases.Handlers.{serve-Accounts}
use sclawion.Admin.Phases.Balance.{
  Runs, issued, line_in_hand, id_in_hand, Books, Books-refl, Books-trans, Books-right, Books-left,
  Books-Turns,
}

-- What the programs have in hand.
unfoldable lines_in_hand : List Phase → List LogLine
lines_in_hand [] = []
lines_in_hand (p ∷ ps) = line_in_hand p ++ lines_in_hand ps

unfoldable ids_in_hand : Host → List Phase → List String
ids_in_hand h [] = []
ids_in_hand h (p ∷ ps) = id_in_hand h p ++ ids_in_hand h ps

module _ {S V : Type 0} where
  -- How many programs are not yet at their answer.
  abbrev pub under_way : List (Act S V Response) → ℕ
  under_way [] = 0
  under_way (ended o ∷ ms) = under_way ms
  under_way (step u k ∷ ms) = suc (under_way ms)

module _ {S V : Type 0} (h : Host) {st : Store S} (k : Contract st) where
  -- Each program is in its phase.
  unfoldable Phased : List Phase → List (Act S V Response) → Type 0
  Phased [] [] = Unit
  Phased [] (m ∷ ms) = ⊥
  Phased (p ∷ ps) [] = ⊥
  Phased (p ∷ ps) (m ∷ ms) = Accounted h k p m × Phased ps ms

  few_in_hand :
      (ps : List Phase) (ms : List (Act S V Response))
      → Phased ps ms
      → length (lines_in_hand ps) + length (ids_in_hand h ps) ≤ under_way ms
  unfolding Phased Accounted lines_in_hand ids_in_hand
  few_in_hand [] [] i = omega arith
  few_in_hand [] (m ∷ ms) i = absurd i
  few_in_hand (p ∷ ps) [] i = absurd i
  few_in_hand (free ∷ ps) (ended o ∷ ms) (i, rest) = few_in_hand ps ms rest
  few_in_hand (named n ∷ ps) (ended o ∷ ms) (i, rest) = absurd i
  few_in_hand (kept e ∷ ps) (ended o ∷ ms) (i, rest) = absurd i
  few_in_hand (free ∷ ps) (step u n ∷ ms) (i, rest) = omega (arith, few_in_hand ps ms rest)
  few_in_hand (named l ∷ ps) (step u n ∷ ms) (i, rest) = omega (arith, few_in_hand ps ms rest)
  few_in_hand (kept e ∷ ps) (step u n ∷ ms) (i, rest) = omega (arith, few_in_hand ps ms rest)

  Moves-Books :
      {ms ns : List (Act S V Response)} {w v : World S V}
      → Moves ms w ns v
      → (ps : List Phase) → Phased ps ms
      → (qs : List Phase) × Phased qs ns
        × Books h k w v (lines_in_hand ps) (lines_in_hand qs) (ids_in_hand h ps) (ids_in_hand h qs)
  unfolding Phased Accounted lines_in_hand ids_in_hand
  Moves-Books (here u n ms w) [] i = absurd i
  Moves-Books (here u n ms w) (p ∷ ps) (i, rest) =
      let (q, turn, j) = i w in
      (
        q ∷ ps,
        (j, rest),
        Books-right h k (lines_in_hand ps) (ids_in_hand h ps) (Books-Turns h k turn),
      )
  Moves-Books (later m i) [] j = absurd j
  Moves-Books (later m i) (p ∷ ps) (j, rest) =
      let (qs, rest', books) = Moves-Books i ps rest in
      (p ∷ qs, (j, rest'), Books-left h k (line_in_hand p) (id_in_hand h p) books)

module _ {S V : Type 0} (cfg : IapAuthConfig S) (assets : Assets) (d : Deps S V) (start : World S V)
    (wd : Wired d) where
  so_far :
      {ms : List (Act S V Response)} {w : World S V}
      → Reaches cfg assets d start ms w
      → (ps : List Phase) × Phased d.host wd.contract ps ms
        × Books d.host wd.contract start w [] (lines_in_hand ps) [] (ids_in_hand d.host ps)
  unfolding Phased lines_in_hand ids_in_hand
  so_far idle = ([], tt, Books-refl d.host wd.contract start [] [])
  so_far (arrives r i) =
      let (ps, phased, books) = so_far i in
      (free ∷ ps, ((serve-Accounts cfg assets d wd r).accounted, phased), books)
  so_far (moves i m) =
      let (ps, phased, books) = so_far i in
      let (qs, phased', more) = Moves-Books d.host wd.contract m ps phased in
      (qs, phased', Books-trans d.host wd.contract books more)

  -- If the service is wired to one store that keeps its contract, then at every moment, however the
  -- steps of the requests that are served at once interleave: the entries of the store at the start are
  -- still there, in front, and so are the lines of the log; the entries that the store gained since
  -- then have, in some order, the lines that the log gained and those in hand; the ids of these entries
  -- and those in hand are, in some order, the ids of the random bytes that were read since then, each
  -- reading once; and what is in hand are one line or one id at most for each request that is not yet
  -- answered.
  pub Reaches-Reconciled :
      (ms : List (Act S V Response)) (w : World S V)
      → Reaches cfg assets d start ms w
      → (new : List AuditEntry) × (lines : List LogLine) × (numbers : List ℕ) × (lines_left : List
          LogLine)
        × (ids_left : List String) × (entries d.host wd.contract w
            ≡ entries d.host wd.contract start ++ new)
        × (w.log ≡ start.log ++ lines)
        × Runs start.ids numbers w.ids
        × Permᴰ (map log_line new) (lines ++ lines_left)
        × Permᴰ (map (issued d.host) numbers) (map (λ e. e.id) new ++ ids_left)
        × (length lines_left + length ids_left ≤ under_way ms)
  Reaches-Reconciled ms w i =
      let (ps, phased, b) = so_far i in
      (
        b.new,
        b.lines,
        b.numbers,
        lines_in_hand ps,
        ids_in_hand d.host ps,
        b.stored,
        b.logged,
        b.read,
        subst (λ xs. Permᴰ xs (b.lines ++ lines_in_hand ps)) (append-nil _) b.lines_balance,
        subst (λ xs. Permᴰ xs (map (λ e. e.id) b.new ++ ids_in_hand d.host ps)) (append-nil _)
            b.ids_balance,
        few_in_hand d.host wd.contract ps ms phased,
      )
