-- ===== src/Tests/Reconciled.antt =====
-- The books of a service that has served a request to its end while another waits.
use mathlib.Core.List.{Permᴰ}
use sclawion.Prelude.{
  ℕ, zero, suc, ◌+◌, ◌≤◌, ◌≡◌, refl, ap, String, List, [], ◌∷◌, ◌++◌, map, length, arith,
}
use sclawion.Bytes.{Bytes, AreBytes}
use sclawion.GoMap.Ascending.{IsDistinct}
use sclawion.Config.Types.{AuditEntry}
use sclawion.Config.MemStore.{MemStore}
use sclawion.Config.Audit.{log_line}
use sclawion.Config.World.{World, LogLine}
use sclawion.Admin.Http.{Response}
use sclawion.Admin.Act.{Act, ended, run}
use sclawion.Admin.Deps.{Deps}
use sclawion.Admin.Keeping.{Wired}
use sclawion.Admin.Mux.{serve}
use sclawion.Admin.Concurrent.{Reaches, idle, arrives, Reaches-alone}
use sclawion.Admin.Phases.{entries}
use sclawion.Admin.Phases.Balance.{Runs, issued}
use sclawion.Admin.Reconciled.{under_way, Reaches-Reconciled}
use sclawion.Admin.Unique.{Reaches-IsDistinct}
use sclawion.Tests.Data.{assets, cfg, create_request, deps, host}
use sclawion.Tests.Service.{wired_deps, seeded}

-- A source of random bytes that never repeats itself.
ones : ℕ → Bytes
ones zero = []
ones (suc n) = 1 ∷ ones n

ones-AreBytes : (n : ℕ) → AreBytes (ones n)
unfolding ones
ones-AreBytes zero = tt
ones-AreBytes (suc n) = (omega arith, ones-AreBytes n)

length-ones : (n : ℕ) → length (ones n) ≡ n
unfolding ones
length-ones zero = refl
length-ones (suc n) = ap suc (length-ones n)

abbrev varied : Deps MemStore String
varied = record deps { host = record host { random_bytes = ones } }

wired_varied : Wired varied
wired_varied = record {
  contract = wired_deps.contract;
  recorder = wired_deps.recorder;
  rotator = wired_deps.rotator;
}

abbrev program : Act MemStore String Response
program = serve cfg assets varied create_request

abbrev after_it : World MemStore String
after_it = (run program seeded).1

abbrev both : List (Act MemStore String Response)
both = ended (run program seeded).0 ∷ program ∷ []

served : Reaches cfg assets varied seeded both after_it
served =
    Reaches-alone cfg assets varied seeded create_request (program ∷ []) seeded
      (arrives create_request idle)

Reaches-Reconciled_example :
    (new : List AuditEntry) × (lines : List LogLine) × (numbers : List ℕ) × (lines_left : List
      LogLine)
    × (ids_left : List String) × (entries varied.host wired_varied.contract after_it
        ≡ entries varied.host wired_varied.contract seeded ++ new)
    × (after_it.log ≡ seeded.log ++ lines)
    × Runs seeded.ids numbers after_it.ids
    × Permᴰ (map log_line new) (lines ++ lines_left)
    × Permᴰ (map (issued varied.host) numbers) (map (λ e. e.id) new ++ ids_left)
    × (length lines_left + length ids_left ≤ under_way both)
Reaches-Reconciled_example =
    Reaches-Reconciled cfg assets varied seeded wired_varied both after_it served

Reaches-IsDistinct_example :
    (new : List AuditEntry) × (entries varied.host wired_varied.contract after_it
      ≡ entries varied.host wired_varied.contract seeded ++ new)
    × IsDistinct (λ e. e.id) new
Reaches-IsDistinct_example =
    Reaches-IsDistinct cfg assets varied seeded wired_varied both after_it served ones-AreBytes
      (λ i j p q e. omega (arith, ap length e, length-ones i, length-ones j))
