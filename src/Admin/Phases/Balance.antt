-- ===== src/Admin/Phases/Balance.antt =====
-- The balance of a stretch of time: the ids that were given, the entries that were written to the store
-- and the lines that were written to the log, with what the programs have in hand at its ends.
use mathlib.Core.List.Permᴰ
use mathlib.Core.List.{Permᴰ, append_assoc, append-nil, map-append}
use sclawion.Prelude.{ℕ, suc, ◌≡◌, refl, sym, ap, subst, ◌∙◌, String, List, [], ◌∷◌, ◌++◌, map}
use sclawion.Prelude.Perms.{frame_right, frame_left, one_then_other}
use sclawion.Config.Types.{AuditEntry}
use sclawion.Config.Store.{Store}
use sclawion.Config.Contract.{Contract}
use sclawion.Config.World.{Host, World, LogLine}
use sclawion.Config.Audit.{new_id, log_line}
use sclawion.Admin.Phases.{Phase, free, named, kept, entries, Turns, calm, names, keeps, logs}

-- The numbers from `n` on, up to `m`.
abbrev pub Runs : ℕ → List ℕ → ℕ → Type 0
Runs n [] m = m ≡ n
Runs n (x ∷ xs) m = (x ≡ n) × Runs (suc n) xs m

Runs-append :
    (n : ℕ) (xs : List ℕ) (m : ℕ) (ys : List ℕ) (l : ℕ)
    → Runs n xs m
    → Runs m ys l
    → Runs n (xs ++ ys) l
Runs-append n [] m ys l p q = subst (λ n. Runs n ys l) p q
Runs-append n (x ∷ xs) m ys l (e, p) q = (e, Runs-append (suc n) xs m ys l p q)

-- The line of the entry that stands in the store and not yet in the log.
abbrev pub line_in_hand : Phase → List LogLine
line_in_hand free = []
line_in_hand (named n) = []
line_in_hand (kept e) = log_line e ∷ []

module _ (h : Host) where
  -- The id of the random bytes that were read the n-th time.
  abbrev pub issued : ℕ → String
  issued n = new_id (h.random_bytes n)

  -- The id of the entry that stands in neither.
  abbrev pub id_in_hand : Phase → List String
  id_in_hand free = []
  id_in_hand (named n) = issued n ∷ []
  id_in_hand (kept e) = []

module _ {S V : Type 0} (h : Host) {st : Store S} (k : Contract st) where
  -- From the world `w` to `v` the store gained `new` and the log `lines`, and `numbers` were read; the
  -- lines `s` and the ids `i` were in hand, and then `t` and `j`.
  pub record Books (w v : World S V) (s t : List LogLine) (i j : List String) : Type 0 where
    pub new : List AuditEntry
    pub lines : List LogLine
    pub numbers : List ℕ
    pub stored : entries h k v ≡ entries h k w ++ new
    pub logged : v.log ≡ w.log ++ lines
    pub read : Runs w.ids numbers v.ids
    pub lines_balance : Permᴰ (map log_line new ++ s) (lines ++ t)
    pub ids_balance : Permᴰ (map (issued h) numbers ++ i) (map (λ e. e.id) new ++ j)

  pub Books-refl : (w : World S V) (s : List LogLine) (i : List String) → Books w w s s i i
  Books-refl w s i = record {
    new = [];
    lines = [];
    numbers = [];
    stored = sym (append-nil _);
    logged = sym (append-nil _);
    read = refl;
    lines_balance = Permᴰ.refl s;
    ids_balance = Permᴰ.refl i;
  }

  pub Books-trans :
      {w v x : World S V} {s t u : List LogLine} {i j l : List String}
      → Books w v s t i j
      → Books v x t u j l
      → Books w x s u i l
  Books-trans {w} {v} {x} {s} {t} {u} {i} {j} {l} a b = record {
    new = a.new ++ b.new;
    lines = a.lines ++ b.lines;
    numbers = a.numbers ++ b.numbers;
    stored = b.stored ∙ ap (λ es. es ++ b.new) a.stored ∙ append_assoc _ a.new b.new;
    logged = b.logged ∙ ap (λ es. es ++ b.lines) a.logged ∙ append_assoc w.log a.lines b.lines;
    read = Runs-append w.ids a.numbers v.ids b.numbers x.ids a.read b.read;
    lines_balance =
        subst (λ xs. Permᴰ (xs ++ s) ((a.lines ++ b.lines) ++ u))
          (sym (map-append log_line a.new b.new))
          (one_then_other (map log_line a.new) (map log_line b.new) a.lines b.lines s t u
            a.lines_balance b.lines_balance);
    ids_balance =
        subst (λ xs. Permᴰ (map (issued h) (a.numbers ++ b.numbers) ++ i) (xs ++ l))
          (sym (map-append (λ e. e.id) a.new b.new))
          (subst (λ xs. Permᴰ (xs ++ i) ((map (λ e. e.id) a.new ++ map (λ e. e.id) b.new) ++ l))
            (sym (map-append (issued h) a.numbers b.numbers))
            (one_then_other (map (issued h) a.numbers) (map (issued h) b.numbers)
              (map (λ e. e.id) a.new) (map (λ e. e.id) b.new) i j l a.ids_balance b.ids_balance));
  }

  -- What others have in hand stays as it is.
  pub Books-right :
      {w v : World S V} {s t : List LogLine} {i j : List String} (u : List LogLine)
      (l : List String)
      → Books w v s t i j
      → Books w v (s ++ u) (t ++ u) (i ++ l) (j ++ l)
  Books-right {s = s} {t = t} {i = i} {j = j} u l b = record {
    new = b.new;
    lines = b.lines;
    numbers = b.numbers;
    stored = b.stored;
    logged = b.logged;
    read = b.read;
    lines_balance = frame_right (map log_line b.new) b.lines s t u b.lines_balance;
    ids_balance =
        frame_right (map (issued h) b.numbers) (map (λ e. e.id) b.new) i j l b.ids_balance;
  }

  pub Books-left :
      {w v : World S V} {s t : List LogLine} {i j : List String} (u : List LogLine)
      (l : List String)
      → Books w v s t i j
      → Books w v (u ++ s) (u ++ t) (l ++ i) (l ++ j)
  Books-left {s = s} {t = t} {i = i} {j = j} u l b = record {
    new = b.new;
    lines = b.lines;
    numbers = b.numbers;
    stored = b.stored;
    logged = b.logged;
    read = b.read;
    lines_balance = frame_left (map log_line b.new) b.lines s t u b.lines_balance;
    ids_balance = frame_left (map (issued h) b.numbers) (map (λ e. e.id) b.new) i j l b.ids_balance;
  }

  -- Every step balances.
  pub Books-Turns :
      {w v : World S V} {p q : Phase}
      → Turns h k w v p q
      → Books w v (line_in_hand p) (line_in_hand q) (id_in_hand h p) (id_in_hand h q)
  Books-Turns (calm (l, i, a)) = record {
    new = [];
    lines = [];
    numbers = [];
    stored = a ∙ sym (append-nil _);
    logged = l ∙ sym (append-nil _);
    read = i;
    lines_balance = Permᴰ.refl _;
    ids_balance = Permᴰ.refl _;
  }
  Books-Turns {w = w} (names e l i a) = record {
    new = [];
    lines = [];
    numbers = w.ids ∷ [];
    stored = a ∙ sym (append-nil _);
    logged = l ∙ sym (append-nil _);
    read = (refl, i);
    lines_balance = Permᴰ.nil;
    ids_balance = Permᴰ.cons (sym (ap (issued h) e)) Permᴰ.nil;
  }
  Books-Turns (keeps e id l i a) = record {
    new = e ∷ [];
    lines = [];
    numbers = [];
    stored = a;
    logged = l ∙ sym (append-nil _);
    read = i;
    lines_balance = Permᴰ.refl _;
    ids_balance = Permᴰ.cons (sym id) Permᴰ.nil;
  }
  Books-Turns (logs {e = e} l i a) = record {
    new = [];
    lines = log_line e ∷ [];
    numbers = [];
    stored = a ∙ sym (append-nil _);
    logged = l;
    read = i;
    lines_balance = Permᴰ.refl _;
    ids_balance = Permᴰ.nil;
  }
