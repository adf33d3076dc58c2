-- ===== src/Config/MemStore/AuditLog.antt =====
-- ListAudit: what the filter lets through, newest first, and what the limit cuts off.
use mathlib.Core.List.Permᴰ
use mathlib.Core.List.{Permᴰ, append-nil}
use sclawion.Prelude.Perms.{same_perm}
use sclawion.Prelude.{
  ℕ, zero, suc, ◌≡◌, ◌↔◌, ◌⊎◌, inl, inr, refl, sym, String, Bool, true, false, ◌||◌, ◌&&◌, List, [],
  ◌∷◌, ◌++◌, ◌==◌, eq_iff, length, take, drop, keep, length-take, take-drop, All, All-take,
  All-drop, All-of_In, Bool-cases, arith, ◌≤◌,
}
use sclawion.Prelude.Int.{pos, pos_part, ◌≤ℤ◌, ltb_ℤ}
use sclawion.Sorting.{IsStrictWeak, IsSorted, Sorter}
use sclawion.Config.Errors.{ok}
use sclawion.Config.Types.{AuditEntry}
use sclawion.Config.Store.{AuditFilter}
use sclawion.Config.MemStore.{MemStore, passes, newer, limited, list_audit}

-- An empty field of the filter asks for nothing.
abbrev pub Asks : String → String → Type 0
Asks f v = (f ≡ "") ⊎ (v ≡ f)

abbrev pub Matches : AuditFilter → AuditEntry → Type 0
Matches f e =
    Asks f.tenant_id e.tenant_id × Asks f.actor e.actor × Asks f.resource_type e.resource_type

Asks-iff : (f v : String) → ((f == "" || v == f) ≡ true) ↔ Asks f v
Asks-iff f v =
    (λ h. ground (arith, eq_iff f "", eq_iff v f), λ h. ground (arith, eq_iff f "", eq_iff v f))

passes_iff : (f : AuditFilter) (e : AuditEntry) → (passes f e ≡ true) ↔ Matches f e
unfolding passes
passes_iff f e =
    let (t, t') = Asks-iff f.tenant_id e.tenant_id in
    let (a, a') = Asks-iff f.actor e.actor in
    let (r, r') = Asks-iff f.resource_type e.resource_type in
    (
      λ h. (t (ground arith), a (ground arith), r (ground arith)),
      λ (x, y, z). ground (arith, t' x, a' y, r' z),
    )

newer-IsStrictWeak : IsStrictWeak newer
newer-IsStrictWeak = record {
  irrefl = λ a. ground arith;
  trans = λ a b c p q. ground arith;
  cotrans = λ a b c p. ground arith;
}

-- The entries of the log that match the filter, in the order of the log.
pub data Picks (f : AuditFilter) : List AuditEntry → List AuditEntry → Type 0 where
  none_left : Picks f [] []
  picked :
      (e : AuditEntry) {log out : List AuditEntry}
      → Matches f e
      → Picks f log out
      → Picks f (e ∷ log) (e ∷ out)
  left_out :
      (e : AuditEntry) {log out : List AuditEntry}
      → ¬ Matches f e
      → Picks f log out
      → Picks f (e ∷ log) out

keep-Picks : (f : AuditFilter) (log : List AuditEntry) → Picks f log (keep (passes f) log)
keep-Picks f [] = none_left
keep-Picks f (e ∷ log) = elim (Bool-cases (passes f e)) [
  | inl h ↦ rw (h, keep) (picked e ((passes_iff f e).0 h) (keep-Picks f log))
  | inr h ↦ rw (h, keep) (left_out e (λ m. cc ((passes_iff f e).1 m, h)) (keep-Picks f log))
]

-- Newest first.
abbrev pub Descending : List AuditEntry → Type 0
Descending [] = Unit
Descending (e ∷ es) = All (λ x. x.at ≤ℤ e.at) es × Descending es

older-All :
    (e : AuditEntry) (xs : List AuditEntry)
    → All (λ x. newer x e ≡ false) xs
    → All (λ x. x.at ≤ℤ e.at) xs
older-All e [] h = tt
older-All e (x ∷ xs) (p, h) = (ground arith, older-All e xs h)

sorted-Descending : (xs : List AuditEntry) → IsSorted newer xs → Descending xs
sorted-Descending [] s = tt
sorted-Descending (x ∷ xs) (first, s) = (older-All x xs first, sorted-Descending xs s)

IsSorted-take :
    {A : Type 0} (less : A → A → Bool) (n : ℕ) (xs : List A)
    → IsSorted less xs
    → IsSorted less (take n xs)
IsSorted-take less zero xs s = tt
IsSorted-take less (suc n) [] s = tt
IsSorted-take less (suc n) (x ∷ xs) (below, s) = (All-take _ n xs below, IsSorted-take less n xs s)

-- What the cut leaves out is not newer than anything that it keeps.
cut_apart :
    (n : ℕ) (xs : List AuditEntry)
    → IsSorted newer xs
    → All (λ e. All (λ x. x.at ≤ℤ e.at) (drop n xs)) (take n xs)
cut_apart zero xs s = tt
cut_apart (suc n) [] s = tt
cut_apart (suc n) (x ∷ xs) (first, s) = (All-drop _ n xs (older-All x xs first), cut_apart n xs s)

-- A page of the audit log: the matching entries, each as often as the log has it, are those on the
-- page and those that were cut off; the page is newest first, and nothing that was cut off is newer
-- than an entry on it; nothing is cut off, and a positive limit is kept, or the limit is positive and
-- the page has just so many entries.
pub record IsPage (f : AuditFilter) (log out : List AuditEntry) : Type 0 where
  pub matching : List AuditEntry
  pub cut : List AuditEntry
  pub picks : Picks f log matching
  pub parted : Permᴰ matching (out ++ cut)
  pub ordered : Descending out
  pub newest : All (λ e. All (λ x. x.at ≤ℤ e.at) cut) out
  pub filled :
      ((cut ≡ []) × (pos 1 ≤ℤ f.limit → pos (length out) ≤ℤ f.limit))
      ⊎ ((pos 1 ≤ℤ f.limit) × (pos (length out) ≡ f.limit))

module _ (f : AuditFilter) (log matching whole : List AuditEntry) (picks : Picks f log matching)
    (same : Permᴰ matching whole) (sorted : IsSorted newer whole) where
  whole-IsPage : (pos 1 ≤ℤ f.limit → pos (length whole) ≤ℤ f.limit) → IsPage f log whole
  whole-IsPage fits = record {
    matching = matching;
    cut = [];
    picks = picks;
    parted = Permᴰ.trans same (same_perm (sym (append-nil whole)));
    ordered = sorted-Descending whole sorted;
    newest = All-of_In whole (λ e i. tt);
    filled = inl (refl, fits);
  }

  take-IsPage : (n : ℕ) → f.limit ≡ pos n → 1 ≤ n → n ≤ length whole → IsPage f log (take n whole)
  take-IsPage n e positive short = record {
    matching = matching;
    cut = drop n whole;
    picks = picks;
    parted = Permᴰ.trans same (same_perm (sym (take-drop n whole)));
    ordered = sorted-Descending (take n whole) (IsSorted-take newer n whole sorted);
    newest = cut_apart n whole sorted;
    filled = inr (ground (arith, e), ground (arith, e, length-take n whole));
  }

  limited-IsPage : IsPage f log (limited f.limit whole)
  unfolding limited
  limited-IsPage = elim (Bool-cases (ltb_ℤ (pos 0) f.limit && ltb_ℤ f.limit (pos (length whole)))) [
    | inl cut ↦ rw cut (take-IsPage (pos_part f.limit) (ground arith) (ground arith) (ground arith))
    | inr keep_all ↦ rw keep_all (whole-IsPage (λ p. ground arith))
  ]

-- ListAudit answers with a page of the log: the matching entries, newest first by their time; where
-- they are more than a positive limit, just so many of them, and none that is cut off is newer than one
-- of these.
pub list_audit-IsPage :
    (sorter : Sorter) (f : AuditFilter) (s : MemStore)
    → (out : List AuditEntry) × (list_audit sorter f s ≡ ok out) × IsPage f s.audit out
unfolding list_audit
list_audit-IsPage sorter f s =
    let matching = keep (passes f) s.audit in
    (
      _,
      refl,
      limited-IsPage f s.audit matching (sorter.sort AuditEntry newer matching)
          (keep-Picks f s.audit) (Permᴰ.symm (sorter.sort-Perm AuditEntry newer matching))
          (sorter.sort-IsSorted AuditEntry newer matching newer-IsStrictWeak),
    )
