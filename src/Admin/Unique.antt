-- ===== src/Admin/Unique.antt =====
-- The ids of the entries of a service whose requests are served at once.
use mathlib.Core.List.Permᴰ
use sclawion.Prelude.{
  ℕ, suc, ◌≤◌, ◌<◌, ◌≡◌, ◌≢◌, sym, ap, ◌∙◌, String, some, List, [], ◌∷◌, ◌++◌, map, All, arith,
}
use sclawion.Text.{codes}
use sclawion.GoMap.Ascending.{IsDistinct, IsDistinct-Permᴰ}
use sclawion.Bytes.{AreBytes}
use sclawion.Bytes.Hex.{hex_decode}
use sclawion.Config.Types.{AuditEntry}
use sclawion.Config.Audit.Ids.{new_id-decode}
use sclawion.Config.World.{Host, World}
use sclawion.Config.Rbac.{IapAuthConfig}
use sclawion.Admin.Http.{Response}
use sclawion.Admin.Act.{Act}
use sclawion.Admin.Deps.{Deps}
use sclawion.Admin.Keeping.{Wired}
use sclawion.Admin.Ui.Routes.{Assets}
use sclawion.Admin.Concurrent.{Reaches}
use sclawion.Admin.Phases.{entries}
use sclawion.Admin.Phases.Balance.{Runs, issued}
use sclawion.Admin.Reconciled.{Reaches-Reconciled}

module _ (h : Host) (bytes : (n : ℕ) → AreBytes (h.random_bytes n)) (m : ℕ)
    (differ : (i j : ℕ) → i < m → j < m → h.random_bytes i ≡ h.random_bytes j → i ≡ j) where
  issued_injective : (i j : ℕ) → i < m → j < m → issued h i ≡ issued h j → i ≡ j
  issued_injective i j p q e =
      let decoded : some (h.random_bytes i) ≡ some (h.random_bytes j) =
        sym (new_id-decode (h.random_bytes i) (bytes i))
        ∙ ap (λ s. hex_decode (codes s)) e
        ∙ new_id-decode (h.random_bytes j) (bytes j) in
      differ i j p q cc

  Runs-le : (n : ℕ) (xs : List ℕ) → Runs n xs m → n ≤ m
  Runs-le n [] r = omega arith
  Runs-le n (x ∷ xs) (e, r) = omega (arith, Runs-le (suc n) xs r)

  -- A number below those that follow has another id.
  others :
      (i n : ℕ) (xs : List ℕ) → i < n → Runs n xs m → All (λ s. issued h i ≢ s) (map (issued h) xs)
  others i n [] p r = tt
  others i n (x ∷ xs) p (e, r) =
      let last = Runs-le (suc n) xs r in
      (
        (λ same. absurd (omega (arith, issued_injective i x (omega arith) (omega arith) same))),
        others i (suc n) xs (omega arith) r,
      )

  issued-IsDistinct : (n : ℕ) (xs : List ℕ) → Runs n xs m → IsDistinct (λ s. s) (map (issued h) xs)
  issued-IsDistinct n [] r = tt
  issued-IsDistinct n (x ∷ xs) (e, r) =
      (others x (suc n) xs (omega arith) r, issued-IsDistinct (suc n) xs r)

module _ {A : Type 0} (key : A → String) where
  front :
      (P : String → Type 0) (xs : List A) (ys : List String)
      → All P (map key xs ++ ys)
      → All (λ x. P (key x)) xs
  front P [] ys p = tt
  front P (x ∷ xs) ys (h, p) = (h, front P xs ys p)

  IsDistinct-front :
      (xs : List A) (ys : List String) → IsDistinct (λ s. s) (map key xs ++ ys) → IsDistinct key xs
  IsDistinct-front [] ys p = tt
  IsDistinct-front (x ∷ xs) ys (h, p) = (front (λ s. key x ≢ s) xs ys h, IsDistinct-front xs ys p)

module _ {S V : Type 0} (cfg : IapAuthConfig S) (assets : Assets) (d : Deps S V) (start : World S V)
    (wd : Wired d) where
  -- If the service is wired to one store that keeps its contract, and no two readings of random bytes up
  -- to now gave the same bytes, then no two of the entries that the store gained since the start have
  -- the same id, however the steps of the requests that are served at once interleave.
  pub Reaches-IsDistinct :
      (ms : List (Act S V Response)) (w : World S V)
      → Reaches cfg assets d start ms w
      → ((n : ℕ) → AreBytes (d.host.random_bytes n))
      → ((i j : ℕ) → i < w.ids → j < w.ids → d.host.random_bytes i ≡ d.host.random_bytes j → i ≡ j)
      → (new : List AuditEntry) × (entries d.host wd.contract w
          ≡ entries d.host wd.contract start ++ new)
        × IsDistinct (λ e. e.id) new
  Reaches-IsDistinct ms w i bytes differ =
      let (new, lines, numbers, left, ids, stored, logged, read, balance, ids_balance, few) =
        Reaches-Reconciled cfg assets d start wd ms w i in
      (
        new,
        stored,
        IsDistinct-front (λ e. e.id) new ids
            (IsDistinct-Permᴰ (λ s. s) (Permᴰ.symm ids_balance)
              (issued-IsDistinct d.host bytes w.ids differ start.ids numbers read)),
      )
