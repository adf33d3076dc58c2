-- ===== src/Admin/Backing.antt =====
-- How far the program of a request has come, among others, towards the line that it may write to the
-- structured log, and who stands behind this line.
use sclawion.Prelude.{
  ℕ, ◌+◌, ◌≤◌, ◌≡◌, refl, sym, ap, ◌∙◌, inl, inr, List, [], ◌∷◌, ◌++◌, All, In, here, there, length,
  arith,
}
use sclawion.Config.Errors.{ok}
use sclawion.Config.Types.{AdminUser, role_owner}
use sclawion.Config.World.{World, LogLine}
use sclawion.Config.Rbac.{IapAuthConfig, resolve_email}
use sclawion.Admin.Http.{Request, Response, Caller}
use sclawion.Admin.Act.{Act, step}
use sclawion.Admin.Deps.{Deps}
use sclawion.Admin.Reads.{Still}
use sclawion.Admin.Trail.{Closing, Trailing, IsBy}
use sclawion.Admin.Asking.{Admits, Asks}
use sclawion.Admin.Ui.Routes.{Assets}
use sclawion.Admin.Concurrent.{here, Reaches, idle, arrives, moves}
use mathlib.Core.List.{append-nil}

module _ {S V : Type 0} {cfg : IapAuthConfig S} {assets : Assets} {d : Deps S V}
    {start : World S V} where
  -- The requests that arrived, and the worlds that were, the last one first.
  unfoldable pub requests :
      {ms : List (Act S V Response)} {w : World S V}
      → Reaches cfg assets d start ms w
      → List Request
  requests idle = []
  requests (arrives r i) = r ∷ requests i
  requests (moves i m) = requests i

  unfoldable pub worlds :
      {ms : List (Act S V Response)} {w : World S V}
      → Reaches cfg assets d start ms w
      → List (World S V)
  worlds idle = start ∷ []
  worlds (arrives r i) = worlds i
  worlds (moves {v = v} i m) = v ∷ worlds i

  pub now_was :
      {ms : List (Act S V Response)} {w : World S V} (i : Reaches cfg assets d start ms w)
      → In w (worlds i)
  unfolding worlds
  now_was idle = here refl
  now_was (arrives r i) = now_was i
  now_was (moves i m) = here refl

module _ {S V : Type 0} (cfg : IapAuthConfig S) where
  -- One of the requests resolves to the caller's e-mail, which in one of the worlds was that of an
  -- Owner.
  abbrev pub Backs : List Request → List (World S V) → Caller → Type 0
  Backs rs ws c =
      (r : Request) × (w : World S V) × (user : AdminUser) × In r rs
      × In w ws
      × (resolve_email r cfg ≡ ok c.email)
      × (cfg.store.get_admin_user c.email w.store ≡ ok user)
      × (user.role ≡ role_owner)
      × (c.role ≡ role_owner)

  -- The line is that of a successful call by such a caller.
  abbrev pub Backed : List Request → List (World S V) → LogLine → Type 0
  Backed rs ws e = (c : Caller) × Backs rs ws c × IsBy c e

  pub Backs-request :
      (r : Request) {rs : List Request} {ws : List (World S V)} {c : Caller}
      → Backs rs ws c
      → Backs (r ∷ rs) ws c
  Backs-request r (q, w, user, i, j, e, f, o, o') = (q, w, user, there i, j, e, f, o, o')

  pub Backs-world :
      (w : World S V) {rs : List Request} {ws : List (World S V)} {c : Caller}
      → Backs rs ws c
      → Backs rs (w ∷ ws) c
  Backs-world w (q, v, user, i, j, e, f, o, o') = (q, v, user, i, there j, e, f, o, o')

  -- How far a program is, and how many lines it may yet write.
  pub data Stage (rs : List Request) (ws : List (World S V)) : ℕ → Act S V Response → Type 0 where
    reading : {m : Act S V Response} → Still m → Stage rs ws 0 m
    closing : {m : Act S V Response} → Closing m → Stage rs ws 0 m
    asking : (r : Request) {m : Act S V Response} → In r rs → Asks cfg r m → Stage rs ws 1 m
    trailing : (c : Caller) {m : Act S V Response} → Backs rs ws c → Trailing c m → Stage rs ws 1 m

  pub Stage-request :
      (r : Request) {rs : List Request} {ws : List (World S V)} {n : ℕ} {m : Act S V Response}
      → Stage rs ws n m
      → Stage (r ∷ rs) ws n m
  Stage-request r (reading p) = reading p
  Stage-request r (closing p) = closing p
  Stage-request r (asking q i p) = asking q (there i) p
  Stage-request r (trailing c b p) = trailing c (Backs-request r b) p

  pub Stage-world :
      (w : World S V) {rs : List Request} {ws : List (World S V)} {n : ℕ} {m : Act S V Response}
      → Stage rs ws n m
      → Stage rs (w ∷ ws) n m
  Stage-world w (reading p) = reading p
  Stage-world w (closing p) = closing p
  Stage-world w (asking q i p) = asking q i p
  Stage-world w (trailing c b p) = trailing c (Backs-world w b) p

  -- What a step from the world `w` to `v` adds to the log, and how many lines the program may write
  -- after it.
  abbrev Adds :
      List Request → List (World S V) → ℕ → World S V → World S V → Act S V Response → Type 0
  Adds rs ws n w v m =
      (es : List LogLine) × (l : ℕ) × (length es + l ≤ n)
      × (v.log ≡ w.log ++ es)
      × All (Backed rs ws) es
      × Stage rs ws l m

  nothing_new :
      {rs : List Request} {ws : List (World S V)} {n : ℕ} {m : Act S V Response} (w v : World S V)
      → v.log ≡ w.log
      → Stage rs ws n m
      → Adds rs ws n w v m
  nothing_new {n = n} w v same p = ([], n, omega arith, same ∙ sym (append-nil w.log), tt, p)

  admits :
      {rs : List Request} {ws : List (World S V)} (r : Request) (w v : World S V)
      (m : Act S V Response)
      → In r rs
      → In w ws
      → v.log ≡ w.log
      → Admits cfg r w m
      → Adds rs ws 1 w v m
  admits r w v m i j same (inl p) =
      ([], 0, omega arith, same ∙ sym (append-nil w.log), tt, reading p)
  admits r w v m i j same (inr (email, user, e, f, owner, t)) = nothing_new w v same (
      trailing (record { email = email; role = user.role }) (r, w, user, i, j, e, f, owner, owner)
        t)

  pub Stage-step :
      {rs : List Request} {ws : List (World S V)} {n : ℕ} (u : World S V → World S V)
      (k : World S V → Act S V Response) (w : World S V)
      → In w ws
      → Stage rs ws n (step u k)
      → Adds rs ws n w (u w) (k w)
  unfolding Still Closing Asks Trailing
  Stage-step u k w j (reading p) = nothing_new w (u w) (ap (λ w. w.log) (p w).0) (reading (p w).1)
  Stage-step u k w j (closing p) = nothing_new w (u w) (p w).0 (closing (p w).1)
  Stage-step u k w j (asking r i p) = admits r w (u w) (k w) i j (ap (λ w. w.log) (p w).0) (p w).1
  Stage-step u k w j (trailing c b p) = elim (p w) [
    | inl (same, rest) ↦ nothing_new w (u w) same (trailing c b rest)
    | inr ((e, added, by), rest) ↦ (e ∷ [], 0, omega arith, added, ((c, b, by), tt), closing rest)
  ]
