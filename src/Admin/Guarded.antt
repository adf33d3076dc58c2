-- ===== src/Admin/Guarded.antt =====
-- cmd/admin-api/main.go with http.ListenAndServe: the steps of one request among those of others, which
-- may change the world between any two of them.
use sclawion.Prelude.{◌≤◌, ◌≡◌, refl, sym, subst, ◌⊎◌, inl, inr, String, List, [], ◌∷◌, All}
use sclawion.Config.Errors.{ok}
use sclawion.Config.Types.{AdminUser, role_owner}
use sclawion.Config.World.{World}
use sclawion.Config.Rbac.{IapAuthConfig, resolve_email}
use sclawion.Admin.Http.{Request, Response, Caller}
use sclawion.Admin.Act.{Act, Outcome, ended, step, finish}
use sclawion.Admin.Deps.{Deps}
use sclawion.Admin.Reads.{Still}
use sclawion.Admin.Trail.{Closing, Trailing, Writes}
use sclawion.Admin.Ui.Routes.{Assets}
use sclawion.Admin.Asking.{Admits, Asks, serve-Asks}
use sclawion.Admin.Mux.{serve}

-- The worlds that a program's steps find and leave, one after the other, and what it answers at last.
-- What a step leaves and what the next one finds need not be the same.
pub data Goes {S V : Type 0}
    : Act S V Response → List (World S V × World S V) → Response → Type 0 where
  replied : (o : Outcome Response) → Goes (ended o) [] (finish o)
  goes :
      (u : World S V → World S V) (k : World S V → Act S V Response) (w : World S V)
      {ts : List (World S V × World S V)} {x : Response}
      → Goes (k w) ts x
      → Goes (step u k) ((w, u w) ∷ ts) x

module _ {S V : Type 0} where
  -- The steps of a program where the others do the same after each of them, and its answer.
  unfoldable pub among :
      (World S V → World S V)
      → Act S V Response
      → World S V
      → List (World S V × World S V) × Response
  among others (ended o) w = ([], finish o)
  among others (step u k) w =
      let rest = among others (k w) (others (u w)) in ((w, u w) ∷ rest.0, rest.1)

  pub among-Goes :
      (others : World S V → World S V) (m : Act S V Response) (w : World S V)
      → Goes m (among others m w).0 (among others m w).1
  unfolding among
  among-Goes others (ended o) w = replied o
  among-Goes others (step u k) w = goes u k w (among-Goes others (k w) (others (u w)))

  abbrev pub IsStill : World S V × World S V → Type 0
  IsStill (w, v) = v ≡ w

  abbrev pub IsQuiet : World S V × World S V → Type 0
  IsQuiet (w, v) = v.log ≡ w.log

  -- One step writes a line of the caller to the log, and no other step writes to it.
  unfoldable pub WritesOnce : Caller → List (World S V × World S V) → Type 0
  WritesOnce c [] = ⊥
  WritesOnce c ((w, v) ∷ ts) = ((v.log ≡ w.log) × WritesOnce c ts) ⊎ (Writes c w v × All IsQuiet ts)

  -- An error and nothing in the log, or a success and one line.
  abbrev pub Leaves : Caller → List (World S V × World S V) → Response → Type 0
  Leaves c ts x = ((400 ≤ x.status) × All IsQuiet ts) ⊎ ((x.status ≤ 204) × WritesOnce c ts)

  Reading-Goes :
      (m : Act S V Response) {ts : List (World S V × World S V)} {x : Response}
      → Goes m ts x
      → Still m
      → All IsStill ts
  unfolding Still
  Reading-Goes m (replied o) p = tt
  Reading-Goes m (goes u k w g) p = ((p w).0, Reading-Goes (k w) g (p w).1)

  Closing-Goes :
      (m : Act S V Response) {ts : List (World S V × World S V)} {x : Response}
      → Goes m ts x
      → Closing m
      → (x.status ≤ 204) × All IsQuiet ts
  unfolding Closing
  Closing-Goes m (replied o) p = (p, tt)
  Closing-Goes m (goes u k w g) p =
      let (low, rest) = Closing-Goes (k w) g (p w).1 in (low, ((p w).0, rest))

  still_quiet :
      (c : Caller) (w v : World S V) (ts : List (World S V × World S V)) (x : Response)
      → v.log ≡ w.log
      → Leaves c ts x
      → Leaves c ((w, v) ∷ ts) x
  unfolding WritesOnce
  still_quiet c w v ts x same (inl (high, rest)) = inl (high, (same, rest))
  still_quiet c w v ts x same (inr (low, once)) = inr (low, inl (same, once))

  Trailing-Goes :
      (c : Caller) (m : Act S V Response) {ts : List (World S V × World S V)} {x : Response}
      → Goes m ts x
      → Trailing c m
      → Leaves c ts x
  unfolding Trailing WritesOnce
  Trailing-Goes c m (replied o) p = inl (p, tt)
  Trailing-Goes c m (goes u k w {ts = ts} {x = x} g) p = elim (p w) [
    | inl (same, rest) ↦ still_quiet c w (u w) ts x same (Trailing-Goes c (k w) g rest)
    | inr (line, rest) ↦
        let (low, quiet) = Closing-Goes (k w) g rest in inr (low, inr (line, quiet))
  ]

module _ {S V : Type 0} (cfg : IapAuthConfig S) (r : Request) where
  -- No step changes the world; or the first reads from the store that the e-mail of the request is that
  -- of an Owner, and the others leave the trail of this Owner.
  abbrev pub Guards : List (World S V × World S V) → Response → Type 0
  Guards ts x =
      All IsStill ts
      ⊎ ((email : String) × (user : AdminUser) × (w : World S V) × (rest : List
            (World S V × World S V))
          × (ts ≡ (w, w) ∷ rest)
          × (resolve_email r cfg ≡ ok email)
          × (cfg.store.get_admin_user email w.store ≡ ok user)
          × (user.role ≡ role_owner)
          × Leaves (record { email = email; role = user.role }) rest x)

  admits :
      (w : World S V) (m : Act S V Response) {rest : List (World S V × World S V)} {x : Response}
      → Goes m rest x
      → Admits cfg r w m
      → Guards ((w, w) ∷ rest) x
  admits w m g (inl p) = inl (refl, Reading-Goes m g p)
  admits w m {rest = rest} g (inr (email, user, e, f, owner, t)) =
      inr (email, user, w, rest, refl, e, f, owner, Trailing-Goes _ m g t)

  asks :
      (m : Act S V Response) {ts : List (World S V × World S V)} {x : Response}
      → Goes m ts x
      → Asks cfg r m
      → Guards ts x
  unfolding Asks
  asks m (replied o) p = absurd p
  asks m (goes u k w {ts = ts} {x = x} g) p =
      subst (λ v. Guards ((w, v) ∷ ts) x) (sym (p w).0) (admits w (k w) g (p w).1)

  -- Whatever the others do to the world between the steps of a request, each step of the request leaves
  -- the world exactly as it finds it; or its first step reads from the store that the e-mail that its
  -- authentication resolves to is that of an administrator with the role Owner, and then the request is
  -- answered with an error and none of its other steps writes to the log, or with success and just one
  -- of them does, a line under that e-mail and role.
  pub serve-Guarded :
      (assets : Assets) (d : Deps S V) (ts : List (World S V × World S V)) (x : Response)
      → Goes (serve cfg assets d r) ts x
      → Guards ts x
  serve-Guarded assets d ts x g = elim (serve-Asks cfg r d assets) [
    | inl p ↦ inl (Reading-Goes _ g p)
    | inr p ↦ asks _ g p
  ]
