-- ===== src/Admin/Ownerless.antt =====
-- A service whose store holds no Owner, with requests that are served at once: no program of the
-- service changes the world that it starts from, at any moment.
use sclawion.Prelude.{
  ℕ, ◌≡◌, ◌≢◌, refl, sym, ap, subst, ◌∙◌, inl, inr, some, String, List, All, text-cases,
}
use sclawion.Config.Errors.{ok, Result-cases}
use sclawion.Config.Types.{AdminUser, role_owner}
use sclawion.Config.World.{World}
use sclawion.Config.Rbac.{IapAuthConfig, with_user}
use sclawion.Admin.Http.{Request, Response, Caller, Body, text}
use sclawion.Admin.Act.{Act, Handler, ended, step, ◌>>=◌, answer, peek}
use sclawion.Admin.Deps.{Deps, owner_only}
use sclawion.Admin.Reads.{Still, Reading, Reading-answer}
use sclawion.Admin.Routes.{new_api}
use sclawion.Admin.Owners.{owner_only-stranger}
use sclawion.Admin.Every.{new_api-At, EachRead-Reading, refuses-Reading}
use sclawion.Admin.Access.{serve_api, signed_in}
use sclawion.Admin.Ui.Routes.{Assets}
use sclawion.Admin.Mux.{serve, serve-At, serve_ui-Reading, iap_auth-At}
use sclawion.Admin.Concurrent.{Moves, here, later, Reaches, idle, arrives, moves}

module _ {S V : Type 0} where
  denied :
      (h : Handler S V) (r : Request) (c : Caller)
      → r.caller ≡ some c
      → c.role ≢ role_owner
      → Reading (owner_only h r)
  denied h r c e not_owner = elim (text-cases c.role role_owner) [
    | inl o ↦ absurd (not_owner o)
    | inr n ↦ owner_only-stranger h r c e n
  ]

  -- The JSON API only reads for a caller who is not an Owner.
  new_api-Reading :
      (d : Deps S V) (r : Request) (c : Caller)
      → r.caller ≡ some c
      → c.role ≢ role_owner
      → Reading (new_api d r)
  new_api-Reading d r c e not_owner =
      new_api-At d r Reading (refuses-Reading d r Reading (λ m p. p))
        (EachRead-Reading d r Reading (λ m p. p))
        (record {
          on_create_tenant = denied _ r c e not_owner;
          on_patch_tenant = λ tid. denied _ r c e not_owner;
          on_delete_tenant = λ tid. denied _ r c e not_owner;
          on_create_agent = λ tid. denied _ r c e not_owner;
          on_patch_agent = λ tid id. denied _ r c e not_owner;
          on_delete_agent = λ tid id. denied _ r c e not_owner;
          on_create_swarm = λ tid. denied _ r c e not_owner;
          on_patch_swarm = λ tid id. denied _ r c e not_owner;
          on_delete_swarm = λ tid id. denied _ r c e not_owner;
          on_put_connector = λ tid p. denied _ r c e not_owner;
          on_rotate_secret = λ tid p. denied _ r c e not_owner;
          on_put_admin_user = λ email. denied _ r c e not_owner;
          on_delete_admin_user = λ email. denied _ r c e not_owner;
        })

module _ {S V : Type 0} (start : World S V) where
  -- Run from the world `start`, no step of the program changes it.
  unfoldable Frozen : {A : Type 0} → Act S V A → Type 0
  Frozen (ended o) = Unit
  Frozen (step u k) = (u start ≡ start) × Frozen (k start)

  Still-Frozen : {A : Type 0} (m : Act S V A) → Still m → Frozen m
  unfolding Frozen Still
  Still-Frozen (ended o) p = tt
  Still-Frozen (step u k) p = ((p start).0, Still-Frozen (k start) (p start).1)

  Reading-Frozen : (m : Act S V Response) → Reading m → Frozen m
  Reading-Frozen m p = Still-Frozen m p.still

  peek-Frozen :
      {A : Type 0} (read : S → A) (f : A → Act S V Response)
      → Frozen (f (read start.store))
      → Frozen (peek read >>= f)
  unfolding Frozen peek ◌>>=◌
  peek-Frozen read f p = (refl, p)

  Moves-Frozen :
      {ms ns : List (Act S V Response)} {w v : World S V}
      → Moves ms w ns v
      → w ≡ start
      → All Frozen ms
      → (v ≡ start) × All Frozen ns
  unfolding Frozen
  Moves-Frozen (here u k ms w) e (p, ps) =
      (ap u e ∙ p.0, (subst (λ a. Frozen (k a)) (sym e) p.1, ps))
  Moves-Frozen (later m i) e (p, ps) = let (same, rest) = Moves-Frozen i e ps in (same, (p, rest))

module _ {S V : Type 0} (cfg : IapAuthConfig S) (assets : Assets) (d : Deps S V)
    (start : World S V) where
  abbrev NoOwner : Type 0
  NoOwner =
      (email : String) (user : AdminUser)
      → cfg.store.get_admin_user email start.store ≡ ok user
      → user.role ≢ role_owner

  signed_in-Reading :
      NoOwner
      → (r : Request) (email : String)
      → Reading (with_user email (cfg.store.get_admin_user email start.store) (new_api d) r)
  signed_in-Reading none_owns r email =
      elim (Result-cases (cfg.store.get_admin_user email start.store)) [
        | inl (x, e) ↦ rw e (Reading-answer 403 (text "rbac: caller not in admin_users"))
        | inr (user, e) ↦ rw e (
            new_api-Reading d (signed_in r email user) (record { email = email; role = user.role })
              refl (none_owns email user e))
      ]

  serve-Frozen : NoOwner → (r : Request) → Frozen start (serve cfg assets d r)
  unfolding serve_api
  serve-Frozen none_owns r =
      let answers : (status : ℕ) (body : Body) → Frozen start (answer status body) =
        λ status body. Reading-Frozen start _ (Reading-answer status body) in
      serve-At cfg assets d r (Frozen start) answers
        (iap_auth-At (Frozen start) answers cfg (new_api d) r λ email e.
          peek-Frozen start (cfg.store.get_admin_user email)
            (λ user. with_user email user (new_api d) r)
            (Reading-Frozen start _ (signed_in-Reading none_owns r email)))
        (Reading-Frozen start _ (serve_ui-Reading cfg assets d r))

  Reaches-Frozen :
      NoOwner
      → {ms : List (Act S V Response)} {w : World S V} → Reaches cfg assets d start ms w
      → (w ≡ start) × All (Frozen start) ms
  Reaches-Frozen none_owns idle = (refl, tt)
  Reaches-Frozen none_owns (arrives r i) =
      let (same, rest) = Reaches-Frozen none_owns i in (same, (serve-Frozen none_owns r, rest))
  Reaches-Frozen none_owns (moves i m) =
      let (same, rest) = Reaches-Frozen none_owns i in Moves-Frozen start m same rest

  -- If no user that the store returns has the role Owner, then the world is what it was at the start
  -- at every moment, however many requests are served at once and however the steps of their programs
  -- interleave.
  pub Reaches-without_owner :
      (ms : List (Act S V Response)) (w : World S V)
      → ((email : String) (user : AdminUser)
          → cfg.store.get_admin_user email start.store ≡ ok user
          → user.role ≢ role_owner)
      → Reaches cfg assets d start ms w
      → w ≡ start
  Reaches-without_owner ms w none_owns i = (Reaches-Frozen none_owns i).0
