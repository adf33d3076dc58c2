-- ===== src/Admin/Gate.antt =====
-- The JSON API as a whole: a request that changes anything is an Owner's, and leaves its trail.
use sclawion.Prelude.{◌≡◌, sym, subst, ◌⊎◌, inl, inr, some, Option-cases, text-cases}
use sclawion.Config.Types.{role_owner}
use sclawion.Config.World.{World}
use sclawion.Admin.Http.{Request, Response, Caller, caller_of, caller_or_zero}
use sclawion.Admin.Act.{Act, Handler, ◌▷◌}
use sclawion.Admin.Reads.{Reading, Reading-world}
use sclawion.Admin.Deps.{Deps, owner_only}
use sclawion.Admin.Trail.{Mutates, Trails, Trails-Mutates}
use sclawion.Admin.Trails.{
  create_tenant-Trails, patch_tenant-Trails, delete_tenant-Trails, create_agent-Trails,
  patch_agent-Trails, delete_agent-Trails, create_swarm-Trails, patch_swarm-Trails,
  delete_swarm-Trails, put_connector-Trails, rotate_secret-Trails, put_admin_user-Trails,
  delete_admin_user-Trails,
}
use sclawion.Admin.Every.{new_api-At, EachRead-Reading, refuses-Reading}
use sclawion.Admin.Owners.{owner_only-owner, owner_only-stranger, owner_only-nobody}
use sclawion.Admin.Routes.{new_api}

-- The program only reads, or it is that of an Owner's request and leaves the Owner's trail.
abbrev pub Allowed : {S V : Type 0} → Request → Act S V Response → Type 0
Allowed r m = Reading m ⊎ ((c : Caller) × (r.caller ≡ some c) × (c.role ≡ role_owner) × Trails c m)

-- The world is as it was, or the request is an Owner's and leaves the Owner's trail.
abbrev pub Served : {S V : Type 0} → Request → World S V → Response × World S V → Type 0
Served r w out =
    (out.1 ≡ w) ⊎ ((c : Caller) × (r.caller ≡ some c) × (c.role ≡ role_owner) × Mutates c w out)

module _ {S V : Type 0} where
  admitted :
      (h : Handler S V) (r : Request) (c : Caller)
      → r.caller ≡ some c
      → Trails c (h r)
      → Allowed r (owner_only h r)
  admitted h r c e t = elim (text-cases c.role role_owner) [
    | inl o ↦ inr (c, e, o, subst (Trails c) (sym (owner_only-owner h r c e o)) t)
    | inr n ↦ inl (owner_only-stranger h r c e n)
  ]

  owner_only-Allowed :
      (h : Handler S V) (r : Request) → Trails (caller_of r) (h r) → Allowed r (owner_only h r)
  owner_only-Allowed h r t = elim (Option-cases r.caller) [
    | inl e ↦ inl (owner_only-nobody h r e)
    | inr (c, e) ↦ admitted h r c e (subst (λ o. Trails (caller_or_zero o) (h r)) e t)
  ]

  Allowed-Served :
      (r : Request) (m : Act S V Response) (w : World S V) → Allowed r m → Served r w (m ▷ w)
  Allowed-Served r m w (inl p) = inl (Reading-world m w p)
  Allowed-Served r m w (inr (c, e, o, t)) = inr (c, e, o, Trails-Mutates w t)

module _ {S V : Type 0} (d : Deps S V) (r : Request) where
  guarded : (h : Handler S V) → Trails (caller_of r) (h r) → Allowed r (owner_only h r)
  guarded h t = owner_only-Allowed h r t

  -- A request to the JSON API only reads, whatever world each of its steps finds, or it is an Owner's
  -- and leaves the Owner's trail.
  pub new_api-Allowed : Allowed r (new_api d r)
  new_api-Allowed =
      new_api-At d r (Allowed r) (refuses-Reading d r (Allowed r) (λ m p. inl p))
        (EachRead-Reading d r (Allowed r) (λ m p. inl p))
        (record {
          on_create_tenant = guarded _ (create_tenant-Trails d r);
          on_patch_tenant = λ tid. guarded _ (patch_tenant-Trails d r tid);
          on_delete_tenant = λ tid. guarded _ (delete_tenant-Trails d r tid);
          on_create_agent = λ tid. guarded _ (create_agent-Trails d r tid);
          on_patch_agent = λ tid id. guarded _ (patch_agent-Trails d r tid id);
          on_delete_agent = λ tid id. guarded _ (delete_agent-Trails d r tid id);
          on_create_swarm = λ tid. guarded _ (create_swarm-Trails d r tid);
          on_patch_swarm = λ tid id. guarded _ (patch_swarm-Trails d r tid id);
          on_delete_swarm = λ tid id. guarded _ (delete_swarm-Trails d r tid id);
          on_put_connector = λ tid p. guarded _ (put_connector-Trails d r tid p);
          on_rotate_secret = λ tid p. guarded _ (rotate_secret-Trails d r tid p);
          on_put_admin_user = λ email. guarded _ (put_admin_user-Trails d r email);
          on_delete_admin_user = λ email. guarded _ (delete_admin_user-Trails d r email);
        })

  -- A request to the JSON API leaves the world exactly as it was, or it is an Owner's, and then it
  -- answers with an error (400 or more) and logs nothing, or it answers with success (at most 204)
  -- and adds one entry to the audit log, with the Owner's e-mail and role and the result "success".
  pub new_api-Served : (w : World S V) → Served r w (new_api d r ▷ w)
  new_api-Served w = Allowed-Served r (new_api d r) w new_api-Allowed
