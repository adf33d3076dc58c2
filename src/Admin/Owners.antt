-- ===== src/Admin/Owners.antt =====
-- cmd/admin-api/handlers/handlers.go: ownerOnly, and who passes it.
use sclawion.Prelude.{
  ℕ, ◌≤◌, arith, ◌≡◌, refl, sym, subst, inl, inr, ◌==◌, eq_iff, Option-cases, text-cases, some,
  none, false,
}
use sclawion.Config.Types.{role_owner}
use sclawion.Admin.Http.{Request, Response, Caller, Body, text}
use sclawion.Admin.Act.{Act, Handler, answer}
use sclawion.Admin.Deps.{owner_only}
use sclawion.Admin.Reads.{Reading, Reading-answer}

module _ {S V : Type 0} where
  pub owner_only-owner :
      (h : Handler S V) (r : Request) (c : Caller)
      → r.caller ≡ some c
      → c.role ≡ role_owner
      → owner_only h r ≡ h r
  unfolding owner_only
  owner_only-owner h r c e o = rw (e, (eq_iff c.role role_owner).1 o) refl

  -- Anyone else is refused.
  pub owner_only-stranger :
      (h : Handler S V) (r : Request) (c : Caller)
      → r.caller ≡ some c
      → (c.role == role_owner) ≡ false
      → Reading (owner_only h r)
  unfolding owner_only
  owner_only-stranger h r c e n =
      let same : owner_only h r ≡ answer 403 (text "owner required") = rw (e, n) refl in
      subst Reading (sym same) (Reading-answer 403 (text "owner required"))

  pub owner_only-nobody :
      (h : Handler S V) (r : Request) → r.caller ≡ none → Reading (owner_only h r)
  unfolding owner_only
  owner_only-nobody h r e =
      let same : owner_only h r ≡ answer 401 (text "no caller") = rw e refl in
      subst Reading (sym same) (Reading-answer 401 (text "no caller"))

  -- The gate lets the handler run, or refuses.
  pub owner_only-At :
      (P : Act S V Response → Type 0) (h : Handler S V) (r : Request)
      → ((status : ℕ) (body : Body) → 400 ≤ status → P (answer status body))
      → P (h r)
      → P (owner_only h r)
  unfolding owner_only
  owner_only-At P h r refuses p = elim (Option-cases r.caller) [
    | inl e ↦
        let same : owner_only h r ≡ answer 401 (text "no caller") = rw e refl in
        subst P (sym same) (refuses 401 (text "no caller") (omega arith))
    | inr (c, e) ↦ elim (text-cases c.role role_owner) [
      | inl o ↦ subst P (sym (owner_only-owner h r c e o)) p
      | inr n ↦
          let same : owner_only h r ≡ answer 403 (text "owner required") = rw (e, n) refl in
          subst P (sym same) (refuses 403 (text "owner required") (omega arith))
    ]
  ]
