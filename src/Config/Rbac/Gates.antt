-- ===== src/Config/Rbac/Gates.antt =====
-- pkg/config/rbac.go: RequireRole, on all its branches.
use sclawion.Prelude.{
  ◌≡◌, ◌≢◌, refl, ◌⊎◌, inl, inr, Bool, true, false, none, some, Option-cases, arith,
}
use sclawion.Config.Types.{Role, role_owner, role_operator, role_viewer}
use sclawion.Config.World.{World}
use sclawion.Config.Rbac.{require_role, role_at_least}
use sclawion.Config.Rbac.Identity.{Outranks, role_at_least_iff}
use sclawion.Admin.Http.{Request, Response, Caller, respond, text}
use sclawion.Admin.Act.{Handler, ◌▷◌, run, answer}

-- The order of the roles lets `have` pass for `want`, or `want` is none of the three.
abbrev pub Passes : Role → Role → Type 0
Passes have want =
    Outranks have want ⊎ ((want ≢ role_viewer) × (want ≢ role_operator) × (want ≢ role_owner))

module _ {S V : Type 0} (min : Role) (next : Handler S V) (r : Request) (w : World S V) where
  with_caller :
      (c : Caller) (b : Bool)
      → r.caller ≡ some c
      → role_at_least c.role min ≡ b
      → (Passes c.role min × ((require_role min next r ▷ w) ≡ (next r ▷ w)))
        ⊎ ((Passes c.role min → ⊥)
            × ((require_role min next r ▷ w) ≡ (respond 403 (text "rbac: forbidden"), w)))
  unfolding require_role answer ◌▷◌ run
  with_caller c true e p = inl ((role_at_least_iff c.role min).0 p, rw (e, p) refl)
  with_caller c false e p =
      inr
        (λ passes. absurd (ground (arith, (role_at_least_iff c.role min).1 passes)), rw (e, p) refl)

  -- No caller; a caller who passes; or one who does not.
  abbrev pub Gated : Response × World S V → Type 0
  Gated out =
      ((r.caller ≡ none) × (out ≡ (respond 401 (text "rbac: no caller in context"), w)))
      ⊎ ((c : Caller) × (r.caller ≡ some c)
          × ((Passes c.role min × (out ≡ (next r ▷ w)))
              ⊎ ((Passes c.role min → ⊥) × (out ≡ (respond 403 (text "rbac: forbidden"), w)))))

  -- A request to a handler behind RequireRole is answered 401 where it has no caller, and 403 where the
  -- caller's role does not pass, and then changes nothing; where it passes, the handler runs. It
  -- passes for a required role that is Viewer, Operator or Owner exactly where the order Owner,
  -- Operator, Viewer says so, and always for any other.
  pub require_role-Gates : Gated (require_role min next r ▷ w)
  unfolding require_role answer ◌▷◌ run
  require_role-Gates = elim (Option-cases r.caller) [
    | inl e ↦ inl (e, rw e refl)
    | inr (c, e) ↦ inr (c, e, with_caller c (role_at_least c.role min) e refl)
  ]
