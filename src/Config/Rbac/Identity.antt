-- ===== src/Config/Rbac/Identity.antt =====
-- Whom the middleware takes a request to come from, and the order of the roles.
use sclawion.Prelude.{
  ◌≡◌, ◌≢◌, ◌↔◌, ◌⊎◌, refl, inl, inr, String, true, some, eq_iff, eq-false_of_ne, text-cases,
  Option-cases, arith,
}
use sclawion.Config.Errors.{Result, ok, err}
use sclawion.Config.Types.{Role, role_owner, role_operator, role_viewer}
use sclawion.Config.Rbac.{
  IapAuthConfig, IapClaims, IapVerifier, email_of, resolve_email, rank, role_at_least,
}
use sclawion.Admin.Http.{Request}

email_of-ok :
    (x : Result IapClaims) (email : String)
    → email_of x ≡ ok email
    → (claims : IapClaims) × (x ≡ ok claims) × (claims.email ≡ email)
email_of-ok (ok claims) email e = (claims, refl, cc)
email_of-ok (err x) email e = absurd cc

module _ {S : Type 0} (cfg : IapAuthConfig S) (r : Request) (email : String) where
  -- Outside the environment "dev", an e-mail is resolved only from a token that the request carries
  -- and that the configured verifier accepts for the configured audience, and it is the e-mail of the
  -- claims that the verifier returned; the bypass e-mail plays no part.
  pub resolve_email-verified :
      cfg.env ≢ "dev"
      → resolve_email r cfg ≡ ok email
      → (r.jwt ≢ "")
        × ((verify : IapVerifier) × (cfg.verifier ≡ some verify)
            × ((claims : IapClaims) × (verify r.jwt cfg.audience ≡ ok claims)
                × (claims.email ≡ email)))
  unfolding resolve_email
  resolve_email-verified production found = elim (text-cases r.jwt "") [
    | inl bare ↦ absurd (ground (arith, eq-false_of_ne cfg.env "dev" production, eq_iff r.jwt ""))
    | inr carried ↦ elim (Option-cases cfg.verifier) [
      | inl missing ↦ absurd (ground (arith, eq-false_of_ne cfg.env "dev" production))
      | inr (verify, set) ↦ (
        λ bare. ground (arith, eq_iff r.jwt ""),
        (
          verify,
          set,
          email_of-ok (verify r.jwt cfg.audience) email
              (ground (arith, set, eq-false_of_ne cfg.env "dev" production)),
        ),
      )
    ]
  ]

abbrev pub Outranks : Role → Role → Type 0
Outranks have want =
    (want ≡ role_viewer) × ((have ≡ role_viewer) ⊎ (have ≡ role_operator) ⊎ (have ≡ role_owner))
    ⊎ (want ≡ role_operator) × ((have ≡ role_operator) ⊎ (have ≡ role_owner))
    ⊎ (want ≡ role_owner) × (have ≡ role_owner)

Outranks-passes :
    (have want : Role)
    → Outranks have want ⊎ ((want ≢ role_viewer) × (want ≢ role_operator) × (want ≢ role_owner))
    → role_at_least have want ≡ true
unfolding role_at_least rank
Outranks-passes have want (inl (inl (w, inl x))) = rw (w, x) refl
Outranks-passes have want (inl (inl (w, inr (inl x)))) = rw (w, x) refl
Outranks-passes have want (inl (inl (w, inr (inr x)))) = rw (w, x) refl
Outranks-passes have want (inl (inr (inl (w, inl x)))) = rw (w, x) refl
Outranks-passes have want (inl (inr (inl (w, inr x)))) = rw (w, x) refl
Outranks-passes have want (inl (inr (inr (w, x)))) = rw (w, x) refl
Outranks-passes have want (inr (v, o, w)) = ground (
  arith,
  eq-false_of_ne want role_viewer v,
  eq-false_of_ne want role_operator o,
  eq-false_of_ne want role_owner w,
)

-- A role passes the gate of a required one exactly where the order Owner, Operator, Viewer says so, an
-- unknown role passing none of the three; a required role that is none of the three lets every role
-- pass.
pub role_at_least_iff :
    (have want : Role)
    → (role_at_least have want ≡ true)
      ↔ (Outranks have want ⊎ ((want ≢ role_viewer) × (want ≢ role_operator) × (want ≢ role_owner)))
unfolding role_at_least rank
role_at_least_iff have want = (
  λ h. ground (
    arith,
    eq_iff have role_viewer,
    eq_iff have role_operator,
    eq_iff have role_owner,
    eq_iff want role_viewer,
    eq_iff want role_operator,
    eq_iff want role_owner,
  ),
  Outranks-passes have want,
)
