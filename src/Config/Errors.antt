-- ===== src/Config/Errors.antt =====
-- The errors of pkg/config (store.go, validate.go, secretwriter.go) and of pkg/auth (hmac.go) as
-- values, and the results of fallible functions.
use sclawion.Prelude.{String, Bool, true, false, ◌≡◌, ◌↔◌, refl, ◌⊎◌, inl, inr}
use sclawion.Prelude.Int.{ℤ}

-- What an `ErrInvalid` reports, with the values that its message quotes.
pub data Reason : Type 0 where
  tenant_id_must_match tenant_id_invalid agent_id_invalid swarm_id_invalid : String → Reason
  platform_unknown webhook_path_must_be topology_unknown role_unknown : String → Reason
  email_invalid admin_role_unknown : String → Reason
  rate_limit_out_of_range : ℤ → Reason
  display_name_required name_required model_required : Reason
  memory_scope_unknown budget_negative roster_empty counts_negative : Reason

-- `wrapped` is `fmt.Errorf` with `%w`; `plain` is an error that wraps none of the others; `malformed`
-- is what strconv and encoding/hex report.
pub data Error : Type 0 where
  not_found secret_missing signature_mismatch timestamp_skew malformed : Error
  invalid : Reason → Error
  plain : String → Error
  wrapped : String → Error → Error

pub data Result {ℓ} (Value : Type ℓ) : Type ℓ where
  err : Error → Result Value
  ok : Value → Result Value

pub Result-cases {ℓ} :
    {A : Type ℓ} (x : Result A) → ((e : Error) × (x ≡ err e)) ⊎ ((a : A) × (x ≡ ok a))
Result-cases (err e) = inl (e, refl)
Result-cases (ok a) = inr (a, refl)

-- `if err != nil { return err }` between two steps.
infixl 5 ◌>>=◌ ◌>>◌
abbrev pub ◌>>=◌ {ℓ κ} :
    {First : Type ℓ} {Then : Type κ} → Result First → (First → Result Then) → Result Then
err problem >>= step = err problem
ok value >>= step = step value

abbrev pub ◌>>◌ {ℓ} : {Then : Type ℓ} → Result (Unit {0}) → Result Then → Result Then
before >> rest = before >>= λ _. rest

-- `if !test { return ErrInvalid }`
abbrev pub require : Bool → Reason → Result (Unit {0})
require true r = ok tt
require false r = err (invalid r)

-- `if err != nil { return fmt.Errorf(text, err) }`
abbrev pub wrap {ℓ} : {A : Type ℓ} → String → Result A → Result A
wrap text (ok a) = ok a
wrap text (err e) = err (wrapped text e)

-- Two steps succeed if both do.
pub then-ok : (a b : Result (Unit {0})) → ((a >> b) ≡ ok tt) ↔ ((a ≡ ok tt) × (b ≡ ok tt))
then-ok (ok u) b = (λ h. (refl, h), λ (p, q). q)
then-ok (err e) b = (λ h. absurd cc, λ (p, q). absurd cc)
