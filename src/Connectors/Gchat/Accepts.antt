-- ===== src/Connectors/Gchat/Accepts.antt =====
-- Which requests the Google Chat verifier accepts.
use sclawion.Prelude.{
  ℕ, zero, suc, ◌≡◌, ◌≢◌, ◌↔◌, refl, sym, ap, ◌∙◌, String, List, [], ◌∷◌, ◌++◌, Bool, true, false,
  not, ◌||◌, leb, length, take, drop, arith, if◌then◌else◌,
}
use sclawion.Bytes.{Bytes, bytes_eq}
use sclawion.Bytes.Laws.{bytes_eq_iff}
use sclawion.Config.Errors.{Result, ok, err, plain}
use sclawion.Connectors.{Headers}
use sclawion.Connectors.Gchat.{without_subject, GchatVerifier, bearer, verify}

take-drop : {A : Type 0} (n : ℕ) (s : List A) → take n s ++ drop n s ≡ s
take-drop zero s = refl
take-drop (suc n) [] = refl
take-drop (suc n) (x ∷ s) = ap (λ r. x ∷ r) (take-drop n s)

drop-rest : {A : Type 0} (n : ℕ) (s : List A) → leb (length s) n ≡ false → drop n s ≢ []
drop-rest zero [] h = absurd cc
drop-rest zero (x ∷ s) h = λ e. cc
drop-rest (suc n) [] h = absurd (ground (arith, h))
drop-rest (suc n) (x ∷ s) h = drop-rest n s (ground (arith, h))

subject_of : (x : Result String) → without_subject x ≡ ok tt → (s : String) × (x ≡ ok s)
subject_of (ok s) h = (s, refl)
subject_of (err e) h = absurd cc

known-ok : (x : Result String) (s : String) → x ≡ ok s → without_subject x ≡ ok tt
known-ok (ok s) t h = refl
known-ok (err e) t h = absurd cc

refused :
    (short other : Bool) (x : Result (Unit {0}))
    → (if short || not other then err (plain "gchat: missing Bearer token") else x) ≡ ok tt
    → (short ≡ false) × (other ≡ true) × (x ≡ ok tt)
refused true other x h = absurd cc
refused false true x h = (refl, refl, h)
refused false false x h = absurd cc

module _ (v : GchatVerifier) (header : Headers) (body : Bytes) where
  abbrev pub HasToken : Type 0
  HasToken =
      (token : Bytes) × (token ≢ [])
      × (header "Authorization" ≡ bearer ++ token)
      × ((subject : String) × (v.oidc token v.audience ≡ ok subject))

  accepted : verify v header body ≡ ok tt → HasToken
  unfolding verify
  accepted h =
      let authz = header "Authorization" in
      let (long, same, verified) =
        refused (leb (length authz) 7) (bytes_eq (take 7 authz) bearer)
          (without_subject (v.oidc (drop 7 authz) v.audience)) h in
      (
        drop 7 authz,
        drop-rest 7 authz long,
        sym (take-drop 7 authz)
            ∙ ap (λ p. p ++ drop 7 authz) ((bytes_eq_iff (take 7 authz) bearer).0 same),
        subject_of (v.oidc (drop 7 authz) v.audience) verified,
      )

  with_token : HasToken → verify v header body ≡ ok tt
  unfolding verify bytes_eq
  with_token ([], given, _, _) = absurd (given refl)
  with_token (c ∷ token, given, same, known) =
      let long : leb (length (bearer ++ (c ∷ token))) 7 ≡ false = ground arith in
      rw (same, long) (known-ok (v.oidc (c ∷ token) v.audience) known.0 known.1)

  -- The Google Chat verifier accepts a request exactly if its header Authorization is "Bearer ",
  -- followed by a token that is not empty and that the OIDC verifier accepts for the audience.
  pub gchat_verify_iff : (verify v header body ≡ ok tt) ↔ HasToken
  gchat_verify_iff = (accepted, with_token)
