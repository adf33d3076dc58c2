-- ===== src/Bytes/Laws.antt =====
-- Tests on byte strings, as equations and prefixes.
use sclawion.Prelude.{◌≡◌, Option-cases, inl, inr, ◌↔◌, refl, some, true, [], ◌∷◌, ◌++◌, arith}
use sclawion.Bytes.{Bytes, bytes_eq, after_prefix, has_prefix, trim_prefix}

pub bytes_eq_iff : (xs ys : Bytes) → (bytes_eq xs ys ≡ true) ↔ (xs ≡ ys)
unfolding bytes_eq
bytes_eq_iff [] [] = (λ h. refl, λ h. refl)
bytes_eq_iff [] (y ∷ ys) = (λ h. absurd cc, λ h. absurd cc)
bytes_eq_iff (x ∷ xs) [] = (λ h. absurd cc, λ h. absurd cc)
bytes_eq_iff (x ∷ xs) (y ∷ ys) =
    let (to, from) = bytes_eq_iff xs ys in (λ h. ground (arith, to), λ h. ground (arith, from))

pub after_prefix_iff : (p s t : Bytes) → (after_prefix p s ≡ some t) ↔ (s ≡ p ++ t)
unfolding after_prefix
after_prefix_iff [] s t = (λ h. cc, λ h. cc)
after_prefix_iff (c ∷ p) [] t = (λ h. absurd cc, λ h. absurd cc)
after_prefix_iff (c ∷ p) (d ∷ s) t =
    let (to, from) = after_prefix_iff p s t in (λ h. ground (arith, to), λ h. ground (arith, from))

pub has_prefix_iff : (s p : Bytes) → (has_prefix s p ≡ true) ↔ ((t : Bytes) × (s ≡ p ++ t))
unfolding has_prefix
has_prefix_iff s p = (
  λ h. elim (Option-cases (after_prefix p s)) [
    | inl e ↦ absurd (ground (arith, e))
    | inr (t, e) ↦ (t, (after_prefix_iff p s t).0 e)
  ],
  λ (t, e). rw ((after_prefix_iff p s t).1 e, has_prefix) refl,
)

pub trim_prefix-append : (p t : Bytes) → trim_prefix (p ++ t) p ≡ t
unfolding trim_prefix
trim_prefix-append p t = rw ((after_prefix_iff p (p ++ t) t).1 refl, trim_prefix) refl
