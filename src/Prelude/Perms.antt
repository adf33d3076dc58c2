-- ===== src/Prelude/Perms.antt =====
-- Permutations of lists with a part in front or behind that stays.
use mathlib.Core.List.Permᴰ
use mathlib.Core.List.{List, ◌++◌, Permᴰ, append_assoc}
use mathlib.Core.Path.{◌≡◌, sym, subst}

module _ {A : Type 0} where
  pub same_perm : {xs ys : List A} → xs ≡ ys → Permᴰ xs ys
  same_perm {xs = xs} e = subst (λ ys. Permᴰ xs ys) e (Permᴰ.refl xs)

  -- Two lists in front of a third, the other way round.
  flip : (xs ys zs : List A) → Permᴰ (xs ++ (ys ++ zs)) (ys ++ (xs ++ zs))
  flip xs ys zs = Permᴰ.trans (same_perm (sym (append_assoc xs ys zs))) (
      Permᴰ.trans (Permᴰ.append_right zs (Permᴰ.append_comm xs ys))
        (same_perm (append_assoc ys xs zs)))

  pub frame_right :
      (xs ys s t zs : List A)
      → Permᴰ (xs ++ s) (ys ++ t)
      → Permᴰ (xs ++ (s ++ zs)) (ys ++ (t ++ zs))
  frame_right xs ys s t zs p =
      Permᴰ.trans (same_perm (sym (append_assoc xs s zs)))
        (Permᴰ.trans (Permᴰ.append_right zs p) (same_perm (append_assoc ys t zs)))

  pub frame_left :
      (xs ys s t zs : List A)
      → Permᴰ (xs ++ s) (ys ++ t)
      → Permᴰ (xs ++ (zs ++ s)) (ys ++ (zs ++ t))
  frame_left xs ys s t zs p =
      Permᴰ.trans (flip xs zs s) (Permᴰ.trans (Permᴰ.append_left zs p) (flip zs ys t))

  pub one_then_other :
      (xs xs' ys ys' s t u : List A)
      → Permᴰ (xs ++ s) (ys ++ t)
      → Permᴰ (xs' ++ t) (ys' ++ u)
      → Permᴰ ((xs ++ xs') ++ s) ((ys ++ ys') ++ u)
  one_then_other xs xs' ys ys' s t u p q = Permᴰ.trans (same_perm (append_assoc xs xs' s)) (
      Permᴰ.trans (frame_left xs ys s t xs' p)
        (Permᴰ.trans (Permᴰ.append_left ys q) (same_perm (sym (append_assoc ys ys' u)))))
