-- ===== src/Prelude/Members.antt =====
-- Members of lists, predicates of all members, and permutations.
use mathlib.Core.Path.{refl, sym, subst, ◌∙◌}
use mathlib.Core.List.{List, [], ◌∷◌, Permᴰ}
use sclawion.Prelude.Lists.{All, In, here, there}

pub In-Permᴰ : {V : Type 0} {v : V} {xs ys : List V} → Permᴰ xs ys → In v xs → In v ys
In-Permᴰ (Permᴰ.cons e p) (here h) = here (h ∙ e)
In-Permᴰ (Permᴰ.cons e p) (there h) = there (In-Permᴰ p h)
In-Permᴰ (Permᴰ.swap e f) (here h) = there (here (h ∙ e))
In-Permᴰ (Permᴰ.swap e f) (there (here h)) = here (h ∙ f)
In-Permᴰ (Permᴰ.swap e f) (there (there h)) = there (there h)
In-Permᴰ (Permᴰ.trans p q) h = In-Permᴰ q (In-Permᴰ p h)
In-Permᴰ Permᴰ.nil h = h

pub All-of_In {ℓ κ} :
    {A : Type ℓ} {P : A → Type κ} (xs : List A) → ((x : A) → In x xs → P x) → All P xs
All-of_In [] h = tt
All-of_In (x ∷ xs) h = (h x (here refl), All-of_In xs (λ y i. h y (there i)))

pub All-In {ℓ κ} : {A : Type ℓ} (P : A → Type κ) {x : A} (xs : List A) → All P xs → In x xs → P x
All-In P (x ∷ xs) (p, h) (here e) = subst P (sym e) p
All-In P (x ∷ xs) (p, h) (there i) = All-In P xs h i
All-In P [] h i = elim i [ ]

pub All-Permᴰ {κ} :
    {V : Type 0} (P : V → Type κ) {xs ys : List V} → Permᴰ xs ys → All P ys → All P xs
All-Permᴰ P Permᴰ.nil h = tt
All-Permᴰ P (Permᴰ.cons e p) (q, h) = (subst P (sym e) q, All-Permᴰ P p h)
All-Permᴰ P (Permᴰ.swap e f) (q, (r, h)) = (subst P (sym e) r, (subst P (sym f) q, h))
All-Permᴰ P (Permᴰ.trans p q) h = All-Permᴰ P p (All-Permᴰ P q h)
