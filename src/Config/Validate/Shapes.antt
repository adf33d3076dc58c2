-- ===== src/Config/Validate/Shapes.antt =====
-- What the two regular expressions, the blank test and the closed sets of validate.go accept, said
-- without the code's tests.

use sclawion.Prelude.{
  ℕ, ◌≤◌, ◌≡◌, ◌≢◌, ◌↔◌, ◌⊎◌, inl, inr, refl, sym, String, Bool, true, ◌&&◌, List, [], ◌∷◌, ◌++◌,
  ◌==◌, eq_iff, leb, nat_eq, length, all, All, In, here, there, Bool-cases, arith,
}
use sclawion.Text.{codes, is_blank, is_space}
use sclawion.Config.Validate.{
  is_id_char, id_codes, id_pattern, is_plain, dotted, domain, local_rest, email_codes,
  email_pattern, contains,
}

abbrev pub IsLower : ℕ → Type 0
IsLower c = (b'a' ≤ c) × (c ≤ b'z')

abbrev pub IsIdChar : ℕ → Type 0
IsIdChar c = IsLower c ⊎ (((b'0' ≤ c) × (c ≤ b'9')) ⊎ (c ≡ b'-'))

-- A lower-case letter, then 1 to 62 letters, digits or hyphens.
abbrev pub IsIdentifier : List ℕ → Type 0
IsIdentifier [] = ⊥
IsIdentifier (c ∷ r) = IsLower c × (1 ≤ length r) × (length r ≤ 62) × All IsIdChar r

is_id_char_iff : (c : ℕ) → (is_id_char c ≡ true) ↔ IsIdChar c
unfolding is_id_char
is_id_char_iff c = (λ h. ground arith, λ h. ground arith)

all_iff {ℓ} :
    {A : Type ℓ} (p : A → Bool) (P : A → Type ℓ) (xs : List A)
    → ((x : A) → (p x ≡ true) ↔ P x)
    → (all p xs ≡ true) ↔ All P xs
all_iff p P [] h = (λ e. tt, λ e. refl)
all_iff p P (x ∷ xs) h =
    let (to, from) = all_iff p P xs h in
    (λ e. ((h x).0 (ground arith), to (ground arith)), λ (a, b). ground (arith, (h x).1 a, from b))

id_codes_iff : (s : List ℕ) → (id_codes s ≡ true) ↔ IsIdentifier s
unfolding id_codes
id_codes_iff [] = (λ e. cc, λ w. absurd w)
id_codes_iff (c ∷ r) =
    let (to, from) = all_iff is_id_char IsIdChar r is_id_char_iff in
    (
      λ e. (ground arith, ground arith, ground arith, to (ground arith)),
      λ (lower, least, most, rest). ground (arith, from rest),
    )

-- `idPattern` accepts exactly the identifiers.
pub id_pattern_iff : (s : String) → (id_pattern s ≡ true) ↔ IsIdentifier (codes s)
unfolding id_pattern
id_pattern_iff s = id_codes_iff (codes s)

-- No "@" and none of tab, line feed, form feed, carriage return and space.
abbrev pub IsPlain : ℕ → Type 0
IsPlain c = (c ≢ b'@') × (c ≢ 9) × (c ≢ 10) × (c ≢ 12) × (c ≢ 13) × (c ≢ 0x20)

is_plain_iff : (c : ℕ) → (is_plain c ≡ true) ↔ IsPlain c
unfolding is_plain
is_plain_iff c = (λ h. ground arith, λ h. ground arith)

-- Plain texts, none of them empty, as in local@name.top
abbrev pub IsEmail : List ℕ → Type 0
IsEmail s =
    (x : List ℕ) × (y : List ℕ) × (z : List ℕ) × (s ≡ x ++ b'@' ∷ (y ++ b'.' ∷ z))
    × (1 ≤ length x)
    × (1 ≤ length y)
    × (1 ≤ length z)
    × All IsPlain x
    × All IsPlain y
    × All IsPlain z

-- A dot with plain text on both sides, the right one not empty.
abbrev HasDot : List ℕ → Type 0
HasDot s =
    (y : List ℕ) × (z : List ℕ) × (s ≡ y ++ b'.' ∷ z)
    × (1 ≤ length z)
    × All IsPlain y
    × All IsPlain z

HasDot-cons : (c : ℕ) (s : List ℕ) → IsPlain c → HasDot s → HasDot (c ∷ s)
HasDot-cons c s p (y, z, split, some_z, ys, zs) = (c ∷ y, z, cc, some_z, (p, ys), zs)

dotted_sound : (s : List ℕ) → dotted s ≡ true → HasDot s
unfolding dotted
dotted_sound [] h = cc
dotted_sound (c ∷ r) h = elim (Bool-cases (nat_eq c b'.' && leb 1 (length r) && all is_plain r)) [
  | inl e ↦
      let dot : c ≡ b'.' = ground arith in
      ([], r, cc, ground arith, tt, (all_iff is_plain IsPlain r is_plain_iff).0 (ground arith))
  | inr e ↦ HasDot-cons c r ((is_plain_iff c).0 (ground arith)) (dotted_sound r (ground arith))
]

dotted_complete :
    (y z : List ℕ) → 1 ≤ length z → All IsPlain y → All IsPlain z → dotted (y ++ b'.' ∷ z) ≡ true
unfolding dotted
dotted_complete [] z h p q = ground (arith, (all_iff is_plain IsPlain z is_plain_iff).1 q)
dotted_complete (c ∷ y) z h (p, ps) q =
    ground (arith, dotted_complete y z h ps q, (is_plain_iff c).1 p)

-- An "@" before a domain.
abbrev HasAt : List ℕ → Type 0
HasAt s =
    (x : List ℕ) × (y : List ℕ) × (z : List ℕ) × (s ≡ x ++ b'@' ∷ (y ++ b'.' ∷ z))
    × (1 ≤ length y)
    × (1 ≤ length z)
    × All IsPlain x
    × All IsPlain y
    × All IsPlain z

HasAt-cons : (c : ℕ) (s : List ℕ) → IsPlain c → HasAt s → HasAt (c ∷ s)
HasAt-cons c s p (x, y, z, split, some_y, some_z, xs, ys, zs) =
    (c ∷ x, y, z, cc, some_y, some_z, (p, xs), ys, zs)

domain-HasAt : (s : List ℕ) → domain s ≡ true → HasAt (b'@' ∷ s)
unfolding domain
domain-HasAt [] h = cc
domain-HasAt (c ∷ r) h =
    let (y, z, split, some_z, ys, zs) = dotted_sound r (ground arith) in
    ([], c ∷ y, z, cc, omega arith, some_z, tt, ((is_plain_iff c).0 (ground arith), ys), zs)

local_rest_sound : (s : List ℕ) → local_rest s ≡ true → HasAt s
unfolding local_rest
local_rest_sound [] h = cc
local_rest_sound (c ∷ r) h = elim (Bool-cases (nat_eq c b'@' && domain r)) [
  | inl e ↦ let at : c ≡ b'@' = ground arith in rw at (domain-HasAt r (ground arith))
  | inr e ↦ HasAt-cons c r ((is_plain_iff c).0 (ground arith)) (local_rest_sound r (ground arith))
]

domain_complete :
    (y z : List ℕ)
    → 1 ≤ length y
    → 1 ≤ length z
    → All IsPlain y
    → All IsPlain z
    → domain (y ++ b'.' ∷ z) ≡ true
unfolding domain
domain_complete [] z h k p q = absurd (omega arith)
domain_complete (c ∷ y) z h k (p, ps) q =
    ground (arith, dotted_complete y z k ps q, (is_plain_iff c).1 p)

local_rest_complete :
    (x s : List ℕ) → All IsPlain x → domain s ≡ true → local_rest (x ++ b'@' ∷ s) ≡ true
unfolding local_rest
local_rest_complete [] s p h = ground arith
local_rest_complete (c ∷ x) s (p, ps) h =
    ground (arith, local_rest_complete x s ps h, (is_plain_iff c).1 p)

email_complete : (s : List ℕ) → IsEmail s → email_codes s ≡ true
unfolding email_codes
email_complete s ([], y, z, split, some_x, some_y, some_z, xs, ys, zs) = absurd (omega arith)
email_complete s (c ∷ x, y, z, split, some_x, some_y, some_z, (p, xs), ys, zs) = rw split (
    ground (
      arith,
      local_rest_complete x (y ++ b'.' ∷ z) xs (domain_complete y z some_y some_z ys zs),
      (is_plain_iff c).1 p,
    ))

IsEmail-sound : (s : List ℕ) → email_codes s ≡ true → IsEmail s
unfolding email_codes
IsEmail-sound [] h = cc
IsEmail-sound (c ∷ r) h =
    let (x, y, z, split, some_y, some_z, xs, ys, zs) = local_rest_sound r (ground arith) in
    (c ∷ x, y, z, cc, omega arith, some_y, some_z, ((is_plain_iff c).0 (ground arith), xs), ys, zs)

-- `emailPattern` accepts exactly the addresses.
pub email_pattern_iff : (s : String) → (email_pattern s ≡ true) ↔ IsEmail (codes s)
unfolding email_pattern
email_pattern_iff s = (IsEmail-sound (codes s), email_complete (codes s))

-- A blank text has white space only.
pub is_blank_iff : (s : String) → (is_blank s ≡ true) ↔ All (λ c. is_space c ≡ true) (codes s)
unfolding is_blank
is_blank_iff String.[] = (λ h. tt, λ h. refl)
is_blank_iff (String.◌∷◌ c s) =
    let (to, from) = is_blank_iff s in
    (λ h. (ground arith, to (ground arith)), λ (p, q). rw p (from q))

contains_sound : (xs : List String) (s : String) → contains xs s ≡ true → In s xs
unfolding contains
contains_sound [] s h = cc
contains_sound (x ∷ xs) s h = elim (Bool-cases (x == s)) [
  | inl same ↦ here (sym ((eq_iff x s).0 same))
  | inr other ↦ there (contains_sound xs s (ground arith))
]

contains_complete : (xs : List String) (s : String) → In s xs → contains xs s ≡ true
unfolding contains
contains_complete (x ∷ xs) s (here e) = ground (arith, eq_iff x s)
contains_complete (x ∷ xs) s (there i) = ground (arith, contains_complete xs s i)
contains_complete [] s i = elim i [ ]

-- The set holds the text.
pub contains_iff : (xs : List String) (s : String) → (contains xs s ≡ true) ↔ In s xs
contains_iff xs s = (contains_sound xs s, contains_complete xs s)
