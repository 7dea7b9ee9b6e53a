-- ===== src/Common/Members.antt =====
-- What a list holds, and what filters, maps and joins keep of it.
use Prim.Native.Nat.{◌≤◌}
use mathlib.Core.Path.{◌≡◌, refl, ap, subst}
use mathlib.Core.Logic.{◌⊎◌, inl, inr}
use mathlib.Core.Bool.{Bool, true}
use mathlib.Core.List.{List, [], ◌∷◌, ◌++◌, map}
use native.Mathlib.Omega.{arith}
use ai_coaching_agent.Common.Tests.{Bool-cases}
use ai_coaching_agent.Common.Lists.{All, keep, length}

-- A list holds an element.
abbrev pub Holds : {A : Type 0} → A → List A → Type 0
Holds x [] = ⊥
Holds x (y ∷ ys) = (y ≡ x) ⊎ Holds x ys

module _ {ℓ κ} {A : Type ℓ} (p : A → Bool) where
  pub keep-All : (P : A → Type κ) (xs : List A) → All P xs → All P (keep p xs)
  keep-All P [] h = tt
  keep-All P (x ∷ xs) h = elim (Bool-cases (p x)) [
    | inl passes ↦ rw passes (h.0, keep-All P xs h.1)
    | inr fails ↦ rw fails (keep-All P xs h.1)
  ]

-- What is kept passes the test.
pub keep-passes {ℓ} : {A : Type ℓ} (p : A → Bool) (xs : List A) → All (λ x. p x ≡ true) (keep p xs)
keep-passes p [] = tt
keep-passes p (x ∷ xs) = elim (Bool-cases (p x)) [
  | inl passes ↦ rw passes (passes, keep-passes p xs)
  | inr fails ↦ rw fails (keep-passes p xs)
]

pub keep-Holds :
    {A : Type 0} (p : A → Bool) (m : A) (xs : List A)
    → p m ≡ true
    → Holds m xs
    → Holds m (keep p xs)
keep-Holds p m [] e h = h
keep-Holds p m (x ∷ xs) e h = elim (Bool-cases (p x)) [
  | inl passes ↦ rw passes (elim h [ inl same ↦ inl same | inr r ↦ inr (keep-Holds p m xs e r) ])
  | inr fails ↦
      rw fails
        (elim h [ inl same ↦ absurd (ground (arith, ap p same)) | inr r ↦ keep-Holds p m xs e r ])
]

pub keep-length : {A : Type 0} (p : A → Bool) (xs : List A) → length (keep p xs) ≤ length xs
keep-length p [] = omega arith
keep-length p (x ∷ xs) = elim (Bool-cases (p x)) [
  | inl passes ↦ rw passes (omega (arith, keep-length p xs))
  | inr fails ↦ rw fails (omega (arith, keep-length p xs))
]

pub map-All :
    {A B : Type 0} (f : A → B) (P : B → Type 0) (xs : List A)
    → All (λ x. P (f x)) xs
    → All P (map f xs)
map-All f P [] h = tt
map-All f P (x ∷ xs) h = (h.0, map-All f P xs h.1)

pub map-Holds :
    {A B : Type 0} (f : A → B) (m : A) (xs : List A) → Holds m xs → Holds (f m) (map f xs)
map-Holds f m [] h = h
map-Holds f m (x ∷ xs) (inl e) = inl (ap f e)
map-Holds f m (x ∷ xs) (inr r) = inr (map-Holds f m xs r)

pub append-Holds_left : {A : Type 0} (m : A) (xs ys : List A) → Holds m xs → Holds m (xs ++ ys)
append-Holds_left m [] ys h = absurd h
append-Holds_left m (x ∷ xs) ys (inl e) = inl e
append-Holds_left m (x ∷ xs) ys (inr r) = inr (append-Holds_left m xs ys r)

pub append-Holds_right : {A : Type 0} (m : A) (xs ys : List A) → Holds m ys → Holds m (xs ++ ys)
append-Holds_right m [] ys h = h
append-Holds_right m (x ∷ xs) ys h = inr (append-Holds_right m xs ys h)

pub All-Holds : {A : Type 0} (P : A → Type 0) (m : A) (xs : List A) → All P xs → Holds m xs → P m
All-Holds P m [] all h = absurd h
All-Holds P m (x ∷ xs) all (inl e) = subst P e all.0
All-Holds P m (x ∷ xs) all (inr r) = All-Holds P m xs all.1 r

pub All-weaken :
    {A : Type 0} (P Q : A → Type 0) → ((x : A) → P x → Q x) → (xs : List A) → All P xs → All Q xs
All-weaken P Q h [] all = tt
All-weaken P Q h (x ∷ xs) all = (h x all.0, All-weaken P Q h xs all.1)

pub All-both :
    {A : Type 0} (P Q : A → Type 0) (xs : List A) → All P xs → All Q xs → All (λ x. P x × Q x) xs
All-both P Q [] p q = tt
All-both P Q (x ∷ xs) p q = ((p.0, q.0), All-both P Q xs p.1 q.1)

-- A list holds each of its elements.
pub Holds-All : {A : Type 0} (xs : List A) → All (λ x. Holds x xs) xs
Holds-All [] = tt
Holds-All (x ∷ xs) = (
  inl refl,
  All-weaken (λ y. Holds y xs) (λ y. Holds y (x ∷ xs)) (λ y h. inr h) xs (Holds-All xs),
)

pub append-All :
    {A : Type 0} (P : A → Type 0) (xs ys : List A) → All P xs → All P ys → All P (xs ++ ys)
append-All P [] ys p q = q
append-All P (x ∷ xs) ys p q = (p.0, append-All P xs ys p.1 q)
