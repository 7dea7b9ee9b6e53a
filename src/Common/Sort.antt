-- ===== src/Common/Sort.antt =====
-- Python's `sorted` and `max` with a key, and `dict.fromkeys`: a stable sort, the first of the
-- greatest, and the first of equals.
use Prim.Native.Nat.{ℕ, suc, ◌≤◌, ◌<◌}
use mathlib.Core.Path.{◌≡◌, refl, ap, sym, ◌∙◌}
use mathlib.Core.Logic.{◌⊎◌, ◌≢◌, inl, inr}
use mathlib.Core.Bool.{not}
use mathlib.Core.Option.{Option, none, some}
use mathlib.Core.List.{List, [], ◌∷◌}
use native.Mathlib.Omega.{arith}
use ai_coaching_agent.Common.Tests.{if◌then◌else◌, ◌==◌, leb, ltb, Bool-cases, ==_iff}
use ai_coaching_agent.Common.Members.{Holds, keep-All, keep-Holds}
use ai_coaching_agent.Common.Lists.{All, keep, length}

module _ {ℓ} {A : Type ℓ} (key : A → ℕ) where
  -- An element goes before the first that is not smaller.
  unfoldable pub insert_by : A → List A → List A
  insert_by x [] = x ∷ []
  insert_by x (y ∷ ys) =
      let rest = insert_by x ys in if leb (key x) (key y) then x ∷ y ∷ ys else y ∷ rest

  -- `sorted(xs, key=key)`
  unfoldable pub sort_by : List A → List A
  unfolding insert_by
  sort_by [] = []
  sort_by (x ∷ xs) = insert_by x (sort_by xs)

  unfoldable pub best_from : A → List A → A
  best_from x [] = x
  best_from x (y ∷ ys) = best_from (if ltb (key x) (key y) then y else x) ys

  -- `max(xs, key=key) if xs else None`
  unfoldable pub max_by : List A → Option A
  unfolding best_from
  max_by [] = none
  max_by (x ∷ xs) = some (best_from x xs)

-- `list(dict.fromkeys(xs))`
unfoldable pub fromkeys : List ℕ → List ℕ
fromkeys [] = []
fromkeys (x ∷ xs) = x ∷ keep (λ y. not (x == y)) (fromkeys xs)

module _ {ℓ κ} {A : Type ℓ} (key : A → ℕ) (P : A → Type κ) where
  insert_by-All : (x : A) (xs : List A) → P x → All P xs → All P (insert_by key x xs)
  unfolding insert_by
  insert_by-All x [] p h = (p, tt)
  insert_by-All x (y ∷ ys) p h = elim (Bool-cases (leb (key x) (key y))) [
    | inl le ↦ rw le (p, h)
    | inr gt ↦ rw gt (h.0, insert_by-All x ys p h.1)
  ]

  -- Sorting keeps what holds of every element.
  pub sort_by-All : (xs : List A) → All P xs → All P (sort_by key xs)
  unfolding sort_by
  sort_by-All [] h = tt
  sort_by-All (x ∷ xs) h = insert_by-All x (sort_by key xs) h.0 (sort_by-All xs h.1)

module _ {A : Type 0} (key : A → ℕ) (m : A) where
  insert_by-Holds_other : (x : A) (xs : List A) → Holds m xs → Holds m (insert_by key x xs)
  unfolding insert_by
  insert_by-Holds_other x [] h = absurd h
  insert_by-Holds_other x (y ∷ ys) h = elim (Bool-cases (leb (key x) (key y))) [
    | inl le ↦ rw le (inr h)
    | inr gt ↦ rw gt (elim h [ inl e ↦ inl e | inr r ↦ inr (insert_by-Holds_other x ys r) ])
  ]

  insert_by-Holds : (x : A) (xs : List A) → x ≡ m → Holds m (insert_by key x xs)
  unfolding insert_by
  insert_by-Holds x [] e = inl e
  insert_by-Holds x (y ∷ ys) e = elim (Bool-cases (leb (key x) (key y))) [
    | inl le ↦ rw le (inl e)
    | inr gt ↦ rw gt (inr (insert_by-Holds x ys e))
  ]

  -- Sorting loses nothing.
  pub sort_by-Holds : (xs : List A) → Holds m xs → Holds m (sort_by key xs)
  unfolding sort_by
  sort_by-Holds [] h = h
  sort_by-Holds (x ∷ xs) (inl e) = insert_by-Holds x (sort_by key xs) e
  sort_by-Holds (x ∷ xs) (inr r) = insert_by-Holds_other x (sort_by key xs) (sort_by-Holds xs r)

  -- Is the element, or comes strictly before it.
  abbrev pub IsBelow : A → Type 0
  IsBelow x = (x ≡ m) ⊎ (key x < key m)

  not_above : (y : A) → IsBelow y → key m < key y → ⊥
  not_above y (inl e) h = absurd (omega (arith, ap key e))
  not_above y (inr lt) h = absurd (omega arith)

  is_greatest : (x : A) → IsBelow x → key m ≤ key x → x ≡ m
  is_greatest x (inl e) h = e
  is_greatest x (inr lt) h = absurd (omega arith)

  best_from-greatest :
      (x : A) (xs : List A)
      → IsBelow x
      → All IsBelow xs
      → (x ≡ m) ⊎ Holds m xs
      → best_from key x xs ≡ m
  unfolding best_from
  best_from-greatest x [] b all (inl e) = e
  best_from-greatest x [] b all (inr h) = absurd h
  best_from-greatest x (y ∷ ys) b all h = elim (Bool-cases (ltb (key x) (key y))) [
    | inl lt ↦ rw lt (
        best_from-greatest y ys all.0 all.1
          (elim h [ inl e ↦ absurd (not_above y all.0 (ground (arith, ap key e))) | inr r ↦ r ]))
    | inr ge ↦ rw ge (
        best_from-greatest x ys b all.1 (elim h [
          | inl e ↦ inl e
          | inr r ↦ elim r [
            | inl e ↦ inl (is_greatest x b (ground (arith, ap key e)))
            | inr t ↦ inr t
          ]
        ]))
  ]

  -- An element that is greater than every other is what `max` finds.
  pub max_by-greatest : (xs : List A) → All IsBelow xs → Holds m xs → max_by key xs ≡ some m
  unfolding max_by
  max_by-greatest [] all h = absurd h
  max_by-greatest (x ∷ xs) all h = ap some (best_from-greatest x xs all.0 all.1 h)

pub fromkeys-All : (P : ℕ → Type 0) (xs : List ℕ) → All P xs → All P (fromkeys xs)
unfolding fromkeys
fromkeys-All P [] h = tt
fromkeys-All P (x ∷ xs) h =
    (h.0, keep-All (λ y. not (x == y)) P (fromkeys xs) (fromkeys-All P xs h.1))

-- Removing the repetitions loses no element.
pub fromkeys-Holds : (m : ℕ) (xs : List ℕ) → Holds m xs → Holds m (fromkeys xs)
unfolding fromkeys
fromkeys-Holds m [] h = h
fromkeys-Holds m (x ∷ xs) (inl e) = inl e
fromkeys-Holds m (x ∷ xs) (inr r) = elim (Bool-cases (x == m)) [
  | inl same ↦ inl ((==_iff x m).0 same)
  | inr other ↦
      inr (keep-Holds (λ y. not (x == y)) m (fromkeys xs) (ap not other) (fromkeys-Holds m xs r))
]

module _ {ℓ} {A : Type ℓ} (key : A → ℕ) where
  insert_by-length : (x : A) (xs : List A) → length (insert_by key x xs) ≡ suc (length xs)
  unfolding insert_by
  insert_by-length x [] = refl
  insert_by-length x (y ∷ ys) = elim (Bool-cases (leb (key x) (key y))) [
    | inl le ↦ rw le refl
    | inr gt ↦ rw gt (ap suc (insert_by-length x ys))
  ]

  pub sort_by-length : (xs : List A) → length (sort_by key xs) ≡ length xs
  unfolding sort_by
  sort_by-length [] = refl
  sort_by-length (x ∷ xs) = insert_by-length x (sort_by key xs) ∙ ap suc (sort_by-length xs)

-- No two elements have the same identifier.
abbrev pub IsDistinct {ℓ} : {A : Type ℓ} → (A → ℕ) → List A → Type 0
IsDistinct id [] = Unit
IsDistinct id (x ∷ xs) = All (λ y. id y ≢ id x) xs × IsDistinct id xs

module _ {A : Type 0} (key id : A → ℕ) where
  insert_by-IsDistinct :
      (x : A) (xs : List A)
      → All (λ y. id y ≢ id x) xs
      → IsDistinct id xs
      → IsDistinct id (insert_by key x xs)
  unfolding insert_by
  insert_by-IsDistinct x [] new d = (tt, tt)
  insert_by-IsDistinct x (y ∷ ys) new d = elim (Bool-cases (leb (key x) (key y))) [
    | inl le ↦ rw le (new, d)
    | inr gt ↦ rw gt (
      insert_by-All key (λ z. id z ≢ id y) x ys (λ e. new.0 (sym e)) d.0,
      insert_by-IsDistinct x ys new.1 d.1,
    )
  ]

  -- Sorting keeps the identifiers apart.
  pub sort_by-IsDistinct : (xs : List A) → IsDistinct id xs → IsDistinct id (sort_by key xs)
  unfolding sort_by
  sort_by-IsDistinct [] d = tt
  sort_by-IsDistinct (x ∷ xs) d =
      insert_by-IsDistinct x (sort_by key xs) (sort_by-All key (λ y. id y ≢ id x) xs d.0)
        (sort_by-IsDistinct xs d.1)
