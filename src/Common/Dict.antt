-- ===== src/Common/Dict.antt =====
-- A Python dict in insertion order; the keys are identifiers, which are only compared.
pub mod Values
use Prim.Native.Nat.{ℕ}
use mathlib.Core.Path.{◌≡◌, refl, sym, ◌∙◌}
use mathlib.Core.Logic.{◌⊎◌, inl, inr}
use mathlib.Core.Option.{Option, none, some}
use mathlib.Core.List.{List, [], ◌∷◌, map}
use native.Mathlib.Omega.{arith}
use ai_coaching_agent.Common.Tests.{if◌then◌else◌, ◌==◌, ==_refl, Bool-cases}

abbrev pub Dict {ℓ} : Type ℓ → Type ℓ
Dict V = List (ℕ × V)

-- `d.values()`
abbrev pub values {ℓ} : {V : Type ℓ} → Dict V → List V
values d = map (λ row. row.1) d

module _ {ℓ} {V : Type ℓ} where
  -- `d.get(k)`
  unfoldable pub lookup : ℕ → Dict V → Option V
  lookup k [] = none
  lookup k ((j, v) ∷ d) = if j == k then some v else lookup k d

  -- `d[k] = v`
  unfoldable pub insert : ℕ → V → Dict V → Dict V
  insert k v [] = (k, v) ∷ []
  insert k v ((j, w) ∷ d) = if j == k then (j, v) ∷ d else (j, w) ∷ insert k v d

  pub lookup-insert :
      (k j : ℕ) (v : V) (d : Dict V)
      → lookup j (insert k v d) ≡ (if k == j then some v else lookup j d)
  unfolding lookup insert
  lookup-insert k j v [] = refl
  lookup-insert k j v ((i, w) ∷ d) = ground (arith, lookup-insert k j v d)

  pub lookup-insert_self : (k : ℕ) (v : V) (d : Dict V) → lookup k (insert k v d) ≡ some v
  lookup-insert_self k v d = simp (lookup-insert, ==_refl)

  -- The key has a value.
  abbrev pub Has : ℕ → Dict V → Type ℓ
  Has k d = (v : V) × (lookup k d ≡ some v)

  pub insert-Has : (k : ℕ) (v : V) (d : Dict V) → Has k (insert k v d)
  insert-Has k v d = (v, lookup-insert_self k v d)

  pub insert-keeps_Has : (k j : ℕ) (v : V) (d : Dict V) → Has j d → Has j (insert k v d)
  insert-keeps_Has k j v d (x, e) = elim (Bool-cases (k == j)) [
    | inl same ↦ (v, lookup-insert k j v d ∙ (rw same refl))
    | inr other ↦ (x, lookup-insert k j v d ∙ (rw other e))
  ]

  -- What a key holds after a write is what was written or was there before.
  pub lookup-insert_cases :
      (k j : ℕ) (v x : V) (d : Dict V)
      → lookup j (insert k v d) ≡ some x
      → (x ≡ v) ⊎ (lookup j d ≡ some x)
  lookup-insert_cases k j v x d e = elim (Bool-cases (k == j)) [
    | inl same ↦ inl (ground (arith, lookup-insert k j v d))
    | inr other ↦ inr (ground (arith, lookup-insert k j v d))
  ]
