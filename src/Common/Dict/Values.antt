-- ===== src/Common/Dict/Values.antt =====
-- What holds of every value of a dict.
use Prim.Native.Nat.{ℕ}
use mathlib.Core.Path.{◌≡◌, sym, subst}
use mathlib.Core.Logic.{inl, inr}
use mathlib.Core.Option.{some}
use mathlib.Core.List.{[], ◌∷◌}
use native.Mathlib.Omega.{arith}
use ai_coaching_agent.Common.Tests.{◌==◌, ==_iff, Bool-cases}
use ai_coaching_agent.Common.Lists.{All}
use ai_coaching_agent.Common.Members.{Holds}
use ai_coaching_agent.Common.Dict.{Dict, lookup, insert, values}

module _ {V : Type 0} (P : V → Type 0) where
  pub insert-All :
      (k : ℕ) (v : V) (d : Dict V) → P v → All P (values d) → All P (values (insert k v d))
  unfolding insert
  insert-All k v [] p all = (p, tt)
  insert-All k v ((j, x) ∷ d) p all = elim (Bool-cases (j == k)) [
    | inl same ↦ rw same (p, all.1)
    | inr other ↦ rw other (all.0, insert-All k v d p all.1)
  ]

pub lookup-Holds :
    {V : Type 0} (k : ℕ) (v : V) (d : Dict V) → lookup k d ≡ some v → Holds v (values d)
unfolding lookup
lookup-Holds k v [] e = absurd (ground (arith, e))
lookup-Holds k v ((j, x) ∷ d) e = elim (Bool-cases (j == k)) [
  | inl same ↦ inl (ground (arith, e))
  | inr other ↦ inr (lookup-Holds k v d (ground (arith, e)))
]

-- What holds of every key with its value.
abbrev pub Rows : {V : Type 0} → (ℕ → V → Type 0) → Dict V → Type 0
Rows P [] = Unit
Rows P ((k, v) ∷ d) = P k v × Rows P d

module _ {V : Type 0} (P : ℕ → V → Type 0) where
  pub insert-Rows : (k : ℕ) (v : V) (d : Dict V) → P k v → Rows P d → Rows P (insert k v d)
  unfolding insert
  insert-Rows k v [] p all = (p, tt)
  insert-Rows k v ((j, x) ∷ d) p all = elim (Bool-cases (j == k)) [
    | inl same ↦ rw (insert, same) (subst (λ i. P i v) (sym ((==_iff j k).0 same)) p, all.1)
    | inr other ↦ rw (insert, other) (all.0, insert-Rows k v d p all.1)
  ]

  pub lookup-Rows : (k : ℕ) (v : V) (d : Dict V) → Rows P d → lookup k d ≡ some v → P k v
  unfolding lookup
  lookup-Rows k v [] all e = absurd (ground (arith, e))
  lookup-Rows k v ((j, x) ∷ d) all e = elim (Bool-cases (j == k)) [
    | inl same ↦ subst (λ i. P i v) ((==_iff j k).0 same) (subst (P j) (ground (arith, e)) all.0)
    | inr other ↦ lookup-Rows k v d all.1 (ground (arith, e))
  ]
