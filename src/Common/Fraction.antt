-- ===== src/Common/Fraction.antt =====
-- Fractions of natural numbers, compared by products.
use Prim.Native.Nat.{ℕ, ◌*◌}
use mathlib.Core.Bool.{Bool}
use ai_coaching_agent.Common.Tests.{leb, ltb}

pub record Fraction : Type 0 where
  pub num : ℕ
  pub den : ℕ

abbrev pub frac : ℕ → ℕ → Fraction
frac n d = record { num = n; den = d }

-- `a >= b` and `a > b`
abbrev pub ge_frac : Fraction → Fraction → Bool
ge_frac a b = leb (b.num * a.den) (a.num * b.den)

abbrev pub gt_frac : Fraction → Fraction → Bool
gt_frac a b = ltb (b.num * a.den) (a.num * b.den)
