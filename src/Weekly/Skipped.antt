-- ===== src/Weekly/Skipped.antt =====
-- The weeks that a summary names as skipped.
use ai_coaching_agent.Common.{
  ℕ, zero, suc, ◌+◌, ◌*◌, ◌≤◌, ◌<◌, ◌≡◌, ◌≢◌, refl, ap, sym, Bool, true, false, Option, none, some,
  List, [], ◌∷◌, All, length, ltb, leb, ◌==◌, ltb→lt, Bool-cases, if◌then◌else◌, inl, inr, arith,
}
use ai_coaching_agent.Streak.Time.{Moment, day}
use ai_coaching_agent.Weekly.Records.{week_key, WeeklySummary}
use ai_coaching_agent.Weekly.Service.{
  World, Env, max_listed_skipped_weeks, gaps_from, rounds, last_of, listed, skipped_after,
  latest_of, rows_down, skipped_weeks, build,
}

-- Rounds enough for the loop: the cursor reaches the target.
abbrev Reaches : ℕ → Moment → Moment → Type 0
Reaches left cursor target_start = target_start ≤ cursor + left * (7 * day)

reached :
    (cursor target_start : Moment)
    → Reaches zero cursor target_start
    → ltb cursor target_start ≡ false
reached cursor target_start p = ground arith

gaps_done :
    (n : ℕ) (cursor target_start : Moment) (week : ℕ)
    → ltb cursor target_start ≡ false
    → gaps_from n cursor target_start week ≡ []
unfolding gaps_from
gaps_done zero cursor target_start week e = refl
gaps_done (suc n) cursor target_start week e = rw (gaps_from, e) refl

gaps_by :
    (n m : ℕ) (cursor target_start : Moment) (week : ℕ)
    → Reaches n cursor target_start
    → Reaches m cursor target_start
    → gaps_from n cursor target_start week ≡ gaps_from m cursor target_start week
unfolding gaps_from
gaps_by zero m cursor target_start week p q =
    sym (gaps_done m cursor target_start week (reached cursor target_start p))
gaps_by (suc n) zero cursor target_start week p q =
    gaps_done (suc n) cursor target_start week (reached cursor target_start q)
gaps_by (suc n) (suc m) cursor target_start week p q = elim (Bool-cases (ltb cursor target_start)) [
  | inl more ↦
      rw (gaps_from, more)
        (ap (λ rest. if week_key cursor == week then rest else week_key cursor ∷ rest)
          (gaps_by n m (cursor + 7 * day) target_start week (omega (arith, p)) (omega (arith, q))))
  | inr done ↦ rw (gaps_from, done) refl
]

-- The loop ends: with any number of rounds that takes the cursor to the target it finds the weeks
-- that it finds with the rounds that the model gives it, and those are enough.
pub gaps_from-rounds :
    (left : ℕ) (cursor target_start : Moment) (week : ℕ)
    → target_start ≤ cursor + left * (7 * day)
    → (gaps_from left cursor target_start week
        ≡ gaps_from (rounds cursor target_start) cursor target_start week)
      × (target_start ≤ cursor + rounds cursor target_start * (7 * day))
gaps_from-rounds left cursor target_start week p = (
  gaps_by left (rounds cursor target_start) cursor target_start week p (omega arith),
  omega arith,
)

last_of-bound : (n : ℕ) (xs : List ℕ) → length (last_of n xs) ≤ n
unfolding last_of
last_of-bound n [] = omega arith
last_of-bound n (x ∷ xs) = elim (Bool-cases (leb (length (x ∷ xs)) n)) [
  | inl fits ↦ rw (last_of, fits) (ground (arith, fits))
  | inr long ↦ rw (last_of, long) (last_of-bound n xs)
]

listed-bound : (gaps : List ℕ) → length (listed gaps).0 ≤ max_listed_skipped_weeks
unfolding listed
listed-bound gaps = elim (Bool-cases (ltb max_listed_skipped_weeks (length gaps))) [
  | inl long ↦ rw (listed, long) (last_of-bound max_listed_skipped_weeks gaps)
  | inr fits ↦ rw (listed, fits) (ground (arith, fits))
]

skipped_after-bound :
    (week : ℕ) (start : Moment) (o : Option WeeklySummary)
    → length (skipped_after week start o).0 ≤ max_listed_skipped_weeks
skipped_after-bound week start none = omega arith
skipped_after-bound week start (some latest) = listed-bound _

skipped_weeks-bound :
    (env : Env) (user_id week : ℕ) (start : Moment) (w : World)
    → length (skipped_weeks env user_id week start w).0 ≤ max_listed_skipped_weeks
unfolding skipped_weeks
skipped_weeks-bound env user_id week start w = elim (Bool-cases env.history_read_fails) [
  | inl lost ↦ rw lost (omega arith)
  | inr read ↦ rw read (skipped_after-bound week start (latest_of (rows_down user_id w)))
]

-- A week that the loop names begins before the target and is not the target week.
abbrev pub IsGap : Moment → ℕ → ℕ → Type 0
IsGap target_start week k =
    (start : Moment) × (k ≡ week_key start) × (start < target_start) × (k ≢ week)

IsGap-by :
    (b : Bool) (cursor target_start : Moment) (week : ℕ) (rest : List ℕ)
    → (week_key cursor == week) ≡ b
    → cursor < target_start
    → All (IsGap target_start week) rest
    → All (IsGap target_start week) (if b then rest else week_key cursor ∷ rest)
IsGap-by true cursor target_start week rest e lt all = all
IsGap-by false cursor target_start week rest e lt all =
    ((cursor, refl, lt, λ same. absurd (ground (arith, e, same))), all)

gaps_from-IsGap :
    (n : ℕ) (cursor target_start : Moment) (week : ℕ)
    → All (IsGap target_start week) (gaps_from n cursor target_start week)
unfolding gaps_from
gaps_from-IsGap zero cursor target_start week = tt
gaps_from-IsGap (suc n) cursor target_start week = elim (Bool-cases (ltb cursor target_start)) [
  | inr done ↦ rw (gaps_from, done) tt
  | inl more ↦
      rw (gaps_from, more)
        (IsGap-by (week_key cursor == week) cursor target_start week _ refl
          (ltb→lt cursor target_start more)
          (gaps_from-IsGap n (cursor + 7 * day) target_start week))
]

last_of-All : (P : ℕ → Type 0) (n : ℕ) (xs : List ℕ) → All P xs → All P (last_of n xs)
unfolding last_of
last_of-All P n [] all = tt
last_of-All P n (x ∷ xs) all = elim (Bool-cases (leb (length (x ∷ xs)) n)) [
  | inl fits ↦ rw (last_of, fits) all
  | inr long ↦ rw (last_of, long) (last_of-All P n xs all.1)
]

listed-All : (P : ℕ → Type 0) (gaps : List ℕ) → All P gaps → All P (listed gaps).0
unfolding listed
listed-All P gaps all = elim (Bool-cases (ltb max_listed_skipped_weeks (length gaps))) [
  | inl long ↦ rw (listed, long) (last_of-All P max_listed_skipped_weeks gaps all)
  | inr fits ↦ rw (listed, fits) all
]

skipped_after-IsGap :
    (week : ℕ) (start : Moment) (o : Option WeeklySummary)
    → All (IsGap start week) (skipped_after week start o).0
skipped_after-IsGap week start none = tt
skipped_after-IsGap week start (some latest) =
    listed-All (IsGap start week) _ (gaps_from-IsGap _ _ start week)

skipped_weeks-IsGap :
    (env : Env) (user_id week : ℕ) (start : Moment) (w : World)
    → All (IsGap start week) (skipped_weeks env user_id week start w).0
unfolding skipped_weeks
skipped_weeks-IsGap env user_id week start w = elim (Bool-cases env.history_read_fails) [
  | inl lost ↦ rw lost tt
  | inr read ↦ rw read (skipped_after-IsGap week start (latest_of (rows_down user_id w)))
]

-- A summary names at most 52 skipped weeks, each of which begins before the week that it is about
-- and has another key.
pub build-skipped_weeks :
    (env : Env) (user_id : ℕ) (w : World)
    → let summary = build env user_id w in
      (length summary.skipped_weeks ≤ max_listed_skipped_weeks)
      × All (IsGap summary.week_start_at summary.week) summary.skipped_weeks
unfolding build
build-skipped_weeks env user_id w =
    (skipped_weeks-bound env user_id _ _ w, skipped_weeks-IsGap env user_id _ _ w)
