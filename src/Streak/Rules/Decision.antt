-- ===== src/Streak/Rules/Decision.antt =====
-- When each outcome of `decide` is reached.
use ai_coaching_agent.Common.{ℕ, ◌<◌, ◌≡◌, ◌↔◌, true, false, some, Result, ok, err, arith}
use ai_coaching_agent.Streak.Time.{Moment}
use ai_coaching_agent.Streak.Records.{
  StreakOutcome, unchanged_same_day, incremented, reset, StreakRecord,
}
use ai_coaching_agent.Streak.Rules.{RuleError, StreakDecision, decide, counted_today}

-- `Says r o`: the rule returned a decision, with the outcome `o`.
abbrev pub Says : Result RuleError StreakDecision → StreakOutcome → Type 0
Says (ok d) o = d.outcome ≡ o
Says (err _) o = ⊥

module _ (user_id : ℕ) (streak : StreakRecord) (now : Moment) (prior window_hours : ℕ) where
  -- For a learner with a record and a positive window, the outcome is `unchanged_same_day` exactly
  -- when the last activity falls on the same UTC day, `incremented` exactly when it does not and
  -- the window holds prior activity, and `reset` exactly when neither is so. (So it never raises.)
  pub decide_outcomes :
      0 < window_hours
      → let r = decide user_id (some streak) now prior window_hours in
        let today = counted_today streak.last_activity_at now in
        (Says r unchanged_same_day ↔ (today ≡ true))
        × (Says r incremented ↔ ((today ≡ false) × (0 < prior)))
        × (Says r reset ↔ ((today ≡ false) × (prior ≡ 0)))
  unfolding decide
  decide_outcomes h = ground arith
