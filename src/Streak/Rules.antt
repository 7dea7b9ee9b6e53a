-- ===== src/Streak/Rules.antt =====
-- packages/uc08/uc08/domain/streak_rules.py: what one interaction does to a streak.
pub mod Decision
pub mod Builders
use ai_coaching_agent.Common.{
  ℕ, ◌+◌, ◌-◌, max, Bool, true, false, not, ◌&&◌, Option, none, some, Result, ok, err, guard, ◌>>=◌,
  ◌>>◌, ltb, leb, ◌==◌, if◌then◌else◌,
}
use ai_coaching_agent.Streak.Time.{Moment, hours, same_utc_day, same_utc_month}
use ai_coaching_agent.Streak.Records.{
  StreakOutcome, started, unchanged_same_day, incremented, reset, StreakRecord, FreezeOffer,
}

-- The `ValueError`s of this module, and a failed `assert` of the service on its decisions.
pub data RuleError : Type 0 where
  evidence_not_empty window_not_positive evidence_of_another_record assertion : RuleError

pub record InactivityEvidence : Type 0 where
  pub user_id : ℕ
  pub evaluated_at : Moment
  pub window_start : Moment
  pub window_hours : ℕ
  pub prior_interactions_in_window : ℕ
  pub last_counted_activity_at : Option Moment

-- `InactivityEvidence.__post_init__`: the evidence, if it can be constructed.
unfoldable pub validated : InactivityEvidence → Result RuleError InactivityEvidence
validated e = do
  guard (e.prior_interactions_in_window == 0) evidence_not_empty
  guard (ltb 0 e.window_hours) window_not_positive
  ok e

pub record StreakDecision : Type 0 where
  pub outcome : StreakOutcome
  pub inactivity_evidence : Option InactivityEvidence
  pub window_start : Moment
  pub prior_interactions_in_window : ℕ

abbrev pub window_start_for : Moment → ℕ → Moment
window_start_for now window_hours = now - hours window_hours

-- `x is not None and same_utc_day(x, moment)`
abbrev pub counted_today : Option Moment → Moment → Bool
counted_today none moment = false
counted_today (some last) moment = same_utc_day last moment

-- The decisions that `decide` returns; only a reset carries evidence.
abbrev decision : StreakOutcome → Moment → ℕ → StreakDecision
decision outcome start prior = record {
  outcome = outcome;
  inactivity_evidence = none;
  window_start = start;
  prior_interactions_in_window = prior;
}

decide_reset : ℕ → StreakRecord → Moment → ℕ → ℕ → Result RuleError StreakDecision
unfolding validated
decide_reset user_id streak now prior window_hours = do
  let evidence : InactivityEvidence = record {
    user_id = user_id;
    evaluated_at = now;
    window_start = window_start_for now window_hours;
    window_hours = window_hours;
    prior_interactions_in_window = prior;
    last_counted_activity_at = streak.last_activity_at;
  }
  checked ← validated evidence
  ok (record {
    outcome = reset;
    inactivity_evidence = some checked;
    window_start = window_start_for now window_hours;
    prior_interactions_in_window = prior;
  })

unfoldable pub decide : ℕ → Option StreakRecord → Moment → ℕ → ℕ → Result RuleError StreakDecision
unfolding decide_reset
decide user_id none now prior window_hours =
    ok (decision started (window_start_for now window_hours) prior)
decide user_id (some streak) now prior window_hours =
    if counted_today streak.last_activity_at now
    then ok (decision unchanged_same_day (window_start_for now window_hours) prior)
    else if ltb 0 prior
    then ok (decision incremented (window_start_for now window_hours) prior)
    else decide_reset user_id streak now prior window_hours

unfoldable pub freeze_available_at : Moment → Option Moment → Bool
freeze_available_at now none = true
freeze_available_at now (some used) = not (same_utc_month used now)

unfoldable pub apply_start : ℕ → Moment → StreakRecord
apply_start user_id now = record {
  user_id = user_id;
  current_streak_days = 1;
  longest_streak_days = 1;
  last_activity_at = some now;
  streak_started_at = some now;
  freeze_available = true;
  freeze_used_at = none;
  updated_at = now;
}

-- `_touch`
unfoldable pub touch : StreakRecord → Moment → StreakRecord
touch streak now = record streak {
  last_activity_at = some now;
  updated_at = now;
  freeze_available = freeze_available_at now streak.freeze_used_at;
}

unfoldable pub apply_same_day : StreakRecord → Moment → StreakRecord
unfolding touch
apply_same_day streak now = touch streak now

unfoldable pub apply_preserve_on_degraded_source : StreakRecord → Moment → StreakRecord
unfolding touch
apply_preserve_on_degraded_source streak now = touch streak now

-- `x or y`, where `x` is a moment or `None`
abbrev pub or_else : Option Moment → Option Moment → Option Moment
or_else none y = y
or_else (some x) y = some x

unfoldable pub apply_increment : StreakRecord → Moment → StreakRecord
apply_increment streak now = record streak {
  current_streak_days = streak.current_streak_days + 1;
  longest_streak_days = max streak.longest_streak_days (streak.current_streak_days + 1);
  last_activity_at = some now;
  streak_started_at = or_else streak.streak_started_at (some now);
  updated_at = now;
  freeze_available = freeze_available_at now streak.freeze_used_at;
}

unfoldable pub apply_reset :
    StreakRecord → Moment → InactivityEvidence → Result RuleError StreakRecord
apply_reset streak now evidence = do
  guard (evidence.user_id == streak.user_id) evidence_of_another_record
  ok (record streak {
    current_streak_days = 1;
    longest_streak_days = max streak.longest_streak_days streak.current_streak_days;
    last_activity_at = some now;
    streak_started_at = some now;
    updated_at = now;
    freeze_available = freeze_available_at now streak.freeze_used_at;
  })

unfoldable pub apply_freeze_acceptance : StreakRecord → FreezeOffer → Moment → StreakRecord
apply_freeze_acceptance streak offer now =
    let restored = offer.preserved_streak_days + streak.current_streak_days in
    record streak {
      current_streak_days = restored;
      longest_streak_days = max streak.longest_streak_days restored;
      streak_started_at = or_else offer.preserved_streak_started_at streak.streak_started_at;
      freeze_available = false;
      freeze_used_at = some now;
      updated_at = now;
    }

unfoldable pub eligible_for_freeze_offer : StreakRecord → Moment → ℕ → Bool
eligible_for_freeze_offer streak now min_streak_days =
    leb min_streak_days streak.current_streak_days && freeze_available_at now streak.freeze_used_at
