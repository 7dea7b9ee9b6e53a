-- ===== src/Streak/Rules/Builders.antt =====
-- What the record builders keep: a day held, the high-water mark, and the longest streak ever held.
use ai_coaching_agent.Common.{◌≤◌, ◌≡◌, arith}
use ai_coaching_agent.Streak.Time.{Moment}
use ai_coaching_agent.Streak.Records.{StreakRecord, FreezeOffer, IsHeld}
use ai_coaching_agent.Streak.Rules.{
  apply_same_day, apply_preserve_on_degraded_source, apply_increment, apply_freeze_acceptance,
}

-- `r'` may follow `r`: it is well formed and belongs to the same learner, and the longest streak
-- has not gone down.
pub record Follows (r r' : StreakRecord) : Type 0 where
  pub is_held : IsHeld r'
  pub same_user : r'.user_id ≡ r.user_id
  pub longest_grows : r.longest_streak_days ≤ r'.longest_streak_days

module _ (r : StreakRecord) (now : Moment) where
  pub apply_same_day-Follows : IsHeld r → Follows r (apply_same_day r now)
  unfolding apply_same_day
  apply_same_day-Follows h = ground arith

  pub apply_preserve-Follows : IsHeld r → Follows r (apply_preserve_on_degraded_source r now)
  unfolding apply_preserve_on_degraded_source
  apply_preserve-Follows h = ground arith

  pub apply_increment-Follows : IsHeld r → Follows r (apply_increment r now)
  unfolding apply_increment
  apply_increment-Follows h = ground arith

  pub apply_freeze_acceptance-Follows :
      (offer : FreezeOffer) → IsHeld r → Follows r (apply_freeze_acceptance r offer now)
  unfolding apply_freeze_acceptance
  apply_freeze_acceptance-Follows offer h = ground arith
