-- ===== src/Streak/Tests.antt =====
-- The theorems about the streaks at concrete inputs: a learner with a streak of ten days.
use ai_coaching_agent.Common.{
  ℕ, ◌+◌, ◌*◌, ◌≤◌, ◌≡◌, refl, max, true, false, none, some, [], ◌∷◌, ok, err, arith, contains,
}
use ai_coaching_agent.Common.Dict.{lookup, insert}
use ai_coaching_agent.Streak.Time.{Moment, day, hour, same_utc_month_refl}
use ai_coaching_agent.Streak.Records.{
  StreakRecord, idempotent_replay, FreezeOffer, offered, Badge, SourceStatus, provider_timeout,
  status_for_provider_error,
}
use ai_coaching_agent.Streak.Rules.{
  decide, apply_reset, eligible_for_freeze_offer, freeze_available_at, apply_increment,
  apply_preserve_on_degraded_source, apply_same_day, apply_start, touch, validated,
}
use ai_coaching_agent.Streak.Store.{
  World, Env, was_processed, badge_rows, get_all, save_row, mark_processed, award, insert_sorted,
  save_streak, set_default, sorted_badges,
}
use ai_coaching_agent.Streak.Freeze.{
  Settings, open_offer, build_offer_if_eligible, save_offer, get_latest, open_latest,
}
use ai_coaching_agent.Streak.Badges.{
  evaluate, evaluate_read, sorted_milestones, award_all, award_one, crossed, evaluate_count,
  insert_milestone,
}
use ai_coaching_agent.Streak.Badges.Once.{held, evaluate-keeps, IsKeyed}
use ai_coaching_agent.Streak.Badges.Milestones.{evaluate-once, evaluate_complete}
use ai_coaching_agent.Streak.Writer.{persist, incident_for, persisted_by, preserve, write_attempts}
use ai_coaching_agent.Streak.Service.{
  SessionIdSource, ResolvedSession, record_activity, next_record, read_continuity, or_open_offer,
  commit, continuity_of, next_by_decision, next_by_reset, next_existing, prior_from_record,
  record_intended, replay, report, save_if_some, try_mark_processed,
}
use ai_coaching_agent.Streak.Service.Recording.{IsSound, LowerOnly, record_activity-lower}
use ai_coaching_agent.Streak.Service.Invariant.{IsGrown, record_activity-IsGrown}
use ai_coaching_agent.Streak.Service.Replay.{Reports}
use ai_coaching_agent.Streak.Service.OnceADay.{
  IsCommitting, record_activity-idempotent, record_activity-once_a_day,
}
use ai_coaching_agent.Streak.Rules.{apply_freeze_acceptance}
use ai_coaching_agent.Streak.Answer.{
  state_with, accept_persisted, accept_for, accept_offer, StreakState, accept_freeze,
}
use ai_coaching_agent.Streak.Answer.Accept.{
  Raises, accept_freeze-restores, accept_freeze-once_a_month, accept_freeze-IsGrown,
}
use ai_coaching_agent.Streak.Store.Offers.{upsert_offer}

-- 2024-03-10, noon, and the moments around it.
abbrev noon : Moment
noon = 738954 * day + 12 * hour

abbrev later_today : Moment
later_today = noon + hour

abbrev days_later : Moment
days_later = noon + 5 * day

abbrev settings : Settings
settings = record {
  window_hours = 48;
  freeze_min_streak_days = 7;
  freeze_offer_expiry_hours = 24;
  badge_milestones = 50 ∷ 10 ∷ 100 ∷ [];
}

abbrev session : ResolvedSession
session = record { session_id = 5; source = SessionIdSource.received }

-- Everything answers; the learner has asked sixty questions.
abbrev answering : Moment → Env
answering now = record {
  now = now;
  incident_at = now;
  interactions_in_window = λ u m. ok (record { interactions = []; status = SourceStatus.empty });
  question_count = λ u. ok (record { count = 60; status = SourceStatus.available });
  streak_read_fails = false;
  streak_write_fails = λ n. false;
  processed_read_fails = false;
  processed_write_fails = false;
  offer_read_fails = false;
  offer_write_fails = λ s. false;
  badge_read_fails = false;
  badge_write_fails = λ m. false;
  notification_fails = λ m. false;
  alert_fails = false;
}

-- Every write of a streak fails, and the activity provider times out.
abbrev failing : Moment → Env
failing now = record (answering now) {
  interactions_in_window = λ u m. err provider_timeout;
  streak_write_fails = λ n. true;
}

abbrev ten_days : StreakRecord
ten_days = record {
  user_id = 1;
  current_streak_days = 10;
  longest_streak_days = 12;
  last_activity_at = some noon;
  streak_started_at = some noon;
  freeze_available = true;
  freeze_used_at = none;
  updated_at = noon;
}

abbrev first_badge : Badge
first_badge = record {
  badge_id = (10, 1);
  user_id = 1;
  milestone = 10;
  awarded_at = noon;
  question_count_at_award = 11;
}

-- An offer for a streak of twenty days that was reset at noon.
abbrev open_twenty : FreezeOffer
open_twenty = record {
  offer_id = (1, noon);
  user_id = 1;
  status = offered;
  offered_at = noon;
  expires_at = noon + 24 * hour;
  preserved_streak_days = 20;
  preserved_streak_started_at = some (noon + 0);
  answered_at = none;
}

abbrev world : World
world = record {
  streaks = (1, ten_days) ∷ [];
  badges = (1, (10, first_badge) ∷ []) ∷ [];
  offers = (1, open_twenty ∷ []) ∷ [];
  processed = (1, 6) ∷ [];
  incidents = [];
  notifications = [];
}

world-IsSound : IsSound world.streaks
unfolding lookup
world-IsSound k r h = ground arith

-- After five days without activity the count drops to one.
abbrev one_day : StreakRecord
one_day = record ten_days {
  current_streak_days = 1;
  last_activity_at = some days_later;
  streak_started_at = some days_later;
  updated_at = days_later;
}

record_activity-lower_example : LowerOnly settings (answering days_later) 1 7 ten_days one_day
unfolding record_activity lookup was_processed next_record decide read_continuity apply_reset
    evaluate evaluate_read or_open_offer persist build_offer_if_eligible eligible_for_freeze_offer
    freeze_available_at sorted_milestones get_all save_offer save_row mark_processed insert
    award_all award_one crossed evaluate_count insert_milestone get_latest open_latest open_offer
    status_for_provider_error apply_increment apply_preserve_on_degraded_source apply_same_day
    apply_start touch validated commit continuity_of next_by_decision next_by_reset next_existing
    prior_from_record record_intended replay report save_if_some try_mark_processed upsert_offer
    award badge_rows insert_sorted save_streak set_default sorted_badges incident_for persisted_by
    preserve write_attempts
record_activity-lower_example =
    record_activity-lower settings (answering days_later) session 1 7 world ten_days one_day
      world-IsSound refl refl (omega arith)

record_activity-IsGrown_example :
    IsGrown world.streaks
      (record_activity settings (failing days_later) session 1 7 world).1.streaks
record_activity-IsGrown_example =
    record_activity-IsGrown settings (failing days_later) session 1 7 world world-IsSound

committing : IsCommitting settings (answering noon) world
committing = record {
  sound = world-IsSound;
  window = omega arith;
  readable = refl;
  writable = refl;
  markable = refl;
}

record_activity-idempotent_example :
    let w' = (record_activity settings (answering noon) session 1 7 world).1 in
    let (r, w'') = record_activity settings (failing days_later) session 1 7 w' in
    Reports r idempotent_replay × (w''.streaks ≡ w'.streaks)
record_activity-idempotent_example =
    record_activity-idempotent settings (answering noon) session 1 7 world committing settings
      (failing days_later) session refl

record_activity-once_a_day_example :
    let w' = (record_activity settings (answering noon) session 1 7 world).1 in
    (r r' : StreakRecord) × (lookup 1 w'.streaks ≡ some r)
    × (lookup 1 (record_activity settings (failing later_today) session 1 8 w').1.streaks ≡ some r')
    × (r'.current_streak_days ≡ r.current_streak_days)
    × (r'.longest_streak_days ≡ r.longest_streak_days)
unfolding was_processed
record_activity-once_a_day_example =
    record_activity-once_a_day settings settings (answering noon) (failing later_today) session
      session 1 7 8 world committing refl refl

abbrev two : ℕ
two = 2

-- The learner accepts the offer an hour after it was made.
abbrev thirty_days : StreakRecord
thirty_days = record ten_days {
  current_streak_days = 30;
  longest_streak_days = 30;
  freeze_available = false;
  freeze_used_at = some later_today;
  updated_at = later_today;
}

abbrev restored_state : StreakState
restored_state = record {
  streak = thirty_days;
  open_freeze_offer = none;
  badges = first_badge ∷ [];
}

accepts : (accept_freeze (answering later_today) 1 world).0 ≡ ok restored_state
unfolding accept_freeze open_offer open_latest get_latest lookup accept_offer accept_for
    freeze_available_at persist write_attempts persisted_by accept_persisted state_with get_all
    badge_rows sorted_badges insert_sorted save_offer save_row upsert_offer insert save_streak
    apply_freeze_acceptance
accepts = refl

accept_freeze-restores_example :
    (r' : StreakRecord) × (lookup 1 (accept_freeze (answering later_today) 1 world).1.streaks
      ≡ some r')
    × (r'.current_streak_days ≡ 30)
    × (r'.longest_streak_days ≡ max 12 r'.current_streak_days)
    × (r'.freeze_used_at ≡ some later_today)
    × (r'.last_activity_at ≡ some noon)
unfolding open_offer open_latest get_latest lookup
accept_freeze-restores_example =
    accept_freeze-restores (answering later_today) 1 world restored_state open_twenty ten_days
      world-IsSound refl refl accepts

accept_freeze-once_a_month_example :
    Raises
      (accept_freeze (failing later_today) 1 (accept_freeze (answering later_today) 1 world).1).0
accept_freeze-once_a_month_example =
    accept_freeze-once_a_month (answering later_today) (failing later_today) 1 world restored_state
      world-IsSound accepts (same_utc_month_refl later_today)

accept_freeze-IsGrown_example :
    IsGrown world.streaks (accept_freeze (answering later_today) 1 world).1.streaks
accept_freeze-IsGrown_example = accept_freeze-IsGrown (answering later_today) 1 world world-IsSound

evaluate-keeps_example :
    held 1 10 (evaluate (10 ∷ 50 ∷ []) (answering noon) 1 world).1 ≡ some first_badge
unfolding lookup badge_rows
evaluate-keeps_example =
    evaluate-keeps (10 ∷ 50 ∷ []) (answering noon) 1 world 1 10 first_badge refl

held-IsKeyed : IsKeyed (badge_rows 1 world)
unfolding badge_rows lookup
held-IsKeyed = (refl, tt)

evaluate-once_example : (contains 50 (50 ∷ 10 ∷ []) ≡ true) × (50 ≤ 60) × (held 1 50 world ≡ none)
unfolding evaluate evaluate_read evaluate_count sorted_milestones insert_milestone crossed award_all
    award_one get_all badge_rows sorted_badges insert_sorted lookup set_default award insert
evaluate-once_example =
    evaluate-once (50 ∷ 10 ∷ []) (answering noon) 1 world
      (record { count = 60; status = SourceStatus.available }) refl held-IsKeyed 50 refl

evaluate_complete_example :
    (b : Badge) × (held 1 50 (evaluate (50 ∷ 10 ∷ []) (answering noon) 1 world).1 ≡ some b)
evaluate_complete_example =
    evaluate_complete (50 ∷ 10 ∷ []) (answering noon) 1 world
      (record { count = 60; status = SourceStatus.available }) refl held-IsKeyed 50 refl refl refl
      (omega arith) refl
