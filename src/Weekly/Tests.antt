-- ===== src/Weekly/Tests.antt =====
-- Runs of the weekly summary at concrete inputs.
use ai_coaching_agent.Common.{
  ℕ, ◌+◌, ◌*◌, ◌≤◌, ◌≡◌, refl, true, false, none, some, [], ◌∷◌, length, All, ok, err, arith,
}
use ai_coaching_agent.Common.Dict.{lookup}
use ai_coaching_agent.Common.Sort.{sort_by, max_by}
use ai_coaching_agent.Common.Effect.{attempt}
use ai_coaching_agent.Streak.Time.{Moment, day}
use ai_coaching_agent.Streak.Records.{
  available, empty, unavailable, provider_timeout, status_for_provider_error,
}
use ai_coaching_agent.Weekly.Records.{
  week_key, failed, topics_covered, suggested_topic, topics_omitted, suggestion_empty,
  WeeklySummary, generated_now, WeeklySummaryRunResult,
}
use ai_coaching_agent.Weekly.Service.{
  World, Env, max_listed_skipped_weeks, gaps_from, rounds, build, target_week, generate,
}
use ai_coaching_agent.Weekly.Skipped.{IsGap, gaps_from-rounds, build-skipped_weeks}
use ai_coaching_agent.Weekly.Safety.{Survives, generate-Survives}
use ai_coaching_agent.Weekly.Once.{generate-once_a_day}

-- A Monday, on which the activity provider does not answer in time and the sink fails.
abbrev env_at : Moment → Env
env_at now = record {
  now = now;
  topics_in_window = λ u m. err provider_timeout;
  interactions_in_window = λ u m. ok (record { interactions = []; status = available });
  suggested_topic = λ u. ok none;
  streak_read_fails = false;
  summary_read_fails = false;
  history_read_fails = false;
  summary_write_fails = λ s. false;
  send_fails = true;
}

abbrev nobody : World
nobody = record { summaries = []; streaks = []; notifications = [] }

abbrev summary : WeeklySummary
summary = record {
  summary_id = (5, week_key (35 * day));
  user_id = 5;
  week = week_key (35 * day);
  week_start_at = 35 * day;
  week_end_at = 42 * day;
  generated_at = 42 * day;
  topics_covered = [];
  topics_status = unavailable;
  questions_asked = 0;
  questions_asked_status = empty;
  current_streak_days = 0;
  suggested_topic = none;
  suggested_topic_status = empty;
  omissions = topics_covered ∷ suggested_topic ∷ [];
  omission_notes = topics_omitted ∷ suggestion_empty ∷ [];
  delivery_status = failed;
  send_attempts = 1;
  last_send_attempt_at = some (42 * day);
  sent_at = none;
  next_retry_at = some (43 * day);
  skipped_weeks = [];
}

abbrev result : WeeklySummaryRunResult
result = record {
  generated = some summary;
  already_generated = false;
  retried = none;
  reason = generated_now;
  skipped_weeks = [];
}

generated_at_once : (generate (env_at (42 * day)) 1 5 nobody).0 ≡ ok result
unfolding generate attempt lookup status_for_provider_error max_by sort_by
generated_at_once = refl

generate-once_a_day_example :
    let after = generate (env_at (42 * day)) 1 5 nobody in
    (generate (env_at (42 * day + 7)) 1 5 after.1).1 ≡ after.1
generate-once_a_day_example =
    generate-once_a_day (env_at (42 * day)) (env_at (42 * day + 7)) 1 5 nobody result summary
      generated_at_once refl refl

abbrev held : World
held = record { summaries = (5, (7, summary) ∷ []) ∷ []; streaks = []; notifications = [] }

-- The summary under its own week.
abbrev kept : World
kept = record {
  summaries = (5, (week_key (35 * day), summary) ∷ []) ∷ [];
  streaks = [];
  notifications = [];
}

lookup-only : (k : ℕ) (s : WeeklySummary) → lookup k ((k, s) ∷ []) ≡ some s
unfolding lookup
lookup-only k s = ground arith

generate-Survives_example :
    Survives 5
      (target_week (env_at (43 * day)))
      summary
      kept
      (generate (env_at (43 * day)) 1 5 kept).1
unfolding lookup
generate-Survives_example =
    generate-Survives (env_at (43 * day)) 1 5 summary kept (lookup-only _ summary) refl refl

gaps_from-rounds_example :
    (gaps_from 9 (7 * day) (28 * day) 5
      ≡ gaps_from (rounds (7 * day) (28 * day)) (7 * day) (28 * day) 5)
    × (28 * day ≤ 7 * day + rounds (7 * day) (28 * day) * (7 * day))
gaps_from-rounds_example = gaps_from-rounds 9 (7 * day) (28 * day) 5 (omega arith)

build-skipped_weeks_example :
    let built = build (env_at (42 * day)) 5 held in
    (length built.skipped_weeks ≤ max_listed_skipped_weeks)
    × All (IsGap built.week_start_at built.week) built.skipped_weeks
build-skipped_weeks_example = build-skipped_weeks (env_at (42 * day)) 5 held
