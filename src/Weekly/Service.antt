-- ===== src/Weekly/Service.antt =====
-- packages/uc08/uc08/application/weekly_summary_service.py over the in-memory repository of summaries.
-- `Env` is what the outside answers during one call: the clock, the providers, and what fails. A
-- summary is saved at most once as pending and once after a delivery, so a failure by status is enough.
use ai_coaching_agent.Common.{
  ℕ, ◌+◌, ◌-◌, ◌*◌, ◌/◌, zero, suc, Bool, true, false, ◌||◌, Option, none, some, List, [], ◌∷◌,
  ◌++◌, map, keep, length, Result, ok, err, ltb, leb, ◌==◌, if◌then◌else◌,
}
use mathlib.Core.List.{reverse}
use ai_coaching_agent.Common.Dict.{Dict, lookup, insert, values}
use ai_coaching_agent.Common.Sort.{sort_by, max_by}
use ai_coaching_agent.Common.Effect.{Effect, pure, raise, gets, modify, ◌>>=◌, ◌>>◌}
use ai_coaching_agent.Streak.Time.{
  Moment, day, isoweekday, start_of_utc_day, previous_iso_week_bounds,
}
use ai_coaching_agent.Streak.Records.{
  SourceStatus, available, empty, partial, unavailable, invalid, StreakRecord, ActivityInteraction,
  ActivityWindowRead, ProviderError, status_for_provider_error,
}
use ai_coaching_agent.Streak.Store.{rows_of}
use ai_coaching_agent.Weekly.Records.{
  week_key, DeliveryStatus, pending, sent, failed, Topic, TopicMention, TopicsRead, topics_covered,
  questions_asked, suggested_topic, Note, topics_omitted, questions_omitted, suggestion_unavailable,
  suggestion_empty, weeks_went_by, WeeklySummary, WeeklySummaryEvent, RunReason,
  already_generated_for_week, not_the_summary_day, generated_now, WeeklySummaryRunResult,
}

pub record World : Type 0 where
  pub summaries : Dict (Dict WeeklySummary)
  pub streaks : Dict StreakRecord
  pub notifications : List WeeklySummaryEvent

pub record Env : Type 0 where
  pub now : Moment
  pub topics_in_window : ℕ → Moment → Result ProviderError TopicsRead
  pub interactions_in_window : ℕ → Moment → Result ProviderError ActivityWindowRead
  pub suggested_topic : ℕ → Result ProviderError (Option Topic)
  pub streak_read_fails : Bool
  pub summary_read_fails : Bool
  pub history_read_fails : Bool
  pub summary_write_fails : DeliveryStatus → Bool
  pub send_fails : Bool

pub data RepositoryError : Type 0 where
  repository_read_failed repository_write_failed : RepositoryError

abbrev pub Action : Type 0 → Type 0
Action A = Effect World RepositoryError A

-- The rows of a learner by week.
abbrev pub summaries_of : ℕ → World → Dict WeeklySummary
summaries_of user_id w = rows_of (lookup user_id w.summaries)

abbrev pub raise_if : Bool → RepositoryError → Action (Unit {0})
raise_if true e = raise e
raise_if false e = pure tt

-- `InMemoryWeeklySummaryRepository`
abbrev pub store_row : WeeklySummary → World → World
store_row s w = record w {
  summaries = insert s.user_id (insert s.week s (summaries_of s.user_id w)) w.summaries;
}

unfoldable pub save : Env → WeeklySummary → Action (Unit {0})
save env s =
    raise_if (env.summary_write_fails s.delivery_status) repository_write_failed
    >> modify (store_row s)

unfoldable pub get : Env → ℕ → ℕ → Action (Option WeeklySummary)
get env user_id week =
    raise_if env.summary_read_fails repository_read_failed
    >> gets (λ w. lookup week (summaries_of user_id w))

unfoldable pub rows_down : ℕ → World → List WeeklySummary
rows_down user_id w =
    reverse (sort_by (λ (s : WeeklySummary). s.week) (values (summaries_of user_id w)))

unfoldable pub list_for_user : Env → ℕ → Action (List WeeklySummary)
unfolding rows_down
list_for_user env user_id =
    raise_if env.history_read_fails repository_read_failed >> gets (rows_down user_id)

-- `_topics`, by what the provider answers.
abbrev pub names_before : Moment → List TopicMention → List ℕ
names_before week_end mentions =
    map (λ (m : TopicMention). m.name)
      (keep (λ (m : TopicMention). ltb m.first_mentioned_at week_end) mentions)

abbrev pub status_of_part : ℕ → ℕ → SourceStatus
status_of_part inside all =
    if inside == 0 then empty else if inside == all then available else partial

unfoldable pub topics_of : Moment → Result ProviderError TopicsRead → List ℕ × SourceStatus
topics_of week_end (err e) = ([], status_for_provider_error e)
topics_of week_end (ok read) =
    let names = names_before week_end read.topics in
    (names, status_of_part (length names) (length read.topics))

-- `_questions`
abbrev pub before : Moment → List ActivityInteraction → List ActivityInteraction
before boundary xs = keep (λ (x : ActivityInteraction). ltb x.occurred_at boundary) xs

unfoldable pub questions_of : Moment → Result ProviderError ActivityWindowRead → ℕ × SourceStatus
questions_of week_end (err e) = (0, status_for_provider_error e)
questions_of week_end (ok read) =
    let in_week = before week_end read.interactions in
    (length in_week, status_of_part (length in_week) (length read.interactions))

-- `_streak_days`
abbrev pub days_of : Option StreakRecord → ℕ
days_of none = 0
days_of (some r) = r.current_streak_days

unfoldable pub streak_days : Env → ℕ → World → ℕ
streak_days env user_id w = if env.streak_read_fails then 0 else days_of (lookup user_id w.streaks)

-- `_suggestion`
unfoldable pub suggestion_of : Result ProviderError (Option Topic) → Option Topic × SourceStatus
suggestion_of (err e) = (none, status_for_provider_error e)
suggestion_of (ok none) = (none, empty)
suggestion_of (ok (some topic)) = (some topic, available)

abbrev pub max_listed_skipped_weeks : ℕ
max_listed_skipped_weeks = 52

-- The loop of `_skipped_weeks`, with the number of rounds that are left.
unfoldable pub gaps_from : ℕ → Moment → Moment → ℕ → List ℕ
gaps_from zero cursor target_start target_week = []
gaps_from (suc left) cursor target_start target_week = elim (ltb cursor target_start) [
  | false ↦ []
  | true ↦
      let rest = gaps_from left (cursor + 7 * day) target_start target_week in
      if week_key cursor == target_week then rest else week_key cursor ∷ rest
]

-- The rounds that the loop takes: one for each week that begins before the target.
abbrev pub rounds : Moment → Moment → ℕ
rounds cursor target_start = (target_start - cursor) / (7 * day) + 1

-- `gaps[-n:]`
unfoldable pub last_of : ℕ → List ℕ → List ℕ
last_of n [] = []
last_of n (x ∷ xs) = let rest = last_of n xs in if leb (length (x ∷ xs)) n then x ∷ xs else rest

unfoldable pub listed : List ℕ → List ℕ × Option ℕ
unfolding last_of
listed gaps =
    if ltb max_listed_skipped_weeks (length gaps)
    then (last_of max_listed_skipped_weeks gaps, some (length gaps))
    else (gaps, none)

abbrev pub skipped_after : ℕ → Moment → Option WeeklySummary → List ℕ × Option ℕ
skipped_after target_week target_start none = ([], none)
skipped_after target_week target_start (some latest) =
    let cursor = latest.week_start_at + 7 * day in
    listed (gaps_from (rounds cursor target_start) cursor target_start target_week)

-- `max(history, key=lambda item: item.week_start_at)`
abbrev pub latest_of : List WeeklySummary → Option WeeklySummary
latest_of history = max_by (λ (s : WeeklySummary). s.week_start_at) history

-- `_skipped_weeks`
unfoldable pub skipped_weeks : Env → ℕ → ℕ → Moment → World → List ℕ × Option ℕ
unfolding rows_down listed gaps_from
skipped_weeks env user_id target_week target_start w =
    if env.history_read_fails
    then ([], none)
    else skipped_after target_week target_start (latest_of (rows_down user_id w))

-- `status in (UNAVAILABLE, INVALID)`
abbrev pub is_lost : SourceStatus → Bool
is_lost unavailable = true
is_lost invalid = true
is_lost _ = false

abbrev pub omit_if : {A : Type 0} → Bool → A → List A
omit_if true x = x ∷ []
omit_if false x = []

abbrev pub suggestion_omitted : SourceStatus → Bool
suggestion_omitted available = false
suggestion_omitted partial = false
suggestion_omitted _ = true

abbrev pub suggestion_notes : SourceStatus → List Note
suggestion_notes unavailable = suggestion_unavailable ∷ []
suggestion_notes invalid = suggestion_unavailable ∷ []
suggestion_notes empty = suggestion_empty ∷ []
suggestion_notes _ = []

abbrev pub truncation_notes : Option ℕ → List Note
truncation_notes none = []
truncation_notes (some n) = weeks_went_by n ∷ []

-- `_build`
unfoldable pub build : Env → ℕ → World → WeeklySummary
unfolding week_key topics_of questions_of streak_days suggestion_of skipped_weeks
build env user_id w =
    let (week_start, week_end) = previous_iso_week_bounds env.now in
    let week = week_key week_start in
    let (topics, topics_status) = topics_of week_end (env.topics_in_window user_id week_start) in
    let (questions, questions_status) =
      questions_of week_end (env.interactions_in_window user_id week_start) in
    let (suggestion, suggestion_status) = suggestion_of (env.suggested_topic user_id) in
    let (skipped, truncated_total) = skipped_weeks env user_id week week_start w in
    record {
      summary_id = (user_id, week);
      user_id = user_id;
      week = week;
      week_start_at = week_start;
      week_end_at = week_end;
      generated_at = env.now;
      topics_covered = topics;
      topics_status = topics_status;
      questions_asked = questions;
      questions_asked_status = questions_status;
      current_streak_days = streak_days env user_id w;
      suggested_topic = suggestion;
      suggested_topic_status = suggestion_status;
      omissions =
          omit_if (is_lost topics_status) topics_covered
          ++ omit_if (is_lost questions_status) questions_asked
          ++ omit_if (suggestion_omitted suggestion_status) suggested_topic;
      omission_notes =
          omit_if (is_lost topics_status) topics_omitted
          ++ omit_if (is_lost questions_status) questions_omitted
          ++ suggestion_notes suggestion_status
          ++ truncation_notes truncated_total;
      delivery_status = pending;
      send_attempts = 0;
      last_send_attempt_at = none;
      sent_at = none;
      next_retry_at = none;
      skipped_weeks = skipped;
    }

-- `_attempt_send`: what is sent, and what is kept of a failure and of a delivery.
abbrev pub attempted : WeeklySummary → Moment → WeeklySummary
attempted s now = record s { send_attempts = s.send_attempts + 1; last_send_attempt_at = some now }

abbrev pub event_for : WeeklySummary → Moment → WeeklySummaryEvent
event_for s now = record {
  event_id = (s.summary_id, s.send_attempts);
  user_id = s.user_id;
  summary_id = s.summary_id;
  week = s.week;
  occurred_at = now;
  summary = s;
}

unfoldable pub not_delivered : WeeklySummary → Moment → WeeklySummary
not_delivered s now = record s {
  delivery_status = failed;
  next_retry_at = some (start_of_utc_day now + day);
}

unfoldable pub delivered : WeeklySummary → Moment → WeeklySummary
delivered s now = record s { delivery_status = sent; sent_at = some now; next_retry_at = none }

unfoldable pub attempt_send : Env → WeeklySummary → Action WeeklySummary
unfolding save not_delivered delivered
attempt_send env s =
    let tried = attempted s env.now in
    elim env.send_fails [
      | true ↦ save env (not_delivered tried env.now) >> pure (not_delivered tried env.now)
      | false ↦ do
        modify (λ (w : World). record w {
          notifications = w.notifications ++ event_for tried env.now ∷ [];
        })
        save env (delivered tried env.now)
        pure (delivered tried env.now)
    ]

-- `_retry_if_due`: when it is too early, or there is nothing to send.
abbrev pub is_early : Moment → Option Moment → Bool
is_early now none = false
is_early now (some at) = ltb now at

abbrev pub is_sent : DeliveryStatus → Bool
is_sent sent = true
is_sent _ = false

unfoldable pub retry_if_due : Env → WeeklySummary → Action (Option WeeklySummary)
unfolding attempt_send
retry_if_due env s = elim (is_sent s.delivery_status || is_early env.now s.next_retry_at) [
  | true ↦ pure none
  | false ↦ attempt_send env s >>= λ r. pure (some r)
]

abbrev pub retry_found : Env → Option WeeklySummary → Action (Option WeeklySummary)
retry_found env none = pure none
retry_found env (some latest) = retry_if_due env latest

unfoldable pub retry_latest_if_due : Env → ℕ → Action (Option WeeklySummary)
retry_latest_if_due env user_id =
    list_for_user env user_id >>= λ history. retry_found env (latest_of history)

abbrev pub nothing_generated : Bool → RunReason → Option WeeklySummary → WeeklySummaryRunResult
nothing_generated already reason retried = record {
  generated = none;
  already_generated = already;
  retried = retried;
  reason = reason;
  skipped_weeks = [];
}

-- The rest of `generate` for a week that has no summary.
unfoldable pub generate_new : Env → ℕ → Action WeeklySummaryRunResult
unfolding build save attempt_send
generate_new env user_id = do
  summary ← gets (build env user_id)
  save env summary
  s ← attempt_send env summary
  pure (record {
    generated = some s;
    already_generated = false;
    retried = none;
    reason = generated_now;
    skipped_weeks = s.skipped_weeks;
  })

abbrev pub generate_over : Env → ℕ → ℕ → Option WeeklySummary → Action WeeklySummaryRunResult
generate_over env summary_day user_id (some existing) = retry_if_due env existing >>= λ retried.
    pure (nothing_generated true already_generated_for_week retried)
generate_over env summary_day user_id none =
    if isoweekday env.now == summary_day
    then generate_new env user_id
    else retry_latest_if_due env user_id >>= λ retried.
        pure (nothing_generated false not_the_summary_day retried)

-- The key of the week that a run is about.
abbrev pub target_week : Env → ℕ
target_week env = week_key (previous_iso_week_bounds env.now).0

unfoldable pub generate : Env → ℕ → ℕ → Action WeeklySummaryRunResult
unfolding get generate_new retry_if_due retry_latest_if_due week_key
generate env summary_day user_id =
    get env user_id (target_week env) >>= generate_over env summary_day user_id
