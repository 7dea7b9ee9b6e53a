-- ===== src/Weekly/Records.antt =====
-- packages/uc08/uc08/domain/models.py and enums.py: the weekly summary, what it is made from, and what
-- a run reports.
-- A week key, the text GGGG-Www, is the number GGGGww, which orders as the text does. Names and
-- identifiers are only compared, so they are numbers; an identifier made from parts is the tuple of
-- its parts. A note is its constructor in place of its text.
use ai_coaching_agent.Common.{ℕ, ◌+◌, ◌*◌, Option, List, Bool}
use ai_coaching_agent.Socratic.Dialogue.{NaricLevel, NaricLevelSource, ExplanationProfile}
use ai_coaching_agent.Streak.Time.{Moment, iso_week_key}
use ai_coaching_agent.Streak.Records.{SourceStatus}

-- `iso_week_key`
unfoldable pub week_key : Moment → ℕ
week_key value = let (year, week) = iso_week_key value in year * 100 + week

pub data DeliveryStatus : Type 0 where
  pending sent failed : DeliveryStatus

pub record Topic : Type 0 where
  pub topic_id : ℕ
  pub name : ℕ
  pub naric_level : NaricLevel
  pub naric_level_source : NaricLevelSource
  pub naric_level_status : SourceStatus
  pub explanation_profile : ExplanationProfile

pub record TopicMention : Type 0 where
  pub name : ℕ
  pub first_mentioned_at : Moment

pub record TopicsRead : Type 0 where
  pub topics : List TopicMention
  pub status : SourceStatus

-- The elements that can be left out, and the notes on them.
pub data Element : Type 0 where
  topics_covered questions_asked suggested_topic : Element

pub data Note : Type 0 where
  topics_omitted questions_omitted suggestion_unavailable suggestion_empty : Note
  weeks_went_by : ℕ → Note

pub record WeeklySummary : Type 0 where
  pub summary_id : ℕ × ℕ
  pub user_id : ℕ
  pub week : ℕ
  pub week_start_at : Moment
  pub week_end_at : Moment
  pub generated_at : Moment
  pub topics_covered : List ℕ
  pub topics_status : SourceStatus
  pub questions_asked : ℕ
  pub questions_asked_status : SourceStatus
  pub current_streak_days : ℕ
  pub suggested_topic : Option Topic
  pub suggested_topic_status : SourceStatus
  pub omissions : List Element
  pub omission_notes : List Note
  pub delivery_status : DeliveryStatus
  pub send_attempts : ℕ
  pub last_send_attempt_at : Option Moment
  pub sent_at : Option Moment
  pub next_retry_at : Option Moment
  pub skipped_weeks : List ℕ

pub record WeeklySummaryEvent : Type 0 where
  pub event_id : (ℕ × ℕ) × ℕ
  pub user_id : ℕ
  pub summary_id : ℕ × ℕ
  pub week : ℕ
  pub occurred_at : Moment
  pub summary : WeeklySummary

pub data RunReason : Type 0 where
  already_generated_for_week not_the_summary_day generated_now : RunReason

pub record WeeklySummaryRunResult : Type 0 where
  pub generated : Option WeeklySummary
  pub already_generated : Bool
  pub retried : Option WeeklySummary
  pub reason : RunReason
  pub skipped_weeks : List ℕ
