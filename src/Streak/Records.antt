-- ===== src/Streak/Records.antt =====
-- packages/uc08/uc08/domain/enums.py and models.py: the vocabularies and records of the streaks.
-- Account and interaction identifiers are opaque and only compared, so they are numbers. An
-- identifier made from parts, such as "fo-{user}-{timestamp}", is the tuple of its parts.
use ai_coaching_agent.Common.{ℕ, ◌≤◌, ◌<◌, Bool, ◌&&◌, Option, List, ltb}
use ai_coaching_agent.Streak.Time.{Moment}

pub data SourceStatus : Type 0 where
  available empty partial unavailable invalid : SourceStatus

pub data StreakOutcome : Type 0 where
  started unchanged_same_day incremented reset : StreakOutcome
  unchanged_source_degraded idempotent_replay : StreakOutcome

pub data FreezeOfferStatus : Type 0 where
  offered accepted declined expired : FreezeOfferStatus

pub data PersistenceOutcome : Type 0 where
  saved saved_on_retry preserved_last_known : PersistenceOutcome

pub record StreakRecord : Type 0 where
  pub user_id : ℕ
  pub current_streak_days : ℕ
  pub longest_streak_days : ℕ
  pub last_activity_at : Option Moment
  pub streak_started_at : Option Moment
  pub freeze_available : Bool
  pub freeze_used_at : Option Moment
  pub updated_at : Moment

-- The validator of `longest_streak_days`, which `model_copy` does not run again.
abbrev pub IsHighWater : StreakRecord → Type 0
IsHighWater r = r.current_streak_days ≤ r.longest_streak_days

-- A record that is stored holds at least one day: the empty one is never persisted.
abbrev pub IsHeld : StreakRecord → Type 0
IsHeld r = (0 < r.current_streak_days) × IsHighWater r

pub record Badge : Type 0 where
  pub badge_id : ℕ × ℕ
  pub user_id : ℕ
  pub milestone : ℕ
  pub awarded_at : Moment
  pub question_count_at_award : ℕ

pub record FreezeOffer : Type 0 where
  pub offer_id : ℕ × Moment
  pub user_id : ℕ
  pub status : FreezeOfferStatus
  pub offered_at : Moment
  pub expires_at : Moment
  pub preserved_streak_days : ℕ
  pub preserved_streak_started_at : Option Moment
  pub answered_at : Option Moment

-- `status is FreezeOfferStatus.OFFERED`
abbrev pub is_offered : FreezeOfferStatus → Bool
is_offered offered = Bool.true
is_offered _ = Bool.false

abbrev pub is_open_at : FreezeOffer → Moment → Bool
is_open_at offer moment = is_offered offer.status && ltb moment offer.expires_at

pub record ActivityInteraction : Type 0 where
  pub interaction_id : ℕ
  pub occurred_at : Moment

pub record ActivityWindowRead : Type 0 where
  pub interactions : List ActivityInteraction
  pub status : SourceStatus

pub record QuestionCountRead : Type 0 where
  pub count : ℕ
  pub status : SourceStatus

pub record BadgeAwardedEvent : Type 0 where
  pub event_id : ℕ × ℕ
  pub user_id : ℕ
  pub badge_id : ℕ × ℕ
  pub milestone : ℕ
  pub question_count_at_award : ℕ
  pub awarded_at : Moment
  pub occurred_at : Moment

pub record StreakWriteIncident : Type 0 where
  pub user_id : ℕ
  pub occurred_at : Moment
  pub attempts : ℕ
  pub preserved_streak_days : ℕ
  pub preserved_longest_streak_days : ℕ
  pub intended_streak_days : ℕ

-- The provider errors of uc08/domain/errors.py, by class; `other_error` is the base class itself.
pub data ProviderError : Type 0 where
  provider_unavailable provider_timeout provider_invalid_response other_error : ProviderError

-- `status_for_provider_error` of uc08/application/degradation.py
unfoldable pub status_for_provider_error : ProviderError → SourceStatus
status_for_provider_error provider_invalid_response = invalid
status_for_provider_error provider_unavailable = unavailable
status_for_provider_error provider_timeout = unavailable
status_for_provider_error other_error = unavailable
