-- ===== src/Feedback/Records.antt =====
-- packages/uc10/uc10/domain/enums.py and models.py, ports/errors.py and application/results.py: the
-- vocabularies and records of the feedback.
-- Identifiers, topic tags, session modes and reason codes are only compared, so they are numbers;
-- the slug check on tags is not modelled. A comment is its code points.
use Prim.Native.String.{String}
use ai_coaching_agent.Common.{ℕ, Bool, true, false, Option, none, some, List}
use ai_coaching_agent.Common.Fraction.{Fraction}
use ai_coaching_agent.Streak.Time.{Moment}

pub data NaricLevel : Type 0 where
  level_3 level_4 level_5 level_6 level_7 level_7_plus : NaricLevel

pub data NaricLevelSource : Type 0 where
  retrieved default : NaricLevelSource

pub data ExplanationProfile : Type 0 where
  basic intermediate advanced : ExplanationProfile

pub data SourceStatus : Type 0 where
  available empty partial unavailable invalid : SourceStatus

pub data RatingValue : Type 0 where
  up down : RatingValue

pub data FlagStatus : Type 0 where
  opened reviewed confirmed corrected : FlagStatus

pub data ResponseCategory : Type 0 where
  answer redirect refusal clarifying_question degraded_fallback unknown : ResponseCategory

pub record InteractionRecord : Type 0 where
  pub interaction_id : ℕ
  pub session_id : ℕ
  pub user_id : ℕ
  pub question_text : String
  pub response_text : String
  pub response_category : ResponseCategory
  pub topic_tag : ℕ
  pub session_mode : ℕ
  pub naric_level : NaricLevel
  pub naric_level_source : NaricLevelSource
  pub explanation_profile : ExplanationProfile
  pub naric_source_status : SourceStatus
  pub course_completion_percent : Option ℕ
  pub delivered_at : Moment
  pub source_status : SourceStatus

abbrev pub Comment : Type 0
Comment = List ℕ

pub record RatingRecord : Type 0 where
  pub rating_id : ℕ
  pub interaction_id : ℕ
  pub session_id : ℕ
  pub user_id : ℕ
  pub rating : RatingValue
  pub comment : Option Comment
  pub question_text : String
  pub response_text : String
  pub naric_level : NaricLevel
  pub session_mode : ℕ
  pub topic_tag : ℕ
  pub rated_at : Moment
  pub superseded_by : Option ℕ

abbrev pub is_none {ℓ} : {A : Type ℓ} → Option A → Bool
is_none none = true
is_none (some _) = false

-- `is_current`
abbrev pub is_current : RatingRecord → Bool
is_current r = is_none r.superseded_by

-- `superseded`
abbrev pub superseded : ℕ → RatingRecord → RatingRecord
superseded by_rating_id r = record r { superseded_by = some by_rating_id }

-- `rating is RatingValue.DOWN`
abbrev pub is_down : RatingRecord → Bool
is_down r = elim r.rating [ up ↦ false | down ↦ true ]

-- The rate is kept as the fraction that the code rounds to six places.
pub record ContentReviewFlag : Type 0 where
  pub flag_id : ℕ
  pub topic_tag : ℕ
  pub window_start : Moment
  pub window_end : Moment
  pub total_ratings : ℕ
  pub down_ratings : ℕ
  pub down_rate : Fraction
  pub threshold_applied : Fraction
  pub flagging_interaction_ids : List ℕ
  pub created_at : Moment
  pub status : FlagStatus
  pub minimum_sample_size_applied : ℕ
  pub updated_at : Option Moment

-- `status is FlagStatus.OPEN`
abbrev pub is_open : FlagStatus → Bool
is_open opened = true
is_open _ = false

-- The errors that cross a port, by class.
pub data PortErrorKind : Type 0 where
  provider_unavailable provider_timeout provider_invalid_response record_not_found : PortErrorKind

pub record PortError : Type 0 where
  pub kind : PortErrorKind
  pub reason_code : ℕ
  pub retryable : Bool

pub data RatingCaptureStatus : Type 0 where
  recorded replaced rejected_anonymous rejected_not_found rejected_window_expired :
      RatingCaptureStatus
  failed_retryable failed_permanent : RatingCaptureStatus

-- The reason codes that the service itself names; those of a port are passed on.
pub data ReasonCode : Type 0 where
  interaction_not_found not_owner window_expired unexpected_failure : ReasonCode
  of_port : ℕ → ReasonCode

-- The message is a function of the status.
pub record RatingCaptureResult : Type 0 where
  pub status : RatingCaptureStatus
  pub retryable : Bool
  pub rating : Option RatingRecord
  pub superseded_rating_id : Option ℕ
  pub reason_code : Option ReasonCode

-- `status is RatingCaptureStatus.FAILED_RETRYABLE`
abbrev pub is_retryable : RatingCaptureStatus → Bool
is_retryable failed_retryable = true
is_retryable _ = false

-- `RatingCaptureResult.of` for a capture that recorded nothing, and for one that did.
abbrev pub refused : RatingCaptureStatus → Option ReasonCode → RatingCaptureResult
refused status reason_code = record {
  status = status;
  retryable = is_retryable status;
  rating = none;
  superseded_rating_id = none;
  reason_code = reason_code;
}

abbrev pub captured : RatingCaptureStatus → RatingRecord → Option ℕ → RatingCaptureResult
captured status rating superseded_rating_id = record {
  status = status;
  retryable = is_retryable status;
  rating = some rating;
  superseded_rating_id = superseded_rating_id;
  reason_code = none;
}
