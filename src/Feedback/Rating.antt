-- ===== src/Feedback/Rating.antt =====
-- packages/uc10/uc10/application/rating_service.py and feedback_facade.py: recording a rating, and
-- the rating that is current.
-- A comment is a list of code points; Python's `strip` removes the white space of Unicode.
pub mod Current
pub mod Captured
pub mod Comments
use ai_coaching_agent.Common.{
  ℕ, ◌+◌, ◌-◌, Bool, true, false, not, ◌&&◌, ◌||◌, Option, none, some, List, [], ◌∷◌, keep, length,
  Result, ok, err, ltb, leb, ◌==◌, if◌then◌else◌, contains,
}
use ai_coaching_agent.Common.Sort.{max_by}
use ai_coaching_agent.Common.Effect.{pure, raise, attempt, ◌>>=◌, ◌>>◌}
use ai_coaching_agent.Streak.Time.{Moment, hours}
use ai_coaching_agent.Feedback.Records.{
  InteractionRecord, Comment, RatingValue, RatingRecord, is_current, is_none, PortError,
  PortErrorKind, provider_unavailable, provider_timeout, provider_invalid_response,
  record_not_found, RatingCaptureStatus, recorded, replaced, rejected_anonymous, rejected_not_found,
  rejected_window_expired, failed_retryable, failed_permanent, ReasonCode, interaction_not_found,
  not_owner, window_expired, unexpected_failure, of_port, RatingCaptureResult, refused, captured,
}
use ai_coaching_agent.Feedback.Store.{
  World, Env, Action, ServiceError, port, on_port, invalid_record, ask, save_rating,
  for_interaction, supersede,
}
use ai_coaching_agent.Feedback.Review.{evaluate_topic}

-- `str.isspace` of one code point
unfoldable pub is_space : ℕ → Bool
is_space c =
    leb 9 c && leb c 13
    || leb 28 c && leb c 32
    || leb 8192 c && leb c 8202
    || contains c (133 ∷ 160 ∷ 5760 ∷ 8232 ∷ 8233 ∷ 8239 ∷ 8287 ∷ 12288 ∷ [])

abbrev pub is_empty : Comment → Bool
is_empty [] = true
is_empty (c ∷ cs) = false

unfoldable pub strip_left : Comment → Comment
strip_left [] = []
strip_left (c ∷ cs) = let rest = strip_left cs in if is_space c then rest else c ∷ cs

unfoldable pub strip_right : Comment → Comment
strip_right [] = []
strip_right (c ∷ cs) =
    let rest = strip_right cs in if is_space c && is_empty rest then [] else c ∷ rest

-- `comment.strip() if comment else None`, then `cleaned or None`
abbrev pub or_none : Comment → Option Comment
or_none [] = none
or_none cs = some cs

unfoldable pub clean : Option Comment → Option Comment
unfolding strip_left strip_right
clean none = none
clean (some c) = or_none (strip_right (strip_left c))

abbrev pub max_comment_length : ℕ
max_comment_length = 500

abbrev pub is_too_long : Option Comment → Bool
is_too_long none = false
is_too_long (some c) = ltb max_comment_length (length c)

-- `_build_record`; the length is checked by the record.
unfoldable pub build_record :
    ℕ → InteractionRecord → RatingValue → Option Comment → Moment → Action RatingRecord
unfolding clean
build_record rating_id i value comment rated_at =
    if is_too_long (clean comment)
    then raise invalid_record
    else pure (record {
      rating_id = rating_id;
      interaction_id = i.interaction_id;
      session_id = i.session_id;
      user_id = i.user_id;
      rating = value;
      comment = clean comment;
      question_text = i.question_text;
      response_text = i.response_text;
      naric_level = i.naric_level;
      session_mode = i.session_mode;
      topic_tag = i.topic_tag;
      rated_at = rated_at;
      superseded_by = none;
    })

-- `_resolve_current`
unfoldable pub resolve_current : ℕ → List RatingRecord → Option RatingRecord
resolve_current user_id history =
    max_by (λ (r : RatingRecord). r.rated_at)
      (keep (λ (r : RatingRecord). r.user_id == user_id && is_current r) history)

-- The result for an error of `interactions.get`.
abbrev pub refused_by_get : PortError → RatingCaptureResult
refused_by_get e = elim e.kind [
  | record_not_found ↦ refused rejected_not_found (some interaction_not_found)
  | provider_invalid_response ↦ refused failed_permanent (some (of_port e.reason_code))
  | provider_unavailable ↦ refused failed_retryable (some (of_port e.reason_code))
  | provider_timeout ↦ refused failed_retryable (some (of_port e.reason_code))
]

-- The result for an error of `ratings.save`.
abbrev pub refused_by_save : PortError → RatingCaptureResult
refused_by_save e =
    refused (if e.retryable then failed_retryable else failed_permanent)
      (some (of_port e.reason_code))

-- `except Exception`: whatever was raised is only logged.
unfoldable pub isolated : {A : Type 0} → Action A → Action (Unit {0})
isolated m = attempt m (λ e. pure tt) (λ a. pure tt)

-- `REPLACED if superseded_id else RECORDED`
abbrev pub status_for : Option ℕ → RatingCaptureStatus
status_for none = recorded
status_for (some _) = replaced

module _ (env : Env) where
  -- The loop of `_supersede_previous`, with the last identifier that was marked.
  unfoldable pub supersede_each : ℕ → ℕ → Option ℕ → List RatingRecord → Action (Option ℕ)
  supersede_each user_id new_rating_id marked [] = pure marked
  supersede_each user_id new_rating_id marked (r ∷ rs) =
      elim (not (r.user_id == user_id) || r.rating_id == new_rating_id || not (is_current r)) [
        | true ↦ supersede_each user_id new_rating_id marked rs
        | false ↦
            attempt (supersede env r.rating_id new_rating_id)
              (on_port (λ e. supersede_each user_id new_rating_id marked rs))
              (λ done. supersede_each user_id new_rating_id (some r.rating_id) rs)
      ]

  unfoldable pub supersede_previous : ℕ → ℕ → ℕ → Action (Option ℕ)
  unfolding supersede_each
  supersede_previous interaction_id user_id new_rating_id =
      attempt (for_interaction env interaction_id) (on_port (λ e. pure none))
        (supersede_each user_id new_rating_id none)

  -- What follows a rating that was saved.
  unfoldable pub finish_capture : ℕ → ℕ → RatingRecord → Action RatingCaptureResult
  unfolding supersede_previous isolated
  finish_capture interaction_id user_id saved = do
    superseded_id ← supersede_previous interaction_id user_id saved.rating_id
    isolated (evaluate_topic env saved.topic_tag)
    pure (captured (status_for superseded_id) saved superseded_id)

  -- The part of `capture` that writes.
  unfoldable pub record_rating :
      ℕ → ℕ → InteractionRecord → RatingValue → Option Comment → Moment → Action RatingCaptureResult
  unfolding build_record finish_capture ask
  record_rating interaction_id user_id i value comment now = do
    rating_id ← ask env.new_id
    r ← build_record rating_id i value comment now
    attempt (save_rating env r) (on_port (λ e. pure (refused_by_save e)))
        (finish_capture interaction_id user_id)

  -- The part of `capture` from the time of delivery on.
  unfoldable pub capture_delivered :
      ℕ → ℕ → InteractionRecord → RatingValue → Option Comment → Moment → Action RatingCaptureResult
  unfolding record_rating ask
  capture_delivered interaction_id user_id i value comment delivered_at = do
    now ← ask env.now
    window_hours ← ask env.historical_rating_window_hours
    (if ltb (delivered_at + hours window_hours) now
        then pure (refused rejected_window_expired (some window_expired))
        else record_rating interaction_id user_id i value comment now)

  -- By what `interactions.delivered_at` answers.
  abbrev pub capture_at :
      ℕ
      → ℕ
      → InteractionRecord
      → RatingValue
      → Option Comment
      → Result PortError Moment
      → Action RatingCaptureResult
  capture_at interaction_id user_id i value comment (err e) =
      pure (refused failed_retryable (some (of_port e.reason_code)))
  capture_at interaction_id user_id i value comment (ok at) =
      capture_delivered interaction_id user_id i value comment at

  -- The part of `capture` from the interaction on.
  unfoldable pub capture_found :
      ℕ → ℕ → RatingValue → Option Comment → InteractionRecord → Action RatingCaptureResult
  unfolding capture_delivered
  capture_found interaction_id user_id value comment i =
      if not (i.user_id == user_id)
      then pure (refused rejected_not_found (some not_owner))
      else capture_at interaction_id user_id i value comment (env.delivered_at interaction_id)

  -- By what `interactions.get` answers.
  abbrev pub capture_got :
      ℕ
      → ℕ
      → RatingValue
      → Option Comment
      → Result PortError InteractionRecord
      → Action RatingCaptureResult
  capture_got interaction_id user_id value comment (err e) = pure (refused_by_get e)
  capture_got interaction_id user_id value comment (ok i) =
      capture_found interaction_id user_id value comment i

  -- `RatingService.capture`
  unfoldable pub capture_rating :
      ℕ → Option ℕ → RatingValue → Option Comment → Action RatingCaptureResult
  unfolding capture_found
  capture_rating interaction_id none value comment = pure (refused rejected_anonymous none)
  capture_rating interaction_id (some user_id) value comment =
      capture_got interaction_id user_id value comment (env.get interaction_id)

  -- `FeedbackFacade.capture`
  unfoldable pub capture : ℕ → Option ℕ → RatingValue → Option Comment → Action RatingCaptureResult
  unfolding capture_rating
  capture interaction_id user_id value comment =
      attempt (capture_rating interaction_id user_id value comment)
        (λ e. pure (refused failed_retryable (some unexpected_failure))) (λ result. pure result)

  unfoldable pub current_rating_for : ℕ → ℕ → Action (Option RatingRecord)
  unfolding resolve_current
  current_rating_for interaction_id user_id =
      for_interaction env interaction_id >>= λ history. pure (resolve_current user_id history)

  unfoldable pub history_for : ℕ → ℕ → Action (List RatingRecord)
  history_for interaction_id user_id = for_interaction env interaction_id >>= λ history.
      pure (keep (λ (r : RatingRecord). r.user_id == user_id) history)

  -- `FeedbackFacade.current_rating`
  unfoldable pub current_rating : ℕ → ℕ → Action (Option RatingRecord)
  unfolding current_rating_for
  current_rating interaction_id user_id =
      attempt (current_rating_for interaction_id user_id) (λ e. pure none) (λ r. pure r)
