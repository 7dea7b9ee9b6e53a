-- ===== src/Feedback/Store.antt =====
-- packages/uc10/uc10/adapters/memory/repositories.py: the repositories of ratings, flags and work
-- items, and what the clock, the settings and the identifiers answer.
-- The world counts the questions that were put to the outside. `fails` says of each call of a port
-- whether it raises; a call that raises writes nothing. The lock that each repository holds for one
-- operation is not modelled.
pub mod Reach
pub mod Extends
use ai_coaching_agent.Common.{
  ℕ, ◌+◌, Bool, true, false, ◌&&◌, Option, none, some, List, [], ◌∷◌, ◌++◌, map, keep, Result, ok,
  err, ◌==◌, if◌then◌else◌,
}
use ai_coaching_agent.Common.Dict.{Dict, lookup, insert, values}
use ai_coaching_agent.Common.Fraction.{Fraction}
use ai_coaching_agent.Common.Sort.{sort_by, max_by}
use ai_coaching_agent.Common.Effect.{
  Effect, pure, raise, gets, modify, attempt, of_result, ◌>>=◌, ◌>>◌,
}
use ai_coaching_agent.Streak.Time.{Moment}
use ai_coaching_agent.Feedback.Records.{
  InteractionRecord, RatingRecord, superseded, is_current, ContentReviewFlag, FlagStatus, is_open,
  PortError, PortErrorKind,
}
use ai_coaching_agent.Feedback.Flagging.{
  Window, contains_moment, overlaps, PolicyError, FlagCandidate, FlagWorkItem, is_pending, failed,
  resolved, with_candidate,
}

pub record World : Type 0 where
  pub ratings : Dict RatingRecord
  pub flags : Dict ContentReviewFlag
  pub work : Dict FlagWorkItem
  pub notified : List ContentReviewFlag
  pub asked : ℕ

-- What the outside answers to the question of each number.
pub record Env : Type 0 where
  pub get : ℕ → Result PortError InteractionRecord
  pub delivered_at : ℕ → Result PortError Moment
  pub now : ℕ → Moment
  pub new_id : ℕ → ℕ
  pub fails : ℕ → Option PortError
  pub down_rate_threshold : ℕ → Fraction
  pub minimum_sample_size : ℕ → ℕ
  pub window_days : ℕ → ℕ
  pub historical_rating_window_hours : ℕ → ℕ

pub data ServiceError : Type 0 where
  port : PortError → ServiceError
  policy : PolicyError → ServiceError
  flag_not_found invalid_record : ServiceError
  invalid_status_transition : FlagStatus → FlagStatus → ServiceError

abbrev pub Action : Type 0 → Type 0
Action A = Effect World ServiceError A

-- A question to the clock, the settings or the generator of identifiers.
unfoldable pub ask : {A : Type 0} → (ℕ → A) → Action A
ask answers w = (ok (answers w.asked), record w { asked = w.asked + 1 })

abbrev pub raise_if : Option PortError → Action (Unit {0})
raise_if none = pure tt
raise_if (some e) = raise (port e)

-- A call of a port, which may raise.
unfoldable pub reach : Env → Action (Unit {0})
unfolding ask
reach env = ask env.fails >>= raise_if

abbrev pub found : {A : Type 0} → PortError → Option A → Action A
found e none = raise (port e)
found e (some a) = pure a

-- `except PortError`; another exception passes.
abbrev pub on_port : {A : Type 0} → (PortError → Action A) → ServiceError → Action A
on_port h (port e) = h e
on_port h e = raise e

-- `try: m` with an `except PortError` that only logs.
unfoldable pub shielded : {A : Type 0} → Action A → Action (Unit {0})
shielded m = attempt m (on_port (λ e. pure tt)) (λ a. pure tt)

-- `RecordNotFound`; the reason code 0 stands for the one of the repository.
abbrev pub missing : PortError
missing = record { kind = PortErrorKind.record_not_found; reason_code = 0; retryable = false }

-- The first of a list that is about a topic.
abbrev pub first_for : ℕ → List FlagWorkItem → Option FlagWorkItem
first_for topic_tag [] = none
first_for topic_tag (i ∷ is) =
    if i.candidate.topic_tag == topic_tag then some i else first_for topic_tag is

-- `_require`, then the change of the item that it finds.
unfoldable pub change_item : ℕ → (FlagWorkItem → FlagWorkItem) → Action FlagWorkItem
change_item work_id change = do
  row ← gets (λ (w : World). lookup work_id w.work)
  item ← found missing row
  modify (λ w. record w { work = insert work_id (change item) w.work })
  pure (change item)

module _ (env : Env) where
  -- `InMemoryRatingRepository`
  unfoldable pub save_rating : RatingRecord → Action RatingRecord
  unfolding reach
  save_rating r = do
    reach env
    modify (λ w. record w { ratings = insert r.rating_id r w.ratings })
    pure r

  unfoldable pub for_interaction : ℕ → Action (List RatingRecord)
  unfolding reach
  for_interaction interaction_id = do
    reach env
    gets (λ w.
        sort_by (λ (r : RatingRecord). r.rated_at)
          (keep (λ (r : RatingRecord). r.interaction_id == interaction_id) (values w.ratings)))

  unfoldable pub supersede : ℕ → ℕ → Action RatingRecord
  unfolding reach
  supersede rating_id by = do
    reach env
    row ← gets (λ w. lookup rating_id w.ratings)
    existing ← found missing row
    modify (λ w. record w { ratings = insert rating_id (superseded by existing) w.ratings })
    pure (superseded by existing)

  unfoldable pub current_in_window : Window → Action (List RatingRecord)
  unfolding reach
  current_in_window window = do
    reach env
    gets (λ w.
        sort_by (λ (r : RatingRecord). r.rated_at)
          (keep (λ (r : RatingRecord). is_current r && contains_moment window r.rated_at)
            (values w.ratings)))

  -- `InMemoryFlagRepository`
  unfoldable pub save_flag : ContentReviewFlag → Action ContentReviewFlag
  unfolding reach
  save_flag f = do reach env; modify (λ w. record w { flags = insert f.flag_id f w.flags }); pure f

  unfoldable pub open_flag_for : ℕ → Window → Action (Option ContentReviewFlag)
  unfolding reach
  open_flag_for topic_tag window = do
    reach env
    gets (λ w.
        max_by (λ (f : ContentReviewFlag). f.window_end)
          (keep
            (λ (f : ContentReviewFlag).
              f.topic_tag == topic_tag
              && is_open f.status
              && overlaps (record { start = f.window_start; end = f.window_end }) window)
            (values w.flags)))

  unfoldable pub get_flag : ℕ → Action ContentReviewFlag
  unfolding reach
  get_flag flag_id = do reach env; row ← gets (λ w. lookup flag_id w.flags); found missing row

  unfoldable pub update_flag : ContentReviewFlag → Action ContentReviewFlag
  unfolding reach
  update_flag f = do
    reach env
    row ← gets (λ w. lookup f.flag_id w.flags)
    existing ← found missing row
    modify (λ w. record w { flags = insert f.flag_id f w.flags })
    pure f

  unfoldable pub list_open : Action (List ContentReviewFlag)
  unfolding reach
  list_open = do
    reach env
    gets (λ w.
        sort_by (λ (f : ContentReviewFlag). f.created_at)
          (keep (λ (f : ContentReviewFlag). is_open f.status) (values w.flags)))

  -- `InMemoryFlagWorkQueue`
  unfoldable pub enqueue : FlagCandidate → Action FlagWorkItem
  unfolding reach ask
  enqueue candidate = do
    reach env
    work_id ← ask env.new_id
    enqueued_at ← ask env.now
    let item : FlagWorkItem = record {
      work_id = work_id;
      candidate = candidate;
      enqueued_at = enqueued_at;
      attempts = 0;
      last_reason_code = none;
      resolved_at = none;
      resolved_flag_id = none;
    } in
        do modify (λ w. record w { work = insert work_id item w.work }); pure item

  unfoldable pub pending : Action (List FlagWorkItem)
  unfolding reach
  pending = do
    reach env
    gets (λ w. sort_by (λ (i : FlagWorkItem). i.enqueued_at) (keep is_pending (values w.work)))

  unfoldable pub pending_for_topic : ℕ → Action (Option FlagWorkItem)
  unfolding pending
  pending_for_topic topic_tag = pending >>= λ is. pure (first_for topic_tag is)

  unfoldable pub mark_failed : ℕ → ℕ → Action FlagWorkItem
  unfolding reach change_item
  mark_failed work_id reason_code = reach env >> change_item work_id (failed reason_code)

  unfoldable pub resolve : ℕ → ℕ → Action FlagWorkItem
  unfolding reach change_item ask
  resolve work_id flag_id = do
    reach env
    at ← ask env.now
    change_item work_id (resolved flag_id at)

  unfoldable pub update_candidate : ℕ → FlagCandidate → Action FlagWorkItem
  unfolding reach change_item
  update_candidate work_id candidate = reach env >> change_item work_id (with_candidate candidate)

  -- `RecordingAdminNotificationSink.flag_created`
  unfoldable pub flag_created : ContentReviewFlag → Action (Unit {0})
  unfolding reach
  flag_created f = reach env >> modify (λ w. record w { notified = w.notified ++ f ∷ [] })
