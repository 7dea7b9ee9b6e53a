-- ===== src/Feedback/Tests.antt =====
-- Runs of the feedback at concrete inputs.
use ai_coaching_agent.Common.{
  ℕ, ◌+◌, ◌*◌, ◌≡◌, refl, sym, ap, true, ◌↔◌, inl, inr, ◌==◌, ==_iff, Bool-cases, ◌∙◌,
  if◌then◌else◌, Option, none, some, List, [], ◌∷◌, All, Result, ok, err, arith,
}
use ai_coaching_agent.Common.Dict.{lookup, insert, Has, lookup-insert, lookup-insert_cases}
use ai_coaching_agent.Common.Fraction.{frac}
use ai_coaching_agent.Common.Members.{Holds}
use ai_coaching_agent.Common.Sort.{sort_by, insert_by, fromkeys, max_by}
use ai_coaching_agent.Common.Effect.{attempt}
use ai_coaching_agent.Streak.Time.{Moment, day}
use ai_coaching_agent.Feedback.Records.{
  NaricLevel, NaricLevelSource, ExplanationProfile, SourceStatus, RatingValue, up, down, opened,
  reviewed, ResponseCategory, InteractionRecord, RatingRecord, ContentReviewFlag, PortError,
  PortErrorKind, recorded, RatingCaptureResult, captured, is_down,
}
use ai_coaching_agent.Feedback.Flagging.{
  Window, FlaggingPolicy, FlagCandidate, FlagWorkItem, is_pending, flagged, decide_topic, decide_on,
  in_window, downs_of, reason_for, interactions_of, meets_threshold,
}
use ai_coaching_agent.Feedback.Store.{
  World, Env, ask, reach, save_rating, for_interaction, supersede, current_in_window,
  pending_for_topic, enqueue, open_flag_for, save_flag, resolve, flag_created,
}
use ai_coaching_agent.Feedback.Store.Extends.{IsDurable}
use ai_coaching_agent.Feedback.Review.{
  run_cycle, set_status, evaluate_topic, decide_now, current_window, current_policy,
}
use ai_coaching_agent.Feedback.Review.Durable.{run_cycle-IsDurable}
use ai_coaching_agent.Feedback.Review.Status.{IsKeyed, IsMoved, set_status-forward}
use ai_coaching_agent.Feedback.Decision.{
  Fires, Tally, Counts, HasDown, decide_topic-Fires, decide_topic-causes,
}
use ai_coaching_agent.Feedback.Rating.{
  capture, capture_rating, capture_found, capture_delivered, record_rating, finish_capture,
  supersede_previous, supersede_each, isolated, current_rating_for, build_record, clean, strip_left,
  strip_right, is_space,
}
use ai_coaching_agent.Feedback.Rating.Captured.{
  IsEarlier, IsAnswering, IsOutcome, capture-returns, capture-current,
}
use ai_coaching_agent.Feedback.Rating.Comments.{IsNeat, build_record-IsNeat}

abbrev interaction : InteractionRecord
interaction = record {
  interaction_id = 1;
  session_id = 2;
  user_id = 5;
  question_text = "What is a ratio?";
  response_text = "A comparison of two numbers.";
  response_category = ResponseCategory.answer;
  topic_tag = 9;
  session_mode = 0;
  naric_level = NaricLevel.level_5;
  naric_level_source = NaricLevelSource.retrieved;
  explanation_profile = ExplanationProfile.intermediate;
  naric_source_status = SourceStatus.available;
  course_completion_percent = none;
  delivered_at = 7 * day;
  source_status = SourceStatus.available;
}

-- The fourth question is the read of the history, which fails here.
abbrev unavailable : PortError
unavailable = record {
  kind = PortErrorKind.provider_unavailable;
  reason_code = 3;
  retryable = true;
}

abbrev fails_at : ℕ → ℕ → Option PortError
fails_at n k = if n == k then some unavailable else none

abbrev env_failing : (ℕ → Option PortError) → Env
env_failing fails = record {
  get = λ i. ok interaction;
  delivered_at = λ i. ok (7 * day);
  now = λ n. 7 * day + n;
  new_id = λ n. 100 + n;
  fails = fails;
  down_rate_threshold = λ n. frac 3 10;
  minimum_sample_size = λ n. 1;
  window_days = λ n. 7;
  historical_rating_window_hours = λ n. 24;
}

abbrev env : Env
env = env_failing (fails_at 4)

abbrev env_well : Env
env_well = env_failing (λ n. none)

abbrev rating : ℕ → RatingValue → Moment → RatingRecord
rating id value at = record {
  rating_id = id;
  interaction_id = 1;
  session_id = 2;
  user_id = 5;
  rating = value;
  comment = none;
  question_text = "What is a ratio?";
  response_text = "A comparison of two numbers.";
  naric_level = NaricLevel.level_5;
  session_mode = 0;
  topic_tag = 9;
  rated_at = at;
  superseded_by = none;
}

abbrev rated : World
rated = record {
  ratings = (50, rating 50 up 5) ∷ [];
  flags = [];
  work = [];
  notified = [];
  asked = 0;
}

rated-IsEarlier : IsEarlier env 1 5 rated
rated-IsEarlier n = (λ own. omega arith, tt)

abbrev id_of : Result PortError InteractionRecord → ℕ
id_of (ok i) = i.interaction_id
id_of (err e) = 0

env-IsAnswering : IsAnswering env 1
env-IsAnswering i e = sym (ap id_of e)

capture-returns_example :
    let after = capture env 1 (some 5) down none rated in
    (r : RatingCaptureResult) × (after.0 ≡ ok r) × IsOutcome 1 5 down rated r after.1
capture-returns_example = capture-returns env 1 5 down none rated rated-IsEarlier env-IsAnswering

abbrev expected : RatingCaptureResult
expected = captured recorded (rating 102 down (7 * day)) none

captured_now : (capture env 1 (some 5) down none rated).0 ≡ ok expected
unfolding capture capture_rating capture_found capture_delivered record_rating build_record
    finish_capture supersede_previous supersede_each isolated clean attempt ask reach save_rating
    for_interaction supersede insert evaluate_topic decide_now current_window current_policy
    current_in_window sort_by pending_for_topic enqueue open_flag_for max_by save_flag resolve
    lookup flag_created
captured_now = refl

capture-current_example :
    let after = capture env 1 (some 5) down none rated in
    (current_rating_for env_well 1 5 after.1).0 ≡ ok expected.rating
capture-current_example =
    capture-current env env_well 1 5 down none rated expected rated-IsEarlier env-IsAnswering
      captured_now refl refl

abbrev text : Option (List ℕ)
text = some (32 ∷ 79 ∷ 75 ∷ 10 ∷ [])

abbrev kept : RatingRecord
kept = record (rating 7 up 60) { comment = some (79 ∷ 75 ∷ []) }

kept_now : (build_record 7 interaction up text 60 rated).0 ≡ ok kept
unfolding build_record clean strip_left strip_right is_space
kept_now = refl

build_record-IsNeat_example : IsNeat kept.comment
build_record-IsNeat_example = build_record-IsNeat 7 interaction up text 60 rated kept kept_now

abbrev week : Window
week = record { start = 0; end = 7 * day }

abbrev policy : FlaggingPolicy
policy = record { down_rate_threshold = frac 3 10; minimum_sample_size = 2 }

abbrev ratings : List RatingRecord
ratings = rating 50 up 5 ∷ rating 51 down 6 ∷ []

decide_topic-Fires_example :
    let decision = decide_topic 9 ratings week policy 8 in
    Tally 9 week ratings decision.down_ratings decision.total_ratings
    × ((decision.reason ≡ flagged) ↔ Fires decision.down_ratings decision.total_ratings policy)
decide_topic-Fires_example = decide_topic-Fires 9 ratings week policy 8

abbrev candidate : FlagCandidate
candidate = record {
  topic_tag = 9;
  window = week;
  total_ratings = 2;
  down_ratings = 1;
  down_rate = frac 1 2;
  threshold_applied = frac 3 10;
  minimum_sample_size_applied = 2;
  flagging_interaction_ids = 1 ∷ [];
  evaluated_at = 8;
}

decided : (decide_topic 9 ratings week policy 8).candidate ≡ some candidate
unfolding decide_topic decide_on in_window downs_of reason_for interactions_of meets_threshold
    fromkeys sort_by insert_by
decided = refl

decide_topic-causes_example :
    All (HasDown 9 ratings week) candidate.flagging_interaction_ids
    × ((r : RatingRecord)
        → Holds r ratings
        → is_down r ≡ true
        → Counts 9 week r
        → Holds r.interaction_id candidate.flagging_interaction_ids)
decide_topic-causes_example = decide_topic-causes 9 ratings week policy 8 candidate decided

abbrev item : FlagWorkItem
item = record {
  work_id = 4;
  candidate = candidate;
  enqueued_at = 8;
  attempts = 0;
  last_reason_code = none;
  resolved_at = none;
  resolved_flag_id = none;
}

abbrev flag : ContentReviewFlag
flag = record {
  flag_id = 3;
  topic_tag = 9;
  window_start = 0;
  window_end = 5;
  total_ratings = 2;
  down_ratings = 1;
  down_rate = frac 1 2;
  threshold_applied = frac 3 10;
  flagging_interaction_ids = 1 ∷ [];
  created_at = 5;
  status = opened;
  minimum_sample_size_applied = 2;
  updated_at = none;
}

abbrev deferred_world : World
deferred_world = record {
  ratings = (50, rating 50 up 5) ∷ (51, rating 51 down 6) ∷ [];
  flags = insert 3 flag [];
  work = insert 4 item [];
  notified = [];
  asked = 0;
}

empty-lookup {ℓ} : {V : Type ℓ} (k : ℕ) (v : V) → lookup k [] ≡ some v → ⊥
unfolding lookup
empty-lookup k v e = absurd (ground (arith, e))

deferred-IsDurable : IsDurable deferred_world
deferred-IsDurable id i e = elim (lookup-insert_cases 4 id item i [] e) [
  | inl same ↦ inl (ap is_pending same)
  | inr other ↦ absurd (empty-lookup id i other)
]

run_cycle-IsDurable_example :
    let after = (run_cycle env none deferred_world).1 in
    IsDurable after
    × ((id : ℕ) → Has id deferred_world.flags → Has id after.flags)
    × ((id : ℕ) → Has id deferred_world.work → Has id after.work)
run_cycle-IsDurable_example = run_cycle-IsDurable env none deferred_world deferred-IsDurable

deferred-IsKeyed : IsKeyed deferred_world
deferred-IsKeyed k f e = elim (lookup-insert_cases 3 k flag f [] e) [
  | inr other ↦ absurd (empty-lookup k f other)
  | inl same ↦ elim (Bool-cases (3 == k)) [
    | inl own ↦ ap (λ (g : ContentReviewFlag). g.flag_id) same ∙ (==_iff 3 k).0 own
    | inr other ↦ absurd (empty-lookup k f (sym (lookup-insert 3 k flag [] ∙ (rw other refl)) ∙ e))
  ]
]

set_status-forward_example :
    IsMoved 3 reviewed deferred_world (set_status env_well 3 reviewed deferred_world).1
set_status-forward_example = set_status-forward env_well 3 reviewed deferred_world deferred-IsKeyed
