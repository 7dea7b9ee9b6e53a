-- ===== src/Gaps/Tests.antt =====
-- Runs of the gap analysis at concrete inputs.
use ai_coaching_agent.Common.{
  ℕ, ◌+◌, ◌≡◌, refl, Option, none, some, List, [], ◌∷◌, All, length, keep, not, ◌==◌,
}
use ai_coaching_agent.Common.Dict.{lookup, insert}
use ai_coaching_agent.Common.Members.{Holds, Holds-All}
use ai_coaching_agent.Common.Sort.{IsDistinct, sort_by, insert_by}
use ai_coaching_agent.Socratic.Dialogue.{NaricLevel}
use ai_coaching_agent.Gaps.History.{
  InteractionRecord, RatingState, qualifying_interactions, aggregate_history,
}
use ai_coaching_agent.Gaps.Signals.{
  FeedbackRecord, Rating, AnalysisThresholds, build_low_rating_index, detect_struggles,
}
use ai_coaching_agent.Gaps.Grounded.{IsGrounded, detect_struggles-IsGrounded}
use ai_coaching_agent.Streak.Records.{SourceStatus}
use ai_coaching_agent.Gaps.Recommendations.{
  RecommendationType, course, lesson, CourseSummary, Recommendation, CoursesLoad, enrolled_in,
  courses_by, tally_all, judge, find_lesson, lessons_for_topic, validate_recommendations,
}
use ai_coaching_agent.Gaps.Resolved.{IsIteration, IsResolved, validate_recommendations-IsResolved}
use ai_coaching_agent.Gaps.Counting.{Keeps, qualifying_interactions-IsDistinct}

abbrev asked : ℕ → ℕ → ℕ → InteractionRecord
asked id user at = record {
  interaction_id = id;
  session_id = 1;
  user_id = user;
  asked_at = at;
  topic_tag = 9;
  question_class = 0;
  naric_level = NaricLevel.level_5;
  response_id = id;
  follow_up_of = none;
  explain_differently_count = 2;
  rating_state = RatingState.rated;
}

abbrev returned : List InteractionRecord
returned = asked 3 5 20 ∷ asked 4 6 21 ∷ asked 3 5 22 ∷ asked 1 5 10 ∷ []

abbrev thresholds : AnalysisThresholds
thresholds = record {
  gap_report_threshold = 10;
  min_topic_areas = 3;
  explain_differently_struggle_threshold = 2;
  low_rating_struggle_threshold = 1;
  follow_up_struggle_threshold = 2;
}

abbrev feedback : Option (List FeedbackRecord)
feedback = some (
    record {
      rating_id = 8;
      interaction_id = 3;
      user_id = 5;
      rated_at = 30;
      rating = Rating.down;
      comment = none;
    }
    ∷ [])

qualifying_interactions-IsDistinct_example :
    let q = qualifying_interactions 5 returned in
    All (λ (r : InteractionRecord). Holds r returned × (r.user_id ≡ 5)) q.records
    × IsDistinct (λ (r : InteractionRecord). r.interaction_id) q.records
    × ((m : InteractionRecord)
        → Holds m returned
        → m.user_id ≡ 5
        → Keeps 5 m.interaction_id q.records)
    × (q.other_user_records_discarded
        ≡ length (keep (λ (r : InteractionRecord). not (r.user_id == 5)) returned))
    × (length q.records + q.duplicates_discarded + q.other_user_records_discarded ≡ length returned)
qualifying_interactions-IsDistinct_example = qualifying_interactions-IsDistinct 5 returned

detect_struggles-IsGrounded_example :
    let history = aggregate_history 5 (qualifying_interactions 5 returned) in
    All
      (IsGrounded 5 returned)
      (detect_struggles history thresholds (build_low_rating_index history feedback))
detect_struggles-IsGrounded_example = detect_struggles-IsGrounded 5 returned feedback thresholds

abbrev catalogue : List CourseSummary
catalogue =
    record {
      course_id = 2;
      title = some 20;
      topic_tags = 9 ∷ [];
      lessons = record { lesson_id = 6; title = none; topic_tags = 9 ∷ [] } ∷ [];
    }
    ∷ []

abbrev recommended : RecommendationType → ℕ → Option ℕ → Recommendation
recommended type id lesson_id = record {
  topic_tag = 9;
  recommendation_type = type;
  course_id = id;
  lesson_id = lesson_id;
  title = none;
}

-- The learner is enrolled in the course, so its lesson is recommended; another course is unknown.
abbrev load : CoursesLoad
load = record {
  status = SourceStatus.available;
  candidates =
      some (
        recommended course 2 none ∷ recommended course 3 none ∷ recommended lesson 2 (some 6) ∷ []);
  enrolments =
      record { user_id = 5; course_id = 2; enrolled_at = none; completion_percentage = none } ∷ [];
  catalogue = catalogue;
}

abbrev as_added : List Recommendation → List Recommendation
as_added rs = rs

as_added-IsIteration : IsIteration as_added
as_added-IsIteration rs = Holds-All rs

validate_recommendations-IsResolved_example :
    All
      (λ row. All (IsResolved load.catalogue (enrolled_in 5 load.enrolments) (9 ∷ []) row.0) row.1)
      (validate_recommendations as_added load (9 ∷ []) 5).by_topic
validate_recommendations-IsResolved_example =
    validate_recommendations-IsResolved as_added as_added-IsIteration load (9 ∷ []) 5

abbrev the_lesson : Recommendation
the_lesson = recommended lesson 2 (some 6)

-- One recommendation stands, converted and then found again.
stands : (validate_recommendations as_added load (9 ∷ []) 5).by_topic ≡ (9, the_lesson ∷ []) ∷ []
unfolding validate_recommendations courses_by tally_all judge lookup insert find_lesson
    lessons_for_topic sort_by insert_by
stands = refl
