-- ===== src/Gaps/Recommendations.antt =====
-- packages/uc07/uc07/application/recommendations.py: which recommendations for the gaps stand.
-- A set is a list without repetitions; Python does not say in what order it goes through one, so
-- that order is a parameter. A title is a number, and 0 is the empty one.
use ai_coaching_agent.Common.{
  ℕ, ◌+◌, suc, Bool, true, false, ◌&&◌, Option, none, some, List, [], ◌∷◌, ◌++◌, map, keep, any,
  length, contains, ◌==◌, if◌then◌else◌,
}
use ai_coaching_agent.Common.Dict.{Dict, lookup, insert}
use ai_coaching_agent.Common.Sort.{sort_by}
use ai_coaching_agent.Streak.Time.{Moment}
use ai_coaching_agent.Streak.Records.{SourceStatus}

pub data RecommendationType : Type 0 where
  course lesson : RecommendationType

pub data RecommendationStatus : Type 0 where
  available partial unavailable empty : RecommendationStatus

pub record LessonSummary : Type 0 where
  pub lesson_id : ℕ
  pub title : Option ℕ
  pub topic_tags : List ℕ

pub record CourseSummary : Type 0 where
  pub course_id : ℕ
  pub title : Option ℕ
  pub topic_tags : List ℕ
  pub lessons : List LessonSummary

pub record Enrolment : Type 0 where
  pub user_id : ℕ
  pub course_id : ℕ
  pub enrolled_at : Option Moment
  pub completion_percentage : Option ℕ

pub record Recommendation : Type 0 where
  pub topic_tag : ℕ
  pub recommendation_type : RecommendationType
  pub course_id : ℕ
  pub lesson_id : Option ℕ
  pub title : Option ℕ

pub record CoursesLoad : Type 0 where
  pub status : SourceStatus
  pub candidates : Option (List Recommendation)
  pub enrolments : List Enrolment
  pub catalogue : List CourseSummary

pub record RecommendationSummary : Type 0 where
  pub status : RecommendationStatus
  pub resolved_count : ℕ
  pub rejected_unresolvable_count : ℕ
  pub converted_to_lesson_count : ℕ
  pub dropped_already_enrolled_count : ℕ

pub record RecommendationPlan : Type 0 where
  pub by_topic : Dict (List Recommendation)
  pub summary : RecommendationSummary

-- Equality of recommendations, which a set goes by.
abbrev pub same_option : Option ℕ → Option ℕ → Bool
same_option none none = true
same_option (some a) (some b) = a == b
same_option _ _ = false

abbrev pub same_type : RecommendationType → RecommendationType → Bool
same_type course course = true
same_type lesson lesson = true
same_type _ _ = false

abbrev pub same : Recommendation → Recommendation → Bool
same a b =
    a.topic_tag == b.topic_tag
    && (same_type a.recommendation_type b.recommendation_type
        && (a.course_id == b.course_id
            && (same_option a.lesson_id b.lesson_id && same_option a.title b.title)))

-- `set.add` and `set.update`
abbrev pub add : List Recommendation → Recommendation → List Recommendation
add set r = if any (same r) set then set else set ++ r ∷ []

abbrev pub update : List Recommendation → List Recommendation → List Recommendation
update set [] = set
update set (r ∷ rs) = update (add set r) rs

-- `title or other`: an empty title gives way as a missing one does.
abbrev pub title_or : Option ℕ → Option ℕ → Option ℕ
title_or none other = other
title_or (some t) other = if t == 0 then other else some t

-- `{course.course_id: course for course in load.catalogue}`
unfoldable pub courses_by : Dict CourseSummary → List CourseSummary → Dict CourseSummary
courses_by d [] = d
courses_by d (c ∷ cs) = courses_by (insert c.course_id c d) cs

abbrev pub enrolled_in : ℕ → List Enrolment → List ℕ
enrolled_in user_id es =
    map (λ (e : Enrolment). e.course_id) (keep (λ (e : Enrolment). e.user_id == user_id) es)

-- `CourseSummary.lesson`, which finds nothing for the empty identifier.
unfoldable pub find_lesson : ℕ → List LessonSummary → Option LessonSummary
find_lesson id [] = none
find_lesson id (l ∷ ls) = if l.lesson_id == id then some l else find_lesson id ls

abbrev pub lesson_of : Option ℕ → CourseSummary → Option LessonSummary
lesson_of none c = none
lesson_of (some id) c = find_lesson id c.lessons

abbrev pub lesson_in : ℕ → CourseSummary → Option ℕ → LessonSummary → Recommendation
lesson_in topic_tag c title l = record {
  topic_tag = topic_tag;
  recommendation_type = lesson;
  course_id = c.course_id;
  lesson_id = some l.lesson_id;
  title = title;
}

-- `_lessons_for_topic`
unfoldable pub lessons_for_topic : CourseSummary → ℕ → List Recommendation
lessons_for_topic c topic_tag =
    map (λ (l : LessonSummary). lesson_in topic_tag c l.title l)
      (keep (λ (l : LessonSummary). contains topic_tag l.topic_tags) c.lessons)

-- What the loop makes of a candidate.
pub data Verdict : Type 0 where
  irrelevant unresolvable already_enrolled : Verdict
  accepted converted : List Recommendation → Verdict

abbrev pub judge_lesson : Recommendation → CourseSummary → Option LessonSummary → Verdict
judge_lesson r c none = unresolvable
judge_lesson r c (some l) = accepted (lesson_in r.topic_tag c (title_or r.title l.title) l ∷ [])

abbrev pub judge_enrolled : List Recommendation → Verdict
judge_enrolled [] = already_enrolled
judge_enrolled (l ∷ ls) = converted (l ∷ ls)

abbrev pub course_for : Recommendation → CourseSummary → Recommendation
course_for r c = record {
  topic_tag = r.topic_tag;
  recommendation_type = course;
  course_id = c.course_id;
  lesson_id = none;
  title = title_or r.title c.title;
}

abbrev pub judge_course : List ℕ → Recommendation → CourseSummary → Verdict
judge_course enrolled r c =
    if contains r.course_id enrolled
    then judge_enrolled (lessons_for_topic c r.topic_tag)
    else accepted (course_for r c ∷ [])

abbrev pub judge_type : List ℕ → Recommendation → CourseSummary → RecommendationType → Verdict
judge_type enrolled r c lesson = judge_lesson r c (lesson_of r.lesson_id c)
judge_type enrolled r c course = judge_course enrolled r c

abbrev pub judge_found : List ℕ → Recommendation → Option CourseSummary → Verdict
judge_found enrolled r none = unresolvable
judge_found enrolled r (some c) = judge_type enrolled r c r.recommendation_type

unfoldable pub judge : Dict CourseSummary → List ℕ → List ℕ → Recommendation → Verdict
unfolding lessons_for_topic find_lesson
judge courses enrolled wanted r =
    if contains r.topic_tag wanted
    then judge_found enrolled r (lookup r.course_id courses)
    else irrelevant

pub record Tally : Type 0 where
  pub accepted_by : Dict (List Recommendation)
  pub rejected : ℕ
  pub converted_count : ℕ
  pub dropped_enrolled : ℕ

abbrev pub set_or : Option (List Recommendation) → List Recommendation
set_or none = []
set_or (some set) = set

abbrev pub put : ℕ → List Recommendation → Tally → Tally
put topic_tag rs t = record t {
  accepted_by =
      insert topic_tag (update (set_or (lookup topic_tag t.accepted_by)) rs) t.accepted_by;
}

abbrev pub tally : Recommendation → Verdict → Tally → Tally
tally r irrelevant t = t
tally r unresolvable t = record t { rejected = t.rejected + 1 }
tally r already_enrolled t = record t { dropped_enrolled = t.dropped_enrolled + 1 }
tally r (accepted rs) t = put r.topic_tag rs t
tally r (converted rs) t =
    let t' = put r.topic_tag rs t in record t' { converted_count = t'.converted_count + 1 }

unfoldable pub tally_all :
    Dict CourseSummary → List ℕ → List ℕ → Tally → List Recommendation → Tally
unfolding judge
tally_all courses enrolled wanted t [] = t
tally_all courses enrolled wanted t (r ∷ rs) =
    tally_all courses enrolled wanted (tally r (judge courses enrolled wanted r) t) rs

-- `rec.sort_key` within one topic: the course, then the lesson.
abbrev pub lesson_key : Option ℕ → ℕ
lesson_key none = 0
lesson_key (some id) = suc id

abbrev pub sorted_set : List Recommendation → List Recommendation
sorted_set rs =
    sort_by (λ (r : Recommendation). r.course_id)
      (sort_by (λ (r : Recommendation). lesson_key r.lesson_id) rs)

abbrev pub sizes : Dict (List Recommendation) → ℕ
sizes [] = 0
sizes ((tag, rs) ∷ rows) = length rs + sizes rows

-- `load.status is SourceStatus.PARTIAL`
abbrev pub status_for : SourceStatus → ℕ → RecommendationStatus
status_for SourceStatus.partial n = partial
status_for _ n = if n == 0 then empty else available

module _ (iterate : List Recommendation → List Recommendation) where
  abbrev pub sorted_rows : Dict (List Recommendation) → Dict (List Recommendation)
  sorted_rows [] = []
  sorted_rows ((tag, rs) ∷ rows) = (tag, sorted_set (iterate rs)) ∷ sorted_rows rows

  abbrev pub plan_for : SourceStatus → Tally → RecommendationPlan
  plan_for source t =
      let by_topic =
        sort_by (λ (row : ℕ × List Recommendation). row.0) (sorted_rows t.accepted_by) in
      record {
        by_topic = by_topic;
        summary = record {
          status = status_for source (sizes by_topic);
          resolved_count = sizes by_topic;
          rejected_unresolvable_count = t.rejected;
          converted_to_lesson_count = t.converted_count;
          dropped_already_enrolled_count = t.dropped_enrolled;
        };
      }

  abbrev pub validate_from :
      CoursesLoad → List ℕ → ℕ → Option (List Recommendation) → RecommendationPlan
  validate_from load wanted user_id none = record {
    by_topic = [];
    summary = record {
      status = unavailable;
      resolved_count = 0;
      rejected_unresolvable_count = 0;
      converted_to_lesson_count = 0;
      dropped_already_enrolled_count = 0;
    };
  }
  validate_from load wanted user_id (some candidates) = plan_for load.status (
      tally_all (courses_by [] load.catalogue) (enrolled_in user_id load.enrolments) wanted
        (record { accepted_by = []; rejected = 0; converted_count = 0; dropped_enrolled = 0 })
        candidates)

  unfoldable pub validate_recommendations : CoursesLoad → List ℕ → ℕ → RecommendationPlan
  unfolding courses_by tally_all
  validate_recommendations load wanted user_id = validate_from load wanted user_id load.candidates
