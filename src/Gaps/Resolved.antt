-- ===== src/Gaps/Resolved.antt =====
-- What the recommendations that stand refer to.
use ai_coaching_agent.Common.{
  ℕ, ◌≡◌, refl, sym, subst, true, false, inl, inr, Option, none, some, List, [], ◌∷◌, any, All,
  ◌==◌, Bool-cases, contains, arith,
}
use ai_coaching_agent.Common.Dict.{Dict, lookup, insert}
use ai_coaching_agent.Common.Dict.Values.{Rows, insert-Rows, lookup-Rows}
use ai_coaching_agent.Common.Members.{
  append-All, Holds, keep-All, map-All, All-weaken, All-Holds, Holds-All,
}
use ai_coaching_agent.Common.Sort.{sort_by-All}
use ai_coaching_agent.Gaps.Recommendations.{
  RecommendationType, course, lesson, LessonSummary, CourseSummary, Recommendation, CoursesLoad,
  add, update, same, title_or, courses_by, enrolled_in, find_lesson, lesson_of, lesson_in,
  lessons_for_topic, Verdict, irrelevant, unresolvable, already_enrolled, accepted, converted,
  judge_lesson, judge_enrolled, judge_course, judge_type, judge_found, judge, Tally, set_or, put,
  tally, tally_all, sorted_rows, validate_from, validate_recommendations,
}

-- Python goes through the elements of a set, in some order.
abbrev pub IsIteration : (List Recommendation → List Recommendation) → Type 0
IsIteration iterate = (rs : List Recommendation) → All (λ r. Holds r rs) (iterate rs)

-- A lesson of the course, or a course in which the learner is not enrolled.
abbrev pub Fits : List ℕ → CourseSummary → Recommendation → RecommendationType → Type 0
Fits enrolled c r lesson =
    (l : LessonSummary) × Holds l c.lessons × (r.lesson_id ≡ some l.lesson_id)
Fits enrolled c r course = contains r.course_id enrolled ≡ false

module _ (catalogue : List CourseSummary) (enrolled wanted : List ℕ) where
  -- The recommendation is for a gap, and for a course of the catalogue in which it fits.
  abbrev pub IsResolved : ℕ → Recommendation → Type 0
  IsResolved tag r =
      (r.topic_tag ≡ tag)
      × (contains tag wanted ≡ true)
      × ((c : CourseSummary) × Holds c catalogue
          × (c.course_id ≡ r.course_id)
          × Fits enrolled c r r.recommendation_type)

  abbrev IsKnown : Dict CourseSummary → Type 0
  IsKnown d = Rows (λ id c. Holds c catalogue × (c.course_id ≡ id)) d

  courses_by-IsKnown :
      (d : Dict CourseSummary) (cs : List CourseSummary)
      → IsKnown d
      → All (λ c. Holds c catalogue) cs
      → IsKnown (courses_by d cs)
  unfolding courses_by
  courses_by-IsKnown d [] known all = known
  courses_by-IsKnown d (c ∷ cs) known all =
      courses_by-IsKnown (insert c.course_id c d) cs
        (insert-Rows (λ id k. Holds k catalogue × (k.course_id ≡ id)) c.course_id c d (all.0, refl)
          known)
        all.1

  find_lesson-Holds :
      (id : ℕ) (ls : List LessonSummary) (l : LessonSummary)
      → find_lesson id ls ≡ some l
      → Holds l ls
  unfolding find_lesson
  find_lesson-Holds id [] l e = absurd (ground (arith, e))
  find_lesson-Holds id (k ∷ ls) l e = elim (Bool-cases (k.lesson_id == id)) [
    | inl here ↦ inl (ground (arith, e))
    | inr other ↦ inr (find_lesson-Holds id ls l (ground (arith, e)))
  ]

  lesson_of-Holds :
      (o : Option ℕ) (c : CourseSummary) (l : LessonSummary)
      → lesson_of o c ≡ some l
      → Holds l c.lessons
  lesson_of-Holds none c l e = absurd (ground (arith, e))
  lesson_of-Holds (some id) c l e = find_lesson-Holds id c.lessons l e

  -- What a verdict lets stand.
  abbrev Stands : ℕ → Verdict → Type 0
  Stands tag (accepted rs) = All (IsResolved tag) rs
  Stands tag (converted rs) = All (IsResolved tag) rs
  Stands tag _ = Unit

  module _ (r : Recommendation) (wants : contains r.topic_tag wanted ≡ true) (c : CourseSummary)
      (listed : Holds c catalogue) (own : c.course_id ≡ r.course_id) where
    lesson-IsResolved :
        (title : Option ℕ) (l : LessonSummary)
        → Holds l c.lessons
        → IsResolved r.topic_tag (lesson_in r.topic_tag c title l)
    lesson-IsResolved title l h = (refl, wants, (c, listed, refl, (l, h, refl)))

    judge_lesson-Stands :
        (o : Option LessonSummary)
        → ((l : LessonSummary) → o ≡ some l → Holds l c.lessons)
        → Stands r.topic_tag (judge_lesson r c o)
    judge_lesson-Stands none h = tt
    judge_lesson-Stands (some l) h = (lesson-IsResolved (title_or r.title l.title) l (h l refl), tt)

    judge_enrolled-Stands :
        (rs : List Recommendation)
        → All (IsResolved r.topic_tag) rs
        → Stands r.topic_tag (judge_enrolled rs)
    judge_enrolled-Stands [] all = tt
    judge_enrolled-Stands (x ∷ xs) all = all

    lessons-All : All (IsResolved r.topic_tag) (lessons_for_topic c r.topic_tag)
    unfolding lessons_for_topic
    lessons-All =
        map-All (λ (l : LessonSummary). lesson_in r.topic_tag c l.title l) (IsResolved r.topic_tag)
          _
          (All-weaken (λ l. Holds l c.lessons) _ (λ l h. lesson-IsResolved l.title l h) _
            (keep-All (λ (l : LessonSummary). contains r.topic_tag l.topic_tags)
              (λ l. Holds l c.lessons) c.lessons (Holds-All c.lessons)))

    judge_course-Stands : Stands r.topic_tag (judge_course enrolled r c)
    judge_course-Stands = elim (Bool-cases (contains r.course_id enrolled)) [
      | inl already ↦
          rw already (judge_enrolled-Stands (lessons_for_topic c r.topic_tag) lessons-All)
      | inr free ↦ rw free (
        (refl, wants, (c, listed, refl, subst (λ k. contains k enrolled ≡ false) (sym own) free)),
        tt,
      )
    ]

    judge_type-Stands : (t : RecommendationType) → Stands r.topic_tag (judge_type enrolled r c t)
    judge_type-Stands lesson =
        judge_lesson-Stands (lesson_of r.lesson_id c) (λ l e. lesson_of-Holds r.lesson_id c l e)
    judge_type-Stands course = judge_course-Stands

  module _ (courses : Dict CourseSummary) (known : IsKnown courses) where
    judge_found-Stands :
        (r : Recommendation) (o : Option CourseSummary)
        → contains r.topic_tag wanted ≡ true
        → lookup r.course_id courses ≡ o
        → Stands r.topic_tag (judge_found enrolled r o)
    judge_found-Stands r none wants e = tt
    judge_found-Stands r (some c) wants e =
        let (listed, own) =
          lookup-Rows (λ id k. Holds k catalogue × (k.course_id ≡ id)) r.course_id c courses known
            e in
        judge_type-Stands r wants c listed own r.recommendation_type

    judge-Stands : (r : Recommendation) → Stands r.topic_tag (judge courses enrolled wanted r)
    unfolding judge
    judge-Stands r = elim (Bool-cases (contains r.topic_tag wanted)) [
      | inl wants ↦ rw (judge, wants) (judge_found-Stands r (lookup r.course_id courses) wants refl)
      | inr other ↦ rw (judge, other) tt
    ]

    abbrev IsRow : ℕ → List Recommendation → Type 0
    IsRow tag rs = All (IsResolved tag) rs

    add-All :
        (tag : ℕ) (set : List Recommendation) (r : Recommendation)
        → IsRow tag set
        → IsResolved tag r
        → IsRow tag (add set r)
    add-All tag set r all fits = elim (Bool-cases (any (same r) set)) [
      | inl there ↦ rw there all
      | inr fresh ↦ rw fresh (append-All (IsResolved tag) set (r ∷ []) all (fits, tt))
    ]

    update-All :
        (tag : ℕ) (set rs : List Recommendation)
        → IsRow tag set
        → IsRow tag rs
        → IsRow tag (update set rs)
    update-All tag set [] all fits = all
    update-All tag set (r ∷ rs) all fits =
        update-All tag (add set r) rs (add-All tag set r all fits.0) fits.1

    set_or-All :
        (tag : ℕ) (d : Dict (List Recommendation)) (o : Option (List Recommendation))
        → lookup tag d ≡ o
        → Rows IsRow d
        → IsRow tag (set_or o)
    set_or-All tag d none e rows = tt
    set_or-All tag d (some set) e rows = lookup-Rows IsRow tag set d rows e

    put-Rows :
        (tag : ℕ) (rs : List Recommendation) (t : Tally)
        → IsRow tag rs
        → Rows IsRow t.accepted_by
        → Rows IsRow (put tag rs t).accepted_by
    put-Rows tag rs t fits rows =
        insert-Rows IsRow tag _ t.accepted_by
          (update-All tag (set_or (lookup tag t.accepted_by)) rs
            (set_or-All tag t.accepted_by (lookup tag t.accepted_by) refl rows) fits)
          rows

    tally-Rows :
        (r : Recommendation) (v : Verdict) (t : Tally)
        → Stands r.topic_tag v
        → Rows IsRow t.accepted_by
        → Rows IsRow (tally r v t).accepted_by
    tally-Rows r irrelevant t stands rows = rows
    tally-Rows r unresolvable t stands rows = rows
    tally-Rows r already_enrolled t stands rows = rows
    tally-Rows r (accepted rs) t stands rows = put-Rows r.topic_tag rs t stands rows
    tally-Rows r (converted rs) t stands rows = put-Rows r.topic_tag rs t stands rows

    tally_all-Rows :
        (t : Tally) (rs : List Recommendation)
        → Rows IsRow t.accepted_by
        → Rows IsRow (tally_all courses enrolled wanted t rs).accepted_by
    unfolding tally_all
    tally_all-Rows t [] rows = rows
    tally_all-Rows t (r ∷ rs) rows =
        tally_all-Rows (tally r (judge courses enrolled wanted r) t) rs
          (tally-Rows r (judge courses enrolled wanted r) t (judge-Stands r) rows)

  module _ (iterate : List Recommendation → List Recommendation)
      (iterates : IsIteration iterate) where
    -- The recommendations of a topic.
    abbrev pub IsResolvedRow : ℕ × List Recommendation → Type 0
    IsResolvedRow row = All (IsResolved row.0) row.1

    iterated-All :
        (tag : ℕ) (rs : List Recommendation)
        → All (IsResolved tag) rs
        → All (IsResolved tag) (iterate rs)
    iterated-All tag rs all =
        All-weaken (λ r. Holds r rs) (IsResolved tag) (λ r h. All-Holds (IsResolved tag) r rs all h)
          (iterate rs) (iterates rs)

    sorted_rows-All :
        (d : Dict (List Recommendation))
        → Rows (λ tag rs. All (IsResolved tag) rs) d
        → All IsResolvedRow (sorted_rows iterate d)
    sorted_rows-All [] rows = tt
    sorted_rows-All ((tag, rs) ∷ d) rows = (
      sort_by-All _ (IsResolved tag) _
          (sort_by-All _ (IsResolved tag) _ (iterated-All tag rs rows.0)),
      sorted_rows-All d rows.1,
    )

validate_from-All :
    (iterate : List Recommendation → List Recommendation)
    → IsIteration iterate
    → (load : CoursesLoad) (wanted : List ℕ) (user_id : ℕ) (o : Option (List Recommendation))
    → All
        (λ row.
          All (IsResolved load.catalogue (enrolled_in user_id load.enrolments) wanted row.0) row.1)
        (validate_from iterate load wanted user_id o).by_topic
validate_from-All iterate iterates load wanted user_id none = tt
validate_from-All iterate iterates load wanted user_id (some candidates) =
    let enrolled = enrolled_in user_id load.enrolments in
    let courses = courses_by [] load.catalogue in
    sort_by-All _ _ _ (
      sorted_rows-All load.catalogue enrolled wanted iterate iterates _ (
        tally_all-Rows load.catalogue enrolled wanted courses
          (courses_by-IsKnown load.catalogue enrolled wanted [] load.catalogue tt
            (Holds-All load.catalogue))
          _ candidates tt))

-- Where Python goes through the elements of a set: every recommendation that stands is listed under
-- its topic, which is one of the gaps, and names a course of the catalogue; one of a lesson names a
-- lesson of that course, and one of a course a course in which the learner is not enrolled.
pub validate_recommendations-IsResolved :
    (iterate : List Recommendation → List Recommendation)
    → IsIteration iterate
    → (load : CoursesLoad) (wanted : List ℕ) (user_id : ℕ)
    → All
        (λ row.
          All (IsResolved load.catalogue (enrolled_in user_id load.enrolments) wanted row.0) row.1)
        (validate_recommendations iterate load wanted user_id).by_topic
unfolding validate_recommendations
validate_recommendations-IsResolved iterate iterates load wanted user_id =
    validate_from-All iterate iterates load wanted user_id load.candidates
