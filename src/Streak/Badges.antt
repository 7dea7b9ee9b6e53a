-- ===== src/Streak/Badges.antt =====
-- packages/uc08/uc08/application/badge_service.py: milestone badges.
pub mod Once
pub mod Milestones
use ai_coaching_agent.Common.{
  ℕ, Bool, true, false, not, ◌&&◌, Option, none, some, List, [], ◌∷◌, ◌++◌, map, Result, ok, err,
  keep, contains, leb, if◌then◌else◌,
}
use ai_coaching_agent.Streak.Time.{Moment}
use ai_coaching_agent.Streak.Records.{
  SourceStatus, empty, Badge, QuestionCountRead, BadgeAwardedEvent, ProviderError,
  status_for_provider_error,
}
use ai_coaching_agent.Streak.Store.{
  World, Env, ServiceError, repository_read_failed, award, get_all,
}

pub record BadgeEvaluation : Type 0 where
  pub awarded : List Badge
  pub events : List BadgeAwardedEvent
  pub question_count : Option ℕ
  pub question_count_status : SourceStatus

-- `tuple(sorted(milestones))` of the constructor
unfoldable pub insert_milestone : ℕ → List ℕ → List ℕ
insert_milestone m [] = m ∷ []
insert_milestone m (n ∷ ns) = if leb m n then m ∷ n ∷ ns else n ∷ insert_milestone m ns

unfoldable pub sorted_milestones : List ℕ → List ℕ
unfolding insert_milestone
sorted_milestones [] = []
sorted_milestones (m ∷ ms) = insert_milestone m (sorted_milestones ms)

-- `status is SourceStatus.EMPTY`
abbrev pub is_empty : SourceStatus → Bool
is_empty empty = true
is_empty _ = false

-- `badge_id_for`: the text badge-{milestone}-{user_id} as its parts.
abbrev pub badge_id_for : ℕ → ℕ → ℕ × ℕ
badge_id_for user_id milestone = (milestone, user_id)

-- `badge_event_id_for`
abbrev pub badge_event_id_for : ℕ → ℕ → ℕ × ℕ
badge_event_id_for user_id milestone = (milestone, user_id)

-- `crossed`
unfoldable pub crossed : List ℕ → ℕ → List ℕ → List ℕ
crossed milestones count already_held =
    keep (λ m. leb m count && not (contains m already_held)) milestones

abbrev pub badge_for : ℕ → Moment → ℕ → ℕ → Badge
badge_for user_id now count milestone = record {
  badge_id = badge_id_for user_id milestone;
  user_id = user_id;
  milestone = milestone;
  awarded_at = now;
  question_count_at_award = count;
}

abbrev pub event_for : ℕ → Moment → ℕ → ℕ → BadgeAwardedEvent
event_for user_id now count milestone = record {
  event_id = badge_event_id_for user_id milestone;
  user_id = user_id;
  badge_id = badge_id_for user_id milestone;
  milestone = milestone;
  question_count_at_award = count;
  awarded_at = now;
  occurred_at = now;
}

-- The body of the loop for a milestone whose write succeeds; a lost notification is swallowed.
unfoldable pub award_one : Env → ℕ → ℕ → ℕ → World → World
award_one env user_id count milestone w =
    let w' = award (badge_for user_id env.now count milestone) w in
    if env.notification_fails milestone then w' else record w' {
      notifications = w'.notifications ++ event_for user_id env.now count milestone ∷ [];
    }

-- The loop over the crossed milestones: the milestones awarded, and the world after.
unfoldable pub award_all : Env → ℕ → ℕ → List ℕ → World → List ℕ × World
award_all env user_id count [] w = ([], w)
award_all env user_id count (m ∷ ms) w =
    let written = award_one env user_id count m w in
    let (rest, w') =
      award_all env user_id count ms (if env.badge_write_fails m then w else written) in
    (if env.badge_write_fails m then rest else m ∷ rest, w')

-- `evaluate`, after the count was read.
unfoldable pub evaluate_count :
    List ℕ → Env → ℕ → QuestionCountRead → World → Result ServiceError BadgeEvaluation × World
unfolding award_all crossed
evaluate_count milestones env user_id read w =
    if is_empty read.status
    then (
      ok (record {
        awarded = [];
        events = [];
        question_count = some read.count;
        question_count_status = read.status;
      }),
      w,
    )
    else if env.badge_read_fails
    then (err repository_read_failed, w)
    else (let held = map (λ (b : Badge). b.milestone) (get_all user_id w) in
        let (given, w') =
          award_all env user_id read.count (crossed (sorted_milestones milestones) read.count held)
            w in
        (
          ok (record {
            awarded = map (badge_for user_id env.now read.count) given;
            events = map (event_for user_id env.now read.count) given;
            question_count = some read.count;
            question_count_status = read.status;
          }),
          w',
        ))

-- `evaluate`, by what the provider answered.
unfoldable pub evaluate_read :
    List ℕ
    → Env
    → ℕ
    → Result ProviderError QuestionCountRead
    → World
    → Result ServiceError BadgeEvaluation × World
unfolding evaluate_count
evaluate_read milestones env user_id (err e) w = (
  ok (record {
    awarded = [];
    events = [];
    question_count = none;
    question_count_status = status_for_provider_error e;
  }),
  w,
)
evaluate_read milestones env user_id (ok read) w = evaluate_count milestones env user_id read w

unfoldable pub evaluate : List ℕ → Env → ℕ → World → Result ServiceError BadgeEvaluation × World
evaluate milestones env user_id w =
    evaluate_read milestones env user_id (env.question_count user_id) w
