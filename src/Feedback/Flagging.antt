-- ===== src/Feedback/Flagging.antt =====
-- packages/uc10/uc10/domain/flagging.py, window.py and flag_work.py: the rule that decides a flag,
-- and the intent to write one.
use ai_coaching_agent.Common.{
  ℕ, ◌+◌, ◌-◌, ◌*◌, Bool, not, ◌&&◌, Option, none, some, List, map, keep, length, Result, ok, err,
  leb, ltb, ◌==◌, if◌then◌else◌,
}
use ai_coaching_agent.Common.Fraction.{Fraction, frac}
use ai_coaching_agent.Common.Sort.{sort_by, fromkeys}
use ai_coaching_agent.Streak.Time.{Moment, day}
use ai_coaching_agent.Feedback.Records.{RatingRecord, is_down, is_none}

pub record Window : Type 0 where
  pub start : Moment
  pub end : Moment

-- `contains`: both bounds are inside.
abbrev pub contains_moment : Window → Moment → Bool
contains_moment w moment = leb w.start moment && leb moment w.end

abbrev pub overlaps : Window → Window → Bool
overlaps w other = leb w.start other.end && leb other.start w.end

-- The refusals of `Window` and `FlaggingPolicy`.
pub data PolicyError : Type 0 where
  window_too_short window_overflow threshold_out_of_range sample_too_small : PolicyError

-- `Window.rolling`; `datetime` raises on a moment before its first one.
unfoldable pub rolling : Moment → ℕ → Result PolicyError Window
rolling now days =
    if ltb days 1
    then err window_too_short
    else if ltb now (days * day)
    then err window_overflow
    else ok (record { start = now - days * day; end = now })

-- The threshold is the decimal that the configured float prints as.
pub record FlaggingPolicy : Type 0 where
  pub down_rate_threshold : Fraction
  pub minimum_sample_size : ℕ

-- `FlaggingPolicy.__post_init__`
unfoldable pub policy_of : Fraction → ℕ → Result PolicyError FlaggingPolicy
policy_of threshold minimum =
    if not (leb threshold.num threshold.den)
    then err threshold_out_of_range
    else if ltb minimum 1
    then err sample_too_small
    else ok (record { down_rate_threshold = threshold; minimum_sample_size = minimum })

pub data DecisionReason : Type 0 where
  flagged below_minimum_sample below_threshold no_ratings : DecisionReason

pub record FlagCandidate : Type 0 where
  pub topic_tag : ℕ
  pub window : Window
  pub total_ratings : ℕ
  pub down_ratings : ℕ
  pub down_rate : Fraction
  pub threshold_applied : Fraction
  pub minimum_sample_size_applied : ℕ
  pub flagging_interaction_ids : List ℕ
  pub evaluated_at : Moment

pub record FlagDecision : Type 0 where
  pub topic_tag : ℕ
  pub reason : DecisionReason
  pub total_ratings : ℕ
  pub down_ratings : ℕ
  pub down_rate : Fraction
  pub candidate : Option FlagCandidate

-- `_meets_threshold`: `down >= threshold * total` in exact arithmetic.
unfoldable pub meets_threshold : ℕ → ℕ → Fraction → Bool
meets_threshold down total threshold = leb (threshold.num * total) (down * threshold.den)

-- The ratings of the topic in the window, and the thumbs down among them.
unfoldable pub in_window : ℕ → List RatingRecord → Window → List RatingRecord
in_window topic_tag ratings window =
    keep (λ (r : RatingRecord). r.topic_tag == topic_tag && contains_moment window r.rated_at)
      ratings

unfoldable pub downs_of : List RatingRecord → List RatingRecord
downs_of ratings = keep is_down ratings

abbrev pub rate_of : ℕ → ℕ → Fraction
rate_of down total = if total == 0 then frac 0 1 else frac down total

-- The branches of `evaluate_topic`.
unfoldable pub reason_for : ℕ → ℕ → FlaggingPolicy → DecisionReason
unfolding meets_threshold
reason_for down total policy =
    if total == 0
    then no_ratings
    else if ltb total policy.minimum_sample_size
    then below_minimum_sample
    else if not (meets_threshold down total policy.down_rate_threshold)
    then below_threshold
    else flagged

-- The interactions of the thumbs down, in order of rating time, each once.
unfoldable pub interactions_of : List RatingRecord → List ℕ
interactions_of downs = fromkeys (
    map (λ (r : RatingRecord). r.interaction_id) (sort_by (λ (r : RatingRecord). r.rated_at) downs))

-- `if reason is DecisionReason.FLAGGED`
abbrev pub if_flagged : DecisionReason → FlagCandidate → Option FlagCandidate
if_flagged flagged candidate = some candidate
if_flagged _ candidate = none

-- `evaluate_topic` of the domain, from the ratings in the window on.
unfoldable pub decide_on : ℕ → List RatingRecord → Window → FlaggingPolicy → Moment → FlagDecision
unfolding reason_for downs_of interactions_of
decide_on topic_tag rated window policy evaluated_at =
    let total = length rated in
    let down = length (downs_of rated) in
    let reason = reason_for down total policy in
    record {
      topic_tag = topic_tag;
      reason = reason;
      total_ratings = total;
      down_ratings = down;
      down_rate = rate_of down total;
      candidate = if_flagged reason (record {
        topic_tag = topic_tag;
        window = window;
        total_ratings = total;
        down_ratings = down;
        down_rate = rate_of down total;
        threshold_applied = policy.down_rate_threshold;
        minimum_sample_size_applied = policy.minimum_sample_size;
        flagging_interaction_ids = interactions_of (downs_of rated);
        evaluated_at = evaluated_at;
      });
    }

unfoldable pub decide_topic :
    ℕ → List RatingRecord → Window → FlaggingPolicy → Moment → FlagDecision
unfolding in_window decide_on
decide_topic topic_tag ratings window policy evaluated_at =
    decide_on topic_tag (in_window topic_tag ratings window) window policy evaluated_at

-- `topics_in`
unfoldable pub topics_in : List RatingRecord → List ℕ
topics_in ratings = fromkeys (map (λ (r : RatingRecord). r.topic_tag) ratings)

pub record FlagWorkItem : Type 0 where
  pub work_id : ℕ
  pub candidate : FlagCandidate
  pub enqueued_at : Moment
  pub attempts : ℕ
  pub last_reason_code : Option ℕ
  pub resolved_at : Option Moment
  pub resolved_flag_id : Option ℕ

abbrev pub is_pending : FlagWorkItem → Bool
is_pending i = is_none i.resolved_at

-- `failed`, `resolved` and `with_candidate`
abbrev pub failed : ℕ → FlagWorkItem → FlagWorkItem
failed reason_code i = record i { attempts = i.attempts + 1; last_reason_code = some reason_code }

abbrev pub resolved : ℕ → Moment → FlagWorkItem → FlagWorkItem
resolved flag_id at i = record i {
  attempts = i.attempts + 1;
  resolved_at = some at;
  resolved_flag_id = some flag_id;
}

abbrev pub with_candidate : FlagCandidate → FlagWorkItem → FlagWorkItem
with_candidate candidate i = record i { candidate = candidate }
