-- ===== src/Gaps/Signals.antt =====
-- packages/uc07/uc07/application/signals.py: the topics that crossed a threshold, with the evidence.
use ai_coaching_agent.Common.{
  ℕ, ◌+◌, Bool, true, false, not, ◌||◌, Option, none, some, List, [], ◌∷◌, ◌++◌, length, ltb, ◌==◌,
  if◌then◌else◌,
}
use ai_coaching_agent.Common.Dict.{Dict, lookup, insert}
use ai_coaching_agent.Common.Sort.{sort_by, fromkeys}
use ai_coaching_agent.Streak.Time.{Moment}
use ai_coaching_agent.Gaps.History.{InteractionRecord, TopicAggregate, HistoryAggregate, sorted_ids}

pub data Rating : Type 0 where
  up down : Rating

pub record FeedbackRecord : Type 0 where
  pub rating_id : ℕ
  pub interaction_id : ℕ
  pub user_id : ℕ
  pub rated_at : Moment
  pub rating : Rating
  pub comment : Option ℕ

pub data SignalKind : Type 0 where
  explain_differently follow_up low_rating unexplored_speciality : SignalKind

-- `SIGNAL_ORDER.index`
abbrev pub signal_order : SignalKind → ℕ
signal_order explain_differently = 0
signal_order follow_up = 1
signal_order low_rating = 2
signal_order unexplored_speciality = 3

pub record SignalEvidence : Type 0 where
  pub signal : SignalKind
  pub observed_value : ℕ
  pub threshold : ℕ
  pub interaction_ids : List ℕ

pub record AnalysisThresholds : Type 0 where
  pub gap_report_threshold : ℕ
  pub min_topic_areas : ℕ
  pub explain_differently_struggle_threshold : ℕ
  pub low_rating_struggle_threshold : ℕ
  pub follow_up_struggle_threshold : ℕ

pub record StruggleFinding : Type 0 where
  pub topic_tag : ℕ
  pub signals : List SignalEvidence

pub record LowRatingIndex : Type 0 where
  pub evaluated : Bool
  pub counts : Dict ℕ
  pub interaction_ids : Dict (List ℕ)

-- `topic_by_interaction`
unfoldable pub topic_by : Dict ℕ → List InteractionRecord → Dict ℕ
topic_by d [] = d
topic_by d (r ∷ rs) = topic_by (insert r.interaction_id r.topic_tag d) rs

abbrev pub count_or : Option ℕ → ℕ
count_or none = 0
count_or (some n) = n

abbrev pub ids_or : Option (List ℕ) → List ℕ
ids_or none = []
ids_or (some ids) = ids

-- The loop of `build_low_rating_index`.
abbrev pub counted : ℕ → ℕ → LowRatingIndex → LowRatingIndex
counted topic_tag interaction_id d = record d {
  counts = insert topic_tag (count_or (lookup topic_tag d.counts) + 1) d.counts;
  interaction_ids =
      insert topic_tag (interaction_id ∷ ids_or (lookup topic_tag d.interaction_ids))
        d.interaction_ids;
}

abbrev pub counted_if : Option ℕ → ℕ → LowRatingIndex → LowRatingIndex
counted_if none interaction_id d = d
counted_if (some topic_tag) interaction_id d = counted topic_tag interaction_id d

abbrev pub is_down : Rating → Bool
is_down up = false
is_down down = true

unfoldable pub index_from : ℕ → Dict ℕ → LowRatingIndex → List FeedbackRecord → LowRatingIndex
index_from user_id topics d [] = d
index_from user_id topics d (f ∷ fs) = elim (not (is_down f.rating) || not (f.user_id == user_id)) [
  | true ↦ index_from user_id topics d fs
  | false ↦
      index_from user_id topics (counted_if (lookup f.interaction_id topics) f.interaction_id d) fs
]

-- `tuple(sorted(v))` of each set of identifiers
abbrev pub sorted_rows : Dict (List ℕ) → Dict (List ℕ)
sorted_rows [] = []
sorted_rows ((tag, ids) ∷ rows) = (tag, sorted_ids (fromkeys ids)) ∷ sorted_rows rows

abbrev pub no_ratings : Bool → LowRatingIndex
no_ratings evaluated = record { evaluated = evaluated; counts = []; interaction_ids = [] }

unfoldable pub build_low_rating_index :
    HistoryAggregate → Option (List FeedbackRecord) → LowRatingIndex
unfolding topic_by index_from
build_low_rating_index history none = no_ratings false
build_low_rating_index history (some feedback) =
    let d =
      index_from history.user_id (topic_by [] history.interactions) (no_ratings true) feedback in
    record d { interaction_ids = sorted_rows d.interaction_ids }

-- A signal, when the observed value reaches the threshold.
abbrev pub fired : SignalKind → ℕ → ℕ → List ℕ → List SignalEvidence
fired signal observed threshold ids =
    if ltb observed threshold
    then []
    else record {
      signal = signal;
      observed_value = observed;
      threshold = threshold;
      interaction_ids = ids;
    }
      ∷ []

abbrev pub low_ratings_of : ℕ → LowRatingIndex → ℕ → List SignalEvidence
low_ratings_of topic_tag low threshold =
    if low.evaluated
    then fired low_rating (count_or (lookup topic_tag low.counts)) threshold
        (ids_or (lookup topic_tag low.interaction_ids))
    else []

unfoldable pub signals_of :
    AnalysisThresholds → LowRatingIndex → TopicAggregate → List SignalEvidence
signals_of t low topic =
    sort_by (λ (s : SignalEvidence). signal_order s.signal)
      (fired explain_differently topic.explain_differently_total
          t.explain_differently_struggle_threshold topic.explain_differently_interaction_ids
        ++ fired follow_up (length topic.follow_up_interaction_ids) t.follow_up_struggle_threshold
            topic.follow_up_interaction_ids
        ++ low_ratings_of topic.topic_tag low t.low_rating_struggle_threshold)

abbrev pub finding_if : ℕ → List SignalEvidence → List StruggleFinding
finding_if topic_tag [] = []
finding_if topic_tag (s ∷ ss) = record { topic_tag = topic_tag; signals = s ∷ ss } ∷ []

unfoldable pub findings_of :
    AnalysisThresholds → LowRatingIndex → List TopicAggregate → List StruggleFinding
unfolding signals_of
findings_of t low [] = []
findings_of t low (topic ∷ topics) =
    finding_if topic.topic_tag (signals_of t low topic) ++ findings_of t low topics

unfoldable pub detect_struggles :
    HistoryAggregate → AnalysisThresholds → LowRatingIndex → List StruggleFinding
unfolding findings_of
detect_struggles history t low =
    sort_by (λ (f : StruggleFinding). f.topic_tag) (findings_of t low history.topics)
