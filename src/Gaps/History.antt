-- ===== src/Gaps/History.antt =====
-- packages/uc07/uc07/domain/counting.py and application/aggregation.py, with the records that they
-- read: which interactions count, and the topics that they are about.
-- Identifiers and topic tags are only compared and ordered, so they are numbers.
use ai_coaching_agent.Common.{
  ℕ, ◌+◌, Bool, true, false, Option, none, some, List, [], ◌∷◌, map, keep, ltb, ◌==◌, contains,
}
use ai_coaching_agent.Common.Sort.{sort_by, fromkeys}
use ai_coaching_agent.Streak.Time.{Moment}
use ai_coaching_agent.Socratic.Dialogue.{NaricLevel}

pub data RatingState : Type 0 where
  pending rated : RatingState

pub record InteractionRecord : Type 0 where
  pub interaction_id : ℕ
  pub session_id : ℕ
  pub user_id : ℕ
  pub asked_at : Moment
  pub topic_tag : ℕ
  pub question_class : ℕ
  pub naric_level : NaricLevel
  pub response_id : ℕ
  pub follow_up_of : Option ℕ
  pub explain_differently_count : ℕ
  pub rating_state : RatingState

abbrev pub is_follow_up : InteractionRecord → Bool
is_follow_up r = elim r.follow_up_of [ none ↦ false | some _ ↦ true ]

pub record QualifyingInteractions : Type 0 where
  pub records : List InteractionRecord
  pub duplicates_discarded : ℕ
  pub other_user_records_discarded : ℕ

-- The loop of `qualifying_interactions`, with the identifiers that it has seen.
unfoldable pub scan : ℕ → List ℕ → List InteractionRecord → QualifyingInteractions
scan user_id seen [] = record {
  records = [];
  duplicates_discarded = 0;
  other_user_records_discarded = 0;
}
scan user_id seen (r ∷ rs) = elim (r.user_id == user_id) [
  | false ↦
      let q = scan user_id seen rs in
      record q { other_user_records_discarded = q.other_user_records_discarded + 1 }
  | true ↦ elim (contains r.interaction_id seen) [
    | true ↦
        let q = scan user_id seen rs in
        record q { duplicates_discarded = q.duplicates_discarded + 1 }
    | false ↦
        let q = scan user_id (r.interaction_id ∷ seen) rs in record q { records = r ∷ q.records }
  ]
]

-- Sorted by time and then by identifier: two stable sorts.
unfoldable pub by_time : List InteractionRecord → List InteractionRecord
by_time rs =
    sort_by (λ (r : InteractionRecord). r.asked_at)
      (sort_by (λ (r : InteractionRecord). r.interaction_id) rs)

unfoldable pub qualifying_interactions : ℕ → List InteractionRecord → QualifyingInteractions
unfolding scan by_time
qualifying_interactions user_id rs =
    let q = scan user_id [] rs in record q { records = by_time q.records }

pub record TopicAggregate : Type 0 where
  pub topic_tag : ℕ
  pub interaction_ids : List ℕ
  pub session_ids : List ℕ
  pub explain_differently_total : ℕ
  pub explain_differently_interaction_ids : List ℕ
  pub follow_up_interaction_ids : List ℕ

pub record HistoryAggregate : Type 0 where
  pub user_id : ℕ
  pub interactions : List InteractionRecord
  pub topics : List TopicAggregate
  pub duplicates_discarded : ℕ
  pub other_user_records_discarded : ℕ

-- `sorted` of identifiers
abbrev pub sorted_ids : List ℕ → List ℕ
sorted_ids ids = sort_by (λ (n : ℕ). n) ids

abbrev pub ids_of : List InteractionRecord → List ℕ
ids_of rs = sorted_ids (map (λ (r : InteractionRecord). r.interaction_id) rs)

abbrev pub total_of : List InteractionRecord → ℕ
total_of [] = 0
total_of (r ∷ rs) = r.explain_differently_count + total_of rs

-- The aggregate of the records of one topic.
unfoldable pub topic_of : ℕ → List InteractionRecord → TopicAggregate
topic_of topic_tag records = record {
  topic_tag = topic_tag;
  interaction_ids = ids_of records;
  session_ids = sorted_ids (fromkeys (map (λ (r : InteractionRecord). r.session_id) records));
  explain_differently_total = total_of records;
  explain_differently_interaction_ids =
      ids_of (keep (λ (r : InteractionRecord). ltb 0 r.explain_differently_count) records);
  follow_up_interaction_ids = ids_of (keep is_follow_up records);
}

abbrev pub records_on : ℕ → List InteractionRecord → List InteractionRecord
records_on topic_tag rs = keep (λ (r : InteractionRecord). r.topic_tag == topic_tag) rs

unfoldable pub topics_of : List InteractionRecord → List TopicAggregate
unfolding topic_of
topics_of rs =
    map (λ (tag : ℕ). topic_of tag (records_on tag rs))
      (sorted_ids (fromkeys (map (λ (r : InteractionRecord). r.topic_tag) rs)))

unfoldable pub aggregate_history : ℕ → QualifyingInteractions → HistoryAggregate
unfolding topics_of
aggregate_history user_id q = record {
  user_id = user_id;
  interactions = q.records;
  topics = topics_of q.records;
  duplicates_discarded = q.duplicates_discarded;
  other_user_records_discarded = q.other_user_records_discarded;
}
