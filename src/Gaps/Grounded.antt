-- ===== src/Gaps/Grounded.antt =====
-- Where the evidence of a finding comes from.
use ai_coaching_agent.Common.{
  ℕ, ◌≤◌, ◌≡◌, refl, sym, subst, ◌∙◌, true, not, ◌||◌, Option, none, some, List, [], ◌∷◌, ◌++◌,
  length, All, inl, inr, ltb, ◌==◌, ==_iff, Bool-cases, contains, arith,
}
use ai_coaching_agent.Common.Dict.{Dict, lookup, insert, lookup-insert}
use ai_coaching_agent.Common.Members.{
  append-All, Holds, keep-All, keep-passes, map-All, All-weaken, All-both,
}
use ai_coaching_agent.Common.Sort.{sort_by-All, fromkeys-All}
use ai_coaching_agent.Gaps.History.{
  InteractionRecord, is_follow_up, scan, by_time, qualifying_interactions, TopicAggregate,
  HistoryAggregate, ids_of, topic_of, records_on, topics_of, aggregate_history,
}
use ai_coaching_agent.Gaps.Signals.{
  FeedbackRecord, is_down, SignalKind, SignalEvidence, AnalysisThresholds, StruggleFinding,
  LowRatingIndex, topic_by, count_or, ids_or, counted_if, index_from, sorted_rows, no_ratings,
  build_low_rating_index, fired, low_ratings_of, signals_of, finding_if, findings_of,
  detect_struggles,
}

-- The learner has an interaction of this identifier on this topic among the records.
abbrev pub IsUsed : ℕ → List InteractionRecord → ℕ → ℕ → Type 0
IsUsed user_id rs topic_tag id =
    (r : InteractionRecord) × Holds r rs
    × (r.user_id ≡ user_id)
    × (r.topic_tag ≡ topic_tag)
    × (r.interaction_id ≡ id)

module _ (user_id : ℕ) where
  abbrev Qualifies : List InteractionRecord → InteractionRecord → Type 0
  Qualifies rs r = Holds r rs × (r.user_id ≡ user_id)

  later :
      (r : InteractionRecord) (rs qs : List InteractionRecord)
      → All (Qualifies rs) qs
      → All (Qualifies (r ∷ rs)) qs
  later r rs qs all = All-weaken (Qualifies rs) (Qualifies (r ∷ rs)) (λ q h. (inr h.0, h.1)) qs all

  scan-All :
      (seen : List ℕ) (rs : List InteractionRecord)
      → All (Qualifies rs) (scan user_id seen rs).records
  unfolding scan
  scan-All seen [] = tt
  scan-All seen (r ∷ rs) = elim (Bool-cases (r.user_id == user_id)) [
    | inr other ↦ rw (scan, other) (later r rs _ (scan-All seen rs))
    | inl own ↦ elim (Bool-cases (contains r.interaction_id seen)) [
      | inl again ↦ rw (scan, own, again) (later r rs _ (scan-All seen rs))
      | inr first ↦
          rw (scan, own, first)
            (
              (inl refl, (==_iff r.user_id user_id).0 own),
              later r rs _ (scan-All (r.interaction_id ∷ seen) rs),
            )
    ]
  ]

  pub qualifying-All :
      (rs : List InteractionRecord)
      → All (Qualifies rs) (qualifying_interactions user_id rs).records
  unfolding qualifying_interactions by_time
  qualifying-All rs =
      sort_by-All _ (Qualifies rs) _ (sort_by-All _ (Qualifies rs) _ (scan-All [] rs))

  module _ (rs : List InteractionRecord) where
    abbrev Used : ℕ → ℕ → Type 0
    Used = IsUsed user_id rs

    abbrev IsOn : ℕ → InteractionRecord → Type 0
    IsOn tag r = Qualifies rs r × (r.topic_tag ≡ tag)

    ids_of-Used :
        (tag : ℕ) (hs : List InteractionRecord) → All (IsOn tag) hs → All (Used tag) (ids_of hs)
    ids_of-Used tag hs all = sort_by-All _ (Used tag) _ (
        map-All (λ (r : InteractionRecord). r.interaction_id) (Used tag) hs
          (All-weaken (IsOn tag) _ (λ r h. (r, h.0.0, h.0.1, h.1, refl)) hs all))

    records_on-IsOn :
        (tag : ℕ) (hs : List InteractionRecord)
        → All (Qualifies rs) hs
        → All (IsOn tag) (records_on tag hs)
    records_on-IsOn tag hs all =
        All-weaken _ (IsOn tag) (λ r h. (h.0, (==_iff r.topic_tag tag).0 h.1)) _
          (All-both (Qualifies rs) (λ r. (r.topic_tag == tag) ≡ true) _
            (keep-All (λ (r : InteractionRecord). r.topic_tag == tag) (Qualifies rs) hs all)
            (keep-passes (λ (r : InteractionRecord). r.topic_tag == tag) hs))

    -- The evidence of a topic's aggregate is on the topic.
    abbrev IsSourced : TopicAggregate → Type 0
    IsSourced a =
        All (Used a.topic_tag) a.explain_differently_interaction_ids
        × All (Used a.topic_tag) a.follow_up_interaction_ids

    topic_of-IsSourced :
        (tag : ℕ) (hs : List InteractionRecord) → All (IsOn tag) hs → IsSourced (topic_of tag hs)
    unfolding topic_of
    topic_of-IsSourced tag hs all = (
      ids_of-Used tag _ (keep-All _ (IsOn tag) hs all),
      ids_of-Used tag _ (keep-All is_follow_up (IsOn tag) hs all),
    )

    every : (tags : List ℕ) (P : ℕ → Type 0) → ((n : ℕ) → P n) → All P tags
    every [] P h = tt
    every (x ∷ xs) P h = (h x, every xs P h)

    topics_of-IsSourced :
        (hs : List InteractionRecord) → All (Qualifies rs) hs → All IsSourced (topics_of hs)
    unfolding topics_of
    topics_of-IsSourced hs all =
        map-All (λ (tag : ℕ). topic_of tag (records_on tag hs)) IsSourced _
          (every _ _
            (λ tag. topic_of-IsSourced tag (records_on tag hs) (records_on-IsOn tag hs all)))

    -- The low ratings are of interactions on the topic that they count for.
    abbrev IsRow : ℕ × List ℕ → Type 0
    IsRow row = All (Used row.0) row.1

    lookup-Used :
        (tag : ℕ) (d : Dict (List ℕ)) → All IsRow d → All (Used tag) (ids_or (lookup tag d))
    unfolding lookup
    lookup-Used tag [] all = tt
    lookup-Used tag ((k, ids) ∷ d) all = elim (Bool-cases (k == tag)) [
      | inl same ↦ rw (lookup, same) (subst (λ t. All (Used t) ids) ((==_iff k tag).0 same) all.0)
      | inr other ↦ rw (lookup, other) (lookup-Used tag d all.1)
    ]

    insert-IsRow :
        (tag : ℕ) (ids : List ℕ) (d : Dict (List ℕ))
        → All (Used tag) ids
        → All IsRow d
        → All IsRow (insert tag ids d)
    unfolding insert
    insert-IsRow tag ids [] new all = (new, tt)
    insert-IsRow tag ids ((k, old) ∷ d) new all = elim (Bool-cases (k == tag)) [
      | inl same ↦
          rw (insert, same) (subst (λ t. All (Used t) ids) (sym ((==_iff k tag).0 same)) new, all.1)
      | inr other ↦ rw (insert, other) (all.0, insert-IsRow tag ids d new all.1)
    ]

    -- An identifier that the dict knows is that of a record on the topic.
    abbrev IsKnown : Dict ℕ → Type 0
    IsKnown d = (id tag : ℕ) → lookup id d ≡ some tag → Used tag id

    topic_by-IsKnown :
        (d : Dict ℕ) (hs : List InteractionRecord)
        → IsKnown d
        → All (Qualifies rs) hs
        → IsKnown (topic_by d hs)
    unfolding topic_by
    topic_by-IsKnown d [] known all = known
    topic_by-IsKnown d (r ∷ hs) known all =
        topic_by-IsKnown (insert r.interaction_id r.topic_tag d) hs
          (λ id tag e. elim (Bool-cases (r.interaction_id == id)) [
            | inl same ↦
                let got : some r.topic_tag ≡ some tag =
                  sym (lookup-insert r.interaction_id id r.topic_tag d ∙ (rw same refl)) ∙ e in
                (r, all.0.0, all.0.1, ground (arith, got), (==_iff r.interaction_id id).0 same)
            | inr other ↦
                known id tag
                  (sym (lookup-insert r.interaction_id id r.topic_tag d ∙ (rw other refl)) ∙ e)
          ])
          all.1

    counted_if-IsRow :
        (topics : Dict ℕ) (o : Option ℕ) (id : ℕ) (d : LowRatingIndex)
        → IsKnown topics
        → lookup id topics ≡ o
        → All IsRow d.interaction_ids
        → All IsRow (counted_if o id d).interaction_ids
    counted_if-IsRow topics none id d known e all = all
    counted_if-IsRow topics (some tag) id d known e all =
        insert-IsRow tag (id ∷ ids_or (lookup tag d.interaction_ids)) d.interaction_ids
          (known id tag e, lookup-Used tag d.interaction_ids all) all

    index_from-IsRow :
        (topics : Dict ℕ) (d : LowRatingIndex) (fs : List FeedbackRecord)
        → IsKnown topics
        → All IsRow d.interaction_ids
        → All IsRow (index_from user_id topics d fs).interaction_ids
    unfolding index_from
    index_from-IsRow topics d [] known all = all
    index_from-IsRow topics d (f ∷ fs) known all =
        elim (Bool-cases (not (is_down f.rating) || not (f.user_id == user_id))) [
          | inl skipped ↦ rw (index_from, skipped) (index_from-IsRow topics d fs known all)
          | inr counts ↦
              rw (index_from, counts)
                (index_from-IsRow topics
                  (counted_if (lookup f.interaction_id topics) f.interaction_id d) fs known
                  (counted_if-IsRow topics (lookup f.interaction_id topics) f.interaction_id d known
                    refl all))
        ]

    sorted_rows-IsRow : (d : Dict (List ℕ)) → All IsRow d → All IsRow (sorted_rows d)
    sorted_rows-IsRow [] all = tt
    sorted_rows-IsRow ((tag, ids) ∷ d) all =
        (sort_by-All _ (Used tag) _ (fromkeys-All (Used tag) ids all.0), sorted_rows-IsRow d all.1)

    nothing-IsKnown : IsKnown []
    unfolding lookup
    nothing-IsKnown id tag e = absurd (ground (arith, e))

    index-IsRow :
        (history : HistoryAggregate) (feedback : Option (List FeedbackRecord))
        → history.user_id ≡ user_id
        → All (Qualifies rs) history.interactions
        → All IsRow (build_low_rating_index history feedback).interaction_ids
    unfolding build_low_rating_index
    index-IsRow history none own all = tt
    index-IsRow history (some feedback) own all = sorted_rows-IsRow _ (
        subst
          (λ u.
            All IsRow
              (index_from u (topic_by [] history.interactions) (no_ratings true)
                feedback).interaction_ids)
          (sym own)
          (index_from-IsRow (topic_by [] history.interactions) (no_ratings true) feedback
            (topic_by-IsKnown [] history.interactions nothing-IsKnown all) tt))

    -- A signal that reached its threshold, on evidence about the topic.
    abbrev pub IsGroundedSignal : ℕ → SignalEvidence → Type 0
    IsGroundedSignal tag s = (s.threshold ≤ s.observed_value) × All (Used tag) s.interaction_ids

    fired-Grounded :
        (tag : ℕ) (k : SignalKind) (observed threshold : ℕ) (ids : List ℕ)
        → All (Used tag) ids
        → All (IsGroundedSignal tag) (fired k observed threshold ids)
    fired-Grounded tag k observed threshold ids all = elim (Bool-cases (ltb observed threshold)) [
      | inl below ↦ rw below tt
      | inr reached ↦ rw reached ((ground (arith, reached), all), tt)
    ]

    low-Grounded :
        (tag : ℕ) (low : LowRatingIndex) (threshold : ℕ)
        → All IsRow low.interaction_ids
        → All (IsGroundedSignal tag) (low_ratings_of tag low threshold)
    low-Grounded tag low threshold rows = elim (Bool-cases low.evaluated) [
      | inl read ↦ rw read (
          fired-Grounded tag SignalKind.low_rating (count_or (lookup tag low.counts)) threshold
            (ids_or (lookup tag low.interaction_ids)) (lookup-Used tag low.interaction_ids rows))
      | inr lost ↦ rw lost tt
    ]

    signals_of-Grounded :
        (t : AnalysisThresholds) (low : LowRatingIndex) (a : TopicAggregate)
        → All IsRow low.interaction_ids
        → IsSourced a
        → All (IsGroundedSignal a.topic_tag) (signals_of t low a)
    unfolding signals_of
    signals_of-Grounded t low a rows (explained, followed) =
        let tag = a.topic_tag in
        let first : List SignalEvidence =
          fired SignalKind.explain_differently a.explain_differently_total
            t.explain_differently_struggle_threshold a.explain_differently_interaction_ids in
        let second : List SignalEvidence =
          fired SignalKind.follow_up (length a.follow_up_interaction_ids)
            t.follow_up_struggle_threshold a.follow_up_interaction_ids in
        let third : List SignalEvidence = low_ratings_of tag low t.low_rating_struggle_threshold in
        sort_by-All _ (IsGroundedSignal tag) (first ++ second ++ third) (
          append-All (IsGroundedSignal tag) (first ++ second) third
            (append-All (IsGroundedSignal tag) first second
              (fired-Grounded tag SignalKind.explain_differently a.explain_differently_total
                t.explain_differently_struggle_threshold a.explain_differently_interaction_ids
                explained)
              (fired-Grounded tag SignalKind.follow_up (length a.follow_up_interaction_ids)
                t.follow_up_struggle_threshold a.follow_up_interaction_ids followed))
            (low-Grounded tag low t.low_rating_struggle_threshold rows))

    -- A finding: at least one signal, each of them grounded.
    abbrev pub IsGrounded : StruggleFinding → Type 0
    IsGrounded f = (1 ≤ length f.signals) × All (IsGroundedSignal f.topic_tag) f.signals

    finding_if-IsGrounded :
        (tag : ℕ) (ss : List SignalEvidence)
        → All (IsGroundedSignal tag) ss
        → All IsGrounded (finding_if tag ss)
    finding_if-IsGrounded tag [] all = tt
    finding_if-IsGrounded tag (s ∷ ss) all = ((omega arith, all), tt)

    findings_of-IsGrounded :
        (t : AnalysisThresholds) (low : LowRatingIndex) (topics : List TopicAggregate)
        → All IsRow low.interaction_ids
        → All IsSourced topics
        → All IsGrounded (findings_of t low topics)
    unfolding findings_of
    findings_of-IsGrounded t low [] rows all = tt
    findings_of-IsGrounded t low (a ∷ topics) rows all =
        append-All IsGrounded (finding_if a.topic_tag (signals_of t low a))
          (findings_of t low topics)
          (finding_if-IsGrounded a.topic_tag (signals_of t low a)
            (signals_of-Grounded t low a rows all.0))
          (findings_of-IsGrounded t low topics rows all.1)

-- Every finding about a learner has a signal, every signal reached its threshold, and every
-- identifier in its evidence is that of an interaction of the learner on the topic among the records
-- that the provider returned.
pub detect_struggles-IsGrounded :
    (user_id : ℕ) (rs : List InteractionRecord) (feedback : Option (List FeedbackRecord))
    (t : AnalysisThresholds)
    → let history = aggregate_history user_id (qualifying_interactions user_id rs) in
      All
        (IsGrounded user_id rs)
        (detect_struggles history t (build_low_rating_index history feedback))
unfolding detect_struggles aggregate_history
detect_struggles-IsGrounded user_id rs feedback t =
    let history = aggregate_history user_id (qualifying_interactions user_id rs) in
    let all = qualifying-All user_id rs in
    sort_by-All _ (IsGrounded user_id rs) _ (
      findings_of-IsGrounded user_id rs t (build_low_rating_index history feedback) _
        (index-IsRow user_id rs history feedback refl all) (topics_of-IsSourced user_id rs _ all))
