-- ===== src/Feedback/Decision.antt =====
-- The rule of a flag: when it fires, and what its candidate names.
use ai_coaching_agent.Common.{
  ℕ, suc, ◌*◌, ◌≤◌, ◌≡◌, refl, subst, ◌↔◌, Bool, true, false, ◌&&◌, some, List, [], ◌∷◌, Bool-cases,
  inl, inr, keep, length, All, ◌==◌, arith,
}
use ai_coaching_agent.Common.Members.{
  Holds, keep-All, keep-passes, keep-Holds, keep-length, All-weaken, All-both, Holds-All, map-All,
  map-Holds, append-Holds_left, append-Holds_right,
}
use ai_coaching_agent.Common.Sort.{sort_by-All, sort_by-Holds, fromkeys-All, fromkeys-Holds}
use ai_coaching_agent.Streak.Time.{Moment}
use ai_coaching_agent.Feedback.Records.{up, down, RatingRecord, is_down, ContentReviewFlag}
use ai_coaching_agent.Feedback.Flagging.{
  Window, contains_moment, FlaggingPolicy, DecisionReason, flagged, below_minimum_sample,
  below_threshold, no_ratings, FlagCandidate, meets_threshold, in_window, downs_of, reason_for,
  interactions_of, if_flagged, decide_on, decide_topic,
}
use ai_coaching_agent.Feedback.Review.{merge}

-- A rating counts for the topic in the window.
abbrev pub Counts : ℕ → Window → RatingRecord → Type 0
Counts topic_tag window r =
    (r.topic_tag ≡ topic_tag) × (window.start ≤ r.rated_at) × (r.rated_at ≤ window.end)

-- The three conditions of the rule, on the counts.
abbrev pub Fires : ℕ → ℕ → FlaggingPolicy → Type 0
Fires downs total policy =
    (1 ≤ total)
    × (policy.minimum_sample_size ≤ total)
    × (policy.down_rate_threshold.num * total ≤ downs * policy.down_rate_threshold.den)

reason_for-Fires :
    (downs total : ℕ) (policy : FlaggingPolicy)
    → (reason_for downs total policy ≡ flagged) ↔ Fires downs total policy
unfolding reason_for meets_threshold
reason_for-Fires downs total policy = ground arith

-- The counting of ratings one by one: the thumbs down, and all, that count for the topic in the
-- window.
pub data Tally (topic_tag : ℕ) (window : Window) : List RatingRecord → ℕ → ℕ → Type 0 where
  nothing_rated : Tally topic_tag window [] 0 0
  rated_elsewhere :
      (r : RatingRecord) (rs : List RatingRecord) (d n : ℕ)
      → (Counts topic_tag window r → ⊥)
      → Tally topic_tag window rs d n
      → Tally topic_tag window (r ∷ rs) d n
  rated_up :
      (r : RatingRecord) (rs : List RatingRecord) (d n : ℕ)
      → Counts topic_tag window r
      → r.rating ≡ up
      → Tally topic_tag window rs d n
      → Tally topic_tag window (r ∷ rs) d (suc n)
  rated_down :
      (r : RatingRecord) (rs : List RatingRecord) (d n : ℕ)
      → Counts topic_tag window r
      → r.rating ≡ down
      → Tally topic_tag window rs d n
      → Tally topic_tag window (r ∷ rs) (suc d) (suc n)

module _ (topic_tag : ℕ) (window : Window) where
  abbrev counts : RatingRecord → Bool
  counts r = r.topic_tag == topic_tag && contains_moment window r.rated_at

  counts-Counts : (r : RatingRecord) → (counts r ≡ true) ↔ Counts topic_tag window r
  counts-Counts r = ground arith

  down-rating : (r : RatingRecord) → is_down r ≡ true → r.rating ≡ down
  down-rating r h = ground arith

  up-rating : (r : RatingRecord) → is_down r ≡ false → r.rating ≡ up
  up-rating r h = ground arith

  in_window-Tally :
      (rs : List RatingRecord)
      → let rated = in_window topic_tag rs window in
        Tally topic_tag window rs (length (downs_of rated)) (length rated)
  unfolding in_window downs_of
  in_window-Tally [] = nothing_rated
  in_window-Tally (r ∷ rs) = elim (Bool-cases (counts r)) [
    | inr elsewhere ↦ rw elsewhere (
        rated_elsewhere r rs _ _ (λ c. absurd (ground (arith, (counts-Counts r).1 c)))
          (in_window-Tally rs))
    | inl here ↦ elim (Bool-cases (is_down r)) [
      | inl d ↦
          rw (here, d)
            (rated_down r rs _ _ ((counts-Counts r).0 here) (down-rating r d) (in_window-Tally rs))
      | inr u ↦
          rw (here, u)
            (rated_up r rs _ _ ((counts-Counts r).0 here) (up-rating r u) (in_window-Tally rs))
    ]
  ]

-- A decision counts the ratings, and the thumbs down, that are on the topic and within the window,
-- and flags the topic exactly when there is a rating, there are at least as many as the minimum, and
-- the thumbs down among them are at least the threshold's share.
pub decide_topic-Fires :
    (topic_tag : ℕ) (ratings : List RatingRecord) (window : Window) (policy : FlaggingPolicy)
    (evaluated_at : Moment)
    → let decision = decide_topic topic_tag ratings window policy evaluated_at in
      Tally topic_tag window ratings decision.down_ratings decision.total_ratings
      × ((decision.reason ≡ flagged) ↔ Fires decision.down_ratings decision.total_ratings policy)
unfolding decide_topic decide_on
decide_topic-Fires topic_tag ratings window policy evaluated_at =
    (in_window-Tally topic_tag window ratings, reason_for-Fires _ _ policy)

-- The counts of a decision: the thumbs down are at most the ratings, and those at most all ratings.
pub decide_topic-bounds :
    (topic_tag : ℕ) (ratings : List RatingRecord) (window : Window) (policy : FlaggingPolicy)
    (evaluated_at : Moment)
    → let decision = decide_topic topic_tag ratings window policy evaluated_at in
      (decision.down_ratings ≤ decision.total_ratings) × (decision.total_ratings ≤ length ratings)
unfolding decide_topic decide_on downs_of in_window
decide_topic-bounds topic_tag ratings window policy evaluated_at =
    (keep-length is_down _, keep-length _ ratings)

-- The interaction has a thumbs down among the ratings that counts for the topic in the window.
abbrev pub HasDown : ℕ → List RatingRecord → Window → ℕ → Type 0
HasDown topic_tag ratings window interaction_id =
    (r : RatingRecord) × Holds r ratings
    × (r.interaction_id ≡ interaction_id)
    × (is_down r ≡ true)
    × Counts topic_tag window r

module _ (topic_tag : ℕ) (ratings : List RatingRecord) (window : Window) where
  abbrev IsCounted : RatingRecord → Type 0
  IsCounted r = Holds r ratings × (counts topic_tag window r ≡ true)

  downs-All :
      All (λ r. IsCounted r × (is_down r ≡ true)) (downs_of (in_window topic_tag ratings window))
  unfolding downs_of in_window
  downs-All =
      All-both IsCounted (λ r. is_down r ≡ true)
        (keep is_down (keep (counts topic_tag window) ratings))
        (keep-All is_down IsCounted (keep (counts topic_tag window) ratings) (
          All-both (λ r. Holds r ratings) (λ r. counts topic_tag window r ≡ true)
            (keep (counts topic_tag window) ratings)
            (keep-All (counts topic_tag window) (λ r. Holds r ratings) ratings (Holds-All ratings))
            (keep-passes (counts topic_tag window) ratings)))
        (keep-passes is_down (keep (counts topic_tag window) ratings))

  interactions-HasDown :
      All
        (HasDown topic_tag ratings window)
        (interactions_of (downs_of (in_window topic_tag ratings window)))
  unfolding interactions_of
  interactions-HasDown = fromkeys-All (HasDown topic_tag ratings window) _ (
      map-All _ (HasDown topic_tag ratings window) _ (
        sort_by-All _ _ _ (
          All-weaken _ _ (λ r h. (r, h.0.0, refl, h.1, (counts-Counts topic_tag window r).0 h.0.1))
            _ downs-All)))

  interactions_complete :
      (r : RatingRecord)
      → Holds r ratings
      → is_down r ≡ true
      → Counts topic_tag window r
      → Holds r.interaction_id (interactions_of (downs_of (in_window topic_tag ratings window)))
  unfolding interactions_of downs_of in_window
  interactions_complete r h d c = fromkeys-Holds _ _ (
      map-Holds (λ (s : RatingRecord). s.interaction_id) r _
        (sort_by-Holds _ r _ (
          keep-Holds is_down r _ d (
            keep-Holds (counts topic_tag window) r ratings ((counts-Counts topic_tag window r).1 c)
              h))))

if_flagged-some :
    (reason : DecisionReason) (d c : FlagCandidate) → if_flagged reason d ≡ some c → d ≡ c
if_flagged-some flagged d c e = ground (arith, e)
if_flagged-some below_minimum_sample d c e = absurd (ground (arith, e))
if_flagged-some below_threshold d c e = absurd (ground (arith, e))
if_flagged-some no_ratings d c e = absurd (ground (arith, e))

-- A candidate names exactly the interactions that have a thumbs down on the topic in the window.
pub decide_topic-causes :
    (topic_tag : ℕ) (ratings : List RatingRecord) (window : Window) (policy : FlaggingPolicy)
    (evaluated_at : Moment) (c : FlagCandidate)
    → (decide_topic topic_tag ratings window policy evaluated_at).candidate ≡ some c
    → All (HasDown topic_tag ratings window) c.flagging_interaction_ids
      × ((r : RatingRecord)
          → Holds r ratings
          → is_down r ≡ true
          → Counts topic_tag window r
          → Holds r.interaction_id c.flagging_interaction_ids)
unfolding decide_topic decide_on
decide_topic-causes topic_tag ratings window policy evaluated_at c e =
    subst
      (λ (d : FlagCandidate).
        All (HasDown topic_tag ratings window) d.flagging_interaction_ids
        × ((r : RatingRecord)
            → Holds r ratings
            → is_down r ≡ true
            → Counts topic_tag window r
            → Holds r.interaction_id d.flagging_interaction_ids))
      (if_flagged-some _ _ c e)
      (
        interactions-HasDown topic_tag ratings window,
        interactions_complete topic_tag ratings window,
      )

-- Updating an open flag keeps its identifier, its status and every interaction that it named, and
-- adds those of the candidate.
pub merge-keeps :
    (existing : ContentReviewFlag) (c : FlagCandidate)
    → let merged = merge existing c in
      (merged.flag_id ≡ existing.flag_id)
      × (merged.status ≡ existing.status)
      × ((id : ℕ)
          → Holds id existing.flagging_interaction_ids
          → Holds id merged.flagging_interaction_ids)
      × ((id : ℕ) → Holds id c.flagging_interaction_ids → Holds id merged.flagging_interaction_ids)
unfolding merge
merge-keeps existing c = (
  refl,
  refl,
  λ id h. fromkeys-Holds id _ (append-Holds_left id existing.flagging_interaction_ids _ h),
  λ id h. fromkeys-Holds id _ (append-Holds_right id existing.flagging_interaction_ids _ h),
)
