-- ===== src/Feedback/Rating/Captured.antt =====
-- `capture` as a whole: a refusal writes nothing, and a rating that was recorded is the current one
-- of its learner.
use ai_coaching_agent.Common.{
  ℕ, ◌+◌, ◌<◌, ◌≡◌, refl, sym, subst, ap, ◌∙◌, Bool, true, false, ◌⊎◌, inl, inr, Option, none, some,
  All, Result, ok, err, ltb, ◌==◌, Bool-cases, if◌then◌else◌, arith,
}
use ai_coaching_agent.Common.Dict.{lookup-insert_self, insert, values}
use ai_coaching_agent.Common.Dict.Values.{insert-All}
use ai_coaching_agent.Common.Members.{All-weaken}
use ai_coaching_agent.Common.Sort.{IsBelow}
use ai_coaching_agent.Common.Effect.{
  Triple, Triple-returned, Post, pure, attempt, weaken_error, weaken_result, attempt-Triple,
  bind-Triple, modify-Triple, pure-Triple, raise-Triple,
}
use ai_coaching_agent.Streak.Time.{Moment, hours}
use ai_coaching_agent.Feedback.Records.{
  InteractionRecord, Comment, RatingValue, RatingRecord, PortError, PortErrorKind, record_not_found,
  provider_invalid_response, provider_unavailable, provider_timeout, RatingCaptureResult, refused,
  rejected_window_expired, window_expired,
}
use ai_coaching_agent.Feedback.Store.{
  World, Env, ServiceError, on_port, ask, reach, save_rating, for_interaction,
}
use ai_coaching_agent.Feedback.Store.Reach.{
  IsStable, ask-Keeps, after_reach_port, FromPort, on_port-Triple,
}
use ai_coaching_agent.Feedback.Rating.{
  refused_by_get, refused_by_save, capture_at, capture_got, build_record, finish_capture,
  record_rating, capture_delivered, capture_found, capture_rating, capture, current_rating_for,
  clean, is_too_long,
}
use ai_coaching_agent.Feedback.Rating.Current.{
  is_success, rivals, latest_found, IsLatest, IsCaptured, finish_capture-IsCaptured,
}

-- Nothing was written.
abbrev pub IsUnchanged : World → World → Type 0
IsUnchanged w0 w =
    (w.ratings ≡ w0.ratings)
    × (w.flags ≡ w0.flags)
    × (w.work ≡ w0.work)
    × (w.notified ≡ w0.notified)

-- Every current rating of the learner for the interaction is from before the clock's answers.
abbrev pub IsEarlier : Env → ℕ → ℕ → World → Type 0
IsEarlier env interaction_id user_id w =
    (n : ℕ)
    → All (λ r. rivals interaction_id user_id r ≡ true → r.rated_at < env.now n) (values w.ratings)

-- A refusal after which nothing was written, or the rating, which is the learner's latest.
abbrev pub IsOutcome : ℕ → ℕ → RatingValue → World → RatingCaptureResult → World → Type 0
IsOutcome interaction_id user_id value w0 r w =
    ((is_success r.status ≡ false) × IsUnchanged w0 w)
    ⊎ ((s : RatingRecord) × (s.rating ≡ value) × IsCaptured interaction_id user_id s r w)

save-fails : (e : PortError) → is_success (refused_by_save e).status ≡ false
save-fails e = elim (Bool-cases e.retryable) [ inl r ↦ rw r refl | inr p ↦ rw p refl ]

get-fails : (e : PortError) → is_success (refused_by_get e).status ≡ false
get-fails e = fails_by e.kind refl
  where
    fails_by : (k : PortErrorKind) → e.kind ≡ k → is_success (refused_by_get e).status ≡ false
    fails_by record_not_found same = rw same refl
    fails_by provider_invalid_response same = rw same refl
    fails_by provider_unavailable same = rw same refl
    fails_by provider_timeout same = rw same refl

module _ (env : Env) (interaction_id user_id : ℕ) (value : RatingValue) (w0 : World)
    (earlier : IsEarlier env interaction_id user_id w0) where
  abbrev Unchanged : World → Type 0
  Unchanged = IsUnchanged w0

  abbrev Outcome : RatingCaptureResult → World → Type 0
  Outcome = IsOutcome interaction_id user_id value w0

  Unchanged-IsStable : IsStable Unchanged
  Unchanged-IsStable w n h = h

  saved-IsLatest :
      (s : RatingRecord) (n : ℕ) (w : World)
      → rivals interaction_id user_id s ≡ true
      → s.rated_at ≡ env.now n
      → Unchanged w
      → IsLatest interaction_id user_id s (record w { ratings = insert s.rating_id s w.ratings })
  saved-IsLatest s n w own at (same, _, _, _) = (
    lookup-insert_self s.rating_id s w.ratings,
    own,
    insert-All
        (λ (r : RatingRecord).
          rivals interaction_id user_id r ≡ true → IsBelow (λ (x : RatingRecord). x.rated_at) s r)
        s.rating_id s w.ratings (λ e. inl refl)
        (subst
          (λ rs.
            All
              (λ (r : RatingRecord).
                rivals interaction_id user_id r ≡ true
                → IsBelow (λ (x : RatingRecord). x.rated_at) s r)
              (values rs))
          (sym same)
          (All-weaken _ _
            (λ r before own'. inr (subst (λ m. r.rated_at < m) (sym at) (before own'))) _
            (earlier n))),
  )

  save-IsLatest :
      (s : RatingRecord) (n : ℕ)
      → rivals interaction_id user_id s ≡ true
      → s.rated_at ≡ env.now n
      → Triple Unchanged
          (save_rating env s)
          (λ r w. (r ≡ s) × IsLatest interaction_id user_id s w)
          (FromPort Unchanged)
  unfolding save_rating
  save-IsLatest s n own at =
      after_reach_port Unchanged Unchanged-IsStable env (λ e w h. h)
        (bind-Triple (λ _. IsLatest interaction_id user_id s)
          (modify-Triple _ (λ w h. saved-IsLatest s n w own at h))
          (λ _. pure-Triple s (λ w h. (refl, h))))

  refuse :
      {F : ServiceError → World → Type 0} (r : RatingCaptureResult)
      → is_success r.status ≡ false
      → Triple Unchanged (pure r) Outcome F
  refuse r failed = pure-Triple r (λ w h. inl (failed, h))

  finish-Outcome :
      {F : ServiceError → World → Type 0} (s r : RatingRecord)
      → s.rating ≡ value
      → Triple
          (λ w. (r ≡ s) × IsLatest interaction_id user_id s w)
          (finish_capture env interaction_id user_id r)
          Outcome
          F
  finish-Outcome {F = F} s r rated = record {
    run = λ w h.
        subst (λ x. Post Outcome F (finish_capture env interaction_id user_id x w)) (sym h.0)
          ((weaken_error (λ e v impossible. absurd impossible)
              (weaken_result (λ a v c. inr (s, rated, c))
                (finish_capture-IsCaptured interaction_id user_id s env))).run
            w h.1);
  }

  save-Outcome :
      {F : ServiceError → World → Type 0} (s : RatingRecord) (n : ℕ)
      → rivals interaction_id user_id s ≡ true
      → s.rated_at ≡ env.now n
      → s.rating ≡ value
      → Triple Unchanged
          (attempt
            (save_rating env s)
            (on_port (λ e. pure (refused_by_save e)))
            (finish_capture env interaction_id user_id))
          Outcome
          F
  save-Outcome {F = F} s n own at rated =
      attempt-Triple (λ r w. (r ≡ s) × IsLatest interaction_id user_id s w) (FromPort Unchanged)
        (save-IsLatest s n own at)
        (on_port-Triple Unchanged Outcome F _ (λ e. refuse (refused_by_save e) (save-fails e)))
        (λ r. finish-Outcome {F = F} s r rated)

  -- What a record that was built is about.
  abbrev IsBuilt : Moment → RatingRecord → Type 0
  IsBuilt now s = (rivals interaction_id user_id s ≡ true) × (s.rated_at ≡ now) × (s.rating ≡ value)

  build-IsBuilt :
      (rating_id : ℕ) (i : InteractionRecord) (comment : Option Comment) (now : Moment)
      → i.interaction_id ≡ interaction_id
      → (i.user_id == user_id) ≡ true
      → Triple Unchanged
          (build_record rating_id i value comment now)
          (λ s w. Unchanged w × IsBuilt now s)
          (λ e. Unchanged)
  unfolding build_record
  build-IsBuilt rating_id i comment now about own =
      elim (Bool-cases (is_too_long (clean comment))) [
        | inl long ↦ rw (build_record, long) (raise-Triple _ (λ w h. h))
        | inr short ↦
            rw (build_record, short)
              (pure-Triple _ (λ w h. (h, (ground (arith, about, own), refl, refl))))
      ]

  record-Outcome :
      (i : InteractionRecord) (comment : Option Comment) (now : Moment) (n : ℕ)
      → now ≡ env.now n
      → i.interaction_id ≡ interaction_id
      → (i.user_id == user_id) ≡ true
      → Triple Unchanged
          (record_rating env interaction_id user_id i value comment now)
          Outcome
          (λ e. Unchanged)
  unfolding record_rating
  record-Outcome i comment now n at about own =
      bind-Triple (λ _. Unchanged) (ask-Keeps Unchanged Unchanged-IsStable env.new_id)
        (λ rating_id.
          bind-Triple (λ s w. Unchanged w × IsBuilt now s)
            (build-IsBuilt rating_id i comment now about own)
            (λ s. record {
              run =
                  λ w h. (save-Outcome {F = λ e. Unchanged} s n h.1.0 (h.1.1 ∙ at) h.1.2).run w h.0;
            }))

  timed-Outcome :
      (b : Bool) (i : InteractionRecord) (comment : Option Comment) (now : Moment) (n : ℕ)
      → now ≡ env.now n
      → i.interaction_id ≡ interaction_id
      → (i.user_id == user_id) ≡ true
      → Triple Unchanged
          (if b
            then pure (refused rejected_window_expired (some window_expired))
            else record_rating env interaction_id user_id i value comment now)
          Outcome
          (λ e. Unchanged)
  timed-Outcome true i comment now n at about own = refuse _ refl
  timed-Outcome false i comment now n at about own = record-Outcome i comment now n at about own

  delivered-Outcome :
      (i : InteractionRecord) (comment : Option Comment) (delivered_at : Moment)
      → i.interaction_id ≡ interaction_id
      → (i.user_id == user_id) ≡ true
      → Triple Unchanged
          (capture_delivered env interaction_id user_id i value comment delivered_at)
          Outcome
          (λ e. Unchanged)
  unfolding capture_delivered ask
  delivered-Outcome i comment delivered_at about own =
      bind-Triple (λ now w. Unchanged w × ((n : ℕ) × (now ≡ env.now n)))
        (record { run = λ w h. (h, (w.asked, refl)) })
        (λ now.
          bind-Triple (λ _ w. Unchanged w × ((n : ℕ) × (now ≡ env.now n)))
            (record { run = λ w h. h })
            (λ limit. record {
              run = λ w h.
                  (timed-Outcome (ltb (delivered_at + hours limit) now) i comment now h.1.0 h.1.1
                      about own).run
                    w h.0;
            }))

  at-Outcome :
      (i : InteractionRecord) (comment : Option Comment) (at : Result PortError Moment)
      → i.interaction_id ≡ interaction_id
      → (i.user_id == user_id) ≡ true
      → Triple Unchanged
          (capture_at env interaction_id user_id i value comment at)
          Outcome
          (λ e. Unchanged)
  at-Outcome i comment (err e) about own = refuse _ refl
  at-Outcome i comment (ok at) about own = delivered-Outcome i comment at about own

  owned-Outcome :
      (i : InteractionRecord) (comment : Option Comment)
      → i.interaction_id ≡ interaction_id
      → Triple Unchanged
          (capture_found env interaction_id user_id value comment i)
          Outcome
          (λ e. Unchanged)
  unfolding capture_found
  owned-Outcome i comment about = elim (Bool-cases (i.user_id == user_id)) [
    | inl own ↦
        rw (capture_found, own) (at-Outcome i comment (env.delivered_at interaction_id) about own)
    | inr other ↦ rw (capture_found, other) (refuse _ refl)
  ]

  got-Outcome :
      (got : Result PortError InteractionRecord) (comment : Option Comment)
      → ((i : InteractionRecord) → got ≡ ok i → i.interaction_id ≡ interaction_id)
      → Triple Unchanged
          (capture_got env interaction_id user_id value comment got)
          Outcome
          (λ e. Unchanged)
  got-Outcome (err e) comment about = refuse (refused_by_get e) (get-fails e)
  got-Outcome (ok i) comment about = owned-Outcome i comment (about i refl)

  capture-Outcome :
      (comment : Option Comment)
      → ((i : InteractionRecord)
          → env.get interaction_id ≡ ok i
          → i.interaction_id ≡ interaction_id)
      → Triple Unchanged
          (capture env interaction_id (some user_id) value comment)
          Outcome
          (λ e w. ⊥)
  unfolding capture capture_rating
  capture-Outcome comment about =
      attempt-Triple Outcome (λ e. Unchanged) (got-Outcome (env.get interaction_id) comment about)
        (λ e. refuse _ refl) (λ r. pure-Triple r (λ w h. h))

-- The provider returns the interaction that it was asked for.
abbrev pub IsAnswering : Env → ℕ → Type 0
IsAnswering env interaction_id =
    (i : InteractionRecord) → env.get interaction_id ≡ ok i → i.interaction_id ≡ interaction_id

-- Where the earlier ratings of the learner are from before the clock's answers and the provider
-- returns the interaction asked for, `capture` always returns, whatever fails: a refusal, and then
-- no repository has changed, or the rating asked for, stored and later than every other current
-- rating of the learner for the interaction.
pub capture-returns :
    (env : Env) (interaction_id user_id : ℕ) (value : RatingValue) (comment : Option Comment)
    (w : World)
    → IsEarlier env interaction_id user_id w
    → IsAnswering env interaction_id
    → let after = capture env interaction_id (some user_id) value comment w in
      (r : RatingCaptureResult) × (after.0 ≡ ok r)
      × IsOutcome interaction_id user_id value w r after.1
capture-returns env interaction_id user_id value comment w earlier answering =
    Triple-returned (capture-Outcome env interaction_id user_id value w earlier comment answering) w
      (refl, refl, refl, refl)

current_of :
    (env : Env) (interaction_id user_id : ℕ) (value : RatingValue) (w0 w : World)
    (r : RatingCaptureResult)
    → IsOutcome interaction_id user_id value w0 r w
    → is_success r.status ≡ true
    → env.fails w.asked ≡ none
    → (current_rating_for env interaction_id user_id w).0 ≡ ok r.rating
unfolding current_rating_for for_interaction reach ask attempt
current_of env interaction_id user_id value w0 w r (inl (failed, _)) success reads =
    absurd (ground (arith, failed, success))
current_of env interaction_id user_id value w0 w r (inr (s, _, (same, _, latest))) success reads =
    rw (reads, same) (ap (λ x. ok x) (latest_found interaction_id user_id s w latest))

-- After a capture that succeeded, under the same conditions, reading the learner's current rating
-- finds the rating that was captured, also when an earlier one could not be marked as superseded.
pub capture-current :
    (env env' : Env) (interaction_id user_id : ℕ) (value : RatingValue) (comment : Option Comment)
    (w : World) (r : RatingCaptureResult)
    → IsEarlier env interaction_id user_id w
    → IsAnswering env interaction_id
    → let after = capture env interaction_id (some user_id) value comment w in
      after.0 ≡ ok r
      → is_success r.status ≡ true
      → env'.fails after.1.asked ≡ none
      → (current_rating_for env' interaction_id user_id after.1).0 ≡ ok r.rating
capture-current env env' interaction_id user_id value comment w r earlier answering returned success
      reads =
    let after = capture env interaction_id (some user_id) value comment w in
    let (r', returned', outcome) =
      capture-returns env interaction_id user_id value comment w earlier answering in
    let same : r' ≡ r = ground (arith, sym returned' ∙ returned) in
    current_of env' interaction_id user_id value w after.1 r
      (subst (λ x. IsOutcome interaction_id user_id value w x after.1) same outcome) success reads
