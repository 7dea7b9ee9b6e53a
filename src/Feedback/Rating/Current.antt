-- ===== src/Feedback/Rating/Current.antt =====
-- What `capture` leaves: a refusal writes nothing, and a rating that was recorded is the current one
-- of its learner, also when the earlier ratings could not be marked.
use ai_coaching_agent.Common.{
  ℕ, ◌≡◌, refl, sym, subst, ◌∙◌, Bool, true, false, not, ◌&&◌, ◌||◌, inl, inr, Option, none, some,
  List, [], ◌∷◌, keep, All, ◌==◌, Bool-cases, arith,
}
use ai_coaching_agent.Common.Dict.{lookup, insert, lookup-insert, values}
use ai_coaching_agent.Common.Dict.Values.{insert-All, lookup-Holds}
use ai_coaching_agent.Common.Members.{keep-All, keep-passes, keep-Holds, All-weaken, All-both}
use ai_coaching_agent.Common.Sort.{sort_by, sort_by-All, sort_by-Holds, max_by-greatest, IsBelow}
use ai_coaching_agent.Common.Effect.{
  Triple, Keeps, Keeps-of, Triple-world, attempt-Triple, bind-Triple, gets-Triple, modify-Triple,
  pure-Triple,
}
use ai_coaching_agent.Feedback.Records.{
  RatingRecord, superseded, is_current, PortError, RatingCaptureStatus, recorded, replaced,
  RatingCaptureResult,
}
use ai_coaching_agent.Feedback.Store.{
  World, Env, Action, ServiceError, port, missing, for_interaction, supersede,
}
use ai_coaching_agent.Feedback.Store.Reach.{
  IsStable, after_reach_port, found-Triple, FromPort, on_port-Triple,
}
use ai_coaching_agent.Feedback.Store.Extends.{Extends-refl}
use ai_coaching_agent.Feedback.Review.{evaluate_topic}
use ai_coaching_agent.Feedback.Review.Durable.{evaluate_topic-Extends}
use ai_coaching_agent.Feedback.Rating.{
  isolated, status_for, resolve_current, supersede_each, supersede_previous, finish_capture,
}

-- `is_success`
abbrev pub is_success : RatingCaptureStatus → Bool
is_success recorded = true
is_success replaced = true
is_success _ = false

status_for-success : (o : Option ℕ) → is_success (status_for o) ≡ true
status_for-success none = refl
status_for-success (some k) = refl

module _ (interaction_id user_id : ℕ) where
  -- A current rating of the learner for the interaction.
  abbrev pub rivals : RatingRecord → Bool
  rivals r = r.interaction_id == interaction_id && (r.user_id == user_id && is_current r)

  -- The rating is stored, and every other current one of the learner is earlier.
  abbrev pub IsLatest : RatingRecord → World → Type 0
  IsLatest s w =
      (lookup s.rating_id w.ratings ≡ some s)
      × (rivals s ≡ true)
      × All (λ r. rivals r ≡ true → IsBelow (λ (x : RatingRecord). x.rated_at) s r)
          (values w.ratings)

  abbrev Below : RatingRecord → RatingRecord → Type 0
  Below s = IsBelow (λ (x : RatingRecord). x.rated_at) s

  rivals_iff :
      (r : RatingRecord)
      → (r.interaction_id == interaction_id) ≡ true
      → (r.user_id == user_id && is_current r) ≡ true
      → rivals r ≡ true
  rivals_iff r e e' = ground (arith, e, e')

  rivals-interaction :
      (r : RatingRecord) → rivals r ≡ true → (r.interaction_id == interaction_id) ≡ true
  rivals-interaction r e = ground (arith, e)

  rivals-user : (r : RatingRecord) → rivals r ≡ true → (r.user_id == user_id && is_current r) ≡ true
  rivals-user r e = ground (arith, e)

  -- What reading the history finds then.
  pub latest_found :
      (s : RatingRecord) (w : World)
      → IsLatest s w
      → resolve_current user_id (
          sort_by
            (λ (r : RatingRecord). r.rated_at)
            (keep (λ (r : RatingRecord). r.interaction_id == interaction_id) (values w.ratings)))
        ≡ some s
  unfolding resolve_current
  latest_found s w (at, own, all) =
      let here : RatingRecord → Bool = λ r. r.interaction_id == interaction_id in
      let mine : RatingRecord → Bool = λ r. r.user_id == user_id && is_current r in
      let Q : RatingRecord → Type 0 = λ r. (rivals r ≡ true → Below s r) × (here r ≡ true) in
      let sorted : All Q
          (sort_by (λ (r : RatingRecord). r.rated_at) (keep here (values w.ratings))) =
        sort_by-All _ Q _
          (All-both _ _ _ (keep-All here _ _ all) (keep-passes here (values w.ratings))) in
      max_by-greatest _ s _
        (All-weaken (λ r. Q r × (mine r ≡ true)) (Below s) (λ r h. h.0.0 (rivals_iff r h.0.1 h.1)) _
          (All-both Q (λ r. mine r ≡ true) _ (keep-All mine Q _ sorted) (keep-passes mine _)))
        (keep-Holds mine s _ (rivals-user s own) (
          sort_by-Holds _ s _ (
            keep-Holds here s _ (rivals-interaction s own)
              (lookup-Holds s.rating_id s w.ratings at))))

  module _ (s : RatingRecord) where
    IsLatest-IsStable : IsStable (IsLatest s)
    IsLatest-IsStable w n h = h

    -- Marking another rating keeps the latest one.
    mark-IsLatest :
        (k by : ℕ) (r : RatingRecord) (w : World)
        → (k == s.rating_id) ≡ false
        → IsLatest s w
        → IsLatest s (record w { ratings = insert k (superseded by r) w.ratings })
    mark-IsLatest k by r w other (at, own, all) = (
      lookup-insert k s.rating_id (superseded by r) w.ratings ∙ (rw other at),
      own,
      insert-All _ k (superseded by r) w.ratings
          (λ e. absurd (ground (arith, rivals-user (superseded by r) e))) all,
    )

    supersede-IsLatest :
        {F : ServiceError → World → Type 0} (env : Env) (k by : ℕ)
        → (k == s.rating_id) ≡ false
        → ((e : PortError) (w : World) → IsLatest s w → F (port e) w)
        → Triple (IsLatest s) (supersede env k by) (λ _. IsLatest s) F
    unfolding supersede
    supersede-IsLatest env k by other raised =
        after_reach_port (IsLatest s) IsLatest-IsStable env raised (
          bind-Triple (λ row w. IsLatest s w × (lookup k w.ratings ≡ row))
            (gets-Triple _ (λ w h. (h, refl)))
            (λ row.
              bind-Triple (λ r w. IsLatest s w × (lookup k w.ratings ≡ some r))
                (found-Triple (IsLatest s) (λ w. lookup k w.ratings) missing row (raised missing))
                (λ r.
                  bind-Triple (λ _. IsLatest s)
                    (modify-Triple _ (λ w h. mark-IsLatest k by r w other h.0))
                    (λ _. pure-Triple _ (λ w h. h)))))

    -- Never raises, and keeps the latest rating.
    abbrev Settles : {A : Type 0} → Action A → Type 0
    Settles m = Triple (IsLatest s) m (λ _. IsLatest s) (λ e w. ⊥)

    supersede_each-Settles :
        (env : Env) (marked : Option ℕ) (rs : List RatingRecord)
        → Settles (supersede_each env user_id s.rating_id marked rs)
    unfolding supersede_each
    supersede_each-Settles env marked [] = pure-Triple marked (λ w h. h)
    supersede_each-Settles env marked (r ∷ rs) =
        elim (Bool-cases
          (not (r.user_id == user_id) || r.rating_id == s.rating_id || not (is_current r))) [
            | inl skipped ↦ rw (supersede_each, skipped) (supersede_each-Settles env marked rs)
            | inr due ↦
                rw (supersede_each, due)
                  (attempt-Triple (λ _. IsLatest s) (FromPort (IsLatest s))
                    (supersede-IsLatest env r.rating_id s.rating_id (ground (arith, due))
                      (λ e w h. h))
                    (on_port-Triple (IsLatest s) (λ _. IsLatest s) (λ e w. ⊥) _
                      (λ e. supersede_each-Settles env marked rs))
                    (λ done. supersede_each-Settles env (some r.rating_id) rs))
          ]

    supersede_previous-Settles :
        (env : Env) → Settles (supersede_previous env interaction_id user_id s.rating_id)
    unfolding supersede_previous for_interaction
    supersede_previous-Settles env =
        attempt-Triple (λ _. IsLatest s) (FromPort (IsLatest s))
          (after_reach_port (IsLatest s) IsLatest-IsStable env (λ e w h. h)
            (gets-Triple _ (λ w h. h)))
          (on_port-Triple (IsLatest s) (λ _. IsLatest s) (λ e w. ⊥) _
            (λ e. pure-Triple none (λ w h. h)))
          (supersede_each-Settles env none)

    evaluate-IsLatest : (env : Env) (topic : ℕ) → Keeps (IsLatest s) (evaluate_topic env topic)
    evaluate-IsLatest env topic = Keeps-of (λ w (at, own, all).
        let (_, _, _, same) =
          Triple-world (evaluate_topic-Extends w env topic) w (Extends-refl w) in
        (
          subst (λ rs. lookup s.rating_id rs ≡ some s) (sym same) at,
          own,
          subst (λ rs. All (λ r. rivals r ≡ true → Below s r) (values rs)) (sym same) all,
        ))

    isolated-Settles : (env : Env) (topic : ℕ) → Settles (isolated (evaluate_topic env topic))
    unfolding isolated
    isolated-Settles env topic =
        attempt-Triple (λ _. IsLatest s) (λ _. IsLatest s) (evaluate-IsLatest env topic)
          (λ e. pure-Triple tt (λ w h. h)) (λ a. pure-Triple tt (λ w h. h))

    -- A result that carries the rating, which is the latest.
    abbrev pub IsCaptured : RatingCaptureResult → World → Type 0
    IsCaptured r w = (r.rating ≡ some s) × (is_success r.status ≡ true) × IsLatest s w

    pub finish_capture-IsCaptured :
        (env : Env)
        → Triple (IsLatest s) (finish_capture env interaction_id user_id s) IsCaptured (λ e w. ⊥)
    unfolding finish_capture
    finish_capture-IsCaptured env =
        bind-Triple (λ _. IsLatest s) (supersede_previous-Settles env)
          (λ o.
            bind-Triple (λ _. IsLatest s) (isolated-Settles env s.topic_tag)
              (λ _. pure-Triple _ (λ w h. (refl, status_for-success o, h))))
