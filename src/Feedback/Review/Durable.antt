-- ===== src/Feedback/Review/Durable.antt =====
-- A flag that was decided is not lost: what each call does to the flags and to the work items.
use ai_coaching_agent.Common.{
  ℕ, Option, none, some, List, [], ◌∷◌, Result, ok, err, any, ◌++◌, ◌==◌, Bool-cases, inl, inr,
}
use ai_coaching_agent.Common.Dict.{Has}
use ai_coaching_agent.Common.Effect.{
  Triple, Keeps, Triple-world, attempt-Triple, bind-Triple, bind-Keeps, pure-Triple, raise-Triple,
  for_each-Keeps,
}
use ai_coaching_agent.Feedback.Records.{ContentReviewFlag, PortError}
use ai_coaching_agent.Feedback.Flagging.{
  Window, PolicyError, rolling, policy_of, FlagCandidate, FlagDecision, FlagWorkItem,
}
use ai_coaching_agent.Feedback.Store.{World, Env, ask, resolve, flag_created}
use ai_coaching_agent.Feedback.Store.Reach.{ask-Keeps, on_port-Keeps, shielded-Keeps}
use ai_coaching_agent.Feedback.Store.Extends.{
  IsDurable, Extends, Extends-refl, Extends-IsStable, IsWritten, mark_failed-Extends,
  update_candidate-Extends, resolve-Extends, save_flag-Extends, update_flag-Extends,
  enqueue-Extends, pending-Extends, pending_for_topic-Extends, open_flag_for-Extends,
  current_in_window-Extends, flag_created-Extends,
}
use ai_coaching_agent.Feedback.Review.{
  FlagWriteStatus, created, updated, not_required, deferred, FlagEvaluationResult, of_policy, build,
  merge, write_flag, write_over, defer, notify_if_created, settle, attempt_write, record_over,
  record_intent, current_policy, current_window, decide_now, decide_again, write_if_flagged,
  refresh, evaluate_topic, retry, evaluate_each, topics_or, run_cycle,
}

module _ (w0 : World) where
  record_over-Extends :
      (env : Env) (c : FlagCandidate) (o : Option FlagWorkItem)
      → Keeps (Extends w0) (record_over env c o)
  record_over-Extends env c none = enqueue-Extends w0 env c
  record_over-Extends env c (some i) = update_candidate-Extends w0 env i.work_id c

  record_intent-Extends : (env : Env) (c : FlagCandidate) → Keeps (Extends w0) (record_intent env c)
  unfolding record_intent
  record_intent-Extends env c =
      bind-Keeps (pending_for_topic-Extends w0 env c.topic_tag) (record_over-Extends env c)

  write_over-Extends :
      (env : Env) (c : FlagCandidate) (o : Option ContentReviewFlag)
      → Triple (Extends w0) (write_over env c o) (λ r. IsWritten w0 r.0) (λ _. Extends w0)
  write_over-Extends env c none =
      bind-Triple (λ _. Extends w0) (ask-Keeps (Extends w0) (Extends-IsStable w0) env.new_id)
        (λ id.
          bind-Triple (IsWritten w0) (save_flag-Extends w0 env (build id c))
            (λ g. pure-Triple (g, created) (λ w h. h)))
  write_over-Extends env c (some f) =
      bind-Triple (IsWritten w0) (update_flag-Extends w0 env (merge f c))
        (λ g. pure-Triple (g, updated) (λ w h. h))

  write_flag-Extends :
      (env : Env) (c : FlagCandidate)
      → Triple (Extends w0) (write_flag env c) (λ r. IsWritten w0 r.0) (λ _. Extends w0)
  unfolding write_flag
  write_flag-Extends env c =
      bind-Triple (λ _. Extends w0) (open_flag_for-Extends w0 env c.topic_tag c.window)
        (write_over-Extends env c)

  notify-Extends :
      (env : Env) (f : ContentReviewFlag) (status : FlagWriteStatus)
      → Keeps (Extends w0) (notify_if_created env f status)
  unfolding notify_if_created
  notify-Extends env f created =
      shielded-Keeps (Extends w0) (Extends w0) (flag_created env f) (flag_created-Extends w0 env f)
  notify-Extends env f updated = pure-Triple tt (λ w h. h)
  notify-Extends env f not_required = pure-Triple tt (λ w h. h)
  notify-Extends env f deferred = pure-Triple tt (λ w h. h)

  settle-Extends :
      (env : Env) (i : FlagWorkItem) (d : FlagDecision) (r : ContentReviewFlag × FlagWriteStatus)
      → Triple (IsWritten w0 r.0) (settle env i d r) (λ _. Extends w0) (λ _. Extends w0)
  unfolding settle
  settle-Extends env i d (f, status) =
      bind-Triple (λ _. Extends w0)
        (shielded-Keeps (Extends w0) (IsWritten w0 f) (resolve env i.work_id f.flag_id)
          (resolve-Extends w0 env i.work_id f.flag_id))
        (λ _. bind-Keeps (notify-Extends env f status) (λ _. pure-Triple _ (λ w h. h)))

  defer-Extends :
      (env : Env) (i : FlagWorkItem) (d : FlagDecision) (e : PortError)
      → Keeps (Extends w0) (defer env i d e)
  unfolding defer
  defer-Extends env i d e =
      bind-Keeps (mark_failed-Extends w0 env i.work_id e.reason_code)
        (λ _. pure-Triple _ (λ w h. h))

  attempt_write-Extends :
      (env : Env) (i : FlagWorkItem) (d : FlagDecision) → Keeps (Extends w0) (attempt_write env i d)
  unfolding attempt_write
  attempt_write-Extends env i d =
      attempt-Triple (λ r. IsWritten w0 r.0) (λ _. Extends w0) (write_flag-Extends env i.candidate)
        (on_port-Keeps (Extends w0) (defer env i d) (defer-Extends env i d))
        (settle-Extends env i d)

  of_policy-Extends : {A : Type 0} (r : Result PolicyError A) → Keeps (Extends w0) (of_policy r)
  of_policy-Extends (ok a) = pure-Triple a (λ w h. h)
  of_policy-Extends (err e) = raise-Triple _ (λ w h. h)

  answer-Extends : {A : Type 0} (answers : ℕ → A) → Keeps (Extends w0) (ask answers)
  answer-Extends answers = ask-Keeps (Extends w0) (Extends-IsStable w0) answers

  current_window-Extends : (env : Env) → Keeps (Extends w0) (current_window env)
  unfolding current_window
  current_window-Extends env = bind-Keeps (answer-Extends env.now) (λ now.
      bind-Keeps (answer-Extends env.window_days) (λ days. of_policy-Extends (rolling now days)))

  current_policy-Extends : (env : Env) → Keeps (Extends w0) (current_policy env)
  unfolding current_policy
  current_policy-Extends env = bind-Keeps (answer-Extends env.down_rate_threshold) (λ t.
      bind-Keeps (answer-Extends env.minimum_sample_size) (λ m. of_policy-Extends (policy_of t m)))

  decide_now-Extends : (env : Env) (topic : ℕ) → Keeps (Extends w0) (decide_now env topic)
  unfolding decide_now
  decide_now-Extends env topic = bind-Keeps (current_window-Extends env) (λ window.
      bind-Keeps (current_policy-Extends env) (λ rule.
        bind-Keeps (current_in_window-Extends w0 env window)
          (λ ratings. bind-Keeps (answer-Extends env.now) (λ at. pure-Triple _ (λ w h. h)))))

  decide_again-Extends : (env : Env) (topic : ℕ) → Keeps (Extends w0) (decide_again env topic)
  unfolding decide_again
  decide_again-Extends env topic = bind-Keeps (current_window-Extends env) (λ window.
      bind-Keeps (current_in_window-Extends w0 env window) (λ ratings.
        bind-Keeps (current_policy-Extends env)
          (λ rule. bind-Keeps (answer-Extends env.now) (λ at. pure-Triple _ (λ w h. h)))))

  write_if_flagged-Extends :
      (env : Env) (d : FlagDecision) (o : Option FlagCandidate)
      → Keeps (Extends w0) (write_if_flagged env d o)
  write_if_flagged-Extends env d none = pure-Triple _ (λ w h. h)
  write_if_flagged-Extends env d (some c) =
      bind-Keeps (record_intent-Extends env c) (λ i. attempt_write-Extends env i d)

  pub evaluate_topic-Extends :
      (env : Env) (topic : ℕ) → Keeps (Extends w0) (evaluate_topic env topic)
  unfolding evaluate_topic
  evaluate_topic-Extends env topic =
      bind-Keeps (decide_now-Extends env topic) (λ d. write_if_flagged-Extends env d d.candidate)

  refresh-Extends :
      (env : Env) (i : FlagWorkItem) (o : Option FlagCandidate)
      → Keeps (Extends w0) (refresh env i o)
  refresh-Extends env i none = pure-Triple i (λ w h. h)
  refresh-Extends env i (some c) = update_candidate-Extends w0 env i.work_id c

  retry-Extends : (env : Env) (i : FlagWorkItem) → Keeps (Extends w0) (retry env i)
  unfolding retry
  retry-Extends env i =
      bind-Keeps (decide_again-Extends env i.candidate.topic_tag)
        (λ d. bind-Keeps (refresh-Extends env i d.candidate) (λ j. attempt_write-Extends env j d))

  evaluate_each-Extends :
      (env : Env) (rs : List FlagEvaluationResult) (topics : List ℕ)
      → Keeps (Extends w0) (evaluate_each env rs topics)
  unfolding evaluate_each
  evaluate_each-Extends env rs [] = pure-Triple rs (λ w h. h)
  evaluate_each-Extends env rs (t ∷ ts) =
      elim (Bool-cases (any (λ (r : FlagEvaluationResult). r.topic_tag == t) rs)) [
        | inl handled ↦ rw (evaluate_each, handled) (evaluate_each-Extends env rs ts)
        | inr fresh ↦
            rw (evaluate_each, fresh)
              (bind-Keeps (evaluate_topic-Extends env t)
                (λ r. evaluate_each-Extends env (rs ++ r ∷ []) ts))
      ]

  topics_or-Extends :
      (env : Env) (window : Window) (o : Option (List ℕ))
      → Keeps (Extends w0) (topics_or env window o)
  topics_or-Extends env window none =
      bind-Keeps (current_in_window-Extends w0 env window) (λ rs. pure-Triple _ (λ w h. h))
  topics_or-Extends env window (some ts) = pure-Triple ts (λ w h. h)

  pub run_cycle-Extends :
      (env : Env) (topics : Option (List ℕ)) → Keeps (Extends w0) (run_cycle env topics)
  unfolding run_cycle
  run_cycle-Extends env topics = bind-Keeps (pending-Extends w0 env) (λ items.
      bind-Keeps (for_each-Keeps (Extends w0) (retry env) (retry-Extends env) items) (λ rs.
        bind-Keeps (current_window-Extends env) (λ window.
          bind-Keeps (topics_or-Extends env window topics) (λ ts.
            bind-Keeps (evaluate_each-Extends env rs ts) (λ all. pure-Triple _ (λ w h. h))))))

-- Whatever a cycle meets, and also when it raises: in a world where every work item is pending or
-- names a stored flag this is so afterwards, and no flag and no work item is lost.
pub run_cycle-IsDurable :
    (env : Env) (topics : Option (List ℕ)) (w : World)
    → IsDurable w
    → let after = (run_cycle env topics w).1 in
      IsDurable after
      × ((id : ℕ) → Has id w.flags → Has id after.flags)
      × ((id : ℕ) → Has id w.work → Has id after.work)
run_cycle-IsDurable env topics w sound =
    let (durable, flags, work, _) =
      Triple-world (run_cycle-Extends w env topics) w (Extends-refl w) in
    (durable sound, flags, work)
