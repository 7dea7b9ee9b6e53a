-- ===== src/Feedback/Review.antt =====
-- packages/uc10/uc10/application/flagging_service.py: the evaluation of topics, the retry of
-- deferred flags, and the status of a flag.
pub mod Durable
pub mod Status
use ai_coaching_agent.Common.{
  ℕ, Bool, true, false, not, Option, none, some, List, [], ◌∷◌, ◌++◌, map, any, Result, ok, err,
  ◌==◌, if◌then◌else◌,
}
use ai_coaching_agent.Common.Sort.{fromkeys}
use ai_coaching_agent.Common.Effect.{pure, raise, attempt, for_each, ◌>>=◌, ◌>>◌}
use ai_coaching_agent.Feedback.Records.{
  ContentReviewFlag, FlagStatus, opened, reviewed, confirmed, corrected, PortError, PortErrorKind,
  record_not_found,
}
use ai_coaching_agent.Feedback.Flagging.{
  Window, rolling, PolicyError, FlaggingPolicy, policy_of, DecisionReason, FlagCandidate,
  FlagDecision, decide_topic, topics_in, FlagWorkItem,
}
use ai_coaching_agent.Feedback.Store.{
  World, Env, Action, ServiceError, port, policy, on_port, shielded, flag_not_found,
  invalid_status_transition, ask, reach, current_in_window, save_flag, open_flag_for, get_flag,
  update_flag, enqueue, pending, pending_for_topic, mark_failed, resolve, update_candidate,
  flag_created,
}

pub data FlagWriteStatus : Type 0 where
  created updated not_required deferred : FlagWriteStatus

-- Why a topic was not written, or the code of the port that failed.
pub data WriteReason : Type 0 where
  decided : DecisionReason → WriteReason
  port_failed : ℕ → WriteReason

pub record FlagEvaluationResult : Type 0 where
  pub topic_tag : ℕ
  pub decision : FlagDecision
  pub write_status : FlagWriteStatus
  pub flag : Option ContentReviewFlag
  pub work_id : Option ℕ
  pub reason_code : Option WriteReason

abbrev pub of_policy : {A : Type 0} → Result PolicyError A → Action A
of_policy (ok a) = pure a
of_policy (err e) = raise (policy e)

-- `_build` and `_merge`
unfoldable pub build : ℕ → FlagCandidate → ContentReviewFlag
build flag_id c = record {
  flag_id = flag_id;
  topic_tag = c.topic_tag;
  window_start = c.window.start;
  window_end = c.window.end;
  total_ratings = c.total_ratings;
  down_ratings = c.down_ratings;
  down_rate = c.down_rate;
  threshold_applied = c.threshold_applied;
  flagging_interaction_ids = c.flagging_interaction_ids;
  created_at = c.evaluated_at;
  status = opened;
  minimum_sample_size_applied = c.minimum_sample_size_applied;
  updated_at = none;
}

unfoldable pub merge : ContentReviewFlag → FlagCandidate → ContentReviewFlag
merge existing c = record existing {
  window_start = c.window.start;
  window_end = c.window.end;
  total_ratings = c.total_ratings;
  down_ratings = c.down_ratings;
  down_rate = c.down_rate;
  threshold_applied = c.threshold_applied;
  minimum_sample_size_applied = c.minimum_sample_size_applied;
  flagging_interaction_ids =
      fromkeys (existing.flagging_interaction_ids ++ c.flagging_interaction_ids);
  updated_at = some c.evaluated_at;
}

-- `ALLOWED_TRANSITIONS`, and equality of statuses.
unfoldable pub allowed : FlagStatus → FlagStatus → Bool
allowed opened opened = false
allowed opened _ = true
allowed reviewed confirmed = true
allowed reviewed corrected = true
allowed confirmed corrected = true
allowed _ _ = false

unfoldable pub same_status : FlagStatus → FlagStatus → Bool
same_status opened opened = true
same_status reviewed reviewed = true
same_status confirmed confirmed = true
same_status corrected corrected = true
same_status _ _ = false

-- `except RecordNotFound` of `set_status`
abbrev pub missing_error : ServiceError → ServiceError
missing_error (port e) = elim e.kind [ record_not_found ↦ flag_not_found | _ ↦ port e ]
missing_error e = e

abbrev pub flag_missing : {A : Type 0} → ServiceError → Action A
flag_missing e = raise (missing_error e)

-- What is made of a decided topic that needs no flag.
abbrev pub not_written : FlagDecision → FlagEvaluationResult
not_written d = record {
  topic_tag = d.topic_tag;
  decision = d;
  write_status = not_required;
  flag = none;
  work_id = none;
  reason_code = some (decided d.reason);
}

module _ (env : Env) where
  unfoldable pub current_policy : Action FlaggingPolicy
  unfolding ask policy_of
  current_policy = do
    threshold ← ask env.down_rate_threshold
    minimum ← ask env.minimum_sample_size
    of_policy (policy_of threshold minimum)

  unfoldable pub current_window : Action Window
  unfolding ask rolling
  current_window = do now ← ask env.now; days ← ask env.window_days; of_policy (rolling now days)

  -- `_record_intent`
  abbrev pub record_over : FlagCandidate → Option FlagWorkItem → Action FlagWorkItem
  record_over candidate none = enqueue env candidate
  record_over candidate (some existing) = update_candidate env existing.work_id candidate

  unfoldable pub record_intent : FlagCandidate → Action FlagWorkItem
  record_intent candidate = pending_for_topic env candidate.topic_tag >>= record_over candidate

  -- The body of the `try` of `_attempt_write`.
  abbrev pub write_over :
      FlagCandidate → Option ContentReviewFlag → Action (ContentReviewFlag × FlagWriteStatus)
  write_over candidate (some existing) = do
    flag ← update_flag env (merge existing candidate)
    pure (flag, updated)
  write_over candidate none = do
    flag_id ← ask env.new_id
    flag ← save_flag env (build flag_id candidate)
    pure (flag, created)

  unfoldable pub write_flag : FlagCandidate → Action (ContentReviewFlag × FlagWriteStatus)
  write_flag candidate =
      open_flag_for env candidate.topic_tag candidate.window >>= write_over candidate

  -- Its handler.
  unfoldable pub defer : FlagWorkItem → FlagDecision → PortError → Action FlagEvaluationResult
  defer item decision e = do
    marked ← mark_failed env item.work_id e.reason_code
    pure (record {
      topic_tag = item.candidate.topic_tag;
      decision = decision;
      write_status = deferred;
      flag = none;
      work_id = some item.work_id;
      reason_code = some (port_failed e.reason_code);
    })

  -- `_notify`, for a created flag.
  unfoldable pub notify_if_created : ContentReviewFlag → FlagWriteStatus → Action (Unit {0})
  unfolding shielded
  notify_if_created flag created = shielded (flag_created env flag)
  notify_if_created flag _ = pure tt

  -- What follows a confirmed write.
  unfoldable pub settle :
      FlagWorkItem
      → FlagDecision
      → ContentReviewFlag × FlagWriteStatus
      → Action FlagEvaluationResult
  unfolding shielded notify_if_created
  settle item decision (flag, status) = do
    shielded (resolve env item.work_id flag.flag_id)
    notify_if_created flag status
    pure (record {
      topic_tag = flag.topic_tag;
      decision = decision;
      write_status = status;
      flag = some flag;
      work_id = some item.work_id;
      reason_code = none;
    })

  unfoldable pub attempt_write : FlagWorkItem → FlagDecision → Action FlagEvaluationResult
  unfolding write_flag defer settle
  attempt_write item decision =
      attempt (write_flag item.candidate) (on_port (defer item decision)) (settle item decision)

  abbrev pub write_if_flagged : FlagDecision → Option FlagCandidate → Action FlagEvaluationResult
  write_if_flagged decision none = pure (not_written decision)
  write_if_flagged decision (some candidate) = do
    item ← record_intent candidate
    attempt_write item decision

  -- The decision of `evaluate_topic`, and the call.
  unfoldable pub decide_now : ℕ → Action FlagDecision
  unfolding current_window current_policy decide_topic ask
  decide_now topic_tag = do
    window ← current_window
    rule ← current_policy
    ratings ← current_in_window env window
    evaluated_at ← ask env.now
    pure (decide_topic topic_tag ratings window rule evaluated_at)

  unfoldable pub evaluate_topic : ℕ → Action FlagEvaluationResult
  unfolding decide_now record_intent attempt_write
  evaluate_topic topic_tag = do
    decision ← decide_now topic_tag
    write_if_flagged decision decision.candidate

  -- The fresh decision of `_retry`, the item that it refreshes, and the call.
  unfoldable pub decide_again : ℕ → Action FlagDecision
  unfolding current_window current_policy decide_topic ask
  decide_again topic_tag = do
    window ← current_window
    ratings ← current_in_window env window
    rule ← current_policy
    evaluated_at ← ask env.now
    pure (decide_topic topic_tag ratings window rule evaluated_at)

  abbrev pub refresh : FlagWorkItem → Option FlagCandidate → Action FlagWorkItem
  refresh item none = pure item
  refresh item (some candidate) = update_candidate env item.work_id candidate

  unfoldable pub retry : FlagWorkItem → Action FlagEvaluationResult
  unfolding decide_again attempt_write
  retry item = do
    fresh ← decide_again item.candidate.topic_tag
    refreshed ← refresh item fresh.candidate
    attempt_write refreshed fresh

pub record CycleReport : Type 0 where
  pub evaluated_topics : List ℕ
  pub created : List ℕ
  pub updated : List ℕ
  pub deferred : List ℕ
  pub retried : List ℕ
  pub results : List FlagEvaluationResult

-- `_tally`: the identifiers of the flags and of the work items, by what was written.
abbrev pub created_ids : List FlagEvaluationResult → List ℕ
created_ids [] = []
created_ids (r ∷ rs) =
    let rest = created_ids rs in
    elim r.write_status [
      | created ↦ elim r.flag [ none ↦ rest | some f ↦ f.flag_id ∷ rest ]
      | _ ↦ rest
    ]

abbrev pub updated_ids : List FlagEvaluationResult → List ℕ
updated_ids [] = []
updated_ids (r ∷ rs) =
    let rest = updated_ids rs in
    elim r.write_status [
      | updated ↦ elim r.flag [ none ↦ rest | some f ↦ f.flag_id ∷ rest ]
      | _ ↦ rest
    ]

abbrev pub deferred_ids : List FlagEvaluationResult → List ℕ
deferred_ids [] = []
deferred_ids (r ∷ rs) =
    let rest = deferred_ids rs in
    elim r.write_status [ deferred ↦ elim r.work_id [ none ↦ rest | some i ↦ i ∷ rest ] | _ ↦ rest ]

module _ (env : Env) where
  -- The loop over the topics: those that a retry has handled are skipped.
  unfoldable pub evaluate_each :
      List FlagEvaluationResult → List ℕ → Action (List FlagEvaluationResult)
  unfolding evaluate_topic
  evaluate_each results [] = pure results
  evaluate_each results (topic ∷ topics) =
      elim (any (λ (r : FlagEvaluationResult). r.topic_tag == topic) results) [
        | true ↦ evaluate_each results topics
        | false ↦ evaluate_topic env topic >>= λ r. evaluate_each (results ++ r ∷ []) topics
      ]

  abbrev pub topics_or : Window → Option (List ℕ) → Action (List ℕ)
  topics_or window (some topics) = pure topics
  topics_or window none = current_in_window env window >>= λ ratings. pure (topics_in ratings)

  unfoldable pub run_cycle : Option (List ℕ) → Action CycleReport
  unfolding retry evaluate_each current_window topics_in for_each
  run_cycle asked_topics = do
    items ← pending env
    retries ← for_each (retry env) items
    window ← current_window env
    topics ← topics_or window asked_topics
    results ← evaluate_each retries topics
    pure (record {
      evaluated_topics = topics;
      created = created_ids results;
      updated = updated_ids results;
      deferred = deferred_ids results;
      retried = map (λ (i : FlagWorkItem). i.work_id) items;
      results = results;
    })

  -- `set_status`
  unfoldable pub change_status : FlagStatus → ContentReviewFlag → Action ContentReviewFlag
  unfolding same_status allowed ask
  change_status status flag =
      if same_status status flag.status
      then pure flag
      else if not (allowed flag.status status)
      then raise (invalid_status_transition flag.status status)
      else ask env.now >>= λ now.
          update_flag env (record flag { status = status; updated_at = some now })

  unfoldable pub set_status : ℕ → FlagStatus → Action ContentReviewFlag
  unfolding change_status
  set_status flag_id status = attempt (get_flag env flag_id) flag_missing (change_status status)
