-- ===== src/Feedback/Store/Extends.antt =====
-- No call of a repository loses a flag or a work item, and a work item that is resolved names a flag
-- that is stored.
use ai_coaching_agent.Common.{ℕ, ◌≡◌, refl, sym, subst, true, ◌⊎◌, inl, inr, some}
use ai_coaching_agent.Common.Dict.{
  lookup, insert, Has, insert-Has, insert-keeps_Has, lookup-insert_cases,
}
use ai_coaching_agent.Common.Effect.{
  Triple, Keeps, weaken, weaken_error, pure, modify, ◌>>=◌, bind-Triple, bind-Keeps, gets-Triple,
  modify-Triple, pure-Triple,
}
use ai_coaching_agent.Feedback.Records.{ContentReviewFlag}
use ai_coaching_agent.Feedback.Flagging.{
  Window, FlagCandidate, FlagWorkItem, is_pending, failed, resolved, with_candidate,
}
use ai_coaching_agent.Feedback.Store.{
  World, Env, ServiceError, missing, current_in_window, save_flag, open_flag_for, update_flag,
  enqueue, pending, pending_for_topic, change_item, mark_failed, resolve, update_candidate,
  flag_created,
}
use ai_coaching_agent.Feedback.Store.Reach.{
  IsStable, ask-Keeps, reach-Keeps, after_reach, found-Triple,
}

-- A work item is pending, or it names a flag that is stored.
abbrev pub IsSound : World → FlagWorkItem → Type 0
IsSound w i = (is_pending i ≡ true) ⊎ ((f : ℕ) × (i.resolved_flag_id ≡ some f) × Has f w.flags)

abbrev pub IsDurable : World → Type 0
IsDurable w = (id : ℕ) (i : FlagWorkItem) → lookup id w.work ≡ some i → IsSound w i

-- Every flag and every work item of one world is in the other, and the ratings are the same; a
-- durable world stays durable.
abbrev pub Extends : World → World → Type 0
Extends w0 w =
    (IsDurable w0 → IsDurable w)
    × ((id : ℕ) → Has id w0.flags → Has id w.flags)
    × ((id : ℕ) → Has id w0.work → Has id w.work)
    × (w.ratings ≡ w0.ratings)

pub Extends-refl : (w : World) → Extends w w
Extends-refl w = (λ sound. sound, λ id h. h, λ id h. h, refl)

module _ (w0 : World) where
  IsSound-insert_flag :
      (k : ℕ) (f : ContentReviewFlag) (w : World) (i : FlagWorkItem)
      → IsSound w i
      → IsSound (record w { flags = insert k f w.flags }) i
  IsSound-insert_flag k f w i (inl p) = inl p
  IsSound-insert_flag k f w i (inr (id, e, h)) = inr (id, e, insert-keeps_Has k id f w.flags h)

  Extends-insert_flag :
      (k : ℕ) (f : ContentReviewFlag) (w : World)
      → Extends w0 w
      → Extends w0 (record w { flags = insert k f w.flags })
  Extends-insert_flag k f w (sound, flags, work, same) = (
    λ d id i e. IsSound-insert_flag k f w i (sound d id i e),
    λ id h. insert-keeps_Has k id f w.flags (flags id h),
    work,
    same,
  )

  Extends-insert_work :
      (k : ℕ) (i : FlagWorkItem) (w : World)
      → (IsDurable w0 → IsSound w i)
      → Extends w0 w
      → Extends w0 (record w { work = insert k i w.work })
  Extends-insert_work k i w s (sound, flags, work, same) = (
    λ d id j e. elim (lookup-insert_cases k id i j w.work e) [
      | inl new ↦ subst (IsSound w) (sym new) (s d)
      | inr other ↦ sound d id j other
    ],
    flags,
    λ id h. insert-keeps_Has k id i w.work (work id h),
    same,
  )

  pub Extends-IsStable : IsStable (Extends w0)
  Extends-IsStable w n h = h

  -- A world that a change of a sound item leaves sound.
  abbrev IsReady : (FlagWorkItem → FlagWorkItem) → World → Type 0
  IsReady change w = Extends w0 w × ((i : FlagWorkItem) → IsSound w i → IsSound w (change i))

  pub change_item-Extends :
      (k : ℕ) (change : FlagWorkItem → FlagWorkItem)
      → Triple (IsReady change) (change_item k change) (λ _. Extends w0) (λ _. Extends w0)
  unfolding change_item
  change_item-Extends k change =
      bind-Triple (λ row w. IsReady change w × (lookup k w.work ≡ row))
        (gets-Triple _ (λ w h. (h, refl)))
        (λ row.
          bind-Triple (λ item w. IsReady change w × (lookup k w.work ≡ some item))
            (found-Triple (IsReady change) (λ w. lookup k w.work) missing row (λ w h. h.0))
            (λ item.
              bind-Triple (λ _. Extends w0)
                (modify-Triple _ (λ w h.
                  Extends-insert_work k (change item) w (λ d. h.0.1 item (h.0.0.0 d k item h.1))
                    h.0.0))
                (λ _. pure-Triple _ (λ w h. h))))

  pub mark_failed-Extends :
      (env : Env) (k reason_code : ℕ) → Keeps (Extends w0) (mark_failed env k reason_code)
  unfolding mark_failed
  mark_failed-Extends env k reason_code =
      after_reach (Extends w0) Extends-IsStable env
        (weaken (change_item-Extends k (failed reason_code)) (λ w h. (h, λ i s. s)))

  pub update_candidate-Extends :
      (env : Env) (k : ℕ) (c : FlagCandidate) → Keeps (Extends w0) (update_candidate env k c)
  unfolding update_candidate
  update_candidate-Extends env k c =
      after_reach (Extends w0) Extends-IsStable env
        (weaken (change_item-Extends k (with_candidate c)) (λ w h. (h, λ i s. s)))

  pub resolve-Extends :
      (env : Env) (k f : ℕ)
      → Triple
          (λ w. Extends w0 w × Has f w.flags)
          (resolve env k f)
          (λ _. Extends w0)
          (λ _. Extends w0)
  unfolding resolve
  resolve-Extends env k f =
      let P : World → Type 0 = λ w. Extends w0 w × Has f w.flags in
      let stable : IsStable P = λ w n h. h in
      bind-Triple (λ _. P) (weaken_error (λ e w h. h.0) (reach-Keeps P stable env))
        (λ _.
          bind-Triple (λ _. P) (weaken_error (λ e w h. h.0) (ask-Keeps P stable env.now))
            (λ at.
              weaken (change_item-Extends k (resolved f at))
                (λ w h. (h.0, λ i s. inr (f, refl, h.1)))))

  -- The write of a flag confirms that it is stored.
  abbrev pub IsWritten : ContentReviewFlag → World → Type 0
  IsWritten g w = Extends w0 w × Has g.flag_id w.flags

  pub insert_flag-Triple :
      (f : ContentReviewFlag)
      → Triple {E = ServiceError}
          (Extends w0)
          (modify (λ w. record w { flags = insert f.flag_id f w.flags }) >>= λ _. pure f)
          IsWritten
          (λ _. Extends w0)
  insert_flag-Triple f =
      bind-Triple (λ _. IsWritten f)
        (modify-Triple _
          (λ w h. (Extends-insert_flag f.flag_id f w h, insert-Has f.flag_id f w.flags)))
        (λ _. pure-Triple f (λ w h. h))

  pub save_flag-Extends :
      (env : Env) (f : ContentReviewFlag)
      → Triple (Extends w0) (save_flag env f) IsWritten (λ _. Extends w0)
  unfolding save_flag
  save_flag-Extends env f = after_reach (Extends w0) Extends-IsStable env (insert_flag-Triple f)

  pub update_flag-Extends :
      (env : Env) (f : ContentReviewFlag)
      → Triple (Extends w0) (update_flag env f) IsWritten (λ _. Extends w0)
  unfolding update_flag
  update_flag-Extends env f = after_reach (Extends w0) Extends-IsStable env (
      bind-Triple (λ row w. Extends w0 w × (lookup f.flag_id w.flags ≡ row))
        (gets-Triple _ (λ w h. (h, refl)))
        (λ row.
          bind-Triple (λ g w. Extends w0 w × (lookup f.flag_id w.flags ≡ some g))
            (found-Triple (Extends w0) (λ w. lookup f.flag_id w.flags) missing row (λ w h. h))
            (λ _. weaken (insert_flag-Triple f) (λ w h. h.0))))

  pub enqueue-Extends : (env : Env) (c : FlagCandidate) → Keeps (Extends w0) (enqueue env c)
  unfolding enqueue
  enqueue-Extends env c = after_reach (Extends w0) Extends-IsStable env (
      bind-Keeps (ask-Keeps (Extends w0) Extends-IsStable env.new_id) (λ id.
        bind-Keeps (ask-Keeps (Extends w0) Extends-IsStable env.now) (λ at.
          bind-Keeps (modify-Triple _ (λ w h. Extends-insert_work id _ w (λ d. inl refl) h))
            (λ _. pure-Triple _ (λ w h. h)))))

  pub pending-Extends : (env : Env) → Keeps (Extends w0) (pending env)
  unfolding pending
  pending-Extends env = after_reach (Extends w0) Extends-IsStable env (gets-Triple _ (λ w h. h))

  pub pending_for_topic-Extends :
      (env : Env) (topic : ℕ) → Keeps (Extends w0) (pending_for_topic env topic)
  unfolding pending_for_topic
  pending_for_topic-Extends env topic =
      bind-Keeps (pending-Extends env) (λ is. pure-Triple _ (λ w h. h))

  pub open_flag_for-Extends :
      (env : Env) (topic : ℕ) (window : Window)
      → Keeps (Extends w0) (open_flag_for env topic window)
  unfolding open_flag_for
  open_flag_for-Extends env topic window =
      after_reach (Extends w0) Extends-IsStable env (gets-Triple _ (λ w h. h))

  pub current_in_window-Extends :
      (env : Env) (window : Window) → Keeps (Extends w0) (current_in_window env window)
  unfolding current_in_window
  current_in_window-Extends env window =
      after_reach (Extends w0) Extends-IsStable env (gets-Triple _ (λ w h. h))

  pub flag_created-Extends :
      (env : Env) (f : ContentReviewFlag) → Keeps (Extends w0) (flag_created env f)
  unfolding flag_created
  flag_created-Extends env f =
      after_reach (Extends w0) Extends-IsStable env (modify-Triple _ (λ w h. h))
