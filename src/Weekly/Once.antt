-- ===== src/Weekly/Once.antt =====
-- A run that made a summary, and the runs after it on the same day.
use ai_coaching_agent.Common.{
  ℕ, ◌+◌, ◌-◌, ◌%◌, ◌*◌, ◌≡◌, refl, sym, ap, subst, ◌∙◌, true, ◌||◌, inl, inr, Option, none, some,
  ok, ◌==◌, Bool-cases, arith,
}
use ai_coaching_agent.Common.Dict.{lookup}
use ai_coaching_agent.Common.Effect.{
  Triple, Keeps, Keeps-of, Triple-world, Triple-result, weaken_result, pure, ◌>>=◌, bind-Triple,
  gets-Triple, modify-Triple, pure-Triple,
}
use ai_coaching_agent.Streak.Time.{Moment, day, utc_day, isoweekday, previous_iso_week_bounds}
use ai_coaching_agent.Weekly.Records.{week_key, WeeklySummary, WeeklySummaryRunResult}
use ai_coaching_agent.Weekly.Service.{
  World, Env, RepositoryError, repository_read_failed, repository_write_failed, Action,
  summaries_of, save, get, build, attempt_send, attempted, not_delivered, delivered, is_sent,
  is_early, retry_if_due, retry_latest_if_due, generate_new, generate_over, target_week, generate,
}
use ai_coaching_agent.Weekly.Safety.{raise_if-Keeps, store_row-lookup}

abbrev Any : World → Type 0
Any w = Unit

-- Nothing is sent for the summary before the next day.
abbrev IsIdle : Moment → WeeklySummary → Type 0
IsIdle now s =
    (later : Moment)
    → utc_day later ≡ utc_day now
    → (is_sent s.delivery_status || is_early later s.next_retry_at) ≡ true

abbrev IsStored : ℕ → ℕ → Moment → WeeklySummary → World → Type 0
IsStored user_id week now s w = (lookup week (summaries_of user_id w) ≡ some s) × IsIdle now s

module _ (env : Env) where
  save-Stored :
      (s : WeeklySummary)
      → Triple Any
          (save env s)
          (λ _ w. lookup s.week (summaries_of s.user_id w) ≡ some s)
          (λ _. Any)
  unfolding save
  save-Stored s =
      bind-Triple (λ _. Any)
        (raise_if-Keeps Any (env.summary_write_fails s.delivery_status) repository_write_failed)
        (λ _. modify-Triple _ (λ w h. store_row-lookup s w))

  not_delivered-IsIdle : (s : WeeklySummary) → IsIdle env.now (not_delivered s env.now)
  unfolding not_delivered
  not_delivered-IsIdle s later same = ground (arith, same)

  delivered-IsIdle : (s : WeeklySummary) → IsIdle env.now (delivered s env.now)
  unfolding delivered
  delivered-IsIdle s later same = refl

  sent-Stored :
      (s r : WeeklySummary)
      → r.user_id ≡ s.user_id
      → r.week ≡ s.week
      → IsIdle env.now r
      → Triple Any (save env r >>= λ _. pure r) (IsStored s.user_id s.week env.now) (λ _. Any)
  sent-Stored s r user week idle =
      bind-Triple (λ _ w. lookup r.week (summaries_of r.user_id w) ≡ some r) (save-Stored r)
        (λ _. pure-Triple r (λ w h. (
          subst (λ k. lookup k (summaries_of s.user_id w) ≡ some r) week
              (subst (λ u. lookup r.week (summaries_of u w) ≡ some r) user h),
          idle,
        )))

  attempt_send-Stored :
      (s : WeeklySummary)
      → Triple Any (attempt_send env s) (IsStored s.user_id s.week env.now) (λ _. Any)
  unfolding attempt_send not_delivered delivered
  attempt_send-Stored s = elim (Bool-cases env.send_fails) [
    | inl lost ↦
        rw (attempt_send, lost)
          (sent-Stored s (not_delivered (attempted s env.now) env.now) refl refl
            (not_delivered-IsIdle (attempted s env.now)))
    | inr goes ↦
        rw (attempt_send, goes)
          (bind-Triple (λ _. Any) (modify-Triple _ (λ w h. tt))
            (λ _.
              sent-Stored s (delivered (attempted s env.now) env.now) refl refl
                (delivered-IsIdle (attempted s env.now))))
  ]

  -- What a run generated is stored under its week, and waits for the next day.
  abbrev IsGenerated : ℕ → WeeklySummaryRunResult → World → Type 0
  IsGenerated user_id r w =
      (s : WeeklySummary) → r.generated ≡ some s → IsStored user_id (target_week env) env.now s w

  nothing :
      {A : Type 0} (user_id : ℕ) (m : Action A) (f : A → WeeklySummaryRunResult)
      → ((a : A) → (f a).generated ≡ none)
      → Keeps Any m
      → Triple Any (m >>= λ a. pure (f a)) (IsGenerated user_id) (λ _. Any)
  nothing user_id m f empty t =
      bind-Triple (λ _. Any) t
        (λ a. pure-Triple (f a) (λ w h s e. absurd (ground (arith, sym (empty a) ∙ e))))

  anything : {A : Type 0} (m : Action A) → Keeps Any m
  anything m = Keeps-of (λ w h. tt)

  with_fact :
      {A X : Type 0} {m : Action A} {Q : A → World → Type 0} {F : RepositoryError → World → Type 0}
      → (X → Triple Any m Q F)
      → Triple (λ w. X) m Q F
  with_fact h = record { run = λ w x. (h x).run w tt }

  generated_as :
      {u k user_id week : ℕ} {r t : WeeklySummary} (w : World)
      → u ≡ user_id
      → k ≡ week
      → r ≡ t
      → IsStored u k env.now r w
      → IsStored user_id week env.now t w
  generated_as {k = k} {user_id = user_id} {week = week} {r = r} w own key same h =
      subst (λ x. IsStored user_id week env.now x w) same
        (subst (λ x. IsStored user_id x env.now r w) key
          (subst (λ x. IsStored x k env.now r w) own h))

  generate_new-IsGenerated :
      (user_id : ℕ) → Triple Any (generate_new env user_id) (IsGenerated user_id) (λ _. Any)
  unfolding generate_new build
  generate_new-IsGenerated user_id =
      bind-Triple (λ s w. (s.user_id ≡ user_id) × (s.week ≡ target_week env))
        (gets-Triple _ (λ w h. (refl, refl)))
        (λ s. with_fact (λ fact.
          bind-Triple (λ _. Any) (anything (save env s))
            (λ _. bind-Triple (IsStored s.user_id s.week env.now) (attempt_send-Stored s) (λ r.
              pure-Triple _ (λ v h t e. generated_as v fact.0 fact.1 (ground (arith, e)) h)))))

  generate_over-IsGenerated :
      (summary_day user_id : ℕ) (o : Option WeeklySummary)
      → Triple Any (generate_over env summary_day user_id o) (IsGenerated user_id) (λ _. Any)
  generate_over-IsGenerated summary_day user_id (some s) =
      nothing user_id (retry_if_due env s) _ (λ r. refl) (anything (retry_if_due env s))
  generate_over-IsGenerated summary_day user_id none =
      elim (Bool-cases (isoweekday env.now == summary_day)) [
        | inl due ↦ rw due (generate_new-IsGenerated user_id)
        | inr not_due ↦ rw not_due (
            nothing user_id (retry_latest_if_due env user_id) _ (λ r. refl)
              (anything (retry_latest_if_due env user_id)))
      ]

  generate-IsGenerated :
      (summary_day user_id : ℕ)
      → Triple Any (generate env summary_day user_id) (IsGenerated user_id) (λ _. Any)
  unfolding generate
  generate-IsGenerated summary_day user_id =
      bind-Triple (λ _. Any) (anything (get env user_id (target_week env)))
        (generate_over-IsGenerated summary_day user_id)

  -- A run that finds the summary of its week, which is idle, changes nothing.
  module _ (user_id summary_day : ℕ) (s : WeeklySummary) (w0 : World)
      (held : lookup (target_week env) (summaries_of user_id w0) ≡ some s)
      (idle : (is_sent s.delivery_status || is_early env.now s.next_retry_at) ≡ true) where
    abbrev Same : World → Type 0
    Same w = w ≡ w0

    get-held :
        Triple Same (get env user_id (target_week env)) (λ o w. Same w × (o ≡ some s)) (λ _. Same)
    unfolding get
    get-held =
        bind-Triple (λ _. Same) (raise_if-Keeps Same env.summary_read_fails repository_read_failed)
          (λ _.
            gets-Triple _
              (λ w h. (h, ap (λ v. lookup (target_week env) (summaries_of user_id v)) h ∙ held)))

    retry_if_due-idle : Keeps Same (retry_if_due env s)
    unfolding retry_if_due
    retry_if_due-idle = rw (retry_if_due, idle) (pure-Triple none (λ w h. h))

    abbrev IsNothing : WeeklySummaryRunResult → World → Type 0
    IsNothing r w = Same w × (r.generated ≡ none)

    over-idle :
        (o : Option WeeklySummary)
        → o ≡ some s
        → Triple Same (generate_over env summary_day user_id o) IsNothing (λ _. Same)
    over-idle o e =
        subst (λ x. Triple Same (generate_over env summary_day user_id x) IsNothing (λ _. Same))
          (sym e)
          (bind-Triple (λ _. Same) retry_if_due-idle (λ r. pure-Triple _ (λ w h. (h, refl))))

    generate-idle : Triple Same (generate env summary_day user_id) IsNothing (λ _. Same)
    unfolding generate
    generate-idle =
        bind-Triple (λ o w. Same w × (o ≡ some s)) get-held
          (λ o. record { run = λ w h. (over-idle o h.1).run w h.0 })

same_day-same_week :
    (a b : Moment)
    → utc_day a ≡ utc_day b
    → (previous_iso_week_bounds a).0 ≡ (previous_iso_week_bounds b).0
same_day-same_week a b e = ap (λ d. d * day - (d % 7 + 1 - 1) * day - 7 * day) e

-- After a run that generated a summary, whether or not it was delivered, a run on the same day
-- changes no repository and sends nothing.
pub generate-once_a_day :
    (env env' : Env) (summary_day user_id : ℕ) (w : World) (r : WeeklySummaryRunResult)
    (s : WeeklySummary)
    → let after = generate env summary_day user_id w in
      after.0 ≡ ok r
      → r.generated ≡ some s
      → utc_day env'.now ≡ utc_day env.now
      → (generate env' summary_day user_id after.1).1 ≡ after.1
generate-once_a_day env env' summary_day user_id w r s returned generated day =
    let after = generate env summary_day user_id w in
    let (held, idle) =
      Triple-result (generate-IsGenerated env summary_day user_id) w tt r returned s generated in
    let week : target_week env ≡ target_week env' =
      ap week_key (sym (same_day-same_week env'.now env.now day)) in
    let held' : lookup (target_week env') (summaries_of user_id after.1) ≡ some s =
      subst (λ k. lookup k (summaries_of user_id after.1) ≡ some s) week held in
    Triple-world
      (weaken_result (λ a v h. h.0)
        (generate-idle env' user_id summary_day s after.1 held' (idle env'.now day)))
      after.1 refl
