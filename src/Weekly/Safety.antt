-- ===== src/Weekly/Safety.antt =====
-- What a run of `generate` leaves of the summary that the week already has.
use ai_coaching_agent.Common.{
  ℕ, ◌+◌, ◌≡◌, refl, sym, ap, subst, ◌∙◌, ◌⊎◌, arith, Bool, true, false, ◌||◌, inl, inr, Option,
  none, some, Bool-cases,
}
use ai_coaching_agent.Common.Dict.{lookup, insert, lookup-insert_self}
use ai_coaching_agent.Common.Effect.{
  Triple, Keeps, Triple-world, weaken, attempt, gets, modify, ◌>>=◌, ◌>>◌, bind-Triple,
  modify-Triple, pure-Triple, raise-Triple,
}
use ai_coaching_agent.Streak.Store.{rows_of}
use ai_coaching_agent.Weekly.Records.{sent, WeeklySummary}
use ai_coaching_agent.Weekly.Service.{
  World, Env, RepositoryError, repository_read_failed, repository_write_failed, summaries_of,
  raise_if, store_row, save, get, attempt_send, attempted, not_delivered, delivered, is_sent,
  is_early, retry_if_due, generate_over, target_week, generate,
}

pub raise_if-Keeps : (P : World → Type 0) (b : Bool) (e : RepositoryError) → Keeps P (raise_if b e)
raise_if-Keeps P true e = raise-Triple _ (λ w h. h)
raise_if-Keeps P false e = pure-Triple tt (λ w h. h)

pub store_row-lookup :
    (s : WeeklySummary) (w : World)
    → lookup s.week (summaries_of s.user_id (store_row s w)) ≡ some s
store_row-lookup s w =
    ap (λ o. lookup s.week (rows_of o))
      (lookup-insert_self s.user_id (insert s.week s (summaries_of s.user_id w)) w.summaries)
    ∙ lookup-insert_self s.week s (summaries_of s.user_id w)

-- Two summaries are the same but for what was done to deliver them.
abbrev pub SameContent : WeeklySummary → WeeklySummary → Type 0
SameContent s s' =
    record s' {
      delivery_status = s.delivery_status;
      send_attempts = s.send_attempts;
      last_send_attempt_at = s.last_send_attempt_at;
      sent_at = s.sent_at;
      next_retry_at = s.next_retry_at;
    }
    ≡ s

-- What a run leaves of the week's summary s: the same content, with at most one more attempt, and
-- nothing changes if s was sent.
pub record Survives (user_id week : ℕ) (s : WeeklySummary) (before after : World) : Type 0 where
  pub left : WeeklySummary
  pub stored : lookup week (summaries_of user_id after) ≡ some left
  pub content : SameContent s left
  pub attempts : (left.send_attempts ≡ s.send_attempts) ⊎ (left.send_attempts ≡ s.send_attempts + 1)
  pub untouched : s.delivery_status ≡ sent → after ≡ before

module _ (env : Env) (user_id : ℕ) (s : WeeklySummary) (w : World)
    (held : lookup (target_week env) (summaries_of user_id w) ≡ some s) (own : s.user_id ≡ user_id)
    (keyed : s.week ≡ target_week env) where
  abbrev Good : World → Type 0
  Good = Survives user_id (target_week env) s w

  -- As long as the summaries are as before.
  Good-kept : (x : World) → x.summaries ≡ w.summaries → (s.delivery_status ≡ sent → x ≡ w) → Good x
  Good-kept x same h = record {
    left = s;
    stored = ap (λ d. lookup (target_week env) (rows_of (lookup user_id d))) same ∙ held;
    content = refl;
    attempts = inl refl;
    untouched = h;
  }

  -- And after a save of an attempt.
  Good-saved :
      (s' : WeeklySummary) (x : World)
      → s'.user_id ≡ s.user_id
      → s'.week ≡ s.week
      → SameContent s s'
      → s'.send_attempts ≡ s.send_attempts + 1
      → is_sent s.delivery_status ≡ false
      → Good (store_row s' x)
  Good-saved s' x u k c n unsent = record {
    left = s';
    stored =
        subst (λ i. lookup (target_week env) (summaries_of i (store_row s' x)) ≡ some s') (u ∙ own)
          (subst (λ i. lookup i (summaries_of s'.user_id (store_row s' x)) ≡ some s') (k ∙ keyed)
            (store_row-lookup s' x));
    content = c;
    attempts = inr n;
    untouched = λ h. absurd (ground (arith, h, unsent));
  }

  module _ (unsent : is_sent s.delivery_status ≡ false) where
    unsent-kept : (x : World) → x.summaries ≡ w.summaries → Good x
    unsent-kept x same = Good-kept x same (λ h. absurd (ground (arith, h, unsent)))

    save-Good :
        (s' : WeeklySummary)
        → s'.user_id ≡ s.user_id
        → s'.week ≡ s.week
        → SameContent s s'
        → s'.send_attempts ≡ s.send_attempts + 1
        → Triple (λ x. x.summaries ≡ w.summaries) (save env s') (λ _. Good) (λ _. Good)
    unfolding save attempt
    save-Good s' u k c n = go (env.summary_write_fails s'.delivery_status)
      where
        go :
            (b : Bool)
            → Triple
                (λ x. x.summaries ≡ w.summaries)
                (raise_if b repository_write_failed >> modify (store_row s'))
                (λ _. Good)
                (λ _. Good)
        go true = record { run = λ x same. unsent-kept x same }
        go false = record { run = λ x same. Good-saved s' x u k c n unsent }

    attempt_send-Good : Triple (λ x. x ≡ w) (attempt_send env s) (λ _. Good) (λ _. Good)
    unfolding attempt_send not_delivered delivered
    attempt_send-Good = elim (Bool-cases env.send_fails) [
      | inl lost ↦
          rw (attempt_send, lost)
            (bind-Triple (λ _. Good)
              (weaken (save-Good (not_delivered (attempted s env.now) env.now) refl refl refl refl)
                (λ x q. ap (λ (y : World). y.summaries) q))
              (λ _. pure-Triple _ (λ x h. h)))
      | inr goes ↦
          rw (attempt_send, goes)
            (bind-Triple (λ _ x. x.summaries ≡ w.summaries)
              (modify-Triple _ (λ x q. ap (λ (y : World). y.summaries) q))
              (λ _.
                bind-Triple (λ _. Good)
                  (save-Good (delivered (attempted s env.now) env.now) refl refl refl refl)
                  (λ _. pure-Triple _ (λ x h. h))))
    ]

  retry_if_due-Good : Triple (λ x. x ≡ w) (retry_if_due env s) (λ _. Good) (λ _. Good)
  unfolding retry_if_due
  retry_if_due-Good =
      elim (Bool-cases (is_sent s.delivery_status || is_early env.now s.next_retry_at)) [
        | inl not_due ↦
            rw (retry_if_due, not_due)
              (pure-Triple none (λ x q. Good-kept x (ap (λ (y : World). y.summaries) q) (λ _. q)))
        | inr due ↦
            rw (retry_if_due, due)
              (bind-Triple (λ _. Good) (attempt_send-Good (ground (arith, due)))
                (λ r. pure-Triple _ (λ x h. h)))
      ]

  found-Good :
      (summary_day : ℕ) (o : Option WeeklySummary)
      → o ≡ some s
      → Triple (λ x. x ≡ w) (generate_over env summary_day user_id o) (λ _. Good) (λ _. Good)
  found-Good summary_day o e =
      subst
        (λ z. Triple (λ x. x ≡ w) (generate_over env summary_day user_id z) (λ _. Good) (λ _. Good))
        (sym e) (bind-Triple (λ _. Good) retry_if_due-Good (λ r. pure-Triple _ (λ x h. h)))

  generate-Good :
      (summary_day : ℕ)
      → Triple (λ x. x ≡ w) (generate env summary_day user_id) (λ _. Good) (λ _. Good)
  unfolding generate get attempt
  generate-Good summary_day = go env.summary_read_fails
    where
      go :
          (b : Bool)
          → Triple
              (λ x. x ≡ w)
              (raise_if b repository_read_failed
                >> gets (λ (x : World). lookup (target_week env) (summaries_of user_id x))
                >>= generate_over env summary_day user_id)
              (λ _. Good)
              (λ _. Good)
      go true = record { run = λ x q. Good-kept x (ap (λ (y : World). y.summaries) q) (λ _. q) }
      go false = record {
        run = λ x q.
            (found-Good summary_day _ (
                ap (λ (y : World). lookup (target_week env) (summaries_of user_id y)) q ∙ held)).run
              x q;
      }

-- A summary that the learner has for the week of a run, stored under its own learner and week, is
-- not made again, on whatever day and whatever fails, also when the run raises: what is stored for
-- the week afterwards is the same but for its delivery, with at most one more attempt, and if it was
-- sent, the run changes nothing at all.
pub generate-Survives :
    (env : Env) (summary_day user_id : ℕ) (s : WeeklySummary) (w : World)
    → lookup (target_week env) (summaries_of user_id w) ≡ some s
    → s.user_id ≡ user_id
    → s.week ≡ target_week env
    → Survives user_id (target_week env) s w (generate env summary_day user_id w).1
generate-Survives env summary_day user_id s w held own keyed =
    Triple-world (generate-Good env user_id s w held own keyed summary_day) w refl
