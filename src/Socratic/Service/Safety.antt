-- ===== src/Socratic/Service/Safety.antt =====
-- Generate before you mutate: what a turn that raises may have saved.
use Prim.Native.String.{String}
use ai_coaching_agent.Common.{
  ℕ, ◌≡◌, refl, sym, subst, ◌∙◌, ◌⊎◌, inl, inr, Option, none, some, Bool, true, false, Result, ok,
  err, arith, if◌then◌else◌,
}
use ai_coaching_agent.Socratic.Machine.{Transition, MachineError}
use ai_coaching_agent.Socratic.Dialogue.{Dialogue, ModeState, LearnerContext, FourPartAnswer}
use ai_coaching_agent.Socratic.Vocabulary.{DialogueEvent}
use ai_coaching_agent.Socratic.Service.State.{
  Store, ProviderError, ServiceError, provider_error, unless_fails, modify, with_dialogue,
  with_interaction, save_dialogue, append, ◌>>◌, Call, returned, raised, hung, Env, Config, Action,
  pure, raise, continue, ◌>>=◌, call, check,
}
use ai_coaching_agent.Socratic.Service.Turn.{
  Parts, require, of_machine, mode_state, get_dialogue, generate_guiding, generate_answer,
  answer_for, finalise, logged, log_record, turn_of,
}
use ai_coaching_agent.Socratic.Service.Reply.{
  Found, Planned, generate_if_due, opened, plan_reply, reply,
}

-- An action that leaves the store as it is, whether it returns or raises.
pub record IsReadOnly {A : Type 0} (m : Action A) : Type 0 where
  pub at : (s : Store) → (m s).1 ≡ s

module _ {A : Type 0} where
  pub IsReadOnly-pure : (a : A) → IsReadOnly (pure a)
  IsReadOnly-pure a = record { at = λ s. refl }

  IsReadOnly-raise : (e : ServiceError) → IsReadOnly (raise {A = A} e)
  IsReadOnly-raise e = record { at = λ s. refl }

  pub IsReadOnly-call : (c : Call A) → IsReadOnly (call c)
  unfolding call
  IsReadOnly-call (returned a) = record { at = λ s. refl }
  IsReadOnly-call (raised e) = record { at = λ s. refl }
  IsReadOnly-call hung = record { at = λ s. refl }

  pub IsReadOnly-of_machine : (r : Result MachineError A) → IsReadOnly (of_machine r)
  unfolding of_machine
  IsReadOnly-of_machine (ok a) = record { at = λ s. refl }
  IsReadOnly-of_machine (err e) = record { at = λ s. refl }

  IsReadOnly-if :
      (b : Bool) (m n : Action A) → IsReadOnly m → IsReadOnly n → IsReadOnly (if b then m else n)
  IsReadOnly-if true m n hm hn = hm
  IsReadOnly-if false m n hm hn = hn

module _ {A B : Type 0} where
  pub IsReadOnly-bind :
      (m : Action A) (f : A → Action B)
      → IsReadOnly m
      → ((a : A) → IsReadOnly (f a))
      → IsReadOnly (m >>= f)
  IsReadOnly-bind m f hm hf = record { at = λ s. go (m s).0 (m s).1 ∙ hm.at s }
    where
      go : (r : Result ServiceError A) (s : Store) → (continue r f s).1 ≡ s
      go (ok a) s = (hf a).at s
      go (err e) s = refl

-- A property of the store that holds before a read-only action and is kept by what goes on with its
-- result holds after both.
pub bind-keeps :
    {A B : Type 0} (P : Store → Type 0) (m : Action A) (f : A → Action B) (s : Store)
    → IsReadOnly m
    → ((a : A) → (m s).0 ≡ ok a → P s → P (f a s).1)
    → P s
    → P ((m >>= f) s).1
bind-keeps {A} P m f s hm hf hs = go (m s).0 (m s).1 (hm.at s) hf
  where
    go :
        (r : Result ServiceError A) (s' : Store)
        → s' ≡ s
        → ((a : A) → r ≡ ok a → P s → P (f a s).1)
        → P (continue r f s').1
    go (ok a) s' q k = subst (λ x. P (f a x).1) (sym q) (k a refl hs)
    go (err e) s' q k = subst P (sym q) hs

-- A read-only action, and then one that, if it raises, leaves a store of Q.
pub bind-raises :
    {A B : Type 0} (Q : Store → Type 0) (m : Action A) (f : A → Action B) (e : ServiceError)
    (s : Store)
    → IsReadOnly m
    → Q s
    → ((a : A) → (m s).0 ≡ ok a → (f a s).0 ≡ err e → Q (f a s).1)
    → ((m >>= f) s).0 ≡ err e
    → Q ((m >>= f) s).1
bind-raises {A} Q m f e s hm here hf h = go (m s).0 (m s).1 (hm.at s) hf h
  where
    go :
        (r : Result ServiceError A) (s' : Store)
        → s' ≡ s
        → ((a : A) → r ≡ ok a → (f a s).0 ≡ err e → Q (f a s).1)
        → (continue r f s').0 ≡ err e
        → Q (continue r f s').1
    go (ok a) s' q k h' =
        subst (λ x. Q (f a x).1) (sym q) (k a refl (subst (λ x. (f a x).0 ≡ err e) q h'))
    go (err x) s' q k h' = subst Q (sym q) here

pub IsReadOnly-check : (r : Result ProviderError (Unit {0})) → IsReadOnly (check r)
unfolding check
IsReadOnly-check (ok _) = record { at = λ s. refl }
IsReadOnly-check (err e) = record { at = λ s. refl }

pub IsReadOnly-require : (b : Bool) (e : ServiceError) → IsReadOnly (require b e)
IsReadOnly-require true e = record { at = λ s. refl }
IsReadOnly-require false e = record { at = λ s. refl }

pub IsReadOnly-get_dialogue : (env : Env) (i u : ℕ) → IsReadOnly (get_dialogue env i u)
unfolding get_dialogue
IsReadOnly-get_dialogue env i u = record { at = λ s. ground arith }

pub IsReadOnly-mode_state : (env : Env) (i u : ℕ) → IsReadOnly (mode_state env i u)
unfolding mode_state
IsReadOnly-mode_state env i u = record { at = λ s. ground arith }

ruleset read_only = (
  IsReadOnly-pure, IsReadOnly-raise, IsReadOnly-call, IsReadOnly-of_machine, IsReadOnly-bind,
  IsReadOnly-if, IsReadOnly-check, IsReadOnly-require, IsReadOnly-get_dialogue,
  IsReadOnly-mode_state,
)

-- Three writes of a repository in a row, of which one failed.
three_writes :
    {A : Type 0} (o1 o2 o3 : Option ProviderError) (f1 f2 f3 : Store → Store) (a : A)
    (e : ServiceError) (s : Store)
    → let (r, s') =
        (unless_fails o1 (modify f1)
            >> (unless_fails o2 (modify f2) >> (unless_fails o3 (modify f3) >> pure a)))
          s in
      r ≡ err e
      → (s' ≡ s)
        ⊎ ((x : ProviderError) × (e ≡ provider_error x)
            × (((o2 ≡ some x) × (s' ≡ f1 s)) ⊎ ((o3 ≡ some x) × (s' ≡ f2 (f1 s)))))
three_writes (some x) o2 o3 f1 f2 f3 a e s h = inl refl
three_writes none (some x) o3 f1 f2 f3 a e s h = inr (x, ground (arith, h), inl (refl, refl))
three_writes none none (some x) f1 f2 f3 a e s h = inr (x, ground (arith, h), inr (refl, refl))
three_writes none none none f1 f2 f3 a e s h = absurd (ground (arith, h))

-- An action keeps P, whether it returns or raises.
abbrev pub Preserves : {A : Type 0} → (Store → Type 0) → Action A → Type 0
Preserves P m = (s : Store) → P s → P (m s).1

pub bind-Preserves :
    {A B : Type 0} (P : Store → Type 0) (m : Action A) (f : A → Action B)
    → Preserves P m
    → ((a : A) → Preserves P (f a))
    → Preserves P (m >>= f)
bind-Preserves {A} P m f hm hf s h = go (m s).0 (m s).1 (hm s h)
  where
    go : (r : Result ServiceError A) (s' : Store) → P s' → P (continue r f s').1
    go (ok a) s' p = hf a s' p
    go (err e) s' p = p

pub unless_fails-Preserves :
    {A : Type 0} (P : Store → Type 0) (o : Option ProviderError) (m : Action A)
    → Preserves P m
    → Preserves P (unless_fails o m)
unless_fails-Preserves P none m hm = hm
unless_fails-Preserves P (some e) m hm = λ s h. h

module _ (cfg : Config) (env : Env) where
  pub IsReadOnly-generate_if_due :
      (d : Dialogue) (e : DialogueEvent) → IsReadOnly (generate_if_due cfg env d e)
  unfolding generate_if_due
  IsReadOnly-generate_if_due d e = search read_only

  pub IsReadOnly-generate_guiding :
      (d : Dialogue) (c : LearnerContext) → IsReadOnly (generate_guiding cfg env d c)
  unfolding generate_guiding
  IsReadOnly-generate_guiding d c = search read_only

  pub IsReadOnly-generate_answer :
      (q : String) (c : LearnerContext) → IsReadOnly (generate_answer cfg env q c)
  unfolding generate_answer
  IsReadOnly-generate_answer q c = search read_only

  pub IsReadOnly-answer_for : (d : Dialogue) (t : Transition) → IsReadOnly (answer_for cfg env d t)
  unfolding answer_for
  IsReadOnly-answer_for d t = search (read_only, IsReadOnly-generate_answer) depth 9

  pub IsReadOnly-opened :
      (f : Found) (t : Transition) (d : Dialogue) → IsReadOnly (opened cfg env f t d)
  unfolding opened
  IsReadOnly-opened f t d = record { at = λ s. ground arith }

  -- Up to `_finalise` a reply saves nothing.
  pub IsReadOnly-plan_reply :
      (i u : ℕ) (message : String) → IsReadOnly (plan_reply cfg env i u message)
  unfolding plan_reply
  IsReadOnly-plan_reply i u message =
      search (read_only, IsReadOnly-generate_if_due, IsReadOnly-opened) depth 40

  -- What `_finalise` leaves when it raises after its first write: the answer that the turn owes was
  -- generated and accepted, and either the log refused the record, and only the dialogue was saved, or
  -- the second save failed, and the dialogue was saved and the record logged.
  abbrev pub Interrupted : Dialogue → Transition → ServiceError → Store → Store → Type 0
  Interrupted d t e s s' =
      ((a : Option FourPartAnswer) × ((answer_for cfg env d t s).0 ≡ ok a))
      × (x : ProviderError) × (e ≡ provider_error x)
      × (((env.append_fails ≡ some x) × (s' ≡ with_dialogue d s))
          ⊎ ((env.dialogue_save_fails 2 (logged cfg env d) ≡ some x)
              × (s' ≡ with_interaction (log_record cfg env d t) (with_dialogue d s))))

  pub finalise-safe :
      (d : Dialogue) (t : Transition) (mode : ModeState) (parts : Parts) (e : ServiceError)
      (s : Store)
      → (finalise cfg env d t mode parts s).0 ≡ err e
      → ((finalise cfg env d t mode parts s).1 ≡ s)
        ⊎ Interrupted d t e s (finalise cfg env d t mode parts s).1
  unfolding finalise save_dialogue append
  finalise-safe d t mode parts e s =
      bind-raises (λ x. (x ≡ s) ⊎ Interrupted d t e s x) (answer_for cfg env d t) _ e s
        (IsReadOnly-answer_for d t) (inl refl)
        (λ a ha h.
          elim (three_writes (env.dialogue_save_fails 1 d) env.append_fails
            (env.dialogue_save_fails 2 (logged cfg env d)) (with_dialogue d)
            (with_interaction (log_record cfg env d t)) (with_dialogue (logged cfg env d))
            (turn_of cfg env d t mode parts a) e s h) [
              | inl q ↦ inl q
              | inr (x, raised_by, w) ↦ inr ((a, ha), x, raised_by, w)
            ])

  -- A reply that raises leaves every dialogue, every mode and the interaction log as they were,
  -- unless a repository failed once everything was decided and generated: then the reply was
  -- planned, its answer, if it owes one, was generated and accepted, the error is that of the
  -- repository, and either the append failed and only the planned dialogue was saved, or the second
  -- save failed and the planned dialogue was saved and its record logged.
  pub reply-safe :
      (i u : ℕ) (message : String) (e : ServiceError) (s : Store)
      → (reply cfg env i u message s).0 ≡ err e
      → ((reply cfg env i u message s).1 ≡ s)
        ⊎ ((p : Planned) × ((plan_reply cfg env i u message s).0 ≡ ok p)
            × Interrupted p.dialogue p.transition e s (reply cfg env i u message s).1)
  unfolding reply
  reply-safe i u message e s =
      bind-raises
        (λ x.
          (x ≡ s)
          ⊎ ((p : Planned) × ((plan_reply cfg env i u message s).0 ≡ ok p)
              × Interrupted p.dialogue p.transition e s x))
        (plan_reply cfg env i u message)
        (λ p. finalise cfg env p.dialogue p.transition p.mode p.parts) e s
        (IsReadOnly-plan_reply i u message) (inl refl)
        (λ p hp h. elim (finalise-safe p.dialogue p.transition p.mode p.parts e s h) [
          | inl q ↦ inl q
          | inr w ↦ inr (p, hp, w)
        ])
