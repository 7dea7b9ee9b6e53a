-- ===== src/Socratic/Service/Total.antt =====
-- A reply is answered: no assertion of `reply` or `_finalise` can fail, and no lookup.
use Prim.Native.String.{String}
use ai_coaching_agent.Common.{
  ℕ, ◌≡◌, refl, sym, ap, ◌∙◌, inl, inr, true, false, not, Option, none, some, ok, arith, Bool-cases,
}
use ai_coaching_agent.Common.Dict
use ai_coaching_agent.Socratic.Vocabulary.{DialogueEvent, is_terminal}
use ai_coaching_agent.Socratic.Machine.{
  Transition, lookup, event_for_intent, is_generating, is_answer_bearing,
  is_direct_answer_resolution,
}
use ai_coaching_agent.Socratic.Machine.Intents.{event_for_intent-total}
use ai_coaching_agent.Socratic.Machine.Table.{IsLawful, lookup-IsLawful}
use ai_coaching_agent.Socratic.Dialogue.{Dialogue, GuidingQuestionResult, LearnerContext, ModeState}
use ai_coaching_agent.Socratic.Service.State.{
  Store, invalid_transition, assertion, Env, Config, call, check, ProviderError, unless_fails,
  modify, pure, ◌>>◌, with_dialogue, with_interaction, save_dialogue, append,
}
use ai_coaching_agent.Socratic.Service.Turn.{
  Parts, require, of_machine, mode_state, get_dialogue, generate_guiding, generate_answer,
  answer_for, finalise, log_record, logged, turn_of,
}
use ai_coaching_agent.Socratic.Service.Reply.{
  Found, cap_event, found_by, generate_if_due, opened, with_message, has_exchange, plan_reply,
  reply,
}
use ai_coaching_agent.Socratic.Service.Safety.{
  IsReadOnly-call, IsReadOnly-of_machine, IsReadOnly-require, IsReadOnly-check,
  IsReadOnly-get_dialogue, IsReadOnly-mode_state, IsReadOnly-generate_if_due, IsReadOnly-opened,
  IsReadOnly-plan_reply, IsReadOnly-answer_for,
}
use ai_coaching_agent.Socratic.Service.Steps.{plan_reply-ok, generate_if_due-ok}
use ai_coaching_agent.Socratic.Service.Invariant.{IsAsked}
use ai_coaching_agent.Socratic.Service.Succeeds.{
  Returns, IsUp, bind-ok, bind-Returns, require-true, call-returned, of_machine-found,
  get_dialogue-found, check-ok, machine-Returns, lookup-found, none-some, has_exchange-IsAsked,
}

-- A question that repeats none before it is kept for its event.
found_by-generated :
    (cfg : Config) (d : Dialogue) (e : DialogueEvent) (g : GuidingQuestionResult)
    → is_generating (found_by cfg d e g).event ≡ true
    → (found_by cfg d e g).generated ≡ some g
unfolding found_by is_generating
found_by-generated cfg d e g h = ground arith

three_written :
    {A : Type 0} (o1 o2 o3 : Option ProviderError) (f1 f2 f3 : Store → Store) (a : A) (s : Store)
    → o1 ≡ none
    → o2 ≡ none
    → o3 ≡ none
    → Returns
        (unless_fails o1 (modify f1)
          >> (unless_fails o2 (modify f2) >> (unless_fails o3 (modify f3) >> pure a)))
        s
three_written o1 o2 o3 f1 f2 f3 a s h1 h2 h3 = (a, ground arith)

module _ (cfg : Config) (env : Env) (up : IsUp cfg env) where
  generate_guiding-ok :
      (d : Dialogue) (s : Store)
      → (generate_guiding cfg env d d.context s).0 ≡ ok (up.asks d d.context).0
  unfolding generate_guiding call check
  generate_guiding-ok d s =
      let (g, hg, accepted) = up.asks d d.context in
      bind-ok (call (env.generate_question d d.context)) _ s g g (IsReadOnly-call _)
        (call-returned _ g s hg)
        (bind-ok (check (cfg.guiding_guard g d)) _ s tt g (IsReadOnly-check _)
          (check-ok _ s accepted) refl)

  -- Where the event that is found opens an exchange, a question was generated for it.
  generate_if_due-Returns :
      (d : Dialogue) (e : DialogueEvent) (s : Store)
      → (f : Found) × ((generate_if_due cfg env d e s).0 ≡ ok f)
        × (is_generating f.event ≡ true → (g : GuidingQuestionResult) × (f.generated ≡ some g))
  unfolding generate_if_due
  generate_if_due-Returns d e s =
      let g = (up.asks d d.context).0 in
      elim (Bool-cases (is_generating e)) [
        | inl due ↦ (
          found_by cfg d e g,
          ground (arith, generate_guiding-ok d s),
          λ h. (g, found_by-generated cfg d e g h),
        )
        | inr not_due ↦ (
          record { event = e; generated = none; loop_index = none },
          ground arith,
          λ h. absurd (ground arith),
        )
      ]

  opened-Returns :
      (e : DialogueEvent) (o : Option GuidingQuestionResult) (i : Option ℕ) (t : Transition)
      (d : Dialogue) (s : Store)
      → (t.opens_exchange ≡ true → (g : GuidingQuestionResult) × (o ≡ some g))
      → Returns (opened cfg env (record { event = e; generated = o; loop_index = i }) t d) s
  unfolding opened
  opened-Returns e (some g) i t d s h = (_, refl)
  opened-Returns e none i t d s h = elim (Bool-cases t.opens_exchange) [
    | inl opens ↦ absurd (none-some (h opens).1)
    | inr shut ↦ (d, ground arith)
  ]

  generate_answer-Returns :
      (q : String) (c : LearnerContext) (s : Store) → Returns (generate_answer cfg env q c) s
  unfolding generate_answer
  generate_answer-Returns q c s =
      let (a, ha, accepted) = up.answers q c in
      bind-Returns (call (env.generate_answer q c)) _ s a (IsReadOnly-call _)
        (call-returned _ a s ha)
        (bind-Returns (check (cfg.answer_guard a)) _ s tt (IsReadOnly-check _)
          (check-ok _ s accepted) (a, refl))

  answer_for-Returns :
      (d : Dialogue) (t : Transition) (s : Store)
      → is_answer_bearing t.response_kind ≡ is_direct_answer_resolution t.resolution
      → Returns (answer_for cfg env d t) s
  unfolding answer_for
  answer_for-Returns d t s h =
      let (a, ha) = generate_answer-Returns d.question_text d.context s in
      elim (Bool-cases (is_answer_bearing t.response_kind)) [
        | inl bears ↦ (some a, ground (arith, ha))
        | inr bare ↦ (none, ground arith)
      ]

  finalise-Returns :
      (d : Dialogue) (t : Transition) (mode : ModeState) (parts : Parts) (s : Store)
      → IsLawful t
      → Returns (finalise cfg env d t mode parts) s
  unfolding finalise save_dialogue append
  finalise-Returns d t mode parts s lawful =
      let (a, ha) = answer_for-Returns d t s lawful.answers in
      bind-Returns (answer_for cfg env d t) _ s a (IsReadOnly-answer_for cfg env d t) ha (
        three_written _ _ _ (with_dialogue d) (with_interaction (log_record cfg env d t))
          (with_dialogue (logged cfg env d)) (turn_of cfg env d t mode parts a) s
          (up.stores.saves_dialogue 1 d) up.stores.appends (up.stores.saves_dialogue 2 _))

  -- The plan of a reply is made under the conditions of `reply-Returns`.
  plan_reply-Returns :
      (i u : ℕ) (message : String) (s : Store) (d : Dialogue)
      → Dict.lookup i s.dialogues ≡ some d
      → d.user_id ≡ u
      → is_terminal d.state ≡ false
      → IsAsked d
      → Returns (mode_state env d.session_id u) s
      → Returns (plan_reply cfg env i u message) s
  unfolding plan_reply
  plan_reply-Returns i u message s d stored owned going_on asked (mode, hm) =
      let (intent, hi) = up.classifies message d in
      let (event, he) =
        machine-Returns (event_for_intent d.state intent)
          (event_for_intent-total d.state intent DialogueEvent.off_topic going_on).0 in
      let (f, hf, generated) = generate_if_due-Returns d (cap_event d event) s in
      let (t, ht) =
        lookup-found d intent event f.event going_on he
          (generate_if_due-ok cfg env d (cap_event d event) s f hf) in
      let (lawful, _, same) = lookup-IsLawful (some d.state) f.event t ht in
      let (next, hn) =
        opened-Returns f.event f.generated f.loop_index t (with_message env message intent d) s
          (λ opens. generated (ap is_generating (sym same) ∙ (sym lawful.opens ∙ opens))) in
      bind-Returns (get_dialogue env i u) _ s d (IsReadOnly-get_dialogue env i u)
        (get_dialogue-found env i u s d stored owned up.stores.reads_dialogue)
        (bind-Returns (require (not (is_terminal d.state)) invalid_transition) _ s tt
          (IsReadOnly-require _ _) (require-true _ invalid_transition s (ap not going_on))
          (bind-Returns (mode_state env d.session_id u) _ s mode (IsReadOnly-mode_state env _ _) hm
            (bind-Returns (call (env.classify message d)) _ s intent (IsReadOnly-call _)
              (call-returned _ intent s hi)
              (bind-Returns (of_machine (event_for_intent d.state intent)) _ s event
                (IsReadOnly-of_machine _) (of_machine-found _ event s he)
                (bind-Returns (generate_if_due cfg env d (cap_event d event)) _ s f
                  (IsReadOnly-generate_if_due cfg env _ _) hf
                  (bind-Returns (of_machine (lookup (some d.state) f.event)) _ s t
                    (IsReadOnly-of_machine _) (of_machine-found _ t s ht)
                    (bind-Returns (require (has_exchange d) assertion) _ s tt
                      (IsReadOnly-require _ _)
                      (require-true _ assertion s (has_exchange-IsAsked d asked))
                      (bind-Returns (opened cfg env f t (with_message env message intent d)) _ s
                        next (IsReadOnly-opened cfg env f t _) hn (_, refl)))))))))

  -- A reply is answered whenever the dialogue is stored, belongs to the learner, is open, has
  -- asked at least once and within its cap (and is numbered and explained as it should be), the
  -- learner may see the session's mode, the providers answer in time, the guards accept what is
  -- generated and no repository fails: no assertion fails and no event lacks a row.
  pub reply-Returns :
      (i u : ℕ) (message : String) (s : Store) (d : Dialogue)
      → Dict.lookup i s.dialogues ≡ some d
      → d.user_id ≡ u
      → is_terminal d.state ≡ false
      → IsAsked d
      → Returns (mode_state env d.session_id u) s
      → Returns (reply cfg env i u message) s
  unfolding reply
  reply-Returns i u message s d stored owned going_on asked mode =
      let (p, hp) = plan_reply-Returns i u message s d stored owned going_on asked mode in
      let q = plan_reply-ok cfg env i u message s p hp in
      let (lawful, _, _) = lookup-IsLawful (some q.before.state) q.found.event p.transition q.row in
      bind-Returns (plan_reply cfg env i u message) _ s p
        (IsReadOnly-plan_reply cfg env i u message) hp
        (finalise-Returns p.dialogue p.transition p.mode p.parts s lawful)
