-- ===== src/Socratic/Service/Opening.antt =====
-- Asking a question: what a call that raises may have saved, and that a dialogue starts well formed.
use Prim.Native.String.{String}
use ai_coaching_agent.Common.{
  ℕ, ◌≤◌, ◌≡◌, refl, sym, subst, ◌⊎◌, inl, inr, Bool, true, false, Option, none, ok, err, arith,
  if◌then◌else◌,
}
use ai_coaching_agent.Socratic.Vocabulary.{DialogueEvent, is_terminal}
use ai_coaching_agent.Socratic.Machine.{Transition, lookup}
use ai_coaching_agent.Socratic.Dialogue.{Dialogue, GuidingQuestionResult, LearnerContext, ModeState}
use ai_coaching_agent.Socratic.Service.State.{
  Store, ServiceError, Env, Config, Action, ◌>>=◌, Call, returned, raised, hung, provider_timeout,
  provider_unavailable, provider_invalid_response,
}
use ai_coaching_agent.Socratic.Service.Turn.{
  SocraticTurn, of_machine, mode_state, resolve_context, generate_guiding, generate_answer,
  open_exchange,
}
use ai_coaching_agent.Socratic.Service.Ask.{
  first_parts, new_dialogue, standard_answer_turn, started, start_dialogue, ask,
}
use ai_coaching_agent.Socratic.Service.Safety.{
  IsReadOnly, IsReadOnly-pure, IsReadOnly-bind, IsReadOnly-of_machine, IsReadOnly-generate_guiding,
  IsReadOnly-generate_answer, IsReadOnly-mode_state, bind-raises, bind-keeps, Interrupted,
  finalise-safe,
}
use ai_coaching_agent.Socratic.Service.Steps.{of_machine-ok}
use ai_coaching_agent.Socratic.Service.Invariant.{
  IsWellFormed, AllWellFormed, open_exchange-IsAsked, finalise-AllWellFormed,
}

pub IsReadOnly-resolve_context : (c : Call LearnerContext) → IsReadOnly (resolve_context c)
unfolding resolve_context
IsReadOnly-resolve_context (returned c) = record { at = λ s. refl }
IsReadOnly-resolve_context hung = record { at = λ s. refl }
IsReadOnly-resolve_context (raised provider_timeout) = record { at = λ s. refl }
IsReadOnly-resolve_context (raised provider_unavailable) = record { at = λ s. refl }
IsReadOnly-resolve_context (raised provider_invalid_response) = record { at = λ s. refl }

bind-keeps-any :
    {A B : Type 0} (P : Store → Type 0) (m : Action A) (f : A → Action B)
    → IsReadOnly m
    → ((a : A) (s : Store) → P s → P (f a s).1)
    → (s : Store) → P s
    → P ((m >>= f) s).1
bind-keeps-any P m f hm hf s = bind-keeps P m f s hm (λ a _. hf a s)

module _ (cfg : Config) (env : Env) where
  IsReadOnly-standard_answer_turn :
      (i : ℕ) (q : String) (c : LearnerContext) (mode : ModeState)
      → IsReadOnly (standard_answer_turn cfg env i q c mode)
  unfolding standard_answer_turn
  IsReadOnly-standard_answer_turn i q c mode =
      IsReadOnly-bind (generate_answer cfg env q c) _ (IsReadOnly-generate_answer cfg env q c)
        (λ a. IsReadOnly-pure _)

  -- What `ask` leaves when it raises after its first write: the table had a row for the start, the
  -- first question was generated and accepted, and the turn of the dialogue with that question was
  -- interrupted.
  abbrev pub FirstInterrupted : Dialogue → ServiceError → Store → Store → Type 0
  FirstInterrupted d e s s' =
      (t : Transition) × (g : GuidingQuestionResult) × (lookup none DialogueEvent.dialogue_started
        ≡ ok t)
      × ((generate_guiding cfg env d d.context s).0 ≡ ok g)
      × Interrupted cfg env (started cfg env d t g) t e s s'

  start_dialogue-safe :
      (d : Dialogue) (mode : ModeState) (e : ServiceError) (s : Store)
      → (start_dialogue cfg env d mode s).0 ≡ err e
      → ((start_dialogue cfg env d mode s).1 ≡ s)
        ⊎ FirstInterrupted d e s (start_dialogue cfg env d mode s).1
  unfolding start_dialogue
  start_dialogue-safe d mode e s =
      let Q : Store → Type 0 = λ x. (x ≡ s) ⊎ FirstInterrupted d e s x in
      bind-raises Q (of_machine (lookup none DialogueEvent.dialogue_started)) _ e s
        (IsReadOnly-of_machine _) (inl refl)
        (λ t ht.
          bind-raises Q (generate_guiding cfg env d d.context) _ e s
            (IsReadOnly-generate_guiding cfg env d d.context) (inl refl)
            (λ g hg h.
              elim (finalise-safe cfg env (started cfg env d t g) t mode (first_parts g.question) e
                s h) [ inl q ↦ inl q | inr w ↦ inr (t, g, of_machine-ok _ s t ht, hg, w) ]))

  -- What `ask` goes on with, by the mode.
  by_mode-safe :
      (Q : Store → Type 0) (b : Bool) (m n : Action SocraticTurn) (e : ServiceError) (s : Store)
      → ((m s).0 ≡ err e → Q (m s).1)
      → IsReadOnly n
      → Q s
      → ((if b then m else n) s).0 ≡ err e
      → Q ((if b then m else n) s).1
  by_mode-safe Q true m n e s hm hn here h = hm h
  by_mode-safe Q false m n e s hm hn here h = subst Q (sym (hn.at s)) here

  -- An `ask` that raises leaves every dialogue, every mode and the interaction log as they were,
  -- unless a repository failed once the first question had been generated and accepted: then the
  -- error is that of the repository, and either the append failed and only the new dialogue, with
  -- its first question, was saved, or the second save failed and the new dialogue was saved and its
  -- record logged.
  pub ask-safe :
      (i u : ℕ) (q : String) (tag : Option String) (e : ServiceError) (s : Store)
      → (ask cfg env i u q tag s).0 ≡ err e
      → ((ask cfg env i u q tag s).1 ≡ s)
        ⊎ ((c : LearnerContext) × FirstInterrupted
              (new_dialogue cfg env i u q tag c)
              e
              s
              (ask cfg env i u q tag s).1)
  unfolding ask
  ask-safe i u q tag e s =
      let Q : Store → Type 0 = λ x.
        (x ≡ s)
        ⊎ ((c : LearnerContext) × FirstInterrupted (new_dialogue cfg env i u q tag c) e s x) in
      bind-raises Q (mode_state env i u) _ e s (IsReadOnly-mode_state env i u) (inl refl) (λ mode _.
        bind-raises Q (resolve_context (env.get_context i u)) _ e s (IsReadOnly-resolve_context _)
          (inl refl)
          (λ c _.
            by_mode-safe Q mode.enabled _ _ e s
              (λ h. elim (start_dialogue-safe (new_dialogue cfg env i u q tag c) mode e s h) [
                | inl same ↦ inl same
                | inr w ↦ inr (c, w)
              ])
              (IsReadOnly-standard_answer_turn i q c mode) (inl refl)))

  -- A dialogue that is started is well formed, if the configured cap allows a question.
  started-IsWellFormed :
      (i u : ℕ) (q : String) (tag : Option String) (c : LearnerContext) (t : Transition)
      (g : GuidingQuestionResult)
      → 1 ≤ cfg.socratic_exchange_cap
      → lookup none DialogueEvent.dialogue_started ≡ ok t
      → IsWellFormed (started cfg env (new_dialogue cfg env i u q tag c) t g)
  unfolding new_dialogue open_exchange lookup is_terminal
  started-IsWellFormed i u q tag c t g cap row =
      let a =
        open_exchange-IsAsked cfg env (new_dialogue cfg env i u q tag c) g (omega arith) tt refl in
      record {
        asking = record {
          has_asked = a.has_asked;
          within_cap = a.within_cap;
          numbered = a.numbered;
          profile = a.profile;
        };
        resolution_iff_terminal = ground arith;
      }

  start_dialogue-AllWellFormed :
      (i u : ℕ) (q : String) (tag : Option String) (c : LearnerContext) (mode : ModeState)
      (s : Store)
      → 1 ≤ cfg.socratic_exchange_cap
      → AllWellFormed s.dialogues
      → AllWellFormed (start_dialogue cfg env (new_dialogue cfg env i u q tag c) mode s).1.dialogues
  unfolding start_dialogue
  start_dialogue-AllWellFormed i u q tag c mode s cap all =
      let d = new_dialogue cfg env i u q tag c in
      bind-keeps (λ (x : Store). AllWellFormed x.dialogues)
        (of_machine (lookup none DialogueEvent.dialogue_started)) _ s (IsReadOnly-of_machine _)
        (λ t ht all1.
          bind-keeps-any (λ (x : Store). AllWellFormed x.dialogues)
            (generate_guiding cfg env d d.context) _
            (IsReadOnly-generate_guiding cfg env d d.context)
            (λ g s' all2.
              finalise-AllWellFormed cfg env (started cfg env d t g) t mode (first_parts g.question)
                s' (started-IsWellFormed i u q tag c t g cap (of_machine-ok _ s t ht)) all2)
            _ all1)
        all

  by_mode-keeps :
      (P : Store → Type 0) (b : Bool) (m n : Action SocraticTurn) (s : Store)
      → (P s → P (m s).1)
      → IsReadOnly n
      → P s
      → P ((if b then m else n) s).1
  by_mode-keeps P true m n s hm hn h = hm h
  by_mode-keeps P false m n s hm hn h = subst P (sym (hn.at s)) h

  -- If every stored dialogue is under its own id and well formed and the configured cap is at
  -- least 1, then so is every stored dialogue after an `ask`, whether it returns or raises.
  pub ask-AllWellFormed :
      (i u : ℕ) (q : String) (tag : Option String) (s : Store)
      → 1 ≤ cfg.socratic_exchange_cap
      → AllWellFormed s.dialogues
      → AllWellFormed (ask cfg env i u q tag s).1.dialogues
  unfolding ask
  ask-AllWellFormed i u q tag s cap all =
      bind-keeps-any (λ (x : Store). AllWellFormed x.dialogues) (mode_state env i u) _
        (IsReadOnly-mode_state env i u)
        (λ mode s1 all1.
          bind-keeps-any (λ (x : Store). AllWellFormed x.dialogues)
            (resolve_context (env.get_context i u)) _ (IsReadOnly-resolve_context _)
            (λ c s2 all2.
              by_mode-keeps (λ (x : Store). AllWellFormed x.dialogues) mode.enabled _ _ s2
                (start_dialogue-AllWellFormed i u q tag c mode s2 cap)
                (IsReadOnly-standard_answer_turn i q c mode) all2)
            s1 all1)
        s all
