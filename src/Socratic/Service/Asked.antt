-- ===== src/Socratic/Service/Asked.antt =====
-- What an `ask` that returns has stored.
use Prim.Native.String.{String}
use ai_coaching_agent.Common.{
  ℕ, ◌≡◌, refl, sym, ap, ◌⊎◌, inl, inr, Bool, true, false, if◌then◌else◌, Option, none, ok,
}
use ai_coaching_agent.Socratic.Vocabulary.{DialogueEvent}
use ai_coaching_agent.Socratic.Machine
use ai_coaching_agent.Socratic.Machine.{Transition}
use ai_coaching_agent.Socratic.Dialogue.{Dialogue, LearnerContext, ModeState}
use ai_coaching_agent.Socratic.Service.State.{Store, Env, Config, Action}
use ai_coaching_agent.Socratic.Service.Turn.{
  SocraticTurn, open_exchange, of_machine, generate_guiding, generate_answer, mode_state,
  resolve_context,
}
use ai_coaching_agent.Socratic.Service.Ask.{
  first_parts, new_dialogue, standard_answer_turn, started, start_dialogue, ask,
}
use ai_coaching_agent.Socratic.Service.Safety.{
  IsReadOnly-of_machine, IsReadOnly-generate_guiding, IsReadOnly-generate_answer,
  IsReadOnly-mode_state,
}
use ai_coaching_agent.Socratic.Service.Opening.{IsReadOnly-resolve_context}
use ai_coaching_agent.Socratic.Service.Steps.{ok-injective}
use ai_coaching_agent.Socratic.Service.Recorded.{IsRecorded, bind-returns, finalise-IsRecorded}

module _ (cfg : Config) (env : Env) where
  start_dialogue-IsRecorded :
      (d : Dialogue) (mode : ModeState) (turn : SocraticTurn) (s : Store)
      → (start_dialogue cfg env d mode s).0 ≡ ok turn
      → IsRecorded d.dialogue_id turn s (start_dialogue cfg env d mode s).1
  unfolding start_dialogue open_exchange
  start_dialogue-IsRecorded d mode turn s =
      bind-returns (IsRecorded d.dialogue_id turn s)
        (of_machine (Machine.lookup none DialogueEvent.dialogue_started)) _ turn s
        (IsReadOnly-of_machine _)
        (λ t _.
          bind-returns (IsRecorded d.dialogue_id turn s) (generate_guiding cfg env d d.context) _
            turn s (IsReadOnly-generate_guiding cfg env d d.context)
            (λ g _.
              finalise-IsRecorded cfg env (started cfg env d t g) t mode (first_parts g.question)
                turn s))

  -- What a returned turn says of the store: it is of no dialogue and nothing changed, or it is
  -- recorded under the given id.
  abbrev pub Told : ℕ → SocraticTurn → Store → Store → Type 0
  Told i turn s s' = ((turn.dialogue_id ≡ none) × (s' ≡ s)) ⊎ IsRecorded i turn s s'

  standard_answer_turn-Told :
      (i session_id : ℕ) (q : String) (c : LearnerContext) (mode : ModeState) (turn : SocraticTurn)
      (s : Store)
      → (standard_answer_turn cfg env session_id q c mode s).0 ≡ ok turn
      → Told i turn s (standard_answer_turn cfg env session_id q c mode s).1
  unfolding standard_answer_turn
  standard_answer_turn-Told i session_id q c mode turn s =
      bind-returns (Told i turn s) (generate_answer cfg env q c) _ turn s
        (IsReadOnly-generate_answer cfg env q c)
        (λ a _ h.
          inl (ap (λ (x : SocraticTurn). x.dialogue_id) (sym (ok-injective _ turn _ refl h)), refl))

  by_mode-Told :
      (i : ℕ) (b : Bool) (m n : Action SocraticTurn) (turn : SocraticTurn) (s : Store)
      → ((m s).0 ≡ ok turn → IsRecorded i turn s (m s).1)
      → ((n s).0 ≡ ok turn → Told i turn s (n s).1)
      → ((if b then m else n) s).0 ≡ ok turn
      → Told i turn s ((if b then m else n) s).1
  by_mode-Told i true m n turn s hm hn h = inr (hm h)
  by_mode-Told i false m n turn s hm hn h = hn h

  -- An `ask` that returns a turn without a dialogue has changed nothing; one that returns a turn of a
  -- dialogue has stored what the turn shows: the new dialogue, read back by its id, has the state,
  -- the resolution, the number of exchanges and the last interaction of the turn; every other
  -- dialogue and every mode is as before; and the log has exactly one more record, with the
  -- interaction of the turn, for that dialogue and its learner, of the kind of the response.
  pub ask-IsRecorded :
      (i u : ℕ) (q : String) (tag : Option String) (turn : SocraticTurn) (s : Store)
      → (ask cfg env i u q tag s).0 ≡ ok turn
      → ((turn.dialogue_id ≡ none) × ((ask cfg env i u q tag s).1 ≡ s))
        ⊎ IsRecorded env.new_dialogue_id turn s (ask cfg env i u q tag s).1
  unfolding ask new_dialogue
  ask-IsRecorded i u q tag turn s =
      bind-returns (Told env.new_dialogue_id turn s) (mode_state env i u) _ turn s
        (IsReadOnly-mode_state env i u)
        (λ mode _.
          bind-returns (Told env.new_dialogue_id turn s) (resolve_context (env.get_context i u)) _
            turn s (IsReadOnly-resolve_context _)
            (λ c _.
              by_mode-Told env.new_dialogue_id mode.enabled _ _ turn s
                (start_dialogue-IsRecorded (new_dialogue cfg env i u q tag c) mode turn s)
                (standard_answer_turn-Told env.new_dialogue_id i q c mode turn s)))
