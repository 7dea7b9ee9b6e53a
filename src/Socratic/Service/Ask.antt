-- ===== src/Socratic/Service/Ask.antt =====
-- Asking a question, and switching the mode of a session: `ask`, `_standard_answer_turn`, `set_mode`
-- and `_close_in_flight`.
use Prim.Native.String.{String, len}
use ai_coaching_agent.Common.{
  ℕ, Bool, false, not, ◌||◌, Option, none, some, List, [], ◌∷◌, ◌==◌, if◌then◌else◌,
}
use ai_coaching_agent.Socratic.Vocabulary.{ResponseKind, DialogueEvent}
use ai_coaching_agent.Socratic.Machine.{Transition, lookup, initial_state}
use ai_coaching_agent.Socratic.Dialogue.{
  LearnerContext, GuidingQuestionResult, Dialogue, ModeState, explanation_profile_for, is_open,
}
use ai_coaching_agent.Socratic.Service.State.{
  Env, Config, Action, pure, gets, ◌>>=◌, ◌>>◌, unless_fails, save_dialogue, save_mode, for_session,
}
use ai_coaching_agent.Socratic.Service.Turn.{
  asked, Parts, SocraticTurn, of_machine, mode_state, resolve_context, generate_guiding,
  generate_answer, open_exchange, finalise,
}

-- `topic_tag or derive_topic_tag(question_text)`: an empty tag is derived too.
abbrev pub tag_or : Option String → String → String
tag_or none derived = derived
tag_or (some tag) derived = if len tag == 0 then derived else tag

-- What a turn shows without a dialogue, and with a first question.
abbrev pub no_parts : Parts
no_parts = record {
  acknowledgement = none;
  guiding_question = none;
  exit_offer = false;
  re_entry_offer = false;
}

abbrev pub first_parts : String → Parts
first_parts question = record {
  acknowledgement = none;
  guiding_question = some (asked question);
  exit_offer = false;
  re_entry_offer = false;
}

-- The closing of one dialogue by the toggle.
abbrev pub abandoned_by : Env → Transition → Dialogue → Dialogue
abandoned_by env t d = record d {
  state = t.target;
  resolution = t.resolution;
  closed_at = some env.now;
  updated_at = env.now;
}

module _ (cfg : Config) (env : Env) where
  -- The dialogue that `ask` starts with; no question is asked yet.
  unfoldable pub new_dialogue : ℕ → ℕ → String → Option String → LearnerContext → Dialogue
  new_dialogue session_id user_id question_text topic_tag context = record {
    dialogue_id = env.new_dialogue_id;
    session_id = session_id;
    user_id = user_id;
    question_text = question_text;
    topic_tag = tag_or topic_tag (cfg.derive_topic_tag question_text);
    context = context;
    explanation_profile = explanation_profile_for context.naric_level;
    state = initial_state;
    resolution = none;
    exchange_cap = cfg.socratic_exchange_cap;
    exchanges = [];
    prompt_version = cfg.prompt_version;
    created_at = env.now;
    updated_at = env.now;
    closed_at = none;
    last_interaction_id = none;
    loop_matched_exchange = none;
  }

  -- `_standard_answer_turn`: no dialogue is created and nothing is logged.
  unfoldable pub standard_answer_turn :
      ℕ → String → LearnerContext → ModeState → Action SocraticTurn
  unfolding generate_answer
  standard_answer_turn session_id question_text context mode = do
    answer ← generate_answer cfg env question_text context
    pure (record {
      session_id = session_id;
      dialogue_id = none;
      mode_enabled = false;
      mode_source = mode.source;
      response_kind = ResponseKind.direct_answer;
      state = none;
      resolution = none;
      exchanges_used = 0;
      exchanges_remaining = 0;
      exchange_cap = cfg.socratic_exchange_cap;
      parts = no_parts;
      answer = some answer;
      reasoning_chain = none;
      interaction_id = none;
      transition = none;
      context = context;
    })

  -- The dialogue with its first question, in the state that the table gives.
  abbrev pub started : Dialogue → Transition → GuidingQuestionResult → Dialogue
  started d t g = record (open_exchange cfg env g d) { state = t.target; updated_at = env.now }

  -- `ask` with the mode on, from the context on.
  unfoldable pub start_dialogue : Dialogue → ModeState → Action SocraticTurn
  unfolding of_machine generate_guiding open_exchange finalise
  start_dialogue d mode = do
    t ← of_machine (lookup none DialogueEvent.dialogue_started)
    g ← generate_guiding cfg env d d.context
    finalise cfg env (started d t g) t mode (first_parts g.question)

  unfoldable pub ask : ℕ → ℕ → String → Option String → Action SocraticTurn
  unfolding mode_state resolve_context standard_answer_turn new_dialogue start_dialogue
  ask session_id user_id question_text topic_tag = do
    mode ← mode_state env session_id user_id
    context ← resolve_context (env.get_context session_id user_id)
    (if mode.enabled
        then start_dialogue (new_dialogue session_id user_id question_text topic_tag context) mode
        else standard_answer_turn session_id question_text context mode)

-- The loop of `_close_in_flight` over the dialogues of the session; it returns what it closed.
unfoldable pub close_each : Env → ℕ → List Dialogue → Action (List ℕ)
unfolding of_machine save_dialogue
close_each env user_id [] = pure []
close_each env user_id (d ∷ ds) =
    let rest = close_each env user_id ds in
    if not (is_open d) || not (d.user_id == user_id) then rest else (do
      t ← of_machine (lookup (some d.state) DialogueEvent.mode_toggled_off)
      save_dialogue env 1 (abandoned_by env t d)
      closed ← rest
      pure (d.dialogue_id ∷ closed))

unfoldable pub close_in_flight : Env → ℕ → ℕ → Action (List ℕ)
unfolding close_each for_session
close_in_flight env session_id user_id = do
  ds ← unless_fails env.session_read_fails (gets (λ s. for_session session_id s.dialogues))
  close_each env user_id ds

-- `set_mode`: what it returns of the stored mode, and the dialogues that it closed.
unfoldable pub set_mode : Env → ℕ → ℕ → Bool → Action (ModeState × List ℕ)
unfolding mode_state save_mode close_in_flight
set_mode env session_id user_id enabled = do
  _ ← mode_state env session_id user_id
  state ← save_mode env session_id enabled user_id
  closed ← (if enabled then pure [] else close_in_flight env session_id user_id)
  pure (state, closed)
