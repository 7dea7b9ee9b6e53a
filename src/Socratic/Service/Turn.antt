-- ===== src/Socratic/Service/Turn.antt =====
-- Asking a question and replying within a dialogue: `ask`, `reply` and their helpers.
use Prim.Native.String.{String}
use ai_coaching_agent.Common.{
  ℕ, ◌+◌, Bool, true, false, Option, none, some, List, [], ◌∷◌, ◌++◌, Result, ok, err, max, length,
  ◌==◌, if◌then◌else◌,
}
use ai_coaching_agent.Common.Dict
use ai_coaching_agent.Socratic.Vocabulary.{ResponseKind, Resolution, DialogueState}
use ai_coaching_agent.Socratic.Machine.{
  Transition, MachineError, is_direct_answer_resolution, is_answer_bearing,
}
use ai_coaching_agent.Socratic.Dialogue.{
  LearnerContext, FourPartAnswer, GuidingQuestionResult, Dialogue, InteractionLogRecord, ModeState,
  ModeSource, SourceStatus, defaulted, default_for, exchanges_used, exchanges_remaining,
}
use ai_coaching_agent.Socratic.Dialogue.Chain.{ReasoningChainStep, build_reasoning_chain}
use ai_coaching_agent.Socratic.Service.State.{
  provider_timeout, provider_unavailable, provider_invalid_response, ServiceError, access_denied,
  dialogue_not_found, invalid_transition, assertion, Call, returned, raised, hung, Env, Config,
  Action, pure, raise, gets, ◌>>=◌, ◌>>◌, call, check, unless_fails, save_dialogue, append,
}

-- The fixed texts of uc05/domain/vocabulary.py, by name; the numbered ones are ACKNOWLEDGEMENTS.
pub data Acknowledgement : Type 0 where
  numbered : ℕ → Acknowledgement
  resume redirect closing : Acknowledgement

-- The question of a turn: one that was generated or recorded, or CONSOLIDATING_QUESTION.
pub data TurnQuestion : Type 0 where
  asked : String → TurnQuestion
  consolidating : TurnQuestion

-- What a transition adds to the response.
pub record Parts : Type 0 where
  pub acknowledgement : Option Acknowledgement
  pub guiding_question : Option TurnQuestion
  pub exit_offer : Bool
  pub re_entry_offer : Bool

pub record SocraticTurn : Type 0 where
  pub session_id : ℕ
  pub dialogue_id : Option ℕ
  pub mode_enabled : Bool
  pub mode_source : ModeSource
  pub response_kind : ResponseKind
  pub state : Option DialogueState
  pub resolution : Option Resolution
  pub exchanges_used : ℕ
  pub exchanges_remaining : ℕ
  pub exchange_cap : ℕ
  pub parts : Parts
  pub answer : Option FourPartAnswer
  pub reasoning_chain : Option (List ReasoningChainStep)
  pub interaction_id : Option ℕ
  pub transition : Option ℕ
  pub context : LearnerContext

-- `if not b: raise e`, also for an `assert`
abbrev pub require : Bool → ServiceError → Action (Unit {0})
require true e = pure tt
require false e = raise e

-- A result of the state machine: `InvalidTransition` passes.
unfoldable pub of_machine : {A : Type 0} → Result MachineError A → Action A
of_machine (ok a) = pure a
of_machine (err e) = raise invalid_transition

-- `_mode_state`, by what is stored.
unfoldable pub mode_of : ℕ → ℕ → Option ModeState → Action ModeState
mode_of session_id user_id none = pure (default_for session_id)
mode_of session_id user_id (some m) = elim m.owner_user_id [
  | none ↦ pure m
  | some owner ↦ if owner == user_id then pure m else raise access_denied
]

unfoldable pub mode_state : Env → ℕ → ℕ → Action ModeState
unfolding mode_of
mode_state env session_id user_id = do
  stored ← unless_fails env.mode_read_fails (gets (λ s. Dict.lookup session_id s.modes))
  mode_of session_id user_id stored

-- `_resolve_context`: a failing provider is replaced by the documented default.
unfoldable pub resolve_context : Call LearnerContext → Action LearnerContext
resolve_context (returned c) = pure c
resolve_context hung = pure (defaulted SourceStatus.unavailable)
resolve_context (raised provider_timeout) = pure (defaulted SourceStatus.unavailable)
resolve_context (raised provider_unavailable) = pure (defaulted SourceStatus.unavailable)
resolve_context (raised provider_invalid_response) = pure (defaulted SourceStatus.invalid)

-- `get_dialogue`, by what is stored.
unfoldable pub owned_by : ℕ → Option Dialogue → Action Dialogue
owned_by user_id none = raise dialogue_not_found
owned_by user_id (some d) = if d.user_id == user_id then pure d else raise access_denied

unfoldable pub get_dialogue : Env → ℕ → ℕ → Action Dialogue
unfolding owned_by
get_dialogue env dialogue_id user_id = do
  stored ← unless_fails env.dialogue_read_fails (gets (λ s. Dict.lookup dialogue_id s.dialogues))
  owned_by user_id stored

-- `response_kind or ResponseKind.GUIDING_QUESTION`
abbrev pub kind_of : Option ResponseKind → ResponseKind
kind_of none = ResponseKind.guiding_question
kind_of (some k) = k

-- The reasoning chain goes with a capped answer.
abbrev pub chain_for : Dialogue → Option ResponseKind → Option (List ReasoningChainStep)
chain_for d (some ResponseKind.capped_answer) = some (build_reasoning_chain d)
chain_for d _ = none

module _ (cfg : Config) (env : Env) where
  -- `_generate_guiding`
  unfoldable pub generate_guiding : Dialogue → LearnerContext → Action GuidingQuestionResult
  unfolding call check
  generate_guiding d context = do
    result ← call (env.generate_question d context)
    check (cfg.guiding_guard result d)
    pure result

  -- `_generate_answer`
  unfoldable pub generate_answer : String → LearnerContext → Action FourPartAnswer
  unfolding call check
  generate_answer question_text context = do
    answer ← call (env.generate_answer question_text context)
    check (cfg.answer_guard answer)
    pure answer

  -- `_open_exchange`
  unfoldable pub open_exchange : GuidingQuestionResult → Dialogue → Dialogue
  open_exchange g d = record d {
    exchanges =
        d.exchanges
        ++ record {
          exchange_number = length d.exchanges + 1;
          guiding_question = g.question;
          probing_focus = g.probing_focus;
          question_fingerprint = cfg.fingerprint g.question;
          asked_at = env.now;
          learner_messages = [];
        }
          ∷ [];
  }

  -- The answer of a turn, if its transition bears one.
  unfoldable pub answer_for : Dialogue → Transition → Action (Option FourPartAnswer)
  unfolding generate_answer
  answer_for d t =
      if is_answer_bearing t.response_kind
      then (do
        require (is_direct_answer_resolution t.resolution) assertion
        a ← generate_answer d.question_text d.context
        pure (some a))
      else pure none

  abbrev pub log_record : Dialogue → Transition → InteractionLogRecord
  log_record d t = record {
    interaction_id = env.interaction_id;
    session_id = d.session_id;
    user_id = d.user_id;
    asked_at = env.now;
    question_text = d.question_text;
    topic_tag = d.topic_tag;
    naric_level = d.context.naric_level;
    response_id = env.response_id;
    dialogue_id = d.dialogue_id;
    exchange_number = max 1 (exchanges_used d);
    response_kind = kind_of t.response_kind;
    resolution = t.resolution;
    follow_up_of = d.last_interaction_id;
  }

  -- `dialogue.last_interaction_id = record.interaction_id`
  abbrev pub logged : Dialogue → Dialogue
  logged d = record d { last_interaction_id = some env.interaction_id }

  abbrev pub turn_of :
      Dialogue → Transition → ModeState → Parts → Option FourPartAnswer → SocraticTurn
  turn_of d t mode parts answer = record {
    session_id = d.session_id;
    dialogue_id = some d.dialogue_id;
    mode_enabled = mode.enabled;
    mode_source = mode.source;
    response_kind = kind_of t.response_kind;
    state = some d.state;
    resolution = d.resolution;
    exchanges_used = exchanges_used d;
    exchanges_remaining = exchanges_remaining d;
    exchange_cap = d.exchange_cap;
    parts = parts;
    answer = answer;
    reasoning_chain = chain_for d t.response_kind;
    interaction_id = some env.interaction_id;
    transition = some t.number;
    context = d.context;
  }

  -- `_finalise`: the last provider call, and only then the writes.
  unfoldable pub finalise : Dialogue → Transition → ModeState → Parts → Action SocraticTurn
  unfolding answer_for save_dialogue append
  finalise d t mode parts = do
    answer ← answer_for d t
    save_dialogue env 1 d
    append env (log_record d t)
    save_dialogue env 2 (logged d)
    pure (turn_of d t mode parts answer)
