-- ===== src/Socratic/Service/Reply.antt =====
-- `ask`, `reply` and `set_mode`.
use Prim.Native.String.{String}
use ai_coaching_agent.Common.{
  ℕ, ◌+◌, ◌%◌, Bool, true, false, not, Option, none, some, List, [], ◌∷◌, ◌++◌, leb, get_last?,
  if◌then◌else◌,
}
use ai_coaching_agent.Socratic.Vocabulary.{
  ResponseKind, Resolution, IntentKind, DialogueEvent, is_terminal,
}
use ai_coaching_agent.Socratic.Machine.{Transition, lookup, event_for_intent, is_generating}
use ai_coaching_agent.Socratic.Dialogue.{
  GuidingQuestionResult, LearnerMessage, ExchangeRecord, Dialogue, ModeState, exchanges_used,
  previous_questions,
}
use ai_coaching_agent.Socratic.Repeat.{is_repeat}
use ai_coaching_agent.Socratic.Service.State.{
  invalid_transition, assertion, Env, Config, Action, pure, raise, ◌>>=◌, ◌>>◌, call,
}
use ai_coaching_agent.Socratic.Service.Turn.{
  Acknowledgement, numbered, resume, redirect, closing, TurnQuestion, asked, consolidating, Parts,
  SocraticTurn, require, of_machine, mode_state, get_dialogue, generate_guiding, open_exchange,
  finalise,
}

-- `dialogue.exchanges[-1].learner_messages.append(message)`, where there is an exchange.
unfoldable pub add_message : LearnerMessage → List ExchangeRecord → List ExchangeRecord
add_message m [] = []
add_message m (e ∷ []) = record e { learner_messages = e.learner_messages ++ m ∷ [] } ∷ []
add_message m (e ∷ f ∷ es) = e ∷ add_message m (f ∷ es)

-- `event is DialogueEvent.SUBSTANTIVE_RESPONSE and used >= cap`
abbrev pub cap_event : Dialogue → DialogueEvent → DialogueEvent
cap_event d DialogueEvent.substantive_response =
    if leb d.exchange_cap (exchanges_used d)
    then DialogueEvent.cap_reached
    else DialogueEvent.substantive_response
cap_event d e = e

-- What steps 3 and 4 of `reply` find: the event, the question generated for it, and the index of
-- the earlier question that it repeats or is most like.
pub record Found : Type 0 where
  pub event : DialogueEvent
  pub generated : Option GuidingQuestionResult
  pub loop_index : Option ℕ

-- The loop check on a generated question.
unfoldable pub found_by : Config → Dialogue → DialogueEvent → GuidingQuestionResult → Found
found_by cfg d event g =
    let v =
      is_repeat cfg.content_tokens g.question (previous_questions d)
        cfg.loop_similarity_threshold in
    if v.repeated
    then record { event = DialogueEvent.loop_detected; generated = none; loop_index = v.matched }
    else record { event = event; generated = some g; loop_index = v.matched }

unfoldable pub generate_if_due : Config → Env → Dialogue → DialogueEvent → Action Found
unfolding generate_guiding
generate_if_due cfg env d event =
    if is_generating event
    then (do g ← generate_guiding cfg env d d.context; pure (found_by cfg d event g))
    else pure (record { event = event; generated = none; loop_index = none })

-- `_acknowledgement_for`: of six texts; (n - 2) modulo 6, also for n below 2.
abbrev pub acknowledgement_for : ℕ → Acknowledgement
acknowledgement_for n = numbered ((n + 4) % 6)

abbrev pub question_of : Option ExchangeRecord → Option TurnQuestion
question_of none = none
question_of (some e) = some (asked e.guiding_question)

-- `event is DialogueEvent.EXIT_DECLINED`, for the text that resumes.
abbrev pub resume_or_redirect : DialogueEvent → Acknowledgement
resume_or_redirect DialogueEvent.exit_declined = resume
resume_or_redirect _ = redirect

abbrev pub is_learner_reasoned : Option Resolution → Bool
is_learner_reasoned (some Resolution.learner_reasoned) = true
is_learner_reasoned _ = false

abbrev pub is_exit_offer : Option ResponseKind → Bool
is_exit_offer (some ResponseKind.exit_offer) = true
is_exit_offer _ = false

abbrev pub is_frustration : Option Resolution → Bool
is_frustration (some Resolution.exited_on_frustration) = true
is_frustration _ = false

-- The branches of step 5, on the dialogue with the learner's message: what the response shows.
unfoldable pub parts_for : Dialogue → Found → Transition → Parts
parts_for d f t =
    let re_entry = is_frustration t.resolution in
    if t.opens_exchange
    then record {
      acknowledgement = some (acknowledgement_for (exchanges_used d + 1));
      guiding_question = elim f.generated [ none ↦ none | some g ↦ some (asked g.question) ];
      exit_offer = false;
      re_entry_offer = re_entry;
    }
    else if t.reposes_current_question
    then record {
      acknowledgement = some (resume_or_redirect f.event);
      guiding_question = question_of (get_last? d.exchanges);
      exit_offer = false;
      re_entry_offer = re_entry;
    }
    else if is_learner_reasoned t.resolution
    then record {
      acknowledgement = some closing;
      guiding_question = some consolidating;
      exit_offer = false;
      re_entry_offer = re_entry;
    }
    else record {
      acknowledgement = none;
      guiding_question = none;
      exit_offer = is_exit_offer t.response_kind;
      re_entry_offer = re_entry;
    }

-- `if transition.opens_exchange`: the exchange is opened with the question that was generated.
unfoldable pub opened : Config → Env → Found → Transition → Dialogue → Action Dialogue
unfolding open_exchange
opened cfg env f t d = elim f.generated [
  | none ↦ if t.opens_exchange then raise assertion else pure d
  | some g ↦ pure (if t.opens_exchange then open_exchange cfg env g d else d)
]

-- `loop_index + 1 if loop_index is not None else None`, set only on a loop.
abbrev pub loop_exchange : Found → Dialogue → Option ℕ
loop_exchange f d = elim f.event [
  | DialogueEvent.loop_detected ↦ elim f.loop_index [ none ↦ none | some i ↦ some (i + 1) ]
  | _ ↦ d.loop_matched_exchange
]

-- The end of step 5: the state, the resolution and the times of the dialogue.
unfoldable pub moved : Env → Found → Transition → Dialogue → Dialogue
moved env f t d = record d {
  loop_matched_exchange = loop_exchange f d;
  state = t.target;
  resolution = t.resolution;
  updated_at = env.now;
  closed_at = if is_terminal t.target then some env.now else d.closed_at;
}

abbrev pub with_message : Env → String → IntentKind → Dialogue → Dialogue
with_message env message intent d = record d {
  exchanges =
      add_message (record { text = message; intent = intent; received_at = env.now }) d.exchanges;
}

-- `dialogue.exchanges[-1]` raises on an empty list.
abbrev pub has_exchange : Dialogue → Bool
has_exchange d = elim d.exchanges [ [] ↦ false | e ∷ es ↦ true ]

-- The dialogue after a turn, the transition that it took, and what the response shows.
pub record Planned : Type 0 where
  pub dialogue : Dialogue
  pub transition : Transition
  pub parts : Parts
  pub mode : ModeState

-- `reply` up to `_finalise`: nothing is saved.
unfoldable pub plan_reply : Config → Env → ℕ → ℕ → String → Action Planned
unfolding get_dialogue mode_state of_machine generate_if_due parts_for opened moved
plan_reply cfg env dialogue_id user_id message = do
  d ← get_dialogue env dialogue_id user_id
  require (not (is_terminal d.state)) invalid_transition
  mode ← mode_state env d.session_id user_id
  intent ← call (env.classify message d)
  event ← of_machine (event_for_intent d.state intent)
  f ← generate_if_due cfg env d (cap_event d event)
  t ← of_machine (lookup (some d.state) f.event)
  require (has_exchange d) assertion
  let heard = with_message env message intent d
  next ← opened cfg env f t heard
  pure (record {
    dialogue = moved env f t next;
    transition = t;
    parts = parts_for heard f t;
    mode = mode;
  })

unfoldable pub reply : Config → Env → ℕ → ℕ → String → Action SocraticTurn
unfolding plan_reply finalise
reply cfg env dialogue_id user_id message = do
  p ← plan_reply cfg env dialogue_id user_id message
  finalise cfg env p.dialogue p.transition p.mode p.parts
