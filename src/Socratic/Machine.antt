-- ===== src/Socratic/Machine.antt =====
-- packages/uc05/uc05/domain/state_machine.py: the transition table, its lookup, and the events that
-- intents stand for.
pub mod Equality
pub mod Table
pub mod Intents
use ai_coaching_agent.Common.{
  ℕ, Bool, true, false, ◌&&◌, Option, none, some, List, [], ◌∷◌, Result, ok, err, keep,
  if◌then◌else◌,
}
use ai_coaching_agent.Socratic.Vocabulary.{
  ResponseKind, Resolution, DialogueState, IntentKind, DialogueEvent, is_terminal,
}
use ai_coaching_agent.Socratic.Machine.Equality.{source_eq, event_eq}

-- The rows by the number in their names, T01 to T19.
pub record Transition : Type 0 where
  pub number : ℕ
  pub source : Option DialogueState
  pub event : DialogueEvent
  pub target : DialogueState
  pub response_kind : Option ResponseKind
  pub resolution : Option Resolution
  pub opens_exchange : Bool
  pub reposes_current_question : Bool

abbrev pub initial_state : DialogueState
initial_state = DialogueState.awaiting_learner_response

abbrev awaiting : DialogueState
awaiting = DialogueState.awaiting_learner_response

abbrev confirming : DialogueState
confirming = DialogueState.awaiting_exit_confirmation

-- A row, in the order of the fields.
abbrev row :
    ℕ
    → Option DialogueState
    → DialogueEvent
    → DialogueState
    → Option ResponseKind
    → Option Resolution
    → Bool
    → Bool
    → Transition
row n s e t k r o p = record {
  number = n;
  source = s;
  event = e;
  target = t;
  response_kind = k;
  resolution = r;
  opens_exchange = o;
  reposes_current_question = p;
}

unfoldable pub transitions : List Transition
transitions =
    row 1 none DialogueEvent.dialogue_started awaiting (some ResponseKind.guiding_question) none
      true false
    ∷ row 2 (some awaiting) DialogueEvent.substantive_response awaiting
        (some ResponseKind.acknowledgement_and_guiding_question) none true false
    ∷ row 3 (some awaiting) DialogueEvent.off_topic awaiting
        (some ResponseKind.acknowledgement_and_guiding_question) none false true
    ∷ row 4 (some awaiting) DialogueEvent.learner_reasoned_conclusion DialogueState.resolved
        (some ResponseKind.closing_acknowledgement) (some Resolution.learner_reasoned) false false
    ∷ row 5 (some awaiting) DialogueEvent.direct_answer_requested confirming
        (some ResponseKind.exit_offer) none false false
    ∷ row 6 (some confirming) DialogueEvent.exit_confirmed DialogueState.exited_for_question
        (some ResponseKind.direct_answer) (some Resolution.exited_on_request) false false
    ∷ row 7 (some confirming) DialogueEvent.exit_declined awaiting
        (some ResponseKind.acknowledgement_and_guiding_question) none false true
    ∷ row 8 (some confirming) DialogueEvent.direct_answer_requested
        DialogueState.exited_for_question (some ResponseKind.direct_answer)
        (some Resolution.exited_on_request) false false
    ∷ row 9 (some confirming) DialogueEvent.substantive_response awaiting
        (some ResponseKind.acknowledgement_and_guiding_question) none true false
    ∷ row 10 (some confirming) DialogueEvent.off_topic confirming (some ResponseKind.exit_offer)
        none false false
    ∷ row 11 (some confirming) DialogueEvent.learner_reasoned_conclusion DialogueState.resolved
        (some ResponseKind.closing_acknowledgement) (some Resolution.learner_reasoned) false false
    ∷ row 12 (some awaiting) DialogueEvent.explicit_frustration DialogueState.exited_for_question
        (some ResponseKind.direct_answer) (some Resolution.exited_on_frustration) false false
    ∷ row 13 (some confirming) DialogueEvent.explicit_frustration DialogueState.exited_for_question
        (some ResponseKind.direct_answer) (some Resolution.exited_on_frustration) false false
    ∷ row 14 (some awaiting) DialogueEvent.cap_reached DialogueState.capped
        (some ResponseKind.capped_answer) (some Resolution.capped) false false
    ∷ row 15 (some confirming) DialogueEvent.cap_reached DialogueState.capped
        (some ResponseKind.capped_answer) (some Resolution.capped) false false
    ∷ row 16 (some awaiting) DialogueEvent.loop_detected DialogueState.capped
        (some ResponseKind.capped_answer) (some Resolution.loop_detected) false false
    ∷ row 17 (some confirming) DialogueEvent.loop_detected DialogueState.capped
        (some ResponseKind.capped_answer) (some Resolution.loop_detected) false false
    ∷ row 18 (some awaiting) DialogueEvent.mode_toggled_off DialogueState.abandoned none
        (some Resolution.abandoned) false false
    ∷ row 19 (some confirming) DialogueEvent.mode_toggled_off DialogueState.abandoned none
        (some Resolution.abandoned) false false
    ∷ []

-- `InvalidTransition`
pub data MachineError : Type 0 where
  invalid_transition : MachineError

-- The first row of a source and an event. Python keeps the last of two rows with one key, and
-- refuses at import a table that has two.
unfoldable pub find_row : Option DialogueState → DialogueEvent → List Transition → Option Transition
find_row s e [] = none
find_row s e (t ∷ ts) =
    if source_eq t.source s && event_eq t.event e then some t else find_row s e ts

unfoldable pub lookup : Option DialogueState → DialogueEvent → Result MachineError Transition
unfolding find_row transitions source_eq event_eq
lookup s e = elim (find_row s e transitions) [ none ↦ err invalid_transition | some t ↦ ok t ]

-- `_INTENT_EVENT_BY_STATE[AWAITING]`
unfoldable pub event_awaiting : IntentKind → DialogueEvent
event_awaiting IntentKind.substantive_response = DialogueEvent.substantive_response
event_awaiting IntentKind.casual_difficulty = DialogueEvent.substantive_response
event_awaiting IntentKind.exit_confirmation = DialogueEvent.substantive_response
event_awaiting IntentKind.exit_declined = DialogueEvent.substantive_response
event_awaiting IntentKind.learner_reasoned_conclusion = DialogueEvent.learner_reasoned_conclusion
event_awaiting IntentKind.direct_answer_request = DialogueEvent.direct_answer_requested
event_awaiting IntentKind.explicit_frustration = DialogueEvent.explicit_frustration
event_awaiting IntentKind.off_topic = DialogueEvent.off_topic

-- `_INTENT_EVENT_BY_STATE[CONFIRMING]`
unfoldable pub event_confirming : IntentKind → DialogueEvent
event_confirming IntentKind.substantive_response = DialogueEvent.substantive_response
event_confirming IntentKind.casual_difficulty = DialogueEvent.substantive_response
event_confirming IntentKind.exit_confirmation = DialogueEvent.exit_confirmed
event_confirming IntentKind.exit_declined = DialogueEvent.exit_declined
event_confirming IntentKind.learner_reasoned_conclusion = DialogueEvent.learner_reasoned_conclusion
event_confirming IntentKind.direct_answer_request = DialogueEvent.direct_answer_requested
event_confirming IntentKind.explicit_frustration = DialogueEvent.explicit_frustration
event_confirming IntentKind.off_topic = DialogueEvent.off_topic

unfoldable pub event_for_intent : DialogueState → IntentKind → Result MachineError DialogueEvent
unfolding event_awaiting event_confirming
event_for_intent DialogueState.awaiting_learner_response i = ok (event_awaiting i)
event_for_intent DialogueState.awaiting_exit_confirmation i = ok (event_confirming i)
event_for_intent _ i = err invalid_transition

-- `event in GENERATING_EVENTS`
unfoldable pub is_generating : DialogueEvent → Bool
is_generating DialogueEvent.dialogue_started = true
is_generating DialogueEvent.substantive_response = true
is_generating _ = false

-- `resolution in DIRECT_ANSWER_RESOLUTIONS`
unfoldable pub is_direct_answer_resolution : Option Resolution → Bool
is_direct_answer_resolution (some Resolution.exited_on_request) = true
is_direct_answer_resolution (some Resolution.exited_on_frustration) = true
is_direct_answer_resolution (some Resolution.capped) = true
is_direct_answer_resolution (some Resolution.loop_detected) = true
is_direct_answer_resolution _ = false

-- `response_kind in ANSWER_BEARING_KINDS`
unfoldable pub is_answer_bearing : Option ResponseKind → Bool
is_answer_bearing (some ResponseKind.direct_answer) = true
is_answer_bearing (some ResponseKind.capped_answer) = true
is_answer_bearing _ = false
