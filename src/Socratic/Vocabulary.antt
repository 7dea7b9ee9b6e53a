-- ===== src/Socratic/Vocabulary.antt =====
-- packages/uc05/uc05/domain/enums.py: the closed vocabularies of the dialogue.
use ai_coaching_agent.Common.{Bool, true, false}

pub data ResponseKind : Type 0 where
  guiding_question acknowledgement_and_guiding_question exit_offer : ResponseKind
  direct_answer capped_answer closing_acknowledgement : ResponseKind

pub data Resolution : Type 0 where
  learner_reasoned capped exited_on_request exited_on_frustration : Resolution
  loop_detected abandoned : Resolution

pub data DialogueState : Type 0 where
  awaiting_learner_response awaiting_exit_confirmation : DialogueState
  resolved capped exited_for_question abandoned : DialogueState

pub data IntentKind : Type 0 where
  substantive_response direct_answer_request exit_confirmation exit_declined : IntentKind
  explicit_frustration off_topic casual_difficulty learner_reasoned_conclusion : IntentKind

pub data DialogueEvent : Type 0 where
  dialogue_started substantive_response learner_reasoned_conclusion : DialogueEvent
  direct_answer_requested exit_confirmed exit_declined explicit_frustration : DialogueEvent
  off_topic cap_reached loop_detected mode_toggled_off : DialogueEvent

-- `state in TERMINAL_STATES`
unfoldable pub is_terminal : DialogueState → Bool
is_terminal DialogueState.resolved = true
is_terminal DialogueState.capped = true
is_terminal DialogueState.exited_for_question = true
is_terminal DialogueState.abandoned = true
is_terminal _ = false
