-- ===== src/Socratic/Machine/Equality.antt =====
-- Equality of the table's keys. Members of an enum are equal when they are the same member.
use ai_coaching_agent.Common.{ℕ, Bool, false, true, Option, none, some, ◌==◌}
use ai_coaching_agent.Socratic.Vocabulary.{DialogueState, DialogueEvent}

abbrev state_index : DialogueState → ℕ
state_index DialogueState.awaiting_learner_response = 0
state_index DialogueState.awaiting_exit_confirmation = 1
state_index DialogueState.resolved = 2
state_index DialogueState.capped = 3
state_index DialogueState.exited_for_question = 4
state_index DialogueState.abandoned = 5

abbrev event_index : DialogueEvent → ℕ
event_index DialogueEvent.dialogue_started = 0
event_index DialogueEvent.substantive_response = 1
event_index DialogueEvent.learner_reasoned_conclusion = 2
event_index DialogueEvent.direct_answer_requested = 3
event_index DialogueEvent.exit_confirmed = 4
event_index DialogueEvent.exit_declined = 5
event_index DialogueEvent.explicit_frustration = 6
event_index DialogueEvent.off_topic = 7
event_index DialogueEvent.cap_reached = 8
event_index DialogueEvent.loop_detected = 9
event_index DialogueEvent.mode_toggled_off = 10

unfoldable pub source_eq : Option DialogueState → Option DialogueState → Bool
source_eq none none = true
source_eq none (some t) = false
source_eq (some s) none = false
source_eq (some s) (some t) = state_index s == state_index t

unfoldable pub event_eq : DialogueEvent → DialogueEvent → Bool
event_eq d e = event_index d == event_index e
