-- ===== src/Socratic/Machine/Intents.antt =====
-- What a learner's message can and cannot do in each state.
use ai_coaching_agent.Common.{◌≡◌, ◌⊎◌, true, false, some, Result, ok, err, arith}
use ai_coaching_agent.Socratic.Vocabulary.{
  Resolution, DialogueState, IntentKind, DialogueEvent, is_terminal,
}
use ai_coaching_agent.Socratic.Machine.{
  MachineError, Transition, lookup, event_for_intent, is_answer_bearing,
}

-- The call returned.
abbrev pub Returns {ℓ} : {A : Type ℓ} → Result MachineError A → Type 0
Returns (ok _) = Unit
Returns (err _) = ⊥

-- In a state that is not terminal, every intent stands for an event, and the table has a row for
-- that event, for the cap, for a loop and for turning the mode off.
pub event_for_intent-total :
    (s : DialogueState) (i : IntentKind) (e : DialogueEvent)
    → is_terminal s ≡ false
    → Returns (event_for_intent s i)
      × (event_for_intent s i ≡ ok e → Returns (lookup (some s) e))
      × Returns (lookup (some s) DialogueEvent.cap_reached)
      × Returns (lookup (some s) DialogueEvent.loop_detected)
      × Returns (lookup (some s) DialogueEvent.mode_toggled_off)
unfolding event_for_intent lookup is_terminal
event_for_intent-total s i e h = ground arith

-- From the state that awaits a response, the only intent whose event leads to a response that
-- bears an answer is explicit frustration, and the answer is recorded as an exit on frustration.
pub never_exits_unilaterally :
    (i : IntentKind) (e : DialogueEvent) (t : Transition)
    → event_for_intent DialogueState.awaiting_learner_response i ≡ ok e
    → lookup (some DialogueState.awaiting_learner_response) e ≡ ok t
    → is_answer_bearing t.response_kind ≡ true
    → (i ≡ IntentKind.explicit_frustration) × (t.resolution ≡ some Resolution.exited_on_frustration)
unfolding event_for_intent lookup is_answer_bearing
never_exits_unilaterally i e t he ht h = ground arith

-- While an exit is offered, an intent leads to an exit on request only if it confirms the exit or
-- requests the answer again.
pub exit_takes_two_messages :
    (i : IntentKind) (e : DialogueEvent) (t : Transition)
    → event_for_intent DialogueState.awaiting_exit_confirmation i ≡ ok e
    → lookup (some DialogueState.awaiting_exit_confirmation) e ≡ ok t
    → t.resolution ≡ some Resolution.exited_on_request
    → (i ≡ IntentKind.exit_confirmation) ⊎ (i ≡ IntentKind.direct_answer_request)
unfolding event_for_intent lookup
exit_takes_two_messages i e t he ht h = ground arith
