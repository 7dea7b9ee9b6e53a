-- ===== src/Socratic/Tests.antt =====
-- The theorems about the dialogue at concrete inputs: a learner who has been asked one question.
use ai_coaching_agent.Common.{◌≡◌, ◌⊎◌, refl, true, false, none, some, [], ◌∷◌, ok, err, arith}
use ai_coaching_agent.Common.Dict
use ai_coaching_agent.Socratic.Vocabulary.{
  ResponseKind, Resolution, DialogueState, IntentKind, DialogueEvent, is_terminal,
}
use ai_coaching_agent.Socratic.Machine.{
  invalid_transition, Transition, lookup, event_for_intent, event_awaiting, event_confirming,
  is_answer_bearing, is_direct_answer_resolution, is_generating,
}
use ai_coaching_agent.Socratic.Machine.Table.{IsLawful, lookup-IsLawful, lookup-terminal}
use ai_coaching_agent.Socratic.Machine.Intents
use ai_coaching_agent.Socratic.Machine.Intents.{
  event_for_intent-total, never_exits_unilaterally, exit_takes_two_messages,
}
use ai_coaching_agent.Socratic.Dialogue.{
  FourPartAnswer, GuidingQuestionResult, LearnerContext, ExchangeRecord, Dialogue, ModeState,
  ModeSource, SourceStatus, explanation_profile_for, intermediate, defaulted,
}
use ai_coaching_agent.Socratic.Repeat.{is_repeat, similarity, jaccard}
use ai_coaching_agent.Common.Fraction.{frac}
use ai_coaching_agent.Socratic.Service.State.{
  Store, provider_error, provider_unavailable, returned, Env, Config,
}
use ai_coaching_agent.Socratic.Service.Turn.{mode_state, mode_of}
use ai_coaching_agent.Socratic.Service.Reply.{found_by, Planned, plan_reply, reply}
use ai_coaching_agent.Socratic.Service.Ask.{ask, new_dialogue, set_mode}
use ai_coaching_agent.Socratic.Service.Safety.{Interrupted, reply-safe}
use ai_coaching_agent.Socratic.Service.Invariant.{
  IsAsked, IsWellFormed, AllWellFormed, reply-AllWellFormed,
}
use ai_coaching_agent.Socratic.Service.Succeeds.{Returns, IsUp, IsStoring}
use ai_coaching_agent.Socratic.Service.Total.{reply-Returns}
use ai_coaching_agent.Socratic.Service.Opening.{FirstInterrupted, ask-safe, ask-AllWellFormed}
use ai_coaching_agent.Socratic.Service.Reachable.{
  empty_store, Reaches, from_empty, by_ask, by_set_mode, Reaches-AllWellFormed,
  reply-Returns_reachable, set_mode-closes_reachable,
}
use ai_coaching_agent.Socratic.Service.Recorded.{IsRecorded, reply-IsRecorded}
use ai_coaching_agent.Socratic.Service.Asked.{ask-IsRecorded}
use ai_coaching_agent.Socratic.Service.Toggle.{IsKeyedById, NoneOpen, set_mode-closes}

-- Row 2 of the table.
abbrev responds : Transition
responds = record {
  number = 2;
  source = some DialogueState.awaiting_learner_response;
  event = DialogueEvent.substantive_response;
  target = DialogueState.awaiting_learner_response;
  response_kind = some ResponseKind.acknowledgement_and_guiding_question;
  resolution = none;
  opens_exchange = true;
  reposes_current_question = false;
}

-- Rows 12 and 6.
abbrev frustrated : Transition
frustrated = record {
  number = 12;
  source = some DialogueState.awaiting_learner_response;
  event = DialogueEvent.explicit_frustration;
  target = DialogueState.exited_for_question;
  response_kind = some ResponseKind.direct_answer;
  resolution = some Resolution.exited_on_frustration;
  opens_exchange = false;
  reposes_current_question = false;
}

abbrev confirmed : Transition
confirmed = record {
  number = 6;
  source = some DialogueState.awaiting_exit_confirmation;
  event = DialogueEvent.exit_confirmed;
  target = DialogueState.exited_for_question;
  response_kind = some ResponseKind.direct_answer;
  resolution = some Resolution.exited_on_request;
  opens_exchange = false;
  reposes_current_question = false;
}

lookup-IsLawful_example :
    IsLawful responds
    × (responds.source ≡ some DialogueState.awaiting_learner_response)
    × (responds.event ≡ DialogueEvent.substantive_response)
unfolding lookup
lookup-IsLawful_example =
    lookup-IsLawful (some DialogueState.awaiting_learner_response)
      DialogueEvent.substantive_response responds refl

lookup-terminal_example :
    lookup (some DialogueState.resolved) DialogueEvent.off_topic ≡ err invalid_transition
unfolding is_terminal
lookup-terminal_example = lookup-terminal DialogueState.resolved DialogueEvent.off_topic refl

event_for_intent-total_example :
    Intents.Returns (event_for_intent DialogueState.awaiting_exit_confirmation IntentKind.off_topic)
    × (event_for_intent DialogueState.awaiting_exit_confirmation IntentKind.off_topic
          ≡ ok DialogueEvent.off_topic
        → Intents.Returns
            (lookup (some DialogueState.awaiting_exit_confirmation) DialogueEvent.off_topic))
    × Intents.Returns
        (lookup (some DialogueState.awaiting_exit_confirmation) DialogueEvent.cap_reached)
    × Intents.Returns
        (lookup (some DialogueState.awaiting_exit_confirmation) DialogueEvent.loop_detected)
    × Intents.Returns
        (lookup (some DialogueState.awaiting_exit_confirmation) DialogueEvent.mode_toggled_off)
unfolding is_terminal
event_for_intent-total_example =
    event_for_intent-total DialogueState.awaiting_exit_confirmation IntentKind.off_topic
      DialogueEvent.off_topic refl

never_exits_unilaterally_example :
    (IntentKind.explicit_frustration ≡ IntentKind.explicit_frustration)
    × (frustrated.resolution ≡ some Resolution.exited_on_frustration)
unfolding event_for_intent event_awaiting lookup is_answer_bearing
never_exits_unilaterally_example =
    never_exits_unilaterally IntentKind.explicit_frustration DialogueEvent.explicit_frustration
      frustrated refl refl refl

exit_takes_two_messages_example :
    (IntentKind.exit_confirmation ≡ IntentKind.exit_confirmation)
    ⊎ (IntentKind.exit_confirmation ≡ IntentKind.direct_answer_request)
unfolding event_for_intent event_confirming lookup
exit_takes_two_messages_example =
    exit_takes_two_messages IntentKind.exit_confirmation DialogueEvent.exit_confirmed confirmed refl
      refl refl

abbrev first_exchange : ExchangeRecord
first_exchange = record {
  exchange_number = 1;
  guiding_question = "What duty does the adviser owe?";
  probing_focus = "duty of care";
  question_fingerprint = "duty adviser owe";
  asked_at = 100;
  learner_messages = [];
}

abbrev dialogue : Dialogue
dialogue = record {
  dialogue_id = 3;
  session_id = 5;
  user_id = 1;
  question_text = "When is an adviser negligent?";
  topic_tag = "negligence";
  context = defaulted SourceStatus.unavailable;
  explanation_profile = intermediate;
  state = DialogueState.awaiting_learner_response;
  resolution = none;
  exchange_cap = 5;
  exchanges = first_exchange ∷ [];
  prompt_version = "v1";
  created_at = 100;
  updated_at = 100;
  closed_at = none;
  last_interaction_id = none;
  loop_matched_exchange = none;
}

abbrev next_question : GuidingQuestionResult
next_question = record {
  question = "What would a reasonable adviser do?";
  probing_focus = "standard of care";
  prompt_version = "v1";
}

abbrev four_parts : FourPartAnswer
four_parts = record {
  plain_english_explanation = "An adviser must take care.";
  formal_legal_definition = "Breach of a duty of care.";
  practical_example = "A missed deadline.";
  authority_reference = "Caparo v Dickman";
}

abbrev config : Config
config = record {
  socratic_exchange_cap = 5;
  loop_similarity_threshold = frac 4 5;
  guiding_guard = λ g d. ok tt;
  answer_guard = λ a. ok tt;
  content_tokens = λ t. [];
  fingerprint = λ t. t;
  derive_topic_tag = λ t. t;
  prompt_version = "v1";
}

-- Every provider answers, and takes each message for a substantive response.
abbrev answering : Env
answering = record {
  get_context = λ s u. returned (defaulted SourceStatus.partial);
  classify = λ m d. returned IntentKind.substantive_response;
  generate_question = λ d c. returned next_question;
  generate_answer = λ q c. returned four_parts;
  dialogue_read_fails = none;
  mode_read_fails = none;
  session_read_fails = none;
  dialogue_save_fails = λ n d. none;
  mode_save_fails = none;
  append_fails = none;
  now = 200;
  new_dialogue_id = 4;
  interaction_id = 11;
  response_id = 12;
}

-- The log refuses the record of the turn.
abbrev unlogged : Env
unlogged = record answering { append_fails = some provider_unavailable }

abbrev enabled : ModeState
enabled = record {
  session_id = 5;
  enabled = true;
  source = ModeSource.persisted;
  owner_user_id = some 1;
  updated_at = some 90;
}

abbrev store : Store
store = record { dialogues = (3, dialogue) ∷ []; modes = (5, enabled) ∷ []; interactions = [] }

dialogue-IsAsked : IsAsked dialogue
unfolding explanation_profile_for
dialogue-IsAsked = record {
  has_asked = omega arith;
  within_cap = omega arith;
  numbered = (refl, tt);
  profile = refl;
}

dialogue-IsWellFormed : IsWellFormed dialogue
unfolding is_terminal
dialogue-IsWellFormed = record { asking = dialogue-IsAsked; resolution_iff_terminal = refl }

store-AllWellFormed : AllWellFormed store.dialogues
store-AllWellFormed = ((dialogue-IsWellFormed, refl), tt)

answering-IsStoring : IsStoring answering
answering-IsStoring = record {
  reads_dialogue = refl;
  reads_mode = refl;
  reads_session = refl;
  saves_dialogue = λ n d. refl;
  saves_mode = refl;
  appends = refl;
}

answering-IsUp : IsUp config answering
answering-IsUp = record {
  stores = answering-IsStoring;
  classifies = λ m d. (IntentKind.substantive_response, refl);
  asks = λ d c. (next_question, refl, refl);
  answers = λ q c. (four_parts, refl, refl);
}

reply-safe_example :
    let left = (reply config unlogged 3 1 "Reasonable care." store).1 in
    (left ≡ store)
    ⊎ ((p : Planned) × ((plan_reply config unlogged 3 1 "Reasonable care." store).0 ≡ ok p)
        × Interrupted config unlogged p.dialogue p.transition
            (provider_error provider_unavailable)
            store
            left)
unfolding reply Dict.lookup is_terminal event_for_intent is_generating lookup found_by is_repeat
    similarity jaccard is_answer_bearing is_direct_answer_resolution
reply-safe_example =
    reply-safe config unlogged 3 1 "Reasonable care." (provider_error provider_unavailable) store
      refl

reply-AllWellFormed_example :
    AllWellFormed (reply config answering 3 1 "Reasonable care." store).1.dialogues
reply-AllWellFormed_example =
    reply-AllWellFormed config answering 3 1 "Reasonable care." store store-AllWellFormed

reply-Returns_example : Returns (reply config answering 3 1 "Reasonable care.") store
unfolding Dict.lookup is_terminal mode_state mode_of
reply-Returns_example =
    reply-Returns config answering answering-IsUp 3 1 "Reasonable care." store dialogue refl refl
      refl dialogue-IsAsked (enabled, refl)

ask-safe_example :
    let left = (ask config unlogged 5 1 "What is consideration?" none store).1 in
    (left ≡ store)
    ⊎ ((c : LearnerContext) × FirstInterrupted config unlogged
          (new_dialogue config unlogged 5 1 "What is consideration?" none c)
          (provider_error provider_unavailable)
          store
          left)
unfolding ask Dict.lookup lookup is_answer_bearing
ask-safe_example =
    ask-safe config unlogged 5 1 "What is consideration?" none (provider_error provider_unavailable)
      store refl

ask-AllWellFormed_example :
    AllWellFormed (ask config answering 5 1 "What is consideration?" none store).1.dialogues
ask-AllWellFormed_example =
    ask-AllWellFormed config answering 5 1 "What is consideration?" none store (omega arith)
      store-AllWellFormed

store-IsKeyedById : IsKeyedById store.dialogues
unfolding Dict.lookup
store-IsKeyedById k d h = ground arith

set_mode-closes_example :
    Returns (set_mode answering 5 1 false) store
    × NoneOpen 5 1 (set_mode answering 5 1 false store).1.dialogues
unfolding Dict.lookup mode_state mode_of
set_mode-closes_example =
    set_mode-closes answering 5 1 store store-IsKeyedById answering-IsStoring (enabled, refl)

-- What the service answers a reply and a question with.
replied : Returns (reply config answering 3 1 "Reasonable care.") store
unfolding Dict.lookup is_terminal mode_state mode_of
replied =
    reply-Returns config answering answering-IsUp 3 1 "Reasonable care." store dialogue refl refl
      refl dialogue-IsAsked (enabled, refl)

reply-IsRecorded_example :
    IsRecorded 3 replied.0 store (reply config answering 3 1 "Reasonable care." store).1
reply-IsRecorded_example =
    reply-IsRecorded config answering 3 1 "Reasonable care." replied.0 store store-IsKeyedById
      replied.1

first_answer : Returns (ask config answering 5 1 "What is consideration?" none) store
unfolding ask Dict.lookup lookup mode_state mode_of is_answer_bearing
first_answer = (_, refl)

ask-IsRecorded_example :
    let after = (ask config answering 5 1 "What is consideration?" none store).1 in
    ((first_answer.0.dialogue_id ≡ none) × (after ≡ store))
    ⊎ IsRecorded answering.new_dialogue_id first_answer.0 store after
ask-IsRecorded_example =
    ask-IsRecorded config answering 5 1 "What is consideration?" none first_answer.0 store
      first_answer.1

-- The learner turned the mode on and asked.
abbrev asked_store : Store
asked_store =
    (ask config answering 5 1 "What is consideration?" none
      (set_mode answering 5 1 true empty_store).1).1

asked_store-Reaches : Reaches config asked_store
asked_store-Reaches =
    by_ask answering 5 1 "What is consideration?" none _
      (by_set_mode answering 5 1 true _ from_empty)

Reaches-AllWellFormed_example : AllWellFormed asked_store.dialogues
Reaches-AllWellFormed_example =
    Reaches-AllWellFormed config asked_store (omega arith) asked_store-Reaches

abbrev asked_dialogue : Dialogue
asked_dialogue = record {
  dialogue_id = 4;
  session_id = 5;
  user_id = 1;
  question_text = "What is consideration?";
  topic_tag = "What is consideration?";
  context = defaulted SourceStatus.partial;
  explanation_profile = intermediate;
  state = DialogueState.awaiting_learner_response;
  resolution = none;
  exchange_cap = 5;
  exchanges =
      record {
        exchange_number = 1;
        guiding_question = next_question.question;
        probing_focus = next_question.probing_focus;
        question_fingerprint = next_question.question;
        asked_at = 200;
        learner_messages = [];
      }
      ∷ [];
  prompt_version = "v1";
  created_at = 200;
  updated_at = 200;
  closed_at = none;
  last_interaction_id = some 11;
  loop_matched_exchange = none;
}

asked_mode : Returns (mode_state answering 5 1) asked_store
unfolding ask set_mode Dict.lookup mode_state mode_of Dict.insert lookup is_answer_bearing
asked_mode = (_, refl)

reply-Returns_reachable_example : Returns (reply config answering 4 1 "A promise.") asked_store
unfolding ask set_mode Dict.lookup is_terminal Dict.insert lookup is_answer_bearing
    explanation_profile_for
reply-Returns_reachable_example =
    reply-Returns_reachable config answering 4 1 "A promise." asked_store asked_dialogue
      (omega arith) asked_store-Reaches answering-IsUp refl refl refl asked_mode

set_mode-closes_reachable_example :
    Returns (set_mode answering 5 1 false) asked_store
    × NoneOpen 5 1 (set_mode answering 5 1 false asked_store).1.dialogues
set_mode-closes_reachable_example =
    set_mode-closes_reachable config answering 5 1 asked_store (omega arith) asked_store-Reaches
      answering-IsStoring asked_mode
