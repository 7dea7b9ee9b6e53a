-- ===== src/Socratic/Dialogue.antt =====
-- packages/uc05/uc05/domain/models.py: the dialogue and the records about it.
-- Identifiers are only compared, so they are numbers; so are moments, whose order plays no part.
pub mod Chain
use Prim.Native.String.{String}
use ai_coaching_agent.Common.{
  ℕ, ◌+◌, ◌-◌, Bool, true, false, not, Option, none, some, List, [], ◌∷◌, ◌++◌, map, length,
  get_last?, ltb, if◌then◌else◌,
}
use ai_coaching_agent.Socratic.Vocabulary.{
  ResponseKind, Resolution, DialogueState, IntentKind, is_terminal,
}

pub data NaricLevel : Type 0 where
  level_3 level_4 level_5 level_6 level_7 level_7_plus : NaricLevel

pub data NaricLevelSource : Type 0 where
  retrieved default : NaricLevelSource

pub data SourceStatus : Type 0 where
  available empty partial unavailable invalid : SourceStatus

pub data ExplanationProfile : Type 0 where
  basic intermediate advanced : ExplanationProfile

-- `EXPLANATION_PROFILE_BY_LEVEL` of uc05/domain/profiles.py
unfoldable pub explanation_profile_for : NaricLevel → ExplanationProfile
explanation_profile_for level_3 = basic
explanation_profile_for level_4 = basic
explanation_profile_for level_5 = intermediate
explanation_profile_for level_6 = intermediate
explanation_profile_for level_7 = advanced
explanation_profile_for level_7_plus = advanced

-- `source_status` has the keys "naric_level" and "practice_area".
pub record LearnerContext : Type 0 where
  pub naric_level : NaricLevel
  pub naric_level_source : NaricLevelSource
  pub practice_area : Option String
  pub naric_level_status : SourceStatus
  pub practice_area_status : SourceStatus

-- `LearnerContext.defaulted`
abbrev pub defaulted : SourceStatus → LearnerContext
defaulted reason = record {
  naric_level = level_5;
  naric_level_source = default;
  practice_area = none;
  naric_level_status = reason;
  practice_area_status = reason;
}

pub record FourPartAnswer : Type 0 where
  pub plain_english_explanation : String
  pub formal_legal_definition : String
  pub practical_example : String
  pub authority_reference : String

pub record GuidingQuestionResult : Type 0 where
  pub question : String
  pub probing_focus : String
  pub prompt_version : String

pub record LearnerMessage : Type 0 where
  pub text : String
  pub intent : IntentKind
  pub received_at : ℕ

-- `intent in _ANSWERING_INTENTS`
unfoldable pub is_answering : IntentKind → Bool
is_answering IntentKind.substantive_response = true
is_answering IntentKind.casual_difficulty = true
is_answering IntentKind.learner_reasoned_conclusion = true
is_answering IntentKind.explicit_frustration = true
is_answering _ = false

pub record ExchangeRecord : Type 0 where
  pub exchange_number : ℕ
  pub guiding_question : String
  pub probing_focus : String
  pub question_fingerprint : String
  pub asked_at : ℕ
  pub learner_messages : List LearnerMessage

-- The last message with an answering intent: `reversed` and the first match.
unfoldable pub last_answer : List LearnerMessage → Option String
unfolding is_answering
last_answer [] = none
last_answer (m ∷ ms) = elim (last_answer ms) [
  | some later ↦ some later
  | none ↦ if is_answering m.intent then some m.text else none
]

-- The text of the last message, if there is one.
abbrev pub last_text : Option LearnerMessage → Option String
last_text none = none
last_text (some m) = some m.text

-- `learner_response`
unfoldable pub learner_response : ExchangeRecord → Option String
unfolding last_answer
learner_response e = elim (last_answer e.learner_messages) [
  | some answer ↦ some answer
  | none ↦ last_text (get_last? e.learner_messages)
]

pub record Dialogue : Type 0 where
  pub dialogue_id : ℕ
  pub session_id : ℕ
  pub user_id : ℕ
  pub question_text : String
  pub topic_tag : String
  pub context : LearnerContext
  pub explanation_profile : ExplanationProfile
  pub state : DialogueState
  pub resolution : Option Resolution
  pub exchange_cap : ℕ
  pub exchanges : List ExchangeRecord
  pub prompt_version : String
  pub created_at : ℕ
  pub updated_at : ℕ
  pub closed_at : Option ℕ
  pub last_interaction_id : Option ℕ
  pub loop_matched_exchange : Option ℕ

abbrev pub exchanges_used : Dialogue → ℕ
exchanges_used d = length d.exchanges

-- `max(0, cap - used)`: subtraction on ℕ stops at 0.
abbrev pub exchanges_remaining : Dialogue → ℕ
exchanges_remaining d = d.exchange_cap - exchanges_used d

-- `is_open`
abbrev pub is_open : Dialogue → Bool
is_open d = elim d.state [
  | DialogueState.awaiting_learner_response ↦ true
  | DialogueState.awaiting_exit_confirmation ↦ true
  | _ ↦ false
]

abbrev pub current_question : Dialogue → Option ExchangeRecord
current_question d = get_last? d.exchanges

abbrev pub previous_questions : Dialogue → List String
previous_questions d = map (λ (e : ExchangeRecord). e.guiding_question) d.exchanges

-- The `InteractionLogRecord`; its mode is always socratic and its rating pending.
pub record InteractionLogRecord : Type 0 where
  pub interaction_id : ℕ
  pub session_id : ℕ
  pub user_id : ℕ
  pub asked_at : ℕ
  pub question_text : String
  pub topic_tag : String
  pub naric_level : NaricLevel
  pub response_id : ℕ
  pub dialogue_id : ℕ
  pub exchange_number : ℕ
  pub response_kind : ResponseKind
  pub resolution : Option Resolution
  pub follow_up_of : Option ℕ

pub data ModeSource : Type 0 where
  persisted default : ModeSource

pub record ModeState : Type 0 where
  pub session_id : ℕ
  pub enabled : Bool
  pub source : ModeSource
  pub owner_user_id : Option ℕ
  pub updated_at : Option ℕ

-- `ModeState.default_for`
abbrev pub default_for : ℕ → ModeState
default_for session_id = record {
  session_id = session_id;
  enabled = false;
  source = ModeSource.default;
  owner_user_id = none;
  updated_at = none;
}
