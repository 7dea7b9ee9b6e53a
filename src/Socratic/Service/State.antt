-- ===== src/Socratic/Service/State.antt =====
-- The repositories, what the outside answers during one call, and a call as an action that may
-- raise: what was saved before a raise stays saved.
use Prim.Native.String.{String}
use ai_coaching_agent.Common.{
  ℕ, Bool, Option, none, some, List, [], ◌∷◌, ◌++◌, Result, ok, err, keep, map, ◌==◌,
}
use ai_coaching_agent.Common.Dict.{Dict, lookup, insert}
use ai_coaching_agent.Socratic.Vocabulary.{IntentKind}
use ai_coaching_agent.Socratic.Dialogue.{
  LearnerContext, FourPartAnswer, GuidingQuestionResult, Dialogue, InteractionLogRecord, ModeState,
  ModeSource,
}
use ai_coaching_agent.Common.Fraction.{Fraction}

pub record Store : Type 0 where
  pub dialogues : Dict Dialogue
  pub modes : Dict ModeState
  pub interactions : List InteractionLogRecord

pub data ProviderError : Type 0 where
  provider_timeout provider_unavailable provider_invalid_response : ProviderError

pub data ServiceError : Type 0 where
  access_denied dialogue_not_found invalid_transition assertion : ServiceError
  provider_error : ProviderError → ServiceError

-- What a provider does within the budget of `asyncio.wait_for`: it may not answer at all.
pub data Call {ℓ} (A : Type ℓ) : Type ℓ where
  returned : A → Call A
  raised : ProviderError → Call A
  hung : Call A

-- What the outside answers during one call of the service. Each provider is asked at most once. A
-- repository raises the error of its `fails` field, if there is one, and then has stored nothing: each
-- is called at most once, but for the saves of a dialogue, which are numbered from 1.
pub record Env : Type 0 where
  pub get_context : ℕ → ℕ → Call LearnerContext
  pub classify : String → Dialogue → Call IntentKind
  pub generate_question : Dialogue → LearnerContext → Call GuidingQuestionResult
  pub generate_answer : String → LearnerContext → Call FourPartAnswer
  pub dialogue_read_fails : Option ProviderError
  pub mode_read_fails : Option ProviderError
  pub session_read_fails : Option ProviderError
  pub dialogue_save_fails : ℕ → Dialogue → Option ProviderError
  pub mode_save_fails : Option ProviderError
  pub append_fails : Option ProviderError
  pub now : ℕ
  pub new_dialogue_id : ℕ
  pub interaction_id : ℕ
  pub response_id : ℕ

-- The settings and the collaborators that are handed to the constructor, and the text functions of
-- uc05/domain: the stems and the fingerprint of a question, and its topic.
pub record Config : Type 0 where
  pub socratic_exchange_cap : ℕ
  pub loop_similarity_threshold : Fraction
  pub guiding_guard : GuidingQuestionResult → Dialogue → Result ProviderError (Unit {0})
  pub answer_guard : FourPartAnswer → Result ProviderError (Unit {0})
  pub content_tokens : String → List ℕ
  pub fingerprint : String → String
  pub derive_topic_tag : String → String
  pub prompt_version : String

abbrev pub Action : Type 0 → Type 0
Action A = Store → Result ServiceError A × Store

module _ {A : Type 0} where
  abbrev pub pure : A → Action A
  pure a s = (ok a, s)

  abbrev pub raise : ServiceError → Action A
  raise e s = (err e, s)

  abbrev pub gets : (Store → A) → Action A
  gets f s = (ok (f s), s)

-- What goes on after a result.
abbrev pub continue : {A B : Type 0} → Result ServiceError A → (A → Action B) → Action B
continue (ok a) f s = f a s
continue (err e) f s = (err e, s)

infixl 5 ◌>>=◌ ◌>>◌
abbrev pub ◌>>=◌ : {A B : Type 0} → Action A → (A → Action B) → Action B
◌>>=◌ m f s = let (r, s') = m s in continue r f s'

abbrev pub ◌>>◌ : {B : Type 0} → Action (Unit {0}) → Action B → Action B
m >> k = m >>= λ _. k

abbrev pub modify : (Store → Store) → Action (Unit {0})
modify f s = (ok tt, f s)

-- `_call`: a hanging provider is cancelled as a timeout, an error of its own passes.
unfoldable pub call : {A : Type 0} → Call A → Action A
call (returned a) s = (ok a, s)
call (raised e) s = (err (provider_error e), s)
call hung s = (err (provider_error provider_timeout), s)

-- A guard raises `ProviderInvalidResponse` itself.
unfoldable pub check : Result ProviderError (Unit {0}) → Action (Unit {0})
check (ok _) s = (ok tt, s)
check (err e) s = (err (provider_error e), s)

-- A call of a repository: its infrastructure failure passes.
abbrev pub unless_fails : {A : Type 0} → Option ProviderError → Action A → Action A
unless_fails none m = m
unless_fails (some e) m = raise (provider_error e)

abbrev pub with_dialogue : Dialogue → Store → Store
with_dialogue d s = record s { dialogues = insert d.dialogue_id d s.dialogues }

-- `DialogueRepository.save` over `InMemoryDialogueRepository`: the given save of the call.
unfoldable pub save_dialogue : Env → ℕ → Dialogue → Action (Unit {0})
save_dialogue env n d = unless_fails (env.dialogue_save_fails n d) (modify (with_dialogue d))

-- `InMemoryDialogueRepository.for_session`
unfoldable pub for_session : ℕ → Dict Dialogue → List Dialogue
for_session session_id ds =
    keep (λ (d : Dialogue). d.session_id == session_id) (map (λ (row : ℕ × Dialogue). row.1) ds)

abbrev pub with_interaction : InteractionLogRecord → Store → Store
with_interaction r s = record s { interactions = s.interactions ++ r ∷ [] }

-- `InteractionLogRepository.append` over `InMemoryInteractionLogRepository`
unfoldable pub append : Env → InteractionLogRecord → Action (Unit {0})
append env r = unless_fails env.append_fails (modify (with_interaction r))

-- The owner that `set_mode` keeps: `existing.owner_user_id if existing and existing.owner_user_id`.
abbrev pub owner_or : Option ModeState → ℕ → ℕ
owner_or none user_id = user_id
owner_or (some m) user_id = elim m.owner_user_id [ none ↦ user_id | some owner ↦ owner ]

abbrev pub mode_to_save : Env → ℕ → Bool → ℕ → Store → ModeState
mode_to_save env session_id enabled user_id s = record {
  session_id = session_id;
  enabled = enabled;
  source = ModeSource.persisted;
  owner_user_id = some (owner_or (lookup session_id s.modes) user_id);
  updated_at = some env.now;
}

-- `SessionModeRepository.set_mode` over `InMemorySessionModeRepository`
unfoldable pub save_mode : Env → ℕ → Bool → ℕ → Action ModeState
save_mode env session_id enabled user_id = unless_fails env.mode_save_fails (do
  state ← gets (mode_to_save env session_id enabled user_id)
  modify (λ s. record s { modes = insert session_id state s.modes })
  pure state)
