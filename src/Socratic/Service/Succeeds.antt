-- ===== src/Socratic/Service/Succeeds.antt =====
-- When the steps of a call return, and what they return.
use Prim.Native.String.{String}
use ai_coaching_agent.Common.{
  ℕ, ◌≡◌, refl, sym, subst, ◌∙◌, ◌⊎◌, inl, inr, Bool, true, false, none, some, Result, ok, err,
  arith,
}
use ai_coaching_agent.Common.Dict
use ai_coaching_agent.Socratic.Vocabulary.{DialogueEvent, IntentKind, is_terminal}
use ai_coaching_agent.Socratic.Machine.{Transition, MachineError, lookup, event_for_intent}
use ai_coaching_agent.Socratic.Machine.Intents
use ai_coaching_agent.Socratic.Machine.Intents.{event_for_intent-total}
use ai_coaching_agent.Socratic.Dialogue.{
  Dialogue, GuidingQuestionResult, LearnerContext, FourPartAnswer,
}
use ai_coaching_agent.Socratic.Service.State.{
  Store, ServiceError, Call, returned, raised, hung, Env, Config, Action, continue, ◌>>=◌, call,
  check,
}
use ai_coaching_agent.Socratic.Service.Turn.{require, of_machine, get_dialogue}
use ai_coaching_agent.Socratic.Service.Reply.{cap_event, has_exchange}
use ai_coaching_agent.Socratic.Service.Safety.{IsReadOnly}
use ai_coaching_agent.Socratic.Service.Invariant.{IsAsked}

-- The call returned a value.
abbrev pub Returns : {A : Type 0} → Action A → Store → Type 0
Returns {A} m s = (a : A) × ((m s).0 ≡ ok a)

-- No repository fails.
pub record IsStoring (env : Env) : Type 0 where
  pub reads_dialogue : env.dialogue_read_fails ≡ none
  pub reads_mode : env.mode_read_fails ≡ none
  pub reads_session : env.session_read_fails ≡ none
  pub saves_dialogue : (n : ℕ) (d : Dialogue) → env.dialogue_save_fails n d ≡ none
  pub saves_mode : env.mode_save_fails ≡ none
  pub appends : env.append_fails ≡ none

-- The providers answer in time, the guards accept what they generate, and no repository fails.
pub record IsUp (cfg : Config) (env : Env) : Type 0 where
  pub stores : IsStoring env
  pub classifies :
      (message : String) (d : Dialogue) → (i : IntentKind) × (env.classify message d ≡ returned i)
  pub asks :
      (d : Dialogue) (c : LearnerContext)
      → (g : GuidingQuestionResult) × (env.generate_question d c ≡ returned g)
        × (cfg.guiding_guard g d ≡ ok tt)
  pub answers :
      (q : String) (c : LearnerContext)
      → (a : FourPartAnswer) × (env.generate_answer q c ≡ returned a) × (cfg.answer_guard a ≡ ok tt)

pub bind-ok :
    {A B : Type 0} (m : Action A) (f : A → Action B) (s : Store) (a : A) (b : B)
    → IsReadOnly m
    → (m s).0 ≡ ok a
    → (f a s).0 ≡ ok b
    → ((m >>= f) s).0 ≡ ok b
bind-ok {A} {B} m f s a b hm h k = go (m s).0 (m s).1 h (hm.at s)
  where
    go : (r : Result ServiceError A) (s' : Store) → r ≡ ok a → s' ≡ s → (continue r f s').0 ≡ ok b
    go (ok x) s' q p = ground (arith, k)
    go (err e) s' q p = absurd (ground arith)

pub bind-Returns :
    {A B : Type 0} (m : Action A) (f : A → Action B) (s : Store) (a : A)
    → IsReadOnly m
    → (m s).0 ≡ ok a
    → Returns (f a) s
    → Returns (m >>= f) s
bind-Returns m f s a hm h k = (k.0, bind-ok m f s a k.0 hm h k.1)

pub require-true : (b : Bool) (e : ServiceError) (s : Store) → b ≡ true → (require b e s).0 ≡ ok tt
require-true true e s h = refl
require-true false e s h = absurd (ground arith)

pub call-returned :
    {A : Type 0} (c : Call A) (a : A) (s : Store) → c ≡ returned a → (call c s).0 ≡ ok a
unfolding call
call-returned (returned x) a s h = ground arith
call-returned (raised e) a s h = absurd (ground arith)
call-returned hung a s h = absurd (ground arith)

pub of_machine-found :
    {A : Type 0} (r : Result MachineError A) (a : A) (s : Store)
    → r ≡ ok a
    → (of_machine r s).0 ≡ ok a
unfolding of_machine
of_machine-found (ok x) a s h = ground arith
of_machine-found (err e) a s h = absurd (ground arith)

pub get_dialogue-found :
    (env : Env) (i u : ℕ) (s : Store) (d : Dialogue)
    → Dict.lookup i s.dialogues ≡ some d
    → d.user_id ≡ u
    → env.dialogue_read_fails ≡ none
    → (get_dialogue env i u s).0 ≡ ok d
unfolding get_dialogue
get_dialogue-found env i u s d h o up = ground arith

pub check-ok : (r : Result _ (Unit {0})) (s : Store) → r ≡ ok tt → (check r s).0 ≡ ok tt
unfolding check
check-ok (ok _) s h = refl
check-ok (err e) s h = absurd (ground arith)

pub machine-Returns :
    {A : Type 0} (r : Result MachineError A) → Intents.Returns r → (a : A) × (r ≡ ok a)
machine-Returns (ok a) h = (a, refl)
machine-Returns (err e) h = absurd h

pub cap_event-cases :
    (d : Dialogue) (e : DialogueEvent)
    → (cap_event d e ≡ e) ⊎ (cap_event d e ≡ DialogueEvent.cap_reached)
cap_event-cases d e = ground arith

-- The table has a row for whatever a message to an open dialogue leads to.
pub lookup-found :
    (d : Dialogue) (i : IntentKind) (e e' : DialogueEvent)
    → is_terminal d.state ≡ false
    → event_for_intent d.state i ≡ ok e
    → (e' ≡ cap_event d e) ⊎ (e' ≡ DialogueEvent.loop_detected)
    → (t : Transition) × (lookup (some d.state) e' ≡ ok t)
lookup-found d i e e' h m o =
    let (_, row, cap, loop, _) = event_for_intent-total d.state i e h in
    let at : (x : DialogueEvent)
        → e' ≡ x
        → Intents.Returns (lookup (some d.state) x)
        → (t : Transition) × (lookup (some d.state) e' ≡ ok t) =
      λ x q r.
        machine-Returns (lookup (some d.state) e')
          (subst (λ y. Intents.Returns (lookup (some d.state) y)) (sym q) r) in
    elim o [
      | inr q ↦ at DialogueEvent.loop_detected q loop
      | inl q ↦ elim (cap_event-cases d e) [
        | inl same ↦ at e (q ∙ same) (row m)
        | inr capped ↦ at DialogueEvent.cap_reached (q ∙ capped) cap
      ]
    ]

pub none-some : {A : Type 0} {a : A} → none ≡ some a → ⊥
none-some h = ground arith

pub has_exchange-IsAsked : (d : Dialogue) → IsAsked d → has_exchange d ≡ true
has_exchange-IsAsked d a = ground (arith, a.has_asked)
