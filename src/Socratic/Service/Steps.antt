-- ===== src/Socratic/Service/Steps.antt =====
-- What a reply that was planned has gone through, step by step.
use Prim.Native.String.{String}
use ai_coaching_agent.Common.{
  ℕ, ◌≡◌, refl, subst, ◌⊎◌, inl, inr, Bool, true, false, not, Option, none, some, Result, ok, err,
  arith, Bool-cases,
}
use ai_coaching_agent.Common.Dict
use ai_coaching_agent.Socratic.Vocabulary.{DialogueEvent, IntentKind, is_terminal}
use ai_coaching_agent.Socratic.Machine.{Transition, MachineError, lookup, event_for_intent}
use ai_coaching_agent.Socratic.Dialogue.{Dialogue, GuidingQuestionResult}
use ai_coaching_agent.Socratic.Service.State.{
  Store, ServiceError, invalid_transition, assertion, Env, Config, Action, continue, ◌>>=◌, call,
}
use ai_coaching_agent.Socratic.Service.Turn.{
  require, of_machine, mode_state, get_dialogue, open_exchange,
}
use ai_coaching_agent.Socratic.Service.Reply.{
  Found, Planned, cap_event, found_by, generate_if_due, opened, moved, with_message, has_exchange,
  plan_reply,
}

-- A bind that returned, by what its first action returned.
module _ {A B C : Type 0} where
  bind-elim :
      (m : Action A) (f : A → Action B) (s : Store) (b : B)
      → ((m >>= f) s).0 ≡ ok b
      → ((a : A) → (m s).0 ≡ ok a → (s' : Store) → (f a s').0 ≡ ok b → C)
      → C
  bind-elim m f s b h k = go (m s).0 (m s).1 h k
    where
      go :
          (r : Result ServiceError A) (s' : Store)
          → (continue r f s').0 ≡ ok b
          → ((a : A) → r ≡ ok a → (s'' : Store) → (f a s'').0 ≡ ok b → C)
          → C
      go (ok a) s' h' k' = k' a refl s' h'
      go (err e) s' h' k' = absurd (ground arith)

pub ok-injective : {A : Type 0} (a b : A) (r : Result ServiceError A) → r ≡ ok a → r ≡ ok b → a ≡ b
ok-injective a b r ha hb = ground arith

not-true : (b : Bool) → not b ≡ true → b ≡ false
not-true b h = ground arith

require-ok :
    (b : Bool) (e : ServiceError) (s : Store) (x : Unit {0}) → (require b e s).0 ≡ ok x → b ≡ true
require-ok true e s x h = refl
require-ok false e s x h = absurd (ground arith)

pub of_machine-ok :
    {A : Type 0} (r : Result MachineError A) (s : Store) (a : A)
    → (of_machine r s).0 ≡ ok a
    → r ≡ ok a
unfolding of_machine
of_machine-ok (ok x) s a h = ground arith
of_machine-ok (err e) s a h = absurd (ground arith)

get_dialogue-ok :
    (env : Env) (i u : ℕ) (s : Store) (d : Dialogue)
    → (get_dialogue env i u s).0 ≡ ok d
    → (Dict.lookup i s.dialogues ≡ some d) × (d.user_id ≡ u)
unfolding get_dialogue
get_dialogue-ok env i u s d h = ground arith

-- The event that is looked up is the one that the message stands for, with the cap applied, or
-- the detection of a loop.
pub generate_if_due-ok :
    (cfg : Config) (env : Env) (d : Dialogue) (e : DialogueEvent) (s : Store) (f : Found)
    → (generate_if_due cfg env d e s).0 ≡ ok f
    → (f.event ≡ e) ⊎ (f.event ≡ DialogueEvent.loop_detected)
unfolding generate_if_due found_by
generate_if_due-ok cfg env d e s f h = ground arith

-- What opening an exchange leaves: the dialogue, or the dialogue with the exchange.
abbrev pub Opening :
    Config → Env → Option GuidingQuestionResult → Transition → Dialogue → Dialogue → Type 0
Opening cfg env o t d d' =
    ((t.opens_exchange ≡ false) × (d' ≡ d))
    ⊎ ((g : GuidingQuestionResult) × (t.opens_exchange ≡ true)
        × (o ≡ some g)
        × (d' ≡ open_exchange cfg env g d))

opened-ok :
    (cfg : Config) (env : Env) (e : DialogueEvent) (o : Option GuidingQuestionResult) (i : Option ℕ)
    (t : Transition) (d : Dialogue) (s : Store) (d' : Dialogue)
    → (opened cfg env (record { event = e; generated = o; loop_index = i }) t d s).0 ≡ ok d'
    → Opening cfg env o t d d'
unfolding opened
opened-ok cfg env e none i t d s d' h = inl (ground arith, ground arith)
opened-ok cfg env e (some g) i t d s d' h = elim (Bool-cases t.opens_exchange) [
  | inl o ↦ inr (g, o, refl, ground arith)
  | inr o ↦ inl (o, ground arith)
]

-- The values that a planned reply went through.
pub record IsPlanned (cfg : Config) (env : Env) (i u : ℕ) (message : String) (s : Store)
    (p : Planned) : Type 0 where
  pub before : Dialogue
  pub stored : Dict.lookup i s.dialogues ≡ some before
  pub owned : before.user_id ≡ u
  pub going_on : is_terminal before.state ≡ false
  pub intent : IntentKind
  pub event : DialogueEvent
  pub meant : event_for_intent before.state intent ≡ ok event
  pub found : Found
  pub looked_up :
      (found.event ≡ cap_event before event) ⊎ (found.event ≡ DialogueEvent.loop_detected)
  pub row : lookup (some before.state) found.event ≡ ok p.transition
  pub asked : has_exchange before ≡ true
  pub next : Dialogue
  pub opening :
      Opening cfg env found.generated p.transition (with_message env message intent before) next
  pub after : p.dialogue ≡ moved env found p.transition next

-- A planned reply went through the steps of `reply`, in order.
pub plan_reply-ok :
    (cfg : Config) (env : Env) (i u : ℕ) (message : String) (s : Store) (p : Planned)
    → (plan_reply cfg env i u message s).0 ≡ ok p
    → IsPlanned cfg env i u message s p
unfolding plan_reply
plan_reply-ok cfg env i u message s p h = bind-elim (get_dialogue env i u) _ s p h λ d hd s1 h1.
    bind-elim (require (not (is_terminal d.state)) invalid_transition) _ s1 p h1 λ x1 hr s2 h2.
      bind-elim (mode_state env d.session_id u) _ s2 p h2 λ mode hm s3 h3.
        bind-elim (call (env.classify message d)) _ s3 p h3 λ intent hi s4 h4.
          bind-elim (of_machine (event_for_intent d.state intent)) _ s4 p h4 λ event he s5 h5.
            bind-elim (generate_if_due cfg env d (cap_event d event)) _ s5 p h5 λ f hf s6 h6.
              bind-elim (of_machine (lookup (some d.state) f.event)) _ s6 p h6 λ t ht s7 h7.
                bind-elim (require (has_exchange d) assertion) _ s7 p h7 λ x2 hx s8 h8.
                  bind-elim (opened cfg env f t (with_message env message intent d)) _ s8 p h8
                    λ next hn s9 h9.
                      subst (IsPlanned cfg env i u message s) (ok-injective _ p _ refl h9) record {
                        before = d;
                        stored = (get_dialogue-ok env i u s d hd).0;
                        owned = (get_dialogue-ok env i u s d hd).1;
                        going_on =
                            not-true (is_terminal d.state)
                              (require-ok _ invalid_transition s1 x1 hr);
                        intent = intent;
                        event = event;
                        meant = of_machine-ok (event_for_intent d.state intent) s4 event he;
                        found = f;
                        looked_up = generate_if_due-ok cfg env d (cap_event d event) s5 f hf;
                        row = of_machine-ok (lookup (some d.state) f.event) s6 t ht;
                        asked = require-ok (has_exchange d) assertion s7 x2 hx;
                        next = next;
                        opening =
                            opened-ok cfg env f.event f.generated f.loop_index t
                              (with_message env message intent d) s8 next hn;
                        after = refl;
                      }
