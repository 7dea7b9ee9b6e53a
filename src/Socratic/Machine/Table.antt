-- ===== src/Socratic/Machine/Table.antt =====
-- What the transition table guarantees of each row that `lookup` returns.
use ai_coaching_agent.Common.{
  ◌≡◌, subst, Bool, true, false, Option, none, some, List, [], ◌∷◌, ok, err, arith, Bool-cases, inl,
  inr, ◌&&◌, All,
}
use ai_coaching_agent.Socratic.Vocabulary.{Resolution, DialogueState, DialogueEvent, is_terminal}
use ai_coaching_agent.Socratic.Machine.{
  Transition, transitions, find_row, lookup, is_generating, is_direct_answer_resolution,
  is_answer_bearing, invalid_transition,
}
use ai_coaching_agent.Socratic.Machine.Equality.{source_eq, event_eq}

-- `resolution is not None`
abbrev pub is_closed : Option Resolution → Bool
is_closed none = false
is_closed (some _) = true

-- The rules of a row: an answer is given exactly under a resolution that permits one; a
-- resolution is recorded exactly on entry to a terminal state; a new exchange is opened exactly
-- by an event for which a question is generated, and only while the dialogue goes on.
pub record IsLawful (t : Transition) : Type 0 where
  pub answers : is_answer_bearing t.response_kind ≡ is_direct_answer_resolution t.resolution
  pub closes : is_closed t.resolution ≡ is_terminal t.target
  pub opens : t.opens_exchange ≡ is_generating t.event
  pub reposes : t.reposes_current_question ≡ true → t.opens_exchange ≡ false
  pub goes_on : t.opens_exchange ≡ true → t.target ≡ DialogueState.awaiting_learner_response

find_row-All :
    (P : Transition → Type 0) (s : Option DialogueState) (e : DialogueEvent) (ts : List Transition)
    (t : Transition)
    → All P ts
    → find_row s e ts ≡ some t
    → P t × (source_eq t.source s ≡ true) × (event_eq t.event e ≡ true)
unfolding find_row
find_row-All P s e [] t h f = absurd (ground arith)
find_row-All P s e (x ∷ ts) t h f = elim (Bool-cases (source_eq x.source s && event_eq x.event e)) [
  | inl hit ↦ let same : x ≡ t = ground arith in (subst P same h.0, ground arith, ground arith)
  | inr miss ↦ find_row-All P s e ts t h.1 (ground arith)
]

transitions-IsLawful : All IsLawful transitions
unfolding transitions is_answer_bearing is_direct_answer_resolution is_terminal is_generating
transitions-IsLawful = ground arith

lookup-row :
    (s : Option DialogueState) (e : DialogueEvent) (t : Transition)
    → lookup s e ≡ ok t
    → find_row s e transitions ≡ some t
unfolding lookup
lookup-row s e t h = ground arith

source_eq-eq : (s t : Option DialogueState) → source_eq s t ≡ true → s ≡ t
unfolding source_eq
source_eq-eq s t h = ground arith

event_eq-eq : (d e : DialogueEvent) → event_eq d e ≡ true → d ≡ e
unfolding event_eq
event_eq-eq d e h = ground arith

-- Every transition that `lookup` returns is a row for the state and the event that it was asked
-- for, and is lawful: it bears an answer exactly under a resolution that permits one, has a
-- resolution exactly when its target is terminal, opens an exchange exactly on a generating event,
-- and then goes on awaiting a response and reposes no question.
pub lookup-IsLawful :
    (s : Option DialogueState) (e : DialogueEvent) (t : Transition)
    → lookup s e ≡ ok t
    → IsLawful t × (t.source ≡ s) × (t.event ≡ e)
lookup-IsLawful s e t h =
    let (lawful, hs, he) =
      find_row-All IsLawful s e transitions t transitions-IsLawful (lookup-row s e t h) in
    (lawful, source_eq-eq t.source s hs, event_eq-eq t.event e he)

-- In a terminal state `lookup` refuses every event.
pub lookup-terminal :
    (s : DialogueState) (e : DialogueEvent)
    → is_terminal s ≡ true
    → lookup (some s) e ≡ err invalid_transition
unfolding lookup is_terminal
lookup-terminal s e h = ground arith
