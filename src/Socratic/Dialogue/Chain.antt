-- ===== src/Socratic/Dialogue/Chain.antt =====
-- packages/uc05/uc05/application/reasoning_chain.py: the chain shown with a capped answer.
use Prim.Native.String.{String}
use ai_coaching_agent.Common.{
  ℕ, suc, ◌≡◌, refl, ap, Option, List, [], ◌∷◌, map, length, ◌==◌, if◌then◌else◌,
}
use ai_coaching_agent.Socratic.Dialogue.{ExchangeRecord, Dialogue, learner_response}

-- The four templates, by name; a sentence is a template with the probing focus put in.
pub data Template : Type 0 where
  first middle last only : Template

pub record ReasoningChainStep : Type 0 where
  pub exchange_number : ℕ
  pub guiding_question : String
  pub probing : String
  pub learner_response : Option String
  pub connection_to_answer : Template × String

unfoldable pub template_for : ℕ → ℕ → Template
template_for total position =
    if total == 1
    then only
    else if position == 1
    then first
    else if position == total
    then last
    else middle

unfoldable pub chain_step : ℕ → ℕ → ExchangeRecord → ReasoningChainStep
chain_step total position e = record {
  exchange_number = e.exchange_number;
  guiding_question = e.guiding_question;
  probing = e.probing_focus;
  learner_response = learner_response e;
  connection_to_answer = (template_for total position, e.probing_focus);
}

-- The loop, from a position on.
unfoldable pub chain_from : ℕ → ℕ → List ExchangeRecord → List ReasoningChainStep
unfolding chain_step template_for
chain_from total position [] = []
chain_from total position (e ∷ es) =
    chain_step total position e ∷ chain_from total (suc position) es

unfoldable pub build_reasoning_chain : Dialogue → List ReasoningChainStep
unfolding chain_from
build_reasoning_chain d = chain_from (length d.exchanges) 1 d.exchanges

-- What was asked, and what it probed: by the record, and by the chain.
abbrev pub asked : ExchangeRecord → String × String
asked e = (e.guiding_question, e.probing_focus)

abbrev pub explained : ReasoningChainStep → String × String
explained s = (s.guiding_question, s.probing)

chain_from-questions :
    (total position : ℕ) (es : List ExchangeRecord)
    → map explained (chain_from total position es) ≡ map asked es
unfolding chain_from
chain_from-questions total position [] = refl
chain_from-questions total position (e ∷ es) =
    ap (λ (l : List (String × String)). asked e ∷ l) (chain_from-questions total (suc position) es)

-- The chain has a step for each recorded exchange, in order, with the question that was asked and
-- what it probed.
pub build_reasoning_chain-questions :
    (d : Dialogue) → map explained (build_reasoning_chain d) ≡ map asked d.exchanges
unfolding build_reasoning_chain
build_reasoning_chain-questions d = chain_from-questions (length d.exchanges) 1 d.exchanges
