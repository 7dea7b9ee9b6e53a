-- ===== src/Socratic/Service/Invariant.antt =====
-- A dialogue stays well formed: the invariant that every reply preserves.
use Prim.Native.String.{String}
use ai_coaching_agent.Common.{
  ℕ, suc, ◌+◌, ◌≤◌, ◌<◌, ◌≡◌, refl, sym, ap, subst, ◌∙◌, ◌⊎◌, inl, inr, true, Option, some, List,
  [], ◌∷◌, ◌++◌, ok, arith, Bool-cases, length, length-append, All, ◌==◌,
}
use ai_coaching_agent.Common.Dict
use ai_coaching_agent.Socratic.Vocabulary.{DialogueState, DialogueEvent, IntentKind, is_terminal}
use ai_coaching_agent.Socratic.Machine.{Transition, event_for_intent, is_generating}
use ai_coaching_agent.Socratic.Machine.Table.{is_closed, lookup-IsLawful}
use ai_coaching_agent.Socratic.Dialogue.{
  Dialogue, GuidingQuestionResult, ExchangeRecord, LearnerMessage, explanation_profile_for,
  ModeState,
}
use ai_coaching_agent.Socratic.Service.State.{Store, Env, Config, save_dialogue, append}
use ai_coaching_agent.Socratic.Service.Turn.{
  open_exchange, Parts, answer_for, log_record, logged, finalise,
}
use ai_coaching_agent.Socratic.Service.Safety.{
  bind-keeps, Preserves, bind-Preserves, unless_fails-Preserves, IsReadOnly-answer_for,
  IsReadOnly-plan_reply,
}
use ai_coaching_agent.Socratic.Service.Reply.{
  Found, Planned, add_message, cap_event, moved, with_message, plan_reply, reply,
}
use ai_coaching_agent.Socratic.Service.Steps.{Opening, IsPlanned, plan_reply-ok}

-- The exchanges are numbered from a number on.
abbrev pub IsNumbered : ℕ → List ExchangeRecord → Type 0
IsNumbered n [] = Unit
IsNumbered n (e ∷ es) = (e.exchange_number ≡ n) × IsNumbered (suc n) es

-- A dialogue has asked at least one question and at most as many as its cap, numbered from 1, and is
-- explained at the level of its learner.
pub record IsAsked (d : Dialogue) : Type 0 where
  pub has_asked : 1 ≤ length d.exchanges
  pub within_cap : length d.exchanges ≤ d.exchange_cap
  pub numbered : IsNumbered 1 d.exchanges
  pub profile : d.explanation_profile ≡ explanation_profile_for d.context.naric_level

-- And it has a resolution exactly when it is closed.
pub record IsWellFormed (d : Dialogue) : Type 0 where
  pub asking : IsAsked d
  pub resolution_iff_terminal : is_closed d.resolution ≡ is_terminal d.state

length-add_message :
    (m : LearnerMessage) (es : List ExchangeRecord) → length (add_message m es) ≡ length es
unfolding add_message
length-add_message m [] = refl
length-add_message m (e ∷ []) = refl
length-add_message m (e ∷ f ∷ es) = omega (arith, length-add_message m (f ∷ es))

add_message-IsNumbered :
    (m : LearnerMessage) (n : ℕ) (es : List ExchangeRecord)
    → IsNumbered n es
    → IsNumbered n (add_message m es)
unfolding add_message
add_message-IsNumbered m n [] h = tt
add_message-IsNumbered m n (e ∷ []) h = h
add_message-IsNumbered m n (e ∷ f ∷ es) h = (h.0, add_message-IsNumbered m (suc n) (f ∷ es) h.1)

IsNumbered-append :
    (n : ℕ) (es : List ExchangeRecord) (e : ExchangeRecord)
    → IsNumbered n es
    → e.exchange_number ≡ n + length es
    → IsNumbered n (es ++ e ∷ [])
IsNumbered-append n [] e h q = (ground arith, tt)
IsNumbered-append n (x ∷ es) e h q = (h.0, IsNumbered-append (suc n) es e h.1 (ground arith))

-- A question is generated only below the cap.
cap_event-below :
    (d : Dialogue) (s : DialogueState) (i : IntentKind) (e : DialogueEvent)
    → event_for_intent s i ≡ ok e
    → is_generating (cap_event d e) ≡ true
    → length d.exchanges < d.exchange_cap
unfolding event_for_intent is_generating
cap_event-below d s i e h g = ground arith

found-below :
    (d : Dialogue) (s : DialogueState) (i : IntentKind) (e e' : DialogueEvent)
    → event_for_intent s i ≡ ok e
    → (e' ≡ cap_event d e) ⊎ (e' ≡ DialogueEvent.loop_detected)
    → is_generating e' ≡ true
    → length d.exchanges < d.exchange_cap
unfolding is_generating
found-below d s i e e' h (inl q) g = cap_event-below d s i e h (ap is_generating (sym q) ∙ g)
found-below d s i e e' h (inr q) g = absurd (ground arith)

module _ (cfg : Config) (env : Env) where
  with_message-IsAsked :
      (d : Dialogue) (message : String) (i : IntentKind)
      → IsAsked d
      → IsAsked (with_message env message i d)
  with_message-IsAsked d message i a =
      let m : LearnerMessage = record { text = message; intent = i; received_at = env.now } in
      record {
        has_asked = ground (arith, length-add_message m d.exchanges, a.has_asked);
        within_cap = ground (arith, length-add_message m d.exchanges, a.within_cap);
        numbered = add_message-IsNumbered m 1 d.exchanges a.numbered;
        profile = a.profile;
      }

  pub open_exchange-IsAsked :
      (d : Dialogue) (g : GuidingQuestionResult)
      → length d.exchanges < d.exchange_cap
      → IsNumbered 1 d.exchanges
      → d.explanation_profile ≡ explanation_profile_for d.context.naric_level
      → IsAsked (open_exchange cfg env g d)
  unfolding open_exchange
  open_exchange-IsAsked d g below n q = record {
    has_asked = omega (arith, length-append d.exchanges);
    within_cap = omega (arith, length-append d.exchanges);
    numbered = IsNumbered-append 1 d.exchanges _ n (omega arith);
    profile = q;
  }

  Opening-IsAsked :
      (o : Option GuidingQuestionResult) (t : Transition) (d next : Dialogue)
      → Opening cfg env o t d next
      → (t.opens_exchange ≡ true → length d.exchanges < d.exchange_cap)
      → IsAsked d
      → IsAsked next
  Opening-IsAsked o t d next (inl (_, q)) below a = subst IsAsked (sym q) a
  Opening-IsAsked o t d next (inr (g, opens, _, q)) below a =
      subst IsAsked (sym q) (open_exchange-IsAsked d g (below opens) a.numbered a.profile)

  moved-IsWellFormed :
      (f : Found) (t : Transition) (d : Dialogue)
      → is_closed t.resolution ≡ is_terminal t.target
      → IsAsked d
      → IsWellFormed (moved env f t d)
  unfolding moved
  moved-IsWellFormed f t d h a = record {
    asking = record {
      has_asked = a.has_asked;
      within_cap = a.within_cap;
      numbered = a.numbered;
      profile = a.profile;
    };
    resolution_iff_terminal = h;
  }

  -- A reply that is planned on a well-formed dialogue leaves a well-formed dialogue.
  IsPlanned-IsWellFormed :
      (i u : ℕ) (message : String) (s : Store) (p : Planned) (q : IsPlanned cfg env i u message s p)
      → IsWellFormed q.before
      → IsWellFormed p.dialogue
  IsPlanned-IsWellFormed i u message s p q w =
      let (lawful, _, he) =
        lookup-IsLawful (some q.before.state) q.found.event p.transition q.row in
      let heard = with_message env message q.intent q.before in
      let m : LearnerMessage = record {
        text = message;
        intent = q.intent;
        received_at = env.now;
      } in
      let below : p.transition.opens_exchange ≡ true → length heard.exchanges < heard.exchange_cap =
        λ opens.
          let used =
            found-below q.before q.before.state q.intent q.event q.found.event q.meant q.looked_up
              (ap is_generating (sym he) ∙ (sym lawful.opens ∙ opens)) in
          omega (arith, length-add_message m q.before.exchanges) in
      subst IsWellFormed (sym q.after) (
        moved-IsWellFormed q.found p.transition q.next lawful.closes (
          Opening-IsAsked q.found.generated p.transition heard q.next q.opening below
            (with_message-IsAsked q.before message q.intent w.asking)))

-- Every stored dialogue is well formed, and stored under its own id.
abbrev pub AllWellFormed : Dict.Dict Dialogue → Type 0
AllWellFormed ds = All (λ (row : ℕ × Dialogue). IsWellFormed row.1 × (row.1.dialogue_id ≡ row.0)) ds

pub insert-AllWellFormed :
    (d : Dialogue) (ds : Dict.Dict Dialogue)
    → IsWellFormed d
    → AllWellFormed ds
    → AllWellFormed (Dict.insert d.dialogue_id d ds)
unfolding Dict.insert
insert-AllWellFormed d [] w all = ((w, refl), tt)
insert-AllWellFormed d ((j, x) ∷ ds) w all = elim (Bool-cases (j == d.dialogue_id)) [
  | inl same ↦ rw same ((w, ground arith), all.1)
  | inr other ↦ rw other (all.0, insert-AllWellFormed d ds w all.1)
]

pub lookup-AllWellFormed :
    (k : ℕ) (d : Dialogue) (ds : Dict.Dict Dialogue)
    → AllWellFormed ds
    → Dict.lookup k ds ≡ some d
    → IsWellFormed d × (d.dialogue_id ≡ k)
unfolding Dict.lookup
lookup-AllWellFormed k d [] all h = absurd (ground arith)
lookup-AllWellFormed k d ((j, x) ∷ ds) all h = elim (Bool-cases (j == k)) [
  | inl same ↦
      let q : x ≡ d = ground arith in
      (
        subst IsWellFormed q all.0.0,
        ap (λ (e : Dialogue). e.dialogue_id) (sym q) ∙ (all.0.1 ∙ ground arith),
      )
  | inr other ↦ lookup-AllWellFormed k d ds all.1 (ground arith)
]

-- The store has well-formed dialogues, each under its own id.
abbrev pub Sound : Store → Type 0
Sound s = AllWellFormed s.dialogues

pub save_dialogue-Preserves :
    (env : Env) (n : ℕ) (d : Dialogue) → IsWellFormed d → Preserves Sound (save_dialogue env n d)
unfolding save_dialogue
save_dialogue-Preserves env n d w =
    unless_fails-Preserves Sound (env.dialogue_save_fails n d) _
      (λ s all. insert-AllWellFormed d s.dialogues w all)

module _ (cfg : Config) (env : Env) where
  pub finalise-AllWellFormed :
      (d : Dialogue) (t : Transition) (mode : ModeState) (parts : Parts) (s : Store)
      → IsWellFormed d
      → AllWellFormed s.dialogues
      → AllWellFormed (finalise cfg env d t mode parts s).1.dialogues
  unfolding finalise append
  finalise-AllWellFormed d t mode parts s w all =
      let again : IsWellFormed (logged cfg env d) = record {
        asking = record {
          has_asked = w.asking.has_asked;
          within_cap = w.asking.within_cap;
          numbered = w.asking.numbered;
          profile = w.asking.profile;
        };
        resolution_iff_terminal = w.resolution_iff_terminal;
      } in
      bind-keeps Sound (answer_for cfg env d t) _ s (IsReadOnly-answer_for cfg env d t)
        (λ a h.
          bind-Preserves Sound (save_dialogue env 1 d) _ (save_dialogue-Preserves env 1 d w)
            (λ _.
              bind-Preserves Sound (append env (log_record cfg env d t)) _
                (unless_fails-Preserves Sound env.append_fails _ (λ x all'. all'))
                (λ _.
                  bind-Preserves Sound (save_dialogue env 2 (logged cfg env d)) _
                    (save_dialogue-Preserves env 2 (logged cfg env d) again) (λ _ x all'. all')))
            s)
        all

  -- If every stored dialogue is under its own id and well formed (it has asked at least one
  -- question and at most its cap, numbered from 1, is explained at its learner's level, and has a
  -- resolution exactly when it is closed), then so is every stored dialogue after a reply, whether
  -- the reply returns or raises.
  pub reply-AllWellFormed :
      (i u : ℕ) (message : String) (s : Store)
      → AllWellFormed s.dialogues
      → AllWellFormed (reply cfg env i u message s).1.dialogues
  unfolding reply
  reply-AllWellFormed i u message s all =
      bind-keeps (λ (x : Store). AllWellFormed x.dialogues) (plan_reply cfg env i u message) _ s
        (IsReadOnly-plan_reply cfg env i u message)
        (λ p h all'.
          let q = plan_reply-ok cfg env i u message s p h in
          finalise-AllWellFormed p.dialogue p.transition p.mode p.parts s
            (IsPlanned-IsWellFormed cfg env i u message s p q
              (lookup-AllWellFormed i q.before s.dialogues all' q.stored).0)
            all')
        all
