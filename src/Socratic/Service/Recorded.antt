-- ===== src/Socratic/Service/Recorded.antt =====
-- What a reply that returns has stored: the dialogue that it answers with can be read back, and the
-- log has one more record.
use Prim.Native.String.{String}
use ai_coaching_agent.Common.{
  ℕ, ◌≡◌, refl, sym, ap, subst, ◌∙◌, inl, inr, false, Option, none, some, [], ◌∷◌, ◌++◌, Result, ok,
  err, arith, length, ◌==◌,
}
use ai_coaching_agent.Common.Dict.{lookup, insert, lookup-insert, lookup-insert_self}
use ai_coaching_agent.Socratic.Machine.{Transition}
use ai_coaching_agent.Socratic.Dialogue.{
  Dialogue, FourPartAnswer, GuidingQuestionResult, InteractionLogRecord, ModeState,
}
use ai_coaching_agent.Socratic.Service.State.{
  Store, ProviderError, ServiceError, Env, Config, Action, pure, continue, ◌>>=◌, ◌>>◌, modify,
  unless_fails, with_dialogue, with_interaction, save_dialogue, append,
}
use ai_coaching_agent.Socratic.Service.Turn.{
  SocraticTurn, Parts, answer_for, open_exchange, log_record, logged, turn_of, finalise,
}
use ai_coaching_agent.Socratic.Service.Reply.{moved, plan_reply, Planned, reply}
use ai_coaching_agent.Socratic.Service.Safety.{
  IsReadOnly, IsReadOnly-answer_for, IsReadOnly-plan_reply,
}
use ai_coaching_agent.Socratic.Service.Steps.{Opening, IsPlanned, plan_reply-ok}
use ai_coaching_agent.Socratic.Service.Toggle.{IsKeyedById}

-- A read-only action, and then one that, if it returns b, leaves a store of Q.
pub bind-returns :
    {A B : Type 0} (Q : Store → Type 0) (m : Action A) (f : A → Action B) (b : B) (s : Store)
    → IsReadOnly m
    → ((a : A) → (m s).0 ≡ ok a → (f a s).0 ≡ ok b → Q (f a s).1)
    → ((m >>= f) s).0 ≡ ok b
    → Q ((m >>= f) s).1
bind-returns {A} Q m f b s hm hf h = go (m s).0 (m s).1 (hm.at s) hf h
  where
    go :
        (r : Result ServiceError A) (s' : Store)
        → s' ≡ s
        → ((a : A) → r ≡ ok a → (f a s).0 ≡ ok b → Q (f a s).1)
        → (continue r f s').0 ≡ ok b
        → Q (continue r f s').1
    go (ok a) s' q k h' =
        subst (λ x. Q (f a x).1) (sym q) (k a refl (subst (λ x. (f a x).0 ≡ ok b) q h'))
    go (err x) s' q k h' = absurd (ground (arith, h'))

-- Three writes that returned were all made.
three_writes-ok :
    {A : Type 0} (o1 o2 o3 : Option ProviderError) (f1 f2 f3 : Store → Store) (a b : A) (s : Store)
    → let (r, s') =
        (unless_fails o1 (modify f1)
            >> (unless_fails o2 (modify f2) >> (unless_fails o3 (modify f3) >> pure a)))
          s in
      r ≡ ok b → (a ≡ b) × (s' ≡ f3 (f2 (f1 s)))
three_writes-ok (some x) o2 o3 f1 f2 f3 a b s h = absurd (ground (arith, h))
three_writes-ok none (some x) o3 f1 f2 f3 a b s h = absurd (ground (arith, h))
three_writes-ok none none (some x) f1 f2 f3 a b s h = absurd (ground (arith, h))
three_writes-ok none none none f1 f2 f3 a b s h = (ground (arith, h), refl)

-- What a turn on a dialogue leaves: the dialogue under its id, as the turn shows it, every other
-- dialogue and every mode as before, and one more record, which names the turn's
-- interaction and the dialogue.
pub record IsRecorded (i : ℕ) (turn : SocraticTurn) (before after : Store) : Type 0 where
  pub dialogue : Dialogue
  pub stored : lookup i after.dialogues ≡ some dialogue
  pub shown :
      (turn.dialogue_id ≡ some i)
      × (turn.state ≡ some dialogue.state)
      × (turn.resolution ≡ dialogue.resolution)
      × (turn.exchanges_used ≡ length dialogue.exchanges)
  pub last_interaction : dialogue.last_interaction_id ≡ turn.interaction_id
  pub others : (k : ℕ) → (i == k) ≡ false → lookup k after.dialogues ≡ lookup k before.dialogues
  pub modes : after.modes ≡ before.modes
  pub entry : InteractionLogRecord
  pub logged_last : after.interactions ≡ before.interactions ++ entry ∷ []
  pub entry_of_turn :
      (some entry.interaction_id ≡ turn.interaction_id)
      × (entry.dialogue_id ≡ i)
      × (entry.user_id ≡ dialogue.user_id)
      × (entry.response_kind ≡ turn.response_kind)

module _ (cfg : Config) (env : Env) where
  pub finalise-IsRecorded :
      (d : Dialogue) (t : Transition) (mode : ModeState) (parts : Parts) (turn : SocraticTurn)
      (s : Store)
      → (finalise cfg env d t mode parts s).0 ≡ ok turn
      → IsRecorded d.dialogue_id turn s (finalise cfg env d t mode parts s).1
  unfolding finalise save_dialogue append
  finalise-IsRecorded d t mode parts turn s =
      bind-returns (IsRecorded d.dialogue_id turn s) (answer_for cfg env d t) _ turn s
        (IsReadOnly-answer_for cfg env d t)
        (λ a _ h.
          let (same, left) =
            three_writes-ok (env.dialogue_save_fails 1 d) env.append_fails
              (env.dialogue_save_fails 2 (logged cfg env d)) (with_dialogue d)
              (with_interaction (log_record cfg env d t)) (with_dialogue (logged cfg env d))
              (turn_of cfg env d t mode parts a) turn s h in
          subst (IsRecorded d.dialogue_id turn s) (sym left) (
            subst
              (λ x. IsRecorded d.dialogue_id x s (
                with_dialogue (logged cfg env d)
                  (with_interaction (log_record cfg env d t) (with_dialogue d s))))
              same (written d t mode parts a s)))
    where
      written :
          (d : Dialogue) (t : Transition) (mode : ModeState) (parts : Parts)
          (a : Option FourPartAnswer) (s : Store)
          → IsRecorded d.dialogue_id (turn_of cfg env d t mode parts a) s (
              with_dialogue
                (logged cfg env d)
                (with_interaction (log_record cfg env d t) (with_dialogue d s)))
      written d t mode parts a s =
          let once = insert d.dialogue_id d s.dialogues in
          record {
            dialogue = logged cfg env d;
            stored = lookup-insert_self d.dialogue_id (logged cfg env d) once;
            shown = (refl, refl, refl, refl);
            last_interaction = refl;
            others = λ k other. ground (
              arith,
              lookup-insert d.dialogue_id k (logged cfg env d) once,
              lookup-insert d.dialogue_id k d s.dialogues,
            );
            modes = refl;
            entry = log_record cfg env d t;
            logged_last = refl;
            entry_of_turn = (refl, refl, refl, refl);
          }

  Opening-id :
      (o : Option GuidingQuestionResult) (t : Transition) (d next : Dialogue)
      → Opening cfg env o t d next
      → next.dialogue_id ≡ d.dialogue_id
  unfolding open_exchange
  Opening-id o t d next (inl (_, q)) = ap (λ (x : Dialogue). x.dialogue_id) q
  Opening-id o t d next (inr (g, _, _, q)) = ap (λ (x : Dialogue). x.dialogue_id) q

  IsPlanned-id :
      (i u : ℕ) (message : String) (s : Store) (p : Planned)
      → IsKeyedById s.dialogues
      → IsPlanned cfg env i u message s p
      → p.dialogue.dialogue_id ≡ i
  unfolding moved
  IsPlanned-id i u message s p keyed q =
      ap (λ (x : Dialogue). x.dialogue_id) q.after
      ∙ (Opening-id q.found.generated p.transition _ q.next q.opening ∙ keyed i q.before q.stored)

  -- If every dialogue is stored under its own id, a reply that returns a turn has stored what the
  -- turn shows: the dialogue replied to, read back by its id, has the state, the resolution, the
  -- number of exchanges and the last interaction of the turn; every other dialogue and every mode is
  -- as before; and the log has exactly one more record, with the interaction of the turn, for that
  -- dialogue and its learner, of the kind of the response.
  pub reply-IsRecorded :
      (i u : ℕ) (message : String) (turn : SocraticTurn) (s : Store)
      → IsKeyedById s.dialogues
      → (reply cfg env i u message s).0 ≡ ok turn
      → IsRecorded i turn s (reply cfg env i u message s).1
  unfolding reply
  reply-IsRecorded i u message turn s keyed =
      bind-returns (IsRecorded i turn s) (plan_reply cfg env i u message) _ turn s
        (IsReadOnly-plan_reply cfg env i u message)
        (λ p hp h.
          subst
            (λ k. IsRecorded k turn s (finalise cfg env p.dialogue p.transition p.mode p.parts s).1)
            (IsPlanned-id i u message s p keyed (plan_reply-ok cfg env i u message s p hp))
            (finalise-IsRecorded p.dialogue p.transition p.mode p.parts turn s h))
