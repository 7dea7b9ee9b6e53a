-- ===== src/Socratic/Service/Reachable.antt =====
-- What the operations of the service can reach: every store is sound.
use Prim.Native.String.{String}
use ai_coaching_agent.Common.{
  ℕ, ◌≤◌, ◌≡◌, sym, subst, inl, inr, Bool, true, false, not, ◌||◌, Option, none, some, List, [],
  ◌∷◌, Bool-cases, ◌==◌, All, if◌then◌else◌,
}
use ai_coaching_agent.Common.Dict
use ai_coaching_agent.Socratic.Vocabulary.{DialogueEvent, is_terminal}
use ai_coaching_agent.Socratic.Machine.{Transition, lookup}
use ai_coaching_agent.Socratic.Machine.Table.{is_closed, lookup-IsLawful}
use ai_coaching_agent.Socratic.Dialogue.{Dialogue, is_open}
use ai_coaching_agent.Socratic.Service.State.{
  Store, ProviderError, Env, Config, Action, pure, gets, unless_fails, ◌>>=◌, save_dialogue,
  save_mode, for_session,
}
use ai_coaching_agent.Socratic.Service.Turn.{of_machine, mode_state}
use ai_coaching_agent.Socratic.Service.Reply.{reply}
use ai_coaching_agent.Socratic.Service.Ask.{
  ask, abandoned_by, close_each, close_in_flight, set_mode,
}
use ai_coaching_agent.Socratic.Service.Safety.{
  IsReadOnly-mode_state, IsReadOnly-of_machine, bind-keeps, Preserves, bind-Preserves,
  unless_fails-Preserves,
}
use ai_coaching_agent.Socratic.Service.Steps.{of_machine-ok}
use ai_coaching_agent.Socratic.Service.Invariant.{
  IsWellFormed, AllWellFormed, Sound, save_dialogue-Preserves, lookup-AllWellFormed,
  reply-AllWellFormed,
}
use ai_coaching_agent.Socratic.Service.Opening.{ask-AllWellFormed}
use ai_coaching_agent.Socratic.Service.Toggle.{close_each-skip, NoneOpen, set_mode-closes}
use ai_coaching_agent.Socratic.Service.Succeeds.{Returns, IsUp, IsStoring}
use ai_coaching_agent.Socratic.Service.Total.{reply-Returns}

abandoned_by-IsWellFormed :
    (env : Env) (t : Transition) (d : Dialogue)
    → is_closed t.resolution ≡ is_terminal t.target
    → IsWellFormed d
    → IsWellFormed (abandoned_by env t d)
abandoned_by-IsWellFormed env t d h w = record {
  asking = record {
    has_asked = w.asking.has_asked;
    within_cap = w.asking.within_cap;
    numbered = w.asking.numbered;
    profile = w.asking.profile;
  };
  resolution_iff_terminal = h;
}

for_session-All :
    (i : ℕ) (ds : Dict.Dict Dialogue) → AllWellFormed ds → All IsWellFormed (for_session i ds)
unfolding for_session
for_session-All i [] all = tt
for_session-All i ((j, d) ∷ ds) all = elim (Bool-cases (d.session_id == i)) [
  | inl same ↦ rw same (all.0.0, for_session-All i ds all.1)
  | inr other ↦ rw other (for_session-All i ds all.1)
]

close_each-AllWellFormed :
    (env : Env) (u : ℕ) (left : List Dialogue) (s : Store)
    → All IsWellFormed left
    → AllWellFormed s.dialogues
    → AllWellFormed (close_each env u left s).1.dialogues
unfolding close_each
close_each-AllWellFormed env u [] s ws all = all
close_each-AllWellFormed env u (d ∷ left) s ws all =
    elim (Bool-cases (not (is_open d) || not (d.user_id == u))) [
      | inl skip ↦
          subst (λ r. AllWellFormed r.1.dialogues) (sym (close_each-skip env u d left s skip))
            (close_each-AllWellFormed env u left s ws.1 all)
      | inr due ↦ rw due (
          bind-keeps Sound (of_machine (lookup (some d.state) DialogueEvent.mode_toggled_off)) _ s
            (IsReadOnly-of_machine _)
            (λ t h.
              let row =
                of_machine-ok (lookup (some d.state) DialogueEvent.mode_toggled_off) s t h in
              let lawful =
                (lookup-IsLawful (some d.state) DialogueEvent.mode_toggled_off t row).0 in
              let w = abandoned_by-IsWellFormed env t d lawful.closes ws.0 in
              bind-Preserves Sound (save_dialogue env 1 (abandoned_by env t d)) _
                (save_dialogue-Preserves env 1 (abandoned_by env t d) w)
                (λ _.
                  bind-Preserves Sound (close_each env u left) _
                    (λ x all'. close_each-AllWellFormed env u left x ws.1 all') (λ _ x all'. all'))
                s)
            all)
    ]

-- An action that goes on with what it read.
read-Preserves :
    {A B : Type 0} (P : Store → Type 0) (o : Option ProviderError) (f : Store → A)
    (k : A → Action B)
    → ((s : Store) → P s → P (k (f s) s).1)
    → Preserves P (unless_fails o (gets f) >>= k)
read-Preserves P none f k h = h
read-Preserves P (some e) f k h = λ s p. p

close_in_flight-Preserves : (env : Env) (i u : ℕ) → Preserves Sound (close_in_flight env i u)
unfolding close_in_flight
close_in_flight-Preserves env i u =
    read-Preserves Sound env.session_read_fails (λ s. for_session i s.dialogues) (close_each env u)
      (λ s all.
        close_each-AllWellFormed env u (for_session i s.dialogues) s
          (for_session-All i s.dialogues all) all)

-- Turning the mode on or off, whether it returns or raises, keeps every stored dialogue under its
-- own id and well formed.
set_mode-AllWellFormed :
    (env : Env) (i u : ℕ) (enabled : Bool) (s : Store)
    → AllWellFormed s.dialogues
    → AllWellFormed (set_mode env i u enabled s).1.dialogues
unfolding set_mode save_mode
set_mode-AllWellFormed env i u enabled =
    bind-Preserves Sound (mode_state env i u) _
      (λ s all. subst Sound (sym ((IsReadOnly-mode_state env i u).at s)) all)
      (λ _.
        bind-Preserves Sound (save_mode env i enabled u) _
          (unless_fails-Preserves Sound env.mode_save_fails _ (λ s all. all))
          (λ _.
            bind-Preserves Sound (if enabled then pure [] else close_in_flight env i u) _
              (closing env i u enabled) (λ _ s all. all)))
  where
    closing :
        (env : Env) (i u : ℕ) (b : Bool)
        → Preserves Sound (if b then pure [] else close_in_flight env i u)
    closing env i u true = λ s all. all
    closing env i u false = close_in_flight-Preserves env i u

abbrev pub empty_store : Store
empty_store = record { dialogues = []; modes = []; interactions = [] }

-- The stores that calls of the service lead to, from an empty one: each call may return or raise,
-- and the outside may answer it in any way.
pub data Reaches (cfg : Config) : Store → Type 0 where
  from_empty : Reaches cfg empty_store
  by_ask :
      (env : Env) (i u : ℕ) (q : String) (tag : Option String) (s : Store)
      → Reaches cfg s
      → Reaches cfg (ask cfg env i u q tag s).1
  by_reply :
      (env : Env) (i u : ℕ) (message : String) (s : Store)
      → Reaches cfg s
      → Reaches cfg (reply cfg env i u message s).1
  by_set_mode :
      (env : Env) (i u : ℕ) (enabled : Bool) (s : Store)
      → Reaches cfg s
      → Reaches cfg (set_mode env i u enabled s).1

-- With a configured cap of at least 1, in every store that calls of `ask`, `reply` and `set_mode`
-- lead to from an empty one, however they end, each dialogue is under its own id and well formed.
pub Reaches-AllWellFormed :
    (cfg : Config) (s : Store)
    → 1 ≤ cfg.socratic_exchange_cap
    → Reaches cfg s
    → AllWellFormed s.dialogues
Reaches-AllWellFormed cfg _ cap from_empty = tt
Reaches-AllWellFormed cfg _ cap (by_ask env i u q tag s r) =
    ask-AllWellFormed cfg env i u q tag s cap (Reaches-AllWellFormed cfg s cap r)
Reaches-AllWellFormed cfg _ cap (by_reply env i u message s r) =
    reply-AllWellFormed cfg env i u message s (Reaches-AllWellFormed cfg s cap r)
Reaches-AllWellFormed cfg _ cap (by_set_mode env i u enabled s r) =
    set_mode-AllWellFormed env i u enabled s (Reaches-AllWellFormed cfg s cap r)

-- In a store that the service can reach, with a configured cap of at least 1, a reply to an open
-- dialogue of the learner is answered whenever the learner may see the session's mode, the
-- providers answer in time, the guards accept what is generated and no repository fails.
pub reply-Returns_reachable :
    (cfg : Config) (env : Env) (i u : ℕ) (message : String) (s : Store) (d : Dialogue)
    → 1 ≤ cfg.socratic_exchange_cap
    → Reaches cfg s
    → IsUp cfg env
    → Dict.lookup i s.dialogues ≡ some d
    → d.user_id ≡ u
    → is_terminal d.state ≡ false
    → Returns (mode_state env d.session_id u) s
    → Returns (reply cfg env i u message) s
reply-Returns_reachable cfg env i u message s d cap r up stored owned going_on mode =
    reply-Returns cfg env up i u message s d stored owned going_on
      ((lookup-AllWellFormed i d s.dialogues (Reaches-AllWellFormed cfg s cap r) stored).0.asking)
      mode

-- In a store that the service can reach, with a configured cap of at least 1, turning the mode off
-- for a session whose mode the learner may see returns if no repository fails, and then no dialogue
-- of the learner is open in the session.
pub set_mode-closes_reachable :
    (cfg : Config) (env : Env) (i u : ℕ) (s : Store)
    → 1 ≤ cfg.socratic_exchange_cap
    → Reaches cfg s
    → IsStoring env
    → Returns (mode_state env i u) s
    → Returns (set_mode env i u false) s × NoneOpen i u (set_mode env i u false s).1.dialogues
set_mode-closes_reachable cfg env i u s cap r up mode =
    set_mode-closes env i u s
      (λ k d h. (lookup-AllWellFormed k d s.dialogues (Reaches-AllWellFormed cfg s cap r) h).1) up
      mode
