-- ===== src/Socratic/Service/Toggle.antt =====
-- Turning the mode off leaves no dialogue of the learner open in the session.
use ai_coaching_agent.Common.{
  ℕ, ◌≡◌, refl, sym, ap, subst, ◌⊎◌, inl, inr, Bool, true, false, not, ◌||◌, none, some, List, [],
  ◌∷◌, Result, ok, arith, Bool-cases, if◌then◌else◌, ◌==◌, keep, map,
}
use ai_coaching_agent.Common.Dict
use ai_coaching_agent.Socratic.Vocabulary.{DialogueState, DialogueEvent, is_terminal}
use ai_coaching_agent.Socratic.Machine.{Transition, lookup}
use ai_coaching_agent.Socratic.Dialogue.{Dialogue, ModeState, is_open}
use ai_coaching_agent.Socratic.Service.State.{
  Store, ServiceError, Env, save_dialogue, save_mode, mode_to_save, for_session,
}
use ai_coaching_agent.Socratic.Service.Turn.{of_machine, mode_state}
use ai_coaching_agent.Socratic.Service.Ask.{abandoned_by, close_each, close_in_flight, set_mode}
use ai_coaching_agent.Socratic.Service.Safety.{IsReadOnly-mode_state}
use ai_coaching_agent.Socratic.Service.Succeeds.{Returns, IsStoring}

-- `dialogue in dialogues`
abbrev Among : Dialogue → List Dialogue → Type 0
Among d [] = ⊥
Among d (x ∷ xs) = (d ≡ x) ⊎ Among d xs

-- Every dialogue is stored under its own id.
abbrev pub IsKeyedById : Dict.Dict Dialogue → Type 0
IsKeyedById ds = (k : ℕ) (d : Dialogue) → Dict.lookup k ds ≡ some d → d.dialogue_id ≡ k

-- The learner's open dialogues of the session are among those given.
abbrev OpenAmong : ℕ → ℕ → List Dialogue → Dict.Dict Dialogue → Type 0
OpenAmong session_id user_id left ds =
    (k : ℕ) (d : Dialogue)
    → Dict.lookup k ds ≡ some d
    → d.session_id ≡ session_id
    → d.user_id ≡ user_id
    → is_open d ≡ true
    → Among d left

-- No dialogue of the learner is open in the session.
abbrev pub NoneOpen : ℕ → ℕ → Dict.Dict Dialogue → Type 0
NoneOpen session_id user_id ds =
    (k : ℕ) (d : Dialogue)
    → Dict.lookup k ds ≡ some d
    → d.session_id ≡ session_id
    → d.user_id ≡ user_id
    → is_open d ≡ false

Among-later :
    (b : Bool) (d x : Dialogue) (xs : List Dialogue)
    → Among d xs
    → Among d (if b then x ∷ xs else xs)
Among-later true d x xs h = inr h
Among-later false d x xs h = h

Among-head :
    (b : Bool) (d x : Dialogue) (xs : List Dialogue)
    → b ≡ true
    → d ≡ x
    → Among d (if b then x ∷ xs else xs)
Among-head true d x xs h q = inl q
Among-head false d x xs h q = absurd (ground arith)

for_session-Among :
    (session_id user_id : ℕ) (ds : Dict.Dict Dialogue)
    → OpenAmong session_id user_id (for_session session_id ds) ds
unfolding for_session Dict.lookup
for_session-Among i u [] k d h hs hu o = absurd (ground arith)
for_session-Among i u ((j, x) ∷ ds) k d h hs hu o =
    let rest =
      keep (λ (e : Dialogue). e.session_id == i) (map (λ (row : ℕ × Dialogue). row.1) ds) in
    elim (Bool-cases (j == k)) [
      | inl same ↦
          let q : d ≡ x = ground arith in
          Among-head (x.session_id == i) d x rest
            (ground (arith, ap (λ (e : Dialogue). e.session_id) q)) q
      | inr other ↦
          Among-later (x.session_id == i) d x rest
            (for_session-Among i u ds k d (ground arith) hs hu o)
    ]

-- The table closes an open dialogue.
toggled_at :
    (s : DialogueState)
    → is_terminal s ≡ false
    → (t : Transition) × (lookup (some s) DialogueEvent.mode_toggled_off ≡ ok t)
      × (t.target ≡ DialogueState.abandoned)
unfolding lookup is_terminal
toggled_at DialogueState.awaiting_learner_response h = (_, refl, refl)
toggled_at DialogueState.awaiting_exit_confirmation h = (_, refl, refl)
toggled_at DialogueState.resolved h = absurd (ground arith)
toggled_at DialogueState.capped h = absurd (ground arith)
toggled_at DialogueState.exited_for_question h = absurd (ground arith)
toggled_at DialogueState.abandoned h = absurd (ground arith)

open-going_on : (d : Dialogue) → is_open d ≡ true → is_terminal d.state ≡ false
unfolding is_terminal
open-going_on d h = ground arith

module _ (env : Env) (d : Dialogue) (t : Transition) (ds : Dict.Dict Dialogue) where
  abandon-IsKeyedById :
      IsKeyedById ds → IsKeyedById (Dict.insert d.dialogue_id (abandoned_by env t d) ds)
  abandon-IsKeyedById h k e q =
      ground (arith, Dict.lookup-insert d.dialogue_id k (abandoned_by env t d) ds, h k e)

  abandon-OpenAmong :
      (session_id user_id : ℕ) (left : List Dialogue)
      → t.target ≡ DialogueState.abandoned
      → IsKeyedById ds
      → OpenAmong session_id user_id (d ∷ left) ds
      → OpenAmong session_id user_id left (Dict.insert d.dialogue_id (abandoned_by env t d) ds)
  abandon-OpenAmong i u left shut keyed among k e h hs hu o =
      elim (Bool-cases (d.dialogue_id == k)) [
        | inl same ↦
            absurd (ground (arith, Dict.lookup-insert d.dialogue_id k (abandoned_by env t d) ds))
        | inr other ↦
            let old : Dict.lookup k ds ≡ some e =
              ground (arith, Dict.lookup-insert d.dialogue_id k (abandoned_by env t d) ds) in
            elim (among k e old hs hu o) [
              | inl q ↦ absurd (ground (arith, keyed k e old, q))
              | inr rest ↦ rest
            ]
      ]

-- One step of the loop.
module _ (env : Env) (u : ℕ) (d : Dialogue) (left : List Dialogue) (s : Store) where
  pub close_each-skip :
      (not (is_open d) || not (d.user_id == u)) ≡ true
      → close_each env u (d ∷ left) s ≡ close_each env u left s
  unfolding close_each
  close_each-skip h = ground arith

  close_each-step :
      (t : Transition)
      → (not (is_open d) || not (d.user_id == u)) ≡ false
      → env.dialogue_save_fails 1 (abandoned_by env t d) ≡ none
      → lookup (some d.state) DialogueEvent.mode_toggled_off ≡ ok t
      → (closed : List ℕ)
      → (close_each env u left
          (record s { dialogues = Dict.insert d.dialogue_id (abandoned_by env t d) s.dialogues })).0
        ≡ ok closed
      → close_each env u (d ∷ left) s ≡ (
        ok (d.dialogue_id ∷ closed),
        (close_each env u left (record s {
          dialogues = Dict.insert d.dialogue_id (abandoned_by env t d) s.dialogues;
        })).1,
      )
  unfolding close_each of_machine save_dialogue
  close_each-step t h up row closed rest = ground arith

-- A run that returned and left none open.
abbrev HasClosed : ℕ → ℕ → Result ServiceError (List ℕ) × Store → Type 0
HasClosed i u r = ((closed : List ℕ) × (r.0 ≡ ok closed)) × OpenAmong i u [] r.1.dialogues

close_each-nil :
    (env : Env) (i u : ℕ) (s : Store)
    → OpenAmong i u [] s.dialogues
    → HasClosed i u (close_each env u [] s)
unfolding close_each
close_each-nil env i u s among = (([], refl), among)

-- Every step is taken, and then none is left open.
close_each-closes :
    (env : Env) (up : IsStoring env) (i u : ℕ) (left : List Dialogue) (s : Store)
    → IsKeyedById s.dialogues
    → OpenAmong i u left s.dialogues
    → HasClosed i u (close_each env u left s)
close_each-closes env up i u [] s keyed among = close_each-nil env i u s among
close_each-closes env up i u (d ∷ left) s keyed among =
    elim (Bool-cases (not (is_open d) || not (d.user_id == u))) [
      | inl skip ↦
          let rest = close_each-closes env up i u left s keyed (λ k e h hs hu o.
            elim (among k e h hs hu o) [
              | inl q ↦ absurd (ground (arith, ap is_open q, ap (λ (x : Dialogue). x.user_id) q))
              | inr r ↦ r
            ]) in
          subst (HasClosed i u) (sym (close_each-skip env u d left s skip)) rest
      | inr due ↦
          let (t, row, target) = toggled_at d.state (open-going_on d (ground arith)) in
          let s' : Store = record s {
            dialogues = Dict.insert d.dialogue_id (abandoned_by env t d) s.dialogues;
          } in
          let ((closed, hc), none_left) =
            close_each-closes env up i u left s' (abandon-IsKeyedById env d t s.dialogues keyed)
              (abandon-OpenAmong env d t s.dialogues i u left target keyed among) in
          let step = close_each-step env u d left s t due (up.saves_dialogue 1 _) row closed hc in
          subst (HasClosed i u) (sym step) ((_, refl), none_left)
    ]

close_in_flight-run :
    (env : Env) (i u : ℕ) (s : Store)
    → env.session_read_fails ≡ none
    → close_in_flight env i u s ≡ close_each env u (for_session i s.dialogues) s
unfolding close_in_flight
close_in_flight-run env i u s up = ground arith

close_in_flight-closes :
    (env : Env) (up : IsStoring env) (i u : ℕ) (s : Store)
    → IsKeyedById s.dialogues
    → HasClosed i u (close_in_flight env i u s)
unfolding close_in_flight
close_in_flight-closes env up i u s keyed =
    subst (HasClosed i u) (sym (close_in_flight-run env i u s up.reads_session)) (
      close_each-closes env up i u (for_session i s.dialogues) s keyed
        (for_session-Among i u s.dialogues))

save_mode-run :
    (env : Env) (i : ℕ) (b : Bool) (u : ℕ) (s : Store)
    → env.mode_save_fails ≡ none
    → let state = mode_to_save env i b u s in
      save_mode env i b u s ≡ (ok state, record s { modes = Dict.insert i state s.modes })
unfolding save_mode
save_mode-run env i b u s up = ground arith

-- `set_mode` by its parts, where the ownership check passes.
set_mode-run :
    (env : Env) (i u : ℕ) (s s2 : Store) (mode state : ModeState) (closed : List ℕ)
    → mode_state env i u s ≡ (ok mode, s)
    → save_mode env i false u s ≡ (ok state, s2)
    → (close_in_flight env i u s2).0 ≡ ok closed
    → set_mode env i u false s ≡ (ok (state, closed), (close_in_flight env i u s2).1)
unfolding set_mode
set_mode-run env i u s s2 mode state closed hm hs hc = ground arith

closed-NoneOpen : (i u : ℕ) (ds : Dict.Dict Dialogue) → OpenAmong i u [] ds → NoneOpen i u ds
closed-NoneOpen i u ds among k d h hs hu = elim (Bool-cases (is_open d)) [
  | inl o ↦ absurd (among k d h hs hu o)
  | inr shut ↦ shut
]

abbrev HasTurnedOff : ℕ → ℕ → Result ServiceError (ModeState × List ℕ) × Store → Type 0
HasTurnedOff i u r = ((a : ModeState × List ℕ) × (r.0 ≡ ok a)) × NoneOpen i u r.1.dialogues

-- If every dialogue is stored under its own id, the learner may see the session's mode and no
-- repository fails, turning the mode off returns, and then no dialogue of the learner is open in the session.
pub set_mode-closes :
    (env : Env) (i u : ℕ) (s : Store)
    → IsKeyedById s.dialogues
    → IsStoring env
    → Returns (mode_state env i u) s
    → Returns (set_mode env i u false) s × NoneOpen i u (set_mode env i u false s).1.dialogues
set_mode-closes env i u s keyed up (mode, h) =
    let state = mode_to_save env i false u s in
    let s2 : Store = record s { modes = Dict.insert i state s.modes } in
    let ((closed, hc), none_left) = close_in_flight-closes env up i u s2 keyed in
    let mode_read : mode_state env i u s ≡ (ok mode, s) =
      ground (arith, h, (IsReadOnly-mode_state env i u).at s) in
    let run =
      set_mode-run env i u s s2 mode state closed mode_read
        (save_mode-run env i false u s up.saves_mode) hc in
    subst (HasTurnedOff i u) (sym run) ((_, refl), closed-NoneOpen i u _ none_left)
