-- ===== src/Streak/Answer/Accept.antt =====
-- Accepting an offer: what it restores, at most once a month.
use ai_coaching_agent.Common.{
  ℕ, ◌+◌, ◌≡◌, refl, ap, subst, ◌∙◌, true, false, ◌&&◌, Option, none, some, Result, ok, err, arith,
  Bool-cases, inl, inr, if◌then◌else◌, max,
}
use ai_coaching_agent.Common.Dict.{lookup, insert, lookup-insert}
use ai_coaching_agent.Streak.Time.{Moment, same_utc_month}
use ai_coaching_agent.Streak.Records.{StreakRecord, FreezeOffer, accepted}
use ai_coaching_agent.Streak.Rules.{freeze_available_at, apply_freeze_acceptance}
use ai_coaching_agent.Streak.Rules.Builders.{apply_freeze_acceptance-Follows}
use ai_coaching_agent.Streak.Store.{World, Env, ServiceError, save_row, save_streak}
use ai_coaching_agent.Streak.Writer.{persist}
use ai_coaching_agent.Streak.Writer.Keeps.{persist_outcomes}
use ai_coaching_agent.Streak.Freeze.{save_offer, open_offer}
use ai_coaching_agent.Streak.Service.Frame.{written, streaks-open_offer}
use ai_coaching_agent.Streak.Service.Recording.{IsSound}
use ai_coaching_agent.Streak.Service.Invariant.{IsGrown, IsGrown-refl, IsNext, written-IsGrown}
use ai_coaching_agent.Streak.Answer.{
  StreakState, started_at, state_with, get_state, accept_for, accept_offer, accept_freeze,
  decline_freeze,
}

-- A call raised.
abbrev pub Raises {ℓ} : {A : Type ℓ} → Result ServiceError A → Type 0
Raises (ok _) = ⊥
Raises (err _) = Unit

streaks-save_offer :
    (env : Env) (o : FreezeOffer) (w : World) → (save_offer env o w).streaks ≡ w.streaks
unfolding save_offer save_row
streaks-save_offer env o w = ground arith

streaks-state_with :
    (env : Env) (u : ℕ) (r : StreakRecord) (o : Option FreezeOffer) (w : World)
    → (state_with env u r o w).1.streaks ≡ w.streaks
unfolding state_with
streaks-state_with env u r o w = ground arith

-- Reading the state writes no streak.
pub streaks-get_state : (env : Env) (u : ℕ) (w : World) → (get_state env u w).1.streaks ≡ w.streaks
unfolding get_state
streaks-get_state env u w = ground (arith, streaks-open_offer env u w)

-- Declining an offer writes no streak: the reset was applied when the offer was made.
pub streaks-decline_freeze :
    (env later : Env) (u : ℕ) (w : World) → (decline_freeze env later u w).1.streaks ≡ w.streaks
unfolding decline_freeze
streaks-decline_freeze env later u w =
    grind (arith, streaks-open_offer env u w, streaks-get_state, streaks-save_offer)

-- What accepting an open offer leaves of the streaks.
accept_for-streaks :
    (env : Env) (u : ℕ) (offer : FreezeOffer) (r : StreakRecord) (w : World)
    → (accept_for env u offer (some r) w).1.streaks ≡ (
        if freeze_available_at env.now r.freeze_used_at
          && started_at r.streak_started_at offer.offered_at
        then written env (apply_freeze_acceptance r offer env.now) w
        else w.streaks)
unfolding accept_for save_streak
accept_for-streaks env u offer r w =
    let m = apply_freeze_acceptance r offer env.now in
    let (p, w') = persist env m (some r) w in
    ground (
      arith,
      persist_outcomes env m (some r) w,
      streaks-save_offer env (record offer { status = accepted; answered_at = some env.now }) w',
    )

-- The offer that is open to a learner, and the record that an acceptance would restore.
abbrev restored : Env → FreezeOffer → StreakRecord → StreakRecord
restored env offer r = apply_freeze_acceptance r offer env.now

-- What a call that returned has done: an offer was open, the learner's record matched it, no
-- freeze was used in this month, and the restored record was written.
pub record IsAccepted (env : Env) (u : ℕ) (w w' : World) : Type 0 where
  pub offer : FreezeOffer
  pub before : StreakRecord
  pub was_open : (open_offer env u w).0 ≡ some offer
  pub stored : lookup u w.streaks ≡ some before
  pub unused : freeze_available_at env.now before.freeze_used_at ≡ true
  pub matches : started_at before.streak_started_at offer.offered_at ≡ true
  pub streaks : w'.streaks ≡ insert before.user_id (restored env offer before) w.streaks

accept_for-ok :
    (env : Env) (u : ℕ) (offer : FreezeOffer) (existing : Option StreakRecord) (w : World)
    (st : StreakState)
    → (accept_for env u offer existing w).0 ≡ ok st
    → (r : StreakRecord) × (existing ≡ some r)
      × (freeze_available_at env.now r.freeze_used_at ≡ true)
      × (started_at r.streak_started_at offer.offered_at ≡ true)
      × ((env.streak_write_fails 1 && env.streak_write_fails 2) ≡ false)
unfolding accept_for
accept_for-ok env u offer none w st e = absurd (ground arith)
accept_for-ok env u offer (some r) w st e =
    let m = restored env offer r in
    (
      r,
      refl,
      ground (arith, persist_outcomes env m (some r) w),
      ground (arith, persist_outcomes env m (some r) w),
      ground (arith, persist_outcomes env m (some r) w),
    )

accept_offer-ok :
    (env : Env) (u : ℕ) (w : World) (o : Option FreezeOffer) (w1 : World) (st : StreakState)
    → open_offer env u w ≡ (o, w1)
    → (accept_offer env u (o, w1)).0 ≡ ok st
    → IsAccepted env u w (accept_offer env u (o, w1)).1
unfolding accept_offer apply_freeze_acceptance
accept_offer-ok env u w none w1 st op e = absurd (ground arith)
accept_offer-ok env u w (some offer) w1 st op e =
    let same : w1.streaks ≡ w.streaks = ground (arith, streaks-open_offer env u w) in
    let (r, stored, unused, matches, written) =
      accept_for-ok env u offer (lookup u w1.streaks) w1 st (ground arith) in
    record {
      offer = offer;
      before = r;
      was_open = ap (λ (p : Option FreezeOffer × World). p.0) op;
      stored = rw (← same) stored;
      unused = unused;
      matches = matches;
      streaks = ground (arith, accept_for-streaks env u offer r w1);
    }

accept_freeze-ok :
    (env : Env) (u : ℕ) (w : World) (st : StreakState)
    → (accept_freeze env u w).0 ≡ ok st
    → IsAccepted env u w (accept_freeze env u w).1
unfolding accept_freeze
accept_freeze-ok env u w st e =
    let (o, w') = open_offer env u w in accept_offer-ok env u w o w' st refl e

-- From a sound store, an acceptance that returns adds the days that the open offer preserved to the
-- days counted since, keeps the longest streak at least as long, and spends this month's freeze.
pub accept_freeze-restores :
    (env : Env) (u : ℕ) (w : World) (st : StreakState) (offer : FreezeOffer) (r : StreakRecord)
    → IsSound w.streaks
    → (open_offer env u w).0 ≡ some offer
    → lookup u w.streaks ≡ some r
    → (accept_freeze env u w).0 ≡ ok st
    → (r' : StreakRecord) × (lookup u (accept_freeze env u w).1.streaks ≡ some r')
      × (r'.current_streak_days ≡ offer.preserved_streak_days + r.current_streak_days)
      × (r'.longest_streak_days ≡ max r.longest_streak_days r'.current_streak_days)
      × (r'.freeze_used_at ≡ some env.now)
      × (r'.last_activity_at ≡ r.last_activity_at)
unfolding apply_freeze_acceptance
accept_freeze-restores env u w st offer r sound open_to stored e =
    let a = accept_freeze-ok env u w st e in
    let same = (sound u r stored).0 in
    (
      restored env offer r,
      ground (
        arith,
        a.was_open,
        a.stored,
        a.streaks,
        lookup-insert r.user_id u (restored env offer r) w.streaks,
      ),
      refl,
      refl,
      refl,
      refl,
    )

-- A learner whose record says that a freeze was used in this calendar month.
accept_offer-refused :
    (env : Env) (u : ℕ) (o : Option FreezeOffer × World) (r : StreakRecord) (t : Moment)
    → lookup u o.1.streaks ≡ some r
    → r.freeze_used_at ≡ some t
    → same_utc_month t env.now ≡ true
    → Raises (accept_offer env u o).0
unfolding accept_offer freeze_available_at
accept_offer-refused env u (none, w) r t stored used month = tt
accept_offer-refused env u (some offer, w) r t stored used month = ground arith

-- Whatever offer is open, an acceptance raises for a learner whose record says that a freeze was
-- used in the calendar month of the call.
pub accept_freeze-refused :
    (env : Env) (u : ℕ) (w : World) (r : StreakRecord) (t : Moment)
    → lookup u w.streaks ≡ some r
    → r.freeze_used_at ≡ some t
    → same_utc_month t env.now ≡ true
    → Raises (accept_freeze env u w).0
unfolding accept_freeze
accept_freeze-refused env u w r t stored used month =
    accept_offer-refused env u (open_offer env u w) r t (ground (arith, streaks-open_offer env u w))
      used month

-- From a sound store, once an acceptance has returned, the next one in the same calendar month
-- raises, whatever offer is then open and whatever the outside answers.
pub accept_freeze-once_a_month :
    (env env' : Env) (u : ℕ) (w : World) (st : StreakState)
    → IsSound w.streaks
    → (accept_freeze env u w).0 ≡ ok st
    → same_utc_month env.now env'.now ≡ true
    → Raises (accept_freeze env' u (accept_freeze env u w).1).0
accept_freeze-once_a_month env env' u w st sound e month =
    let a = accept_freeze-ok env u w st e in
    let (r', stored, _, _, used, _) =
      accept_freeze-restores env u w st a.offer a.before sound a.was_open a.stored e in
    accept_freeze-refused env' u (accept_freeze env u w).1 r' env.now stored used month

accept_for-IsGrown :
    (env : Env) (u : ℕ) (offer : FreezeOffer) (existing : Option StreakRecord) (w : World)
    → lookup u w.streaks ≡ existing
    → IsSound w.streaks
    → IsGrown w.streaks (accept_for env u offer existing w).1.streaks
accept_for-IsGrown env u offer none w stored sound =
    unfold accept_for in IsGrown-refl w.streaks sound
accept_for-IsGrown env u offer (some r) w stored sound =
    let f = apply_freeze_acceptance-Follows r env.now offer (sound u r stored).1 in
    let next : IsNext u (lookup u w.streaks) (restored env offer r) = record {
      same_user = f.same_user ∙ (sound u r stored).0;
      is_held = f.is_held;
      follows = λ q h. ground (arith, f.longest_grows);
    } in
    rw (accept_for-streaks env u offer r w)
      (elim (Bool-cases (
        freeze_available_at env.now r.freeze_used_at
        && started_at r.streak_started_at offer.offered_at)) [
          | inl goes ↦ rw goes (written-IsGrown env u (restored env offer r) w sound next)
          | inr refused ↦ rw refused (IsGrown-refl w.streaks sound)
        ])

accept_offer-IsGrown :
    (env : Env) (u : ℕ) (o : Option FreezeOffer × World)
    → IsSound o.1.streaks
    → IsGrown o.1.streaks (accept_offer env u o).1.streaks
unfolding accept_offer
accept_offer-IsGrown env u (none, w) sound = IsGrown-refl w.streaks sound
accept_offer-IsGrown env u (some offer, w) sound = elim (Bool-cases env.streak_read_fails) [
  | inl unread ↦ simp unread (IsGrown-refl w.streaks sound)
  | inr read ↦ simp read (accept_for-IsGrown env u offer (lookup u w.streaks) w refl sound)
]

-- From a sound store, an acceptance, whether it returns or raises, leaves a sound store in which
-- every learner still has a record, with a longest streak no shorter than before.
pub accept_freeze-IsGrown :
    (env : Env) (u : ℕ) (w : World)
    → IsSound w.streaks
    → IsGrown w.streaks (accept_freeze env u w).1.streaks
unfolding accept_freeze
accept_freeze-IsGrown env u w sound =
    let same = streaks-open_offer env u w in
    subst (λ d. IsGrown d (accept_offer env u (open_offer env u w)).1.streaks) same
      (accept_offer-IsGrown env u (open_offer env u w) (rw same sound))
