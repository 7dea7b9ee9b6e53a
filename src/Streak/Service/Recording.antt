-- ===== src/Streak/Service/Recording.antt =====
-- What recording an activity does to the streaks.
use ai_coaching_agent.Common.{
  ℕ, ◌<◌, ◌≡◌, refl, false, ◌||◌, Option, some, List, [], ◌∷◌, Result, ok, err, arith, length,
  if◌then◌else◌,
}
use ai_coaching_agent.Common.Dict.{Dict, lookup, lookup-insert}
use ai_coaching_agent.Streak.Time.{Moment}
use ai_coaching_agent.Streak.Records.{
  StreakOutcome, reset, StreakRecord, FreezeOffer, ActivityWindowRead, ProviderError, IsHeld,
}
use ai_coaching_agent.Streak.Rules.{
  RuleError, decide, counted_today, window_start_for, apply_same_day, apply_increment, apply_reset,
  apply_preserve_on_degraded_source,
}
use ai_coaching_agent.Streak.Rules.Builders.{Follows}
use ai_coaching_agent.Streak.Store.{World, Env, was_processed}
use ai_coaching_agent.Streak.Freeze.{Settings}
use ai_coaching_agent.Streak.Service.{
  Intended, ResolvedSession, Continuity, prior_of, continuity_of, read_continuity, next_record,
  record_activity, replay,
}
use ai_coaching_agent.Streak.Service.Frame.{
  streaks_after, streaks-open_offer, streaks-record_intended,
}

-- Every row of a learner is under the learner's id, holds a day, and keeps a high-water mark.
abbrev pub IsSound : Dict StreakRecord → Type 0
IsSound d = (k : ℕ) (r : StreakRecord) → lookup k d ≡ some r → (r.user_id ≡ k) × IsHeld r

module _ (cfg : Settings) (u : ℕ) (r : StreakRecord) (now : Moment) (c : Continuity) where
  -- What is intended for a learner with a record follows that record.
  pub next_record-Follows :
      (r' : StreakRecord) (o : StreakOutcome) (offer : Option FreezeOffer)
      → next_record cfg u (some r) now c ≡ ok (r', o, offer)
      → IsHeld r
      → Follows r r'
  unfolding next_record decide apply_same_day apply_increment apply_reset
      apply_preserve_on_degraded_source
  next_record-Follows r' o offer e high = ground arith

  -- The record that is intended counts fewer days than before only on a reset to 1, and that
  -- is only if the source was consulted, showed no prior activity, and today was not counted.
  next_record_lower :
      (r' : StreakRecord) (o : StreakOutcome) (offer : Option FreezeOffer)
      → next_record cfg u (some r) now c ≡ ok (r', o, offer)
      → r'.current_streak_days < r.current_streak_days
      → (c.source_degraded ≡ false)
        × (c.prior_interactions_in_window ≡ 0)
        × (counted_today r.last_activity_at now ≡ false)
        × (o ≡ reset)
        × (r'.current_streak_days ≡ 1)
  unfolding next_record decide apply_same_day apply_increment apply_reset
      apply_preserve_on_degraded_source
  next_record_lower r' o offer e lower = ground arith

-- The three ways through `record_activity`.
pub streaks-record_activity :
    (cfg : Settings) (env : Env) (s : ResolvedSession) (u i : ℕ) (w : World)
    → let existing = lookup u w.streaks in
      let next = next_record cfg u existing env.now (read_continuity cfg env u i existing) in
      (record_activity cfg env s u i w).1.streaks ≡ (
        if env.streak_read_fails || env.processed_read_fails
        then w.streaks
        else if was_processed u i w
        then w.streaks
        else streaks_after env next w)
unfolding record_activity replay
streaks-record_activity cfg env s u i w =
    let c = read_continuity cfg env u i (lookup u w.streaks) in
    ground (
      arith,
      streaks-open_offer env u w,
      streaks-record_intended cfg env s u i c.activity_status
          (next_record cfg u (lookup u w.streaks) env.now c) w,
    )

-- A provider's answer that rules out prior activity of a learner.
abbrev pub ShowsNothing : ℕ → Moment → Result ProviderError ActivityWindowRead → Type 0
ShowsNothing i now (ok read) = prior_of i now read.interactions ≡ []
ShowsNothing i now (err _) = ⊥

length-eq-zero {ℓ} : {A : Type ℓ} (xs : List A) → length xs ≡ 0 → xs ≡ []
length-eq-zero [] h = refl
length-eq-zero (x ∷ xs) h = absurd (omega arith)

continuity_of-ShowsNothing :
    (cfg : Settings) (i : ℕ) (r : Option StreakRecord) (now : Moment)
    (a : Result ProviderError ActivityWindowRead)
    → (continuity_of cfg i r now a).source_degraded ≡ false
    → (continuity_of cfg i r now a).prior_interactions_in_window ≡ 0
    → ShowsNothing i now a
unfolding continuity_of
continuity_of-ShowsNothing cfg i r now (ok read) d p =
    length-eq-zero (prior_of i now read.interactions) p
continuity_of-ShowsNothing cfg i r now (err e) d p = cc

-- What a lower count proves of the next record.
abbrev pub LowerOnly : Settings → Env → ℕ → ℕ → StreakRecord → StreakRecord → Type 0
LowerOnly cfg env u i r r' =
    ShowsNothing i env.now
      (env.interactions_in_window u (window_start_for env.now cfg.window_hours))
    × (counted_today r.last_activity_at env.now ≡ false)
    × (r'.current_streak_days ≡ 1)

lower_next :
    (cfg : Settings) (env : Env) (u i : ℕ) (r : StreakRecord) (w : World)
    (n : Result RuleError Intended)
    → let c = read_continuity cfg env u i (some r) in
      next_record cfg u (some r) env.now c ≡ n
      → lookup u w.streaks ≡ some r
      → r.user_id ≡ u
      → IsHeld r
      → (r' : StreakRecord) → lookup u (streaks_after env n w) ≡ some r'
      → r'.current_streak_days < r.current_streak_days
      → LowerOnly cfg env u i r r'
unfolding continuity_of read_continuity
lower_next cfg env u i r w (err e) en er same high r' er' lower = absurd (ground arith)
lower_next cfg env u i r w (ok (m, o, offer)) en er same high r' er' lower =
    let c = read_continuity cfg env u i (some r) in
    let f = next_record-Follows cfg u r env.now c m o offer en high in
    let is_intended : m ≡ r' = ground (arith, f.same_user, lookup-insert m.user_id u m w.streaks) in
    let (fresh, none_prior, not_today, _, one) =
      next_record_lower cfg u r env.now c m o offer en (rw is_intended lower) in
    (
      continuity_of-ShowsNothing cfg i (some r) env.now
          (env.interactions_in_window u (window_start_for env.now cfg.window_hours)) fresh
          none_prior,
      not_today,
      rw is_intended at one,
    )

-- From a sound store, recording an activity for a learner lowers the stored count only to 1, and
-- only if the activity provider answered, its answer showed no other interaction in the window
-- before now, and the last activity was not counted today. So no failure of a read, a write or a
-- provider lowers a count.
pub record_activity-lower :
    (cfg : Settings) (env : Env) (s : ResolvedSession) (u i : ℕ) (w : World) (r r' : StreakRecord)
    → IsSound w.streaks
    → lookup u w.streaks ≡ some r
    → lookup u (record_activity cfg env s u i w).1.streaks ≡ some r'
    → r'.current_streak_days < r.current_streak_days
    → LowerOnly cfg env u i r r'
record_activity-lower cfg env s u i w r r' sound er er' lower =
    let c = read_continuity cfg env u i (some r) in
    lower_next cfg env u i r w (next_record cfg u (some r) env.now c) refl er (sound u r er).0
      (sound u r er).1 r' (ground (arith, streaks-record_activity cfg env s u i w)) lower
