-- ===== src/Streak/Service/Invariant.antt =====
-- The store stays sound, and nobody's longest streak is lost.
use ai_coaching_agent.Common.{
  ℕ, ◌≤◌, ◌≡◌, refl, Bool, true, false, ◌&&◌, ◌||◌, Option, none, some, Result, ok, err, arith,
  Bool-cases, inl, inr, if◌then◌else◌, ◌==◌,
}
use ai_coaching_agent.Common.Dict.{Dict, lookup, insert, lookup-insert}
use ai_coaching_agent.Streak.Records.{StreakRecord, StreakOutcome, FreezeOffer, IsHeld}
use ai_coaching_agent.Streak.Rules.{RuleError, decide, apply_start}
use ai_coaching_agent.Streak.Store.{World, Env, was_processed}
use ai_coaching_agent.Streak.Freeze.{Settings}
use ai_coaching_agent.Streak.Service.{
  Intended, ResolvedSession, Continuity, read_continuity, next_record, record_activity,
}
use ai_coaching_agent.Streak.Service.Frame.{written, streaks_after}
use ai_coaching_agent.Streak.Service.Recording.{
  IsSound, next_record-Follows, streaks-record_activity,
}

-- Every learner keeps a record, whose longest streak is no shorter.
abbrev pub Keeps : Dict StreakRecord → Dict StreakRecord → Type 0
Keeps d d' =
    (k : ℕ) (r : StreakRecord)
    → lookup k d ≡ some r
    → (r' : StreakRecord) × (lookup k d' ≡ some r')
      × (r.longest_streak_days ≤ r'.longest_streak_days)

-- A record that may be stored for a learner, given what is stored.
pub record IsNext (u : ℕ) (before : Option StreakRecord) (m : StreakRecord) : Type 0 where
  pub same_user : m.user_id ≡ u
  pub is_held : IsHeld m
  pub follows : (r : StreakRecord) → before ≡ some r → r.longest_streak_days ≤ m.longest_streak_days

module _ {u : ℕ} {m : StreakRecord} (d : Dict StreakRecord) (n : IsNext u (lookup u d) m) where
  pub insert-IsSound : IsSound d → IsSound (insert m.user_id m d)
  insert-IsSound s k r e =
      ground (arith, lookup-insert m.user_id k m d, s k r, n.same_user, n.is_held)

  pub insert-Keeps : Keeps d (insert m.user_id m d)
  insert-Keeps k r e = elim (Bool-cases (m.user_id == k)) [
    | inl same ↦ (
      m,
      ground (arith, lookup-insert m.user_id k m d),
      n.follows r (ground (arith, n.same_user)),
    )
    | inr other ↦ (r, ground (arith, lookup-insert m.user_id k m d), ground arith)
  ]

next_record-IsNext :
    (cfg : Settings) (u : ℕ) (existing : Option StreakRecord) (now : ℕ) (c : Continuity)
    (m : StreakRecord) (o : StreakOutcome) (offer : Option FreezeOffer)
    → next_record cfg u existing now c ≡ ok (m, o, offer)
    → ((r : StreakRecord) → existing ≡ some r → (r.user_id ≡ u) × IsHeld r)
    → IsNext u existing m
unfolding next_record decide apply_start
next_record-IsNext cfg u none now c m o offer e sound = record {
  same_user = ground arith;
  is_held = ground arith;
  follows = λ r h. cc;
}
next_record-IsNext cfg u (some r) now c m o offer e sound =
    let (same, held) = sound r refl in
    let f = next_record-Follows cfg u r now c m o offer e held in
    record {
      same_user = ground (arith, f.same_user);
      is_held = f.is_held;
      follows = λ r' h. ground (arith, f.longest_grows);
    }

-- What a call leaves of the streaks: a sound store in which nobody's longest streak is lost.
abbrev pub IsGrown : Dict StreakRecord → Dict StreakRecord → Type 0
IsGrown d d' = IsSound d' × Keeps d d'

pub IsGrown-refl : (d : Dict StreakRecord) → IsSound d → IsGrown d d
IsGrown-refl d s = (s, λ k r e. (r, e, omega arith))

pub written-IsGrown :
    (env : Env) (u : ℕ) (m : StreakRecord) (w : World)
    → IsSound w.streaks
    → IsNext u (lookup u w.streaks) m
    → IsGrown w.streaks (written env m w)
written-IsGrown env u m w s n =
    elim (Bool-cases (env.streak_write_fails 1 && env.streak_write_fails 2)) [
      | inl lost ↦ rw lost (IsGrown-refl w.streaks s)
      | inr stored ↦ rw stored (insert-IsSound w.streaks n s, insert-Keeps w.streaks n)
    ]

streaks_after-IsGrown :
    (cfg : Settings) (env : Env) (u : ℕ) (c : Continuity) (w : World)
    (next : Result RuleError Intended)
    → next_record cfg u (lookup u w.streaks) env.now c ≡ next
    → IsSound w.streaks
    → IsGrown w.streaks (streaks_after env next w)
streaks_after-IsGrown cfg env u c w (err e) h s = IsGrown-refl w.streaks s
streaks_after-IsGrown cfg env u c w (ok (m, o, offer)) h s =
    written-IsGrown env u m w s
      (next_record-IsNext cfg u (lookup u w.streaks) env.now c m o offer h (s u))

-- From a sound store, recording an activity, whatever fails, leaves a sound store (each row is
-- under its learner's id, holds at least a day, and its longest streak is no less than its current
-- one) in which every learner still has a record, with a longest streak no shorter than before.
pub record_activity-IsGrown :
    (cfg : Settings) (env : Env) (s : ResolvedSession) (u i : ℕ) (w : World)
    → IsSound w.streaks
    → IsGrown w.streaks (record_activity cfg env s u i w).1.streaks
record_activity-IsGrown cfg env s u i w sound =
    let c = read_continuity cfg env u i (lookup u w.streaks) in
    let next = next_record cfg u (lookup u w.streaks) env.now c in
    rw (streaks-record_activity cfg env s u i w) (
      if-IsGrown (env.streak_read_fails || env.processed_read_fails) _
        (if-IsGrown (was_processed u i w) _ (streaks_after-IsGrown cfg env u c w next refl sound)))
  where
    if-IsGrown :
        (b : Bool) (d : Dict StreakRecord)
        → IsGrown w.streaks d
        → IsGrown w.streaks (if b then w.streaks else d)
    if-IsGrown true d g = IsGrown-refl w.streaks sound
    if-IsGrown false d g = g
