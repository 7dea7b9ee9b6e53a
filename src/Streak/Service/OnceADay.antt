-- ===== src/Streak/Service/OnceADay.antt =====
-- A committed interaction is recorded once, and a day counts once.
use ai_coaching_agent.Common.{
  ℕ, ◌<◌, ◌≡◌, ◌∙◌, true, false, ◌&&◌, ◌||◌, none, some, Result, ok, err, arith, if◌then◌else◌,
}
use ai_coaching_agent.Common.Dict.{lookup, lookup-insert}
use ai_coaching_agent.Streak.Time.{Moment, same_utc_day}
use ai_coaching_agent.Streak.Records.{
  SourceStatus, idempotent_replay, unchanged_same_day, StreakRecord,
}
use ai_coaching_agent.Streak.Rules.{RuleError, decide, counted_today, apply_same_day}
use ai_coaching_agent.Streak.Store.{World, Env, was_processed}
use ai_coaching_agent.Streak.Badges.{evaluate}
use ai_coaching_agent.Streak.Freeze.{Settings, open_offer}
use ai_coaching_agent.Streak.Service.{
  Intended, ResolvedSession, Continuity, commit, record_intended, record_activity, read_continuity,
  next_record,
}
use ai_coaching_agent.Streak.Service.Recording.{IsSound, streaks-record_activity}
use ai_coaching_agent.Streak.Service.Replay.{
  Reports, processed-open_offer, processed-report, processed-evaluate_read, was_processed-commit,
  was_processed_of, next_record-total, record_activity-replay,
}

-- The two stores that `record_activity` must read answer.
abbrev pub IsReadable : Env → Type 0
IsReadable env = (env.streak_read_fails || env.processed_read_fails) ≡ false

-- One of the two writes of the streak succeeds.
abbrev pub IsWritable : Env → Type 0
IsWritable env = (env.streak_write_fails 1 && env.streak_write_fails 2) ≡ false

record_intended-marks :
    (cfg : Settings) (env : Env) (s : ResolvedSession) (u i : ℕ) (a : SourceStatus)
    (n : Result RuleError Intended) (p : Intended) (w : World)
    → n ≡ ok p
    → IsWritable env
    → env.processed_write_fails ≡ false
    → was_processed u i (record_intended cfg env s u i a n w).1 ≡ true
unfolding record_intended evaluate
record_intended-marks cfg env s u i a (err e) p w h stored marked = absurd (ground arith)
record_intended-marks cfg env s u i a (ok (m, o, offer)) p w h stored marked =
    let ((r, kept), w') = commit env u i (lookup u w.streaks) m offer w in
    let e = evaluate cfg.badge_milestones env u w' in
    was_processed_of u i w' (record_intended cfg env s u i a (ok (m, o, offer)) w).1
      (processed-report env s u o a r kept e
        ∙ processed-evaluate_read cfg.badge_milestones env u (env.question_count u) w')
      (was_processed-commit env u i (lookup u w.streaks) m offer w stored marked)

-- What the first call needs: a sound store, a positive window, and stores that can be read and
-- written.
pub record IsCommitting (cfg : Settings) (env : Env) (w : World) : Type 0 where
  pub sound : IsSound w.streaks
  pub window : 0 < cfg.window_hours
  pub readable : IsReadable env
  pub writable : IsWritable env
  pub markable : env.processed_write_fails ≡ false

module _ (cfg : Settings) (env : Env) (s : ResolvedSession) (u i : ℕ) (w : World)
    (c : IsCommitting cfg env w) where
  record_activity-marks : was_processed u i (record_activity cfg env s u i w).1 ≡ true
  unfolding record_activity
  record_activity-marks =
      let k = read_continuity cfg env u i (lookup u w.streaks) in
      let (p, e, _, _) =
        next_record-total cfg u (lookup u w.streaks) env.now k c.window
          (λ r h. (c.sound u r h).0) in
      ground (
        arith,
        c.readable,
        was_processed_of u i w (open_offer env u w).1 (processed-open_offer env u w),
        record_intended-marks cfg env s u i k.activity_status
            (next_record cfg u (lookup u w.streaks) env.now k) p w e c.writable c.markable,
      )

  -- From a sound store and with a positive window, after a call that could read and write its
  -- stores, recording the same interaction again, at any time and with any answers of the
  -- providers, returns, reports a replay, and leaves the streaks of everybody as the first call
  -- left them, as long as the two stores can be read.
  pub record_activity-idempotent :
      (cfg' : Settings) (env' : Env) (s' : ResolvedSession)
      → IsReadable env'
      → let w' = (record_activity cfg env s u i w).1 in
        let (r, w'') = record_activity cfg' env' s' u i w' in
        Reports r idempotent_replay × (w''.streaks ≡ w'.streaks)
  record_activity-idempotent cfg' env' s' readable =
      record_activity-replay cfg' env' s' u i (record_activity cfg env s u i w).1
        record_activity-marks readable

  -- The record that the first call leaves is the learner's, and says that they were active now,
  -- unless the interaction had been recorded before.
  record_activity-active :
      was_processed u i w ≡ false
      → (r : StreakRecord) × (lookup u (record_activity cfg env s u i w).1.streaks ≡ some r)
        × (r.user_id ≡ u)
        × (r.last_activity_at ≡ some env.now)
  record_activity-active new =
      let k = read_continuity cfg env u i (lookup u w.streaks) in
      let (p, e, own, active) =
        next_record-total cfg u (lookup u w.streaks) env.now k c.window
          (λ r h. (c.sound u r h).0) in
      (
        p.0,
        ground (
          arith,
          streaks-record_activity cfg env s u i w,
          c.readable,
          c.writable,
          lookup-insert p.0.user_id u p.0 w.streaks,
        ),
        own,
        active,
      )

next_record-same_day :
    (cfg : Settings) (u : ℕ) (r : StreakRecord) (now : Moment) (c : Continuity)
    → counted_today r.last_activity_at now ≡ true
    → next_record cfg u (some r) now c ≡ ok (apply_same_day r now, unchanged_same_day, none)
unfolding next_record decide
next_record-same_day cfg u r now c today = ground arith

-- Once a day has counted for a learner, whose record is stored under their id, recording any
-- interaction on that day, whatever fails, leaves the learner a record with the same counts.
pub record_activity-same_day :
    (cfg : Settings) (env : Env) (s : ResolvedSession) (u i : ℕ) (w : World) (r : StreakRecord)
    → lookup u w.streaks ≡ some r
    → r.user_id ≡ u
    → counted_today r.last_activity_at env.now ≡ true
    → (r' : StreakRecord) × (lookup u (record_activity cfg env s u i w).1.streaks ≡ some r')
      × (r'.current_streak_days ≡ r.current_streak_days)
      × (r'.longest_streak_days ≡ r.longest_streak_days)
unfolding apply_same_day
record_activity-same_day cfg env s u i w r stored own today =
    let m = apply_same_day r env.now in
    let kept =
      (env.streak_read_fails || env.processed_read_fails)
      || (was_processed u i w || (env.streak_write_fails 1 && env.streak_write_fails 2)) in
    (
      if kept then r else m,
      ground (
        arith,
        streaks-record_activity cfg env s u i w,
        next_record-same_day cfg u r env.now (read_continuity cfg env u i (some r)) today,
        lookup-insert r.user_id u m w.streaks,
      ),
      ground arith,
      ground arith,
    )

-- Two interactions on one UTC day, from a sound store and with a positive window: after the first,
-- which could read and write its stores and was no replay, the learner has a record, and the
-- second, whatever fails, leaves its counts as the first left them.
pub record_activity-once_a_day :
    (cfg cfg' : Settings) (env env' : Env) (s s' : ResolvedSession) (u i j : ℕ) (w : World)
    → IsCommitting cfg env w
    → was_processed u i w ≡ false
    → same_utc_day env.now env'.now ≡ true
    → let w' = (record_activity cfg env s u i w).1 in
      (r r' : StreakRecord) × (lookup u w'.streaks ≡ some r)
      × (lookup u (record_activity cfg' env' s' u j w').1.streaks ≡ some r')
      × (r'.current_streak_days ≡ r.current_streak_days)
      × (r'.longest_streak_days ≡ r.longest_streak_days)
record_activity-once_a_day cfg cfg' env env' s s' u i j w c new same =
    let w' = (record_activity cfg env s u i w).1 in
    let (r, stored, own, active) = record_activity-active cfg env s u i w c new in
    let (r', stored', days, longest) =
      record_activity-same_day cfg' env' s' u j w' r stored own (ground (arith, active)) in
    (r, r', stored, stored', days, longest)
