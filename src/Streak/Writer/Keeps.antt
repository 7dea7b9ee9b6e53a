-- ===== src/Streak/Writer/Keeps.antt =====
-- The failure rule of the writer, on every branch.
use ai_coaching_agent.Common.{◌≡◌, Bool, true, false, ◌&&◌, Option, arith, if◌then◌else◌}
use ai_coaching_agent.Streak.Records.{saved, saved_on_retry, preserved_last_known, StreakRecord}
use ai_coaching_agent.Streak.Store.{World, Env, save_streak}
use ai_coaching_agent.Streak.Writer.{persist, preserved}

module _ (env : Env) (intended : StreakRecord) (last_known : Option StreakRecord) (w : World) where
  -- Both of the two attempts failed.
  abbrev pub write_lost : Bool
  write_lost = env.streak_write_fails 1 && env.streak_write_fails 2

  -- A write is reported as saved at the first attempt, as saved on retry after one failure, and as
  -- preserved after two. Unless both attempts failed, the intended record is committed,
  -- authoritative and stored; if both did, nothing is committed, the streaks are as before, and
  -- the last known record is authoritative, or the intended one where there is none.
  pub persist_outcomes :
      let (r, w') = persist env intended last_known w in
      (r.outcome ≡ (
        if env.streak_write_fails 1
        then (if env.streak_write_fails 2 then preserved_last_known else saved_on_retry)
        else saved))
      × (r.committed ≡ (if write_lost then false else true))
      × (r.authoritative ≡ (if write_lost then preserved intended last_known else intended))
      × (w'.streaks ≡ (if write_lost then w.streaks else (save_streak intended w).streaks))
  unfolding persist
  persist_outcomes = ground arith

  -- The writer touches nothing but the streaks and the incidents.
  pub persist_frame :
      let w' = (persist env intended last_known w).1 in
      (w'.badges ≡ w.badges)
      × (w'.offers ≡ w.offers)
      × (w'.processed ≡ w.processed)
      × (w'.notifications ≡ w.notifications)
  unfolding persist save_streak
  persist_frame = ground arith
