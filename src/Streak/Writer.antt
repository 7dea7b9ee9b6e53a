-- ===== src/Streak/Writer.antt =====
-- packages/uc08/uc08/application/streak_persistence.py: one write, one retry, then keep the record
-- that was already there and tell engineering.
pub mod Keeps
use ai_coaching_agent.Common.{
  ℕ, zero, suc, ◌+◌, Bool, true, false, Option, none, some, [], ◌∷◌, ◌++◌, ◌==◌, if◌then◌else◌,
}
use ai_coaching_agent.Streak.Records.{
  PersistenceOutcome, saved, saved_on_retry, preserved_last_known, StreakRecord,
  StreakWriteIncident,
}
use ai_coaching_agent.Streak.Store.{World, Env, save_streak}

abbrev pub max_write_attempts : ℕ
max_write_attempts = 2

-- `record` is `authoritative` here.
pub record PersistResult : Type 0 where
  pub outcome : PersistenceOutcome
  pub authoritative : StreakRecord
  pub committed : Bool
  pub incident : Option StreakWriteIncident

-- The loop of `persist` over the attempts left; `none` when each of them failed.
unfoldable pub write_attempts :
    Env → StreakRecord → ℕ → ℕ → World → Option PersistenceOutcome × World
write_attempts env intended zero attempt w = (none, w)
write_attempts env intended (suc left) attempt w =
    let retry = write_attempts env intended left (attempt + 1) w in
    if env.streak_write_fails attempt
    then retry
    else (some (if attempt == 1 then saved else saved_on_retry), save_streak intended w)

abbrev pub preserved : StreakRecord → Option StreakRecord → StreakRecord
preserved intended none = intended
preserved intended (some last_known) = last_known

unfoldable pub incident_for : Env → StreakRecord → StreakRecord → StreakWriteIncident
incident_for env intended kept = record {
  user_id = intended.user_id;
  occurred_at = env.incident_at;
  attempts = max_write_attempts;
  preserved_streak_days = kept.current_streak_days;
  preserved_longest_streak_days = kept.longest_streak_days;
  intended_streak_days = intended.current_streak_days;
}

-- `_preserve`; a failure of the alert sink is swallowed.
unfoldable pub preserve : Env → StreakRecord → Option StreakRecord → World → PersistResult × World
preserve env intended last_known w =
    let kept = preserved intended last_known in
    let incident = incident_for env intended kept in
    (
      record {
        outcome = preserved_last_known;
        authoritative = kept;
        committed = false;
        incident = some incident;
      },
      if env.alert_fails then w else record w { incidents = w.incidents ++ incident ∷ [] },
    )

-- What `persist` returns, by how the loop ended.
unfoldable pub persisted_by :
    Env
    → StreakRecord
    → Option StreakRecord
    → Option PersistenceOutcome
    → World
    → PersistResult × World
unfolding preserve
persisted_by env intended last_known none w = preserve env intended last_known w
persisted_by env intended last_known (some o) w =
    (record { outcome = o; authoritative = intended; committed = true; incident = none }, w)

unfoldable pub persist : Env → StreakRecord → Option StreakRecord → World → PersistResult × World
unfolding write_attempts persisted_by
persist env intended last_known w =
    let (o, w') = write_attempts env intended max_write_attempts 1 w in
    persisted_by env intended last_known o w'
