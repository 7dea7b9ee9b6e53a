-- ===== src/Streak/Service/Replay.antt =====
-- Recording the same interaction again, and recording twice in a day.
use ai_coaching_agent.Common.{
  ℕ, ◌<◌, ◌≡◌, refl, true, false, ◌&&◌, ◌||◌, Option, none, some, List, [], ◌∷◌, Result, ok, err,
  arith, if◌then◌else◌,
}
use ai_coaching_agent.Streak.Time.{Moment}
use ai_coaching_agent.Streak.Records.{
  SourceStatus, StreakOutcome, started, idempotent_replay, StreakRecord, FreezeOffer,
  QuestionCountRead, ProviderError,
}
use ai_coaching_agent.Streak.Rules.{
  RuleError, decide, apply_start, apply_same_day, apply_increment, apply_reset,
  apply_preserve_on_degraded_source,
}
use ai_coaching_agent.Streak.Store.{
  World, Env, ServiceError, was_processed, mark_processed, award, save_row,
}
use ai_coaching_agent.Streak.Writer.{PersistResult, persist}
use ai_coaching_agent.Streak.Writer.Keeps.{persist_outcomes}
use ai_coaching_agent.Streak.Badges.{BadgeEvaluation, award_one, award_all, evaluate_read}
use ai_coaching_agent.Streak.Freeze.{Settings, open_offer, save_offer}
use ai_coaching_agent.Streak.Service.{
  Intended, ResolvedSession, RecordActivityResult, Continuity, commit, report, save_if_some,
  or_open_offer, record_activity, next_record,
}
use ai_coaching_agent.Streak.Service.Frame.{streaks-open_offer}

pub processed-open_offer :
    (env : Env) (u : ℕ) (w : World) → (open_offer env u w).1.processed ≡ w.processed
unfolding open_offer save_row
processed-open_offer env u w = ground arith

processed-award_all :
    (env : Env) (u c : ℕ) (ms : List ℕ) (w : World)
    → (award_all env u c ms w).1.processed ≡ w.processed
unfolding award_all award_one award
processed-award_all env u c [] w = refl
processed-award_all env u c (m ∷ ms) w = ground (
  arith,
  processed-award_all env u c ms (if env.badge_write_fails m then w else award_one env u c m w),
)

pub processed-evaluate_read :
    (ms : List ℕ) (env : Env) (u : ℕ) (r : Result ProviderError QuestionCountRead) (w : World)
    → (evaluate_read ms env u r w).1.processed ≡ w.processed
unfolding evaluate_read
processed-evaluate_read ms env u (err e) w = refl
processed-evaluate_read ms env u (ok read) w = grind (arith, processed-award_all)

pub processed-report :
    (env : Env) (s : ResolvedSession) (u : ℕ) (o : StreakOutcome) (a : SourceStatus)
    (p : PersistResult) (offer : Option FreezeOffer)
    (e : Result ServiceError BadgeEvaluation × World)
    → (report env s u o a p offer e).1.processed ≡ e.1.processed
unfolding report or_open_offer
processed-report env s u o a p none (ok e, w) = processed-open_offer env u w
processed-report env s u o a p (some offer) (ok e, w) = refl
processed-report env s u o a p offer (err e, w) = refl

processed-save_if_some :
    (env : Env) (o : Option FreezeOffer) (w : World)
    → (save_if_some env o w).processed ≡ w.processed
unfolding save_if_some save_offer save_row
processed-save_if_some env none w = refl
processed-save_if_some env (some o) w = ground arith

was_processed-mark : (u i : ℕ) (w : World) → was_processed u i (mark_processed u i w) ≡ true
unfolding was_processed mark_processed
was_processed-mark u i w = ground arith

pub was_processed-commit :
    (env : Env) (u i : ℕ) (existing : Option StreakRecord) (intended : StreakRecord)
    (offer : Option FreezeOffer) (w : World)
    → (env.streak_write_fails 1 && env.streak_write_fails 2) ≡ false
    → env.processed_write_fails ≡ false
    → was_processed u i (commit env u i existing intended offer w).1 ≡ true
unfolding commit was_processed
was_processed-commit env u i existing intended offer w stored marked =
    let w' = (persist env intended existing w).1 in
    ground (
      arith,
      persist_outcomes env intended existing w,
      processed-save_if_some env offer (mark_processed u i w'),
      was_processed-mark u i w',
    )

pub was_processed_of :
    (u i : ℕ) (w w' : World)
    → w'.processed ≡ w.processed
    → was_processed u i w ≡ true
    → was_processed u i w' ≡ true
unfolding was_processed
was_processed_of u i w w' same h = rw same h

-- The outcome of a call that returned.
abbrev pub Reports : Result ServiceError RecordActivityResult → StreakOutcome → Type 0
Reports (ok r) o = r.outcome ≡ o
Reports (err _) o = ⊥

-- An interaction that is marked as processed is a replay: as long as the two stores can be read,
-- recording it returns, says so, and changes no streak.
pub record_activity-replay :
    (cfg : Settings) (env : Env) (s : ResolvedSession) (u i : ℕ) (w : World)
    → was_processed u i w ≡ true
    → (env.streak_read_fails || env.processed_read_fails) ≡ false
    → let (r, w') = record_activity cfg env s u i w in
      Reports r idempotent_replay × (w'.streaks ≡ w.streaks)
unfolding record_activity
record_activity-replay cfg env s u i w done readable = ground (arith, streaks-open_offer env u w)

-- With a positive window, and a record (if any) under the learner's id, a next record is found; it
-- is the learner's, and says that the learner was active now.
pub next_record-total :
    (cfg : Settings) (u : ℕ) (existing : Option StreakRecord) (now : Moment) (c : Continuity)
    → 0 < cfg.window_hours
    → ((r : StreakRecord) → existing ≡ some r → r.user_id ≡ u)
    → (p : Intended) × (next_record cfg u existing now c ≡ ok p)
      × (p.0.user_id ≡ u)
      × (p.0.last_activity_at ≡ some now)
unfolding next_record decide apply_start apply_same_day apply_increment apply_reset
    apply_preserve_on_degraded_source
next_record-total cfg u none now c h own = ((apply_start u now, started, none), refl, refl, refl)
next_record-total cfg u (some r) now c h own =
    let same = own r refl in intended_of (next_record cfg u (some r) now c) refl
  where
    intended_of :
        (n : Result RuleError Intended)
        → next_record cfg u (some r) now c ≡ n
        → (p : Intended) × (n ≡ ok p) × (p.0.user_id ≡ u) × (p.0.last_activity_at ≡ some now)
    intended_of (ok (m, o, offer)) e =
        let same = own r refl in ((m, o, offer), refl, ground arith, ground arith)
    intended_of (err x) e = let same = own r refl in absurd (ground arith)
