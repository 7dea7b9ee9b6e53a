-- ===== src/Streak/Service/Frame.antt =====
-- Which parts of the service write to the streaks, and that the rest leaves them alone.
use ai_coaching_agent.Common.{
  ℕ, ◌≡◌, refl, ◌∙◌, ◌&&◌, Option, none, some, List, [], ◌∷◌, Result, ok, err, arith, if◌then◌else◌,
}
use ai_coaching_agent.Common.Dict.{Dict, lookup, insert}
use ai_coaching_agent.Streak.Records.{
  SourceStatus, StreakOutcome, StreakRecord, FreezeOffer, QuestionCountRead, ProviderError,
}
use ai_coaching_agent.Streak.Rules.{RuleError}
use ai_coaching_agent.Streak.Store.{
  World, Env, ServiceError, award, save_row, save_streak, mark_processed,
}
use ai_coaching_agent.Streak.Writer.{PersistResult, persist}
use ai_coaching_agent.Streak.Writer.Keeps.{persist_outcomes}
use ai_coaching_agent.Streak.Badges.{BadgeEvaluation, award_one, award_all, evaluate_read, evaluate}
use ai_coaching_agent.Streak.Freeze.{Settings, save_offer, open_offer}
use ai_coaching_agent.Streak.Service.{
  Intended, ResolvedSession, save_if_some, try_mark_processed, commit, or_open_offer, report,
  record_intended,
}

-- `open_offer` may only expire an offer.
pub streaks-open_offer :
    (env : Env) (u : ℕ) (w : World) → (open_offer env u w).1.streaks ≡ w.streaks
unfolding open_offer save_row
streaks-open_offer env u w = ground arith

streaks-award_all :
    (env : Env) (u c : ℕ) (ms : List ℕ) (w : World) → (award_all env u c ms w).1.streaks ≡ w.streaks
unfolding award_all award_one award
streaks-award_all env u c [] w = refl
streaks-award_all env u c (m ∷ ms) w = ground (
  arith,
  streaks-award_all env u c ms (if env.badge_write_fails m then w else award_one env u c m w),
)

streaks-evaluate_read :
    (ms : List ℕ) (env : Env) (u : ℕ) (r : Result ProviderError QuestionCountRead) (w : World)
    → (evaluate_read ms env u r w).1.streaks ≡ w.streaks
unfolding evaluate_read
streaks-evaluate_read ms env u (err e) w = refl
streaks-evaluate_read ms env u (ok read) w = grind (arith, streaks-award_all)

pub streaks-evaluate :
    (ms : List ℕ) (env : Env) (u : ℕ) (w : World) → (evaluate ms env u w).1.streaks ≡ w.streaks
unfolding evaluate
streaks-evaluate ms env u w = streaks-evaluate_read ms env u (env.question_count u) w

streaks-save_if_some :
    (env : Env) (o : Option FreezeOffer) (w : World) → (save_if_some env o w).streaks ≡ w.streaks
unfolding save_if_some save_offer save_row
streaks-save_if_some env none w = refl
streaks-save_if_some env (some o) w = ground arith

streaks-try_mark_processed :
    (env : Env) (u i : ℕ) (w : World) → (try_mark_processed env u i w).streaks ≡ w.streaks
unfolding try_mark_processed mark_processed
streaks-try_mark_processed env u i w = ground arith

streaks-report :
    (env : Env) (s : ResolvedSession) (u : ℕ) (o : StreakOutcome) (a : SourceStatus)
    (p : PersistResult) (offer : Option FreezeOffer)
    (e : Result ServiceError BadgeEvaluation × World)
    → (report env s u o a p offer e).1.streaks ≡ e.1.streaks
unfolding report or_open_offer
streaks-report env s u o a p none (ok e, w) = streaks-open_offer env u w
streaks-report env s u o a p (some offer) (ok e, w) = refl
streaks-report env s u o a p offer (err e, w) = refl

-- What the streaks are after a write of `intended` was tried twice.
abbrev pub written : Env → StreakRecord → World → Dict StreakRecord
written env intended w =
    if env.streak_write_fails 1 && env.streak_write_fails 2
    then w.streaks
    else insert intended.user_id intended w.streaks

pub streaks-commit :
    (env : Env) (u i : ℕ) (existing : Option StreakRecord) (intended : StreakRecord)
    (offer : Option FreezeOffer) (w : World)
    → (commit env u i existing intended offer w).1.streaks ≡ written env intended w
unfolding commit save_streak
streaks-commit env u i existing intended offer w = ground (
  arith,
  persist_outcomes env intended existing w,
  streaks-save_if_some env offer (try_mark_processed env u i (persist env intended existing w).1),
  streaks-try_mark_processed env u i (persist env intended existing w).1,
)

-- The streaks after `record_activity`, by what the next record is.
abbrev pub streaks_after : Env → Result RuleError Intended → World → Dict StreakRecord
streaks_after env (err e) w = w.streaks
streaks_after env (ok (intended, o, offer)) w = written env intended w

pub streaks-record_intended :
    (cfg : Settings) (env : Env) (s : ResolvedSession) (u i : ℕ) (a : SourceStatus)
    (r : Result RuleError Intended) (w : World)
    → (record_intended cfg env s u i a r w).1.streaks ≡ streaks_after env r w
unfolding record_intended
streaks-record_intended cfg env s u i a (err e) w = refl
streaks-record_intended cfg env s u i a (ok (intended, o, offer)) w =
    let ((p, kept), w') = commit env u i (lookup u w.streaks) intended offer w in
    streaks-report env s u o a p kept (evaluate cfg.badge_milestones env u w')
    ∙ streaks-evaluate cfg.badge_milestones env u w'
    ∙ streaks-commit env u i (lookup u w.streaks) intended offer w
