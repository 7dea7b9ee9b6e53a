-- ===== src/Streak/Service.antt =====
-- packages/uc08/uc08/application/streak_service.py: recording an activity and answering an offer.
-- A call returns its result, or what it raises, with the world that it leaves.
pub mod Frame
pub mod Recording
pub mod Invariant
pub mod Replay
pub mod OnceADay
use ai_coaching_agent.Common.{
  ℕ, ◌+◌, ◌-◌, Bool, true, false, not, ◌&&◌, Option, none, some, List, [], ◌∷◌, Result, ok, err,
  keep, length, leb, ltb, ◌||◌, ◌==◌, if◌then◌else◌,
}
use ai_coaching_agent.Common.Dict.{lookup}
use ai_coaching_agent.Streak.Time.{Moment, hours}
use ai_coaching_agent.Streak.Records.{
  SourceStatus, available, StreakOutcome, started, unchanged_same_day, incremented, reset,
  unchanged_source_degraded, idempotent_replay, PersistenceOutcome, saved, accepted, declined,
  StreakRecord, Badge, FreezeOffer, ActivityInteraction, ActivityWindowRead, BadgeAwardedEvent,
  ProviderError, status_for_provider_error,
}
use ai_coaching_agent.Streak.Rules.{
  RuleError, assertion, InactivityEvidence, StreakDecision, window_start_for, decide,
  freeze_available_at, apply_start, apply_same_day, apply_preserve_on_degraded_source,
  apply_increment, apply_reset, apply_freeze_acceptance,
}
use ai_coaching_agent.Streak.Store.{
  World, Env, ServiceError, repository_read_failed, freeze_not_available, rule_error, no_offer_open,
  no_streak_record, used_this_month, offer_out_of_date, not_recorded, was_processed, mark_processed,
  get_all,
}
use ai_coaching_agent.Streak.Writer.{PersistResult, persist}
use ai_coaching_agent.Streak.Badges.{BadgeEvaluation, evaluate}
use ai_coaching_agent.Streak.Freeze.{Settings, save_offer, build_offer_if_eligible, open_offer}

-- `_Continuity`
pub record Continuity : Type 0 where
  pub prior_interactions_in_window : ℕ
  pub activity_status : SourceStatus
  pub source_degraded : Bool

-- `_prior_from_record`; `now - last <= window` for aware values, also when `last` is later.
unfoldable pub prior_from_record : Settings → Option StreakRecord → Moment → ℕ
prior_from_record cfg none now = 0
prior_from_record cfg (some existing) now = elim existing.last_activity_at [
  | none ↦ 0
  | some last ↦ if leb now (last + hours cfg.window_hours) then 1 else 0
]

-- The interactions of a read that count as prior ones.
abbrev pub prior_of : ℕ → Moment → List ActivityInteraction → List ActivityInteraction
prior_of interaction_id now interactions =
    keep
      (λ (i : ActivityInteraction).
        not (i.interaction_id == interaction_id) && ltb i.occurred_at now)
      interactions

-- `_read_continuity`, by what the provider answered.
unfoldable pub continuity_of :
    Settings
    → ℕ
    → Option StreakRecord
    → Moment
    → Result ProviderError ActivityWindowRead
    → Continuity
unfolding prior_from_record
continuity_of cfg interaction_id existing now (err e) = record {
  prior_interactions_in_window = prior_from_record cfg existing now;
  activity_status = status_for_provider_error e;
  source_degraded = true;
}
continuity_of cfg interaction_id existing now (ok read) = record {
  prior_interactions_in_window = length (prior_of interaction_id now read.interactions);
  activity_status = read.status;
  source_degraded = false;
}

unfoldable pub read_continuity : Settings → Env → ℕ → ℕ → Option StreakRecord → Continuity
unfolding continuity_of
read_continuity cfg env user_id interaction_id existing =
    continuity_of cfg interaction_id existing env.now
      (env.interactions_in_window user_id (window_start_for env.now cfg.window_hours))

-- What `_next_record` returns.
abbrev pub Intended : Type 0
Intended = StreakRecord × StreakOutcome × Option FreezeOffer

-- The last branch of `_next_record`: a reset was determined, and the source was consulted.
unfoldable pub next_by_reset :
    Settings → StreakRecord → Moment → Option InactivityEvidence → Result RuleError Intended
next_by_reset cfg existing now none = err assertion
next_by_reset cfg existing now (some evidence) = elim (apply_reset existing now evidence) [
  | ok intended ↦ ok (intended, reset, build_offer_if_eligible cfg existing now)
  | err e ↦ err e
]

-- The branches of `_next_record` after STARTED, for a learner with a record.
unfoldable pub next_existing :
    Settings
    → StreakRecord
    → Moment
    → Bool
    → Option InactivityEvidence
    → StreakOutcome
    → Result RuleError Intended
unfolding next_by_reset
next_existing cfg existing now degraded evidence unchanged_same_day =
    ok (apply_same_day existing now, unchanged_same_day, none)
next_existing cfg existing now degraded evidence incremented =
    ok (apply_increment existing now, incremented, none)
next_existing cfg existing now degraded evidence _ =
    if degraded
    then ok (apply_preserve_on_degraded_source existing now, unchanged_source_degraded, none)
    else next_by_reset cfg existing now evidence

unfoldable pub next_by_decision :
    Settings
    → ℕ
    → Option StreakRecord
    → Moment
    → Bool
    → Option InactivityEvidence
    → StreakOutcome
    → Result RuleError Intended
unfolding next_existing
next_by_decision cfg user_id existing now degraded evidence started =
    ok (apply_start user_id now, started, none)
next_by_decision cfg user_id none now degraded evidence _ = err assertion
next_by_decision cfg user_id (some existing) now degraded evidence o =
    next_existing cfg existing now degraded evidence o

-- `_next_record`
unfoldable pub next_record :
    Settings → ℕ → Option StreakRecord → Moment → Continuity → Result RuleError Intended
unfolding next_by_decision
next_record cfg user_id existing now continuity =
    elim (decide user_id existing now continuity.prior_interactions_in_window cfg.window_hours) [
      | err e ↦ err e
      | ok d ↦
          next_by_decision cfg user_id existing now continuity.source_degraded d.inactivity_evidence
            d.outcome
    ]

-- `_empty_record`
abbrev pub empty_record : ℕ → Moment → StreakRecord
empty_record user_id now = record {
  user_id = user_id;
  current_streak_days = 0;
  longest_streak_days = 0;
  last_activity_at = none;
  streak_started_at = none;
  freeze_available = true;
  freeze_used_at = none;
  updated_at = now;
}

-- `x or self._empty_record(user_id, now)`
abbrev pub record_or_empty : Option StreakRecord → ℕ → Moment → StreakRecord
record_or_empty none user_id now = empty_record user_id now
record_or_empty (some streak) user_id now = streak

pub data SessionIdSource : Type 0 where
  received dev_minted : SessionIdSource

-- `ResolvedSession` of uc08/application/session.py, which the caller resolved.
pub record ResolvedSession : Type 0 where
  pub session_id : ℕ
  pub source : SessionIdSource

pub record RecordActivityResult : Type 0 where
  pub streak : StreakRecord
  pub outcome : StreakOutcome
  pub persistence_outcome : PersistenceOutcome
  pub idempotent_replay : Bool
  pub session : ResolvedSession
  pub awarded_badges : List Badge
  pub badge_events : List BadgeAwardedEvent
  pub freeze_offer : Option FreezeOffer
  pub question_count : Option ℕ
  pub question_count_status : SourceStatus
  pub activity_status : SourceStatus

-- The branch of `record_activity` for an interaction that was processed before.
unfoldable pub replay :
    Env → ResolvedSession → ℕ → World → Result ServiceError RecordActivityResult × World
replay env session user_id w =
    let (offer, w') = open_offer env user_id w in
    (
      ok (record {
        streak = record_or_empty (lookup user_id w.streaks) user_id env.now;
        outcome = idempotent_replay;
        persistence_outcome = saved;
        idempotent_replay = true;
        session = session;
        awarded_badges = [];
        badge_events = [];
        freeze_offer = offer;
        question_count = none;
        question_count_status = available;
        activity_status = available;
      }),
      w',
    )

-- `_mark_processed`; a failed write is swallowed.
unfoldable pub try_mark_processed : Env → ℕ → ℕ → World → World
try_mark_processed env user_id interaction_id w =
    if env.processed_write_fails then w else mark_processed user_id interaction_id w

-- `if offer is not None: self._save_offer(offer)`
unfoldable pub save_if_some : Env → Option FreezeOffer → World → World
save_if_some env none w = w
save_if_some env (some offer) w = save_offer env offer w

-- From `self._writer.persist` to the log line: an interaction counts as processed, and an offer is
-- made, only if the streak was written.
unfoldable pub commit :
    Env
    → ℕ
    → ℕ
    → Option StreakRecord
    → StreakRecord
    → Option FreezeOffer
    → World
    → (PersistResult × Option FreezeOffer) × World
unfolding try_mark_processed save_if_some
commit env user_id interaction_id existing intended offer w =
    let (persisted, w') = persist env intended existing w in
    if persisted.committed
    then (
      (persisted, offer),
      save_if_some env offer (try_mark_processed env user_id interaction_id w'),
    )
    else ((persisted, none), w')

-- `offer or self._open_offer(user_id, now)`
unfoldable pub or_open_offer : Env → ℕ → Option FreezeOffer → World → Option FreezeOffer × World
or_open_offer env user_id none w = open_offer env user_id w
or_open_offer env user_id (some offer) w = (some offer, w)

-- From the evaluation of the badges to the end of `record_activity`.
unfoldable pub report :
    Env
    → ResolvedSession
    → ℕ
    → StreakOutcome
    → SourceStatus
    → PersistResult
    → Option FreezeOffer
    → Result ServiceError BadgeEvaluation × World
    → Result ServiceError RecordActivityResult × World
report env session user_id outcome activity persisted offer (err e, w) = (err e, w)
report env session user_id outcome activity persisted offer (ok evaluation, w) =
    let (shown, w') = or_open_offer env user_id offer w in
    (
      ok (record {
        streak = persisted.authoritative;
        outcome = outcome;
        persistence_outcome = persisted.outcome;
        idempotent_replay = false;
        session = session;
        awarded_badges = evaluation.awarded;
        badge_events = evaluation.events;
        freeze_offer = shown;
        question_count = evaluation.question_count;
        question_count_status = evaluation.question_count_status;
        activity_status = activity;
      }),
      w',
    )

-- `record_activity` from the next record on.
unfoldable pub record_intended :
    Settings
    → Env
    → ResolvedSession
    → ℕ
    → ℕ
    → SourceStatus
    → Result RuleError Intended
    → World
    → Result ServiceError RecordActivityResult × World
unfolding commit report
record_intended cfg env session user_id interaction_id activity (err e) w = (err (rule_error e), w)
record_intended cfg env session user_id interaction_id activity (ok (intended, outcome, offer)) w =
    let ((persisted, kept), w') =
      commit env user_id interaction_id (lookup user_id w.streaks) intended offer w in
    report env session user_id outcome activity persisted kept
      (evaluate cfg.badge_milestones env user_id w')

-- `record_activity`
unfoldable pub record_activity :
    Settings
    → Env
    → ResolvedSession
    → ℕ
    → ℕ
    → World
    → Result ServiceError RecordActivityResult × World
unfolding replay record_intended
record_activity cfg env session user_id interaction_id w =
    if env.streak_read_fails || env.processed_read_fails
    then (err repository_read_failed, w)
    else if was_processed user_id interaction_id w
    then replay env session user_id w
    else (let existing = lookup user_id w.streaks in
        let continuity = read_continuity cfg env user_id interaction_id existing in
        record_intended cfg env session user_id interaction_id continuity.activity_status
          (next_record cfg user_id existing env.now continuity) w)
