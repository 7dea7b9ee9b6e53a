-- ===== src/Streak/Answer.antt =====
-- packages/uc08/uc08/application/streak_service.py: reading the state, and accepting or declining
-- an open offer.
pub mod Accept
use ai_coaching_agent.Common.{
  ℕ, Bool, true, false, not, Option, none, some, List, Result, ok, err, ◌==◌, if◌then◌else◌,
}
use ai_coaching_agent.Common.Dict.{lookup}
use ai_coaching_agent.Streak.Time.{Moment}
use ai_coaching_agent.Streak.Records.{
  FreezeOfferStatus, accepted, declined, StreakRecord, Badge, FreezeOffer,
}
use ai_coaching_agent.Streak.Rules.{freeze_available_at, apply_freeze_acceptance}
use ai_coaching_agent.Streak.Store.{
  World, Env, ServiceError, repository_read_failed, freeze_not_available, no_offer_open,
  no_streak_record, used_this_month, offer_out_of_date, not_recorded, get_all,
}
use ai_coaching_agent.Streak.Writer.{PersistResult, persist}
use ai_coaching_agent.Streak.Freeze.{save_offer, open_offer}
use ai_coaching_agent.Streak.Service.{record_or_empty}

pub record StreakState : Type 0 where
  pub streak : StreakRecord
  pub open_freeze_offer : Option FreezeOffer
  pub badges : List Badge

abbrev pub Answered : Type 0
Answered = Result ServiceError StreakState × World

-- The `StreakState` at the end of a call, with `self._badges.held(user_id)` read last.
unfoldable pub state_with : Env → ℕ → StreakRecord → Option FreezeOffer → World → Answered
state_with env user_id streak offer w =
    if env.badge_read_fails
    then (err repository_read_failed, w)
    else (ok (record { streak = streak; open_freeze_offer = offer; badges = get_all user_id w }), w)

unfoldable pub get_state : Env → ℕ → World → Answered
unfolding state_with
get_state env user_id w =
    if env.streak_read_fails
    then (err repository_read_failed, w)
    else (let streak = record_or_empty (lookup user_id w.streaks) user_id env.now in
        let (offer, w') = open_offer env user_id w in state_with env user_id streak offer w')

-- `streak.streak_started_at != offer.offered_at`
abbrev pub started_at : Option Moment → Moment → Bool
started_at none offered = false
started_at (some start) offered = start == offered

-- `accept_freeze`, from the write on.
unfoldable pub accept_persisted : Env → ℕ → FreezeOffer → PersistResult × World → Answered
unfolding state_with
accept_persisted env user_id offer (persisted, w) =
    if not persisted.committed
    then (err (freeze_not_available not_recorded), w)
    else state_with env user_id persisted.authoritative none
        (save_offer env (record offer { status = accepted; answered_at = some env.now }) w)

-- `accept_freeze`, by the record that was read.
unfoldable pub accept_for : Env → ℕ → FreezeOffer → Option StreakRecord → World → Answered
unfolding accept_persisted
accept_for env user_id offer none w = (err (freeze_not_available no_streak_record), w)
accept_for env user_id offer (some streak) w =
    if not (freeze_available_at env.now streak.freeze_used_at)
    then (err (freeze_not_available used_this_month), w)
    else if not (started_at streak.streak_started_at offer.offered_at)
    then (err (freeze_not_available offer_out_of_date), w)
    else accept_persisted env user_id offer
        (persist env (apply_freeze_acceptance streak offer env.now) (some streak) w)

-- `accept_freeze`, by the offer that is open.
unfoldable pub accept_offer : Env → ℕ → Option FreezeOffer × World → Answered
unfolding accept_for
accept_offer env user_id (none, w) = (err (freeze_not_available no_offer_open), w)
accept_offer env user_id (some offer, w) =
    if env.streak_read_fails
    then (err repository_read_failed, w)
    else accept_for env user_id offer (lookup user_id w.streaks) w

unfoldable pub accept_freeze : Env → ℕ → World → Answered
unfolding accept_offer
accept_freeze env user_id w = accept_offer env user_id (open_offer env user_id w)

-- `decline_freeze`, by the offer that is open; `later` is what the outside answers to `get_state`.
unfoldable pub decline_offer : Env → Env → ℕ → Option FreezeOffer × World → Answered
unfolding get_state
decline_offer env later user_id (none, w) = (err (freeze_not_available no_offer_open), w)
decline_offer env later user_id (some offer, w) =
    get_state later user_id
      (save_offer env (record offer { status = declined; answered_at = some env.now }) w)

unfoldable pub decline_freeze : Env → Env → ℕ → World → Answered
unfolding decline_offer
decline_freeze env later user_id w = decline_offer env later user_id (open_offer env user_id w)
