-- ===== src/Streak/Freeze.antt =====
-- The freeze offers of packages/uc08/uc08/application/streak_service.py: the helpers that save,
-- build and read an offer.
use ai_coaching_agent.Common.{ℕ, ◌+◌, not, Option, none, some, List, get_last?, ltb, if◌then◌else◌}
use ai_coaching_agent.Common.Dict.{lookup}
use ai_coaching_agent.Streak.Time.{Moment, hours}
use ai_coaching_agent.Streak.Records.{
  offered, expired, StreakRecord, FreezeOffer, is_offered, is_open_at,
}
use ai_coaching_agent.Streak.Rules.{eligible_for_freeze_offer}
use ai_coaching_agent.Streak.Store.{World, Env, rows_of, save_row}

-- The settings of the service.
pub record Settings : Type 0 where
  pub window_hours : ℕ
  pub freeze_min_streak_days : ℕ
  pub freeze_offer_expiry_hours : ℕ
  pub badge_milestones : List ℕ

-- `InMemoryFreezeOfferRepository.get_latest`
unfoldable pub get_latest : ℕ → World → Option FreezeOffer
get_latest user_id w = get_last? (rows_of (lookup user_id w.offers))

-- `_save_offer`; a failed write is swallowed.
unfoldable pub save_offer : Env → FreezeOffer → World → World
save_offer env offer w = if env.offer_write_fails offer.status then w else save_row offer w

-- `_build_offer_if_eligible`. `FreezeOffer` refuses an offer that would preserve no day, and that
-- refusal is swallowed too.
unfoldable pub build_offer_if_eligible : Settings → StreakRecord → Moment → Option FreezeOffer
build_offer_if_eligible cfg existing now =
    if not (eligible_for_freeze_offer existing now cfg.freeze_min_streak_days)
    then none
    else if ltb 0 existing.current_streak_days
    then some (record {
      offer_id = (existing.user_id, now);
      user_id = existing.user_id;
      status = offered;
      offered_at = now;
      expires_at = now + hours cfg.freeze_offer_expiry_hours;
      preserved_streak_days = existing.current_streak_days;
      preserved_streak_started_at = existing.streak_started_at;
      answered_at = none;
    })
    else none

-- `_open_offer`, by the latest offer that was read.
unfoldable pub open_latest : Env → Option FreezeOffer → World → Option FreezeOffer × World
unfolding save_offer
open_latest env none w = (none, w)
open_latest env (some offer) w =
    if not (is_offered offer.status)
    then (none, w)
    else if is_open_at offer env.now
    then (some offer, w)
    else (none, save_offer env (record offer { status = expired }) w)

-- `_open_offer`
unfoldable pub open_offer : Env → ℕ → World → Option FreezeOffer × World
unfolding open_latest get_latest
open_offer env user_id w =
    if env.offer_read_fails then (none, w) else open_latest env (get_latest user_id w) w
