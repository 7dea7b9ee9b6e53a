-- ===== src/Streak/Store.antt =====
-- The ports of packages/uc08: the in-memory repositories of uc08/adapters/persistence/memory.py
-- with the failures that uc08/ports allow, the sinks, and the upstream providers.
-- `Env` is what the outside answers during one call of the service: the clock, the providers, and
-- which reads and writes fail. No port is called twice in one service call with equal arguments, so
-- an answer by the arguments is enough. Theorems hold for every `Env`.
pub mod Offers
use ai_coaching_agent.Common.{
  ℕ, Bool, true, false, ◌&&◌, ◌||◌, Option, none, some, List, [], ◌∷◌, ◌++◌, map, Result, ok, err,
  any, leb, ◌==◌, if◌then◌else◌,
}
use ai_coaching_agent.Common.Dict.{Dict, lookup, insert}
use ai_coaching_agent.Streak.Time.{Moment}
use ai_coaching_agent.Streak.Records.{
  FreezeOfferStatus, StreakRecord, Badge, FreezeOffer, ActivityWindowRead, QuestionCountRead,
  BadgeAwardedEvent, StreakWriteIncident, ProviderError,
}
use ai_coaching_agent.Streak.Rules.{RuleError}
use ai_coaching_agent.Streak.Store.Offers.{upsert_offer}

pub record World : Type 0 where
  pub streaks : Dict StreakRecord
  pub badges : Dict (Dict Badge)
  pub offers : Dict (List FreezeOffer)
  pub processed : List (ℕ × ℕ)
  pub incidents : List StreakWriteIncident
  pub notifications : List BadgeAwardedEvent

pub record Env : Type 0 where
  pub now : Moment
  pub incident_at : Moment
  pub interactions_in_window : ℕ → Moment → Result ProviderError ActivityWindowRead
  pub question_count : ℕ → Result ProviderError QuestionCountRead
  pub streak_read_fails : Bool
  pub streak_write_fails : ℕ → Bool
  pub processed_read_fails : Bool
  pub processed_write_fails : Bool
  pub offer_read_fails : Bool
  pub offer_write_fails : FreezeOfferStatus → Bool
  pub badge_read_fails : Bool
  pub badge_write_fails : ℕ → Bool
  pub notification_fails : ℕ → Bool
  pub alert_fails : Bool

-- What a call of the service may raise.
pub data FreezeRefusal : Type 0 where
  no_offer_open no_streak_record used_this_month offer_out_of_date not_recorded : FreezeRefusal

pub data ServiceError : Type 0 where
  repository_read_failed : ServiceError
  freeze_not_available : FreezeRefusal → ServiceError
  rule_error : RuleError → ServiceError

-- `InMemoryStreakRepository.save`
unfoldable pub save_streak : StreakRecord → World → World
save_streak streak w = record w { streaks = insert streak.user_id streak w.streaks }

-- A list of ids, or of rows, under a user: `d.get(user_id, [])`.
abbrev pub rows_of {ℓ} : {A : Type ℓ} → Option (List A) → List A
rows_of none = []
rows_of (some rows) = rows

-- `InMemoryProcessedInteractionStore`
unfoldable pub was_processed : ℕ → ℕ → World → Bool
was_processed user_id interaction_id w =
    any (λ p. p.0 == user_id && p.1 == interaction_id) w.processed

unfoldable pub mark_processed : ℕ → ℕ → World → World
mark_processed user_id interaction_id w = record w {
  processed =
      if was_processed user_id interaction_id w
      then w.processed
      else (user_id, interaction_id) ∷ w.processed;
}

-- `InMemoryFreezeOfferRepository.save`
unfoldable pub save_row : FreezeOffer → World → World
save_row offer w = record w {
  offers =
      insert offer.user_id (upsert_offer offer (rows_of (lookup offer.user_id w.offers))) w.offers;
}

-- `InMemoryBadgeRepository`: the rows of a learner by milestone, never taken away.
unfoldable pub badge_rows : ℕ → World → Dict Badge
badge_rows user_id w = rows_of (lookup user_id w.badges)

-- `held.setdefault(milestone, badge)`
unfoldable pub set_default : ℕ → Badge → Dict Badge → Dict Badge
set_default milestone badge held = elim (lookup milestone held) [
  | none ↦ insert milestone badge held
  | some _ ↦ held
]

unfoldable pub award : Badge → World → World
award badge w = record w {
  badges =
      insert badge.user_id (set_default badge.milestone badge (badge_rows badge.user_id w))
        w.badges;
}

-- `tuple(held[m] for m in sorted(held))`: insertion of each row into its place by milestone.
unfoldable pub insert_sorted : Badge → List Badge → List Badge
insert_sorted b [] = b ∷ []
insert_sorted b (c ∷ cs) =
    if leb b.milestone c.milestone then b ∷ c ∷ cs else c ∷ insert_sorted b cs

unfoldable pub sorted_badges : Dict Badge → List Badge
unfolding insert_sorted
sorted_badges [] = []
sorted_badges ((_, b) ∷ rows) = insert_sorted b (sorted_badges rows)

unfoldable pub get_all : ℕ → World → List Badge
unfolding badge_rows sorted_badges
get_all user_id w = sorted_badges (badge_rows user_id w)
