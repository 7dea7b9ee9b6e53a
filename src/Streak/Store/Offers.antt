-- ===== src/Streak/Store/Offers.antt =====
-- `InMemoryFreezeOfferRepository` of uc08/adapters/persistence/memory.py. The rows of one learner
-- are a list in the order of `_order`: saving a known id keeps its place, a new one goes last.
use ai_coaching_agent.Common.{Bool, ◌&&◌, List, [], ◌∷◌, ◌==◌, if◌then◌else◌}
use ai_coaching_agent.Streak.Records.{FreezeOffer}

abbrev pub same_id : FreezeOffer → FreezeOffer → Bool
same_id a b = a.offer_id.0 == b.offer_id.0 && a.offer_id.1 == b.offer_id.1

unfoldable pub upsert_offer : FreezeOffer → List FreezeOffer → List FreezeOffer
upsert_offer offer [] = offer ∷ []
upsert_offer offer (o ∷ os) = if same_id o offer then offer ∷ os else o ∷ upsert_offer offer os
