-- ===== src/Gaps/Counting.antt =====
-- What counts as a qualifying interaction.
use ai_coaching_agent.Common.{
  ℕ, ◌+◌, ◌≡◌, ◌≢◌, refl, ap, subst, ◌⊎◌, Bool, true, false, not, keep, List, [], ◌∷◌, All, length,
  ◌==◌, Bool-cases, inl, inr, contains, arith,
}
use ai_coaching_agent.Common.Members.{Holds, All-weaken}
use ai_coaching_agent.Common.Sort.{
  sort_by, sort_by-Holds, sort_by-length, IsDistinct, sort_by-IsDistinct,
}
use ai_coaching_agent.Gaps.History.{
  InteractionRecord, QualifyingInteractions, scan, by_time, qualifying_interactions,
}
use ai_coaching_agent.Gaps.Grounded.{qualifying-All}

abbrev total : QualifyingInteractions → ℕ
total q = length q.records + q.duplicates_discarded + q.other_user_records_discarded

abbrev id_of : InteractionRecord → ℕ
id_of r = r.interaction_id

module _ (user_id : ℕ) where
  scan-total :
      (seen : List ℕ) (rs : List InteractionRecord) → total (scan user_id seen rs) ≡ length rs
  unfolding scan
  scan-total seen [] = refl
  scan-total seen (r ∷ rs) = elim (Bool-cases (r.user_id == user_id)) [
    | inr other ↦ rw (scan, other) (omega (arith, scan-total seen rs))
    | inl own ↦ elim (Bool-cases (contains r.interaction_id seen)) [
      | inl again ↦ rw (scan, own, again) (omega (arith, scan-total seen rs))
      | inr first ↦ rw (scan, own, first) (omega (arith, scan-total (r.interaction_id ∷ seen) rs))
    ]
  ]

  -- What is kept was not seen before.
  scan-unseen :
      (seen : List ℕ) (rs : List InteractionRecord)
      → All (λ r. contains (id_of r) seen ≡ false) (scan user_id seen rs).records
  unfolding scan
  scan-unseen seen [] = tt
  scan-unseen seen (r ∷ rs) = elim (Bool-cases (r.user_id == user_id)) [
    | inr other ↦ rw (scan, other) (scan-unseen seen rs)
    | inl own ↦ elim (Bool-cases (contains r.interaction_id seen)) [
      | inl again ↦ rw (scan, own, again) (scan-unseen seen rs)
      | inr first ↦
          rw (scan, own, first)
            (
              first,
              All-weaken (λ q. contains (id_of q) (r.interaction_id ∷ seen) ≡ false)
                  (λ q. contains (id_of q) seen ≡ false) (λ q h. ground (arith, h)) _
                  (scan-unseen (r.interaction_id ∷ seen) rs),
            )
    ]
  ]

  scan-IsDistinct :
      (seen : List ℕ) (rs : List InteractionRecord)
      → IsDistinct id_of (scan user_id seen rs).records
  unfolding scan
  scan-IsDistinct seen [] = tt
  scan-IsDistinct seen (r ∷ rs) = elim (Bool-cases (r.user_id == user_id)) [
    | inr other ↦ rw (scan, other) (scan-IsDistinct seen rs)
    | inl own ↦ elim (Bool-cases (contains r.interaction_id seen)) [
      | inl again ↦ rw (scan, own, again) (scan-IsDistinct seen rs)
      | inr first ↦
          rw (scan, own, first)
            (
              All-weaken (λ q. contains (id_of q) (r.interaction_id ∷ seen) ≡ false)
                  (λ q. id_of q ≢ id_of r) (λ q h same. absurd (ground (arith, h, same))) _
                  (scan-unseen (r.interaction_id ∷ seen) rs),
              scan-IsDistinct (r.interaction_id ∷ seen) rs,
            )
    ]
  ]

  abbrev is_others : InteractionRecord → Bool
  is_others r = not (r.user_id == user_id)

  scan-others :
      (seen : List ℕ) (rs : List InteractionRecord)
      → (scan user_id seen rs).other_user_records_discarded ≡ length (keep is_others rs)
  unfolding scan
  scan-others seen [] = refl
  scan-others seen (r ∷ rs) = elim (Bool-cases (r.user_id == user_id)) [
    | inr other ↦ rw (scan, other) (omega (arith, scan-others seen rs))
    | inl own ↦ elim (Bool-cases (contains r.interaction_id seen)) [
      | inl again ↦ rw (scan, own, again) (scan-others seen rs)
      | inr first ↦ rw (scan, own, first) (scan-others (r.interaction_id ∷ seen) rs)
    ]
  ]

  -- A record of the identifier is among those given.
  abbrev pub Keeps : ℕ → List InteractionRecord → Type 0
  Keeps id rs = (k : InteractionRecord) × Holds k rs × (k.interaction_id ≡ id)

  Keeps-later :
      (id : ℕ) (r : InteractionRecord) (rs : List InteractionRecord)
      → Keeps id rs
      → Keeps id (r ∷ rs)
  Keeps-later id r rs (k, h, e) = (k, inr h, e)

  -- An own record was seen before, or one of its identifier is kept.
  scan_complete :
      (seen : List ℕ) (rs : List InteractionRecord) (m : InteractionRecord)
      → Holds m rs
      → m.user_id ≡ user_id
      → (contains m.interaction_id seen ≡ true)
        ⊎ Keeps m.interaction_id (scan user_id seen rs).records
  unfolding scan
  scan_complete seen [] m h o = absurd h
  scan_complete seen (r ∷ rs) m h o = elim (Bool-cases (r.user_id == user_id)) [
    | inr other ↦
        rw (scan, other)
          (elim h [
            | inl same ↦ absurd (ground (arith, ap (λ (x : InteractionRecord). x.user_id) same, o))
            | inr rest ↦ scan_complete seen rs m rest o
          ])
    | inl own ↦ elim (Bool-cases (contains r.interaction_id seen)) [
      | inl again ↦
          rw (scan, own, again)
            (elim h [
              | inl same ↦ inl (subst (λ x. contains (id_of x) seen ≡ true) same again)
              | inr rest ↦ scan_complete seen rs m rest o
            ])
      | inr first ↦
          rw (scan, own, first)
            (elim h [
              | inl same ↦ inr (r, inl refl, ap id_of same)
              | inr rest ↦ elim (scan_complete (r.interaction_id ∷ seen) rs m rest o) [
                | inr kept ↦ inr (Keeps-later _ r _ kept)
                | inl known ↦ elim (Bool-cases (contains m.interaction_id seen)) [
                  | inl old ↦ inl old
                  | inr unseen ↦ inr (r, inl refl, ground (arith, known, unseen))
                ]
              ]
            ])
    ]
  ]

  qualifying_complete :
      (rs : List InteractionRecord) (m : InteractionRecord)
      → Holds m rs
      → m.user_id ≡ user_id
      → Keeps m.interaction_id (qualifying_interactions user_id rs).records
  unfolding qualifying_interactions by_time
  qualifying_complete rs m h o = elim (scan_complete [] rs m h o) [
    | inl known ↦ absurd (ground (arith, known))
    | inr (k, held, e) ↦ (k, sort_by-Holds _ k _ (sort_by-Holds _ k _ held), e)
  ]

-- What counts is exactly the learner's own: each record that counts was returned by the provider
-- for the learner, no two have the same identifier, and each identifier of a returned record of the
-- learner is counted. The records of other learners are discarded as such, as many as there are, and
-- all other returned records that do not count are discarded as repetitions.
pub qualifying_interactions-IsDistinct :
    (user_id : ℕ) (rs : List InteractionRecord)
    → let q = qualifying_interactions user_id rs in
      All (λ (r : InteractionRecord). Holds r rs × (r.user_id ≡ user_id)) q.records
      × IsDistinct (λ (r : InteractionRecord). r.interaction_id) q.records
      × ((m : InteractionRecord)
          → Holds m rs
          → m.user_id ≡ user_id
          → Keeps user_id m.interaction_id q.records)
      × (q.other_user_records_discarded
          ≡ length (keep (λ (r : InteractionRecord). not (r.user_id == user_id)) rs))
      × (length q.records + q.duplicates_discarded + q.other_user_records_discarded ≡ length rs)
unfolding qualifying_interactions by_time
qualifying_interactions-IsDistinct user_id rs =
    let kept = (scan user_id [] rs).records in
    let by_id = sort_by (λ (r : InteractionRecord). r.interaction_id) kept in
    (
      qualifying-All user_id rs,
      sort_by-IsDistinct _ id_of by_id
          (sort_by-IsDistinct _ id_of kept (scan-IsDistinct user_id [] rs)),
      qualifying_complete user_id rs,
      scan-others user_id [] rs,
      omega (
        arith,
        sort_by-length (λ (r : InteractionRecord). r.asked_at) by_id,
        sort_by-length (λ (r : InteractionRecord). r.interaction_id) kept,
        scan-total user_id [] rs,
      ),
    )
