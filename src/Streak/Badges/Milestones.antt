-- ===== src/Streak/Badges/Milestones.antt =====
-- Which milestones one evaluation awards, and in which order.
use ai_coaching_agent.Common.{
  ℕ, ◌≤◌, ◌≡◌, refl, ap, Bool, true, false, not, ◌&&◌, none, some, List, [], ◌∷◌, map, Result, ok,
  err, arith, Bool-cases, Option-cases, inl, inr, keep, contains, All, leb, if◌then◌else◌,
}
use ai_coaching_agent.Streak.Records.{Badge, QuestionCountRead, ProviderError}
use ai_coaching_agent.Streak.Store.{World, Env, ServiceError, badge_rows, get_all}
use ai_coaching_agent.Streak.Badges.{
  BadgeEvaluation, badge_for, award_one, award_all, evaluate, evaluate_read, crossed,
  sorted_milestones, insert_milestone, is_empty,
}
use ai_coaching_agent.Streak.Badges.Once.{
  held, IsKeyed, milestones_of, evaluate-keeps, award_all-gives, award_all-sub, contains-keep,
  contains-sorted_milestones, contains-sorted_badges,
}

-- The badges of a returned evaluation; a raise returns none.
abbrev pub awarded_of : Result ServiceError BadgeEvaluation → List Badge
awarded_of (ok e) = e.awarded
awarded_of (err _) = []

-- In ascending order.
abbrev pub IsAscending : List ℕ → Type 0
IsAscending [] = Unit
IsAscending (m ∷ ms) = All (λ n. m ≤ n) ms × IsAscending ms

milestones_of-map : (u t c : ℕ) (ms : List ℕ) → milestones_of (map (badge_for u t c) ms) ≡ ms
milestones_of-map u t c [] = refl
milestones_of-map u t c (m ∷ ms) = ap (λ (ns : List ℕ). m ∷ ns) (milestones_of-map u t c ms)

contains-crossed :
    (m count : ℕ) (ms ns : List ℕ)
    → contains m (crossed (sorted_milestones ms) count ns)
      ≡ (contains m ms && (leb m count && not (contains m ns)))
unfolding crossed
contains-crossed m count ms ns = ground (
  arith,
  contains-keep (λ (n : ℕ). leb n count && not (contains n ns)) m (sorted_milestones ms),
  contains-sorted_milestones m ms,
)

module _ (milestones : List ℕ) (env : Env) (user_id : ℕ) (w : World) (read : QuestionCountRead)
    (answered : env.question_count user_id ≡ ok read) (keyed : IsKeyed (badge_rows user_id w)) where
  -- When the count was read and the learner's rows are under their own milestones, a badge that an
  -- evaluation awards is for a configured milestone that the count has reached, and the learner
  -- did not hold it before.
  pub evaluate-once :
      (m : ℕ)
      → contains m (milestones_of (awarded_of (evaluate milestones env user_id w).0)) ≡ true
      → (contains m milestones ≡ true) × (m ≤ read.count) × (held user_id m w ≡ none)
  unfolding evaluate evaluate_read get_all
  evaluate-once m h =
      let ns = milestones_of (get_all user_id w) in
      let ms = crossed (sorted_milestones milestones) read.count ns in
      ground (
        arith,
        contains-crossed m read.count milestones ns,
        contains-sorted_badges m (badge_rows user_id w) keyed,
        award_all-sub env user_id read.count ms m w,
        milestones_of-map user_id env.now read.count (award_all env user_id read.count ms w).0,
      )

  -- When the count and the held badges were read, the count is not empty and the learner's rows
  -- are under their own milestones, every configured milestone that the count has reached and
  -- whose write succeeds is held afterwards: a count that jumps past several thresholds awards
  -- every one.
  pub evaluate_complete :
      (m : ℕ)
      → is_empty read.status ≡ false
      → env.badge_read_fails ≡ false
      → contains m milestones ≡ true
      → m ≤ read.count
      → env.badge_write_fails m ≡ false
      → (b : Badge) × (held user_id m (evaluate milestones env user_id w).1 ≡ some b)
  unfolding evaluate evaluate_read get_all
  evaluate_complete m nonempty readable configured reached writable =
      elim (Option-cases (held user_id m w)) [
        | inl missing ↦
            let ns = milestones_of (get_all user_id w) in
            let (b, there) =
              award_all-gives env user_id read.count
                (crossed (sorted_milestones milestones) read.count ns) m w
                (ground (
                  arith,
                  contains-crossed m read.count milestones ns,
                  contains-sorted_badges m (badge_rows user_id w) keyed,
                ))
                writable in
            (b, ground (arith, there))
        | inr (b, there) ↦ (b, evaluate-keeps milestones env user_id w user_id m b there)
      ]

module _ (P : ℕ → Type 0) where
  All-keep : (p : ℕ → Bool) (ms : List ℕ) → All P ms → All P (keep p ms)
  All-keep p [] h = h
  All-keep p (m ∷ ms) h = ground (arith, All-keep p ms h.1)

  All-insert_milestone : (m : ℕ) (ms : List ℕ) → P m → All P ms → All P (insert_milestone m ms)
  unfolding insert_milestone
  All-insert_milestone m [] p h = (p, tt)
  All-insert_milestone m (n ∷ ms) p h = ground (arith, All-insert_milestone m ms p h.1)

  All-award_all :
      (env : Env) (u c : ℕ) (ms : List ℕ) (w : World) → All P ms → All P (award_all env u c ms w).0
  unfolding award_all
  All-award_all env u c [] w h = h
  All-award_all env u c (m ∷ ms) w h = ground (
    arith,
    All-award_all env u c ms (if env.badge_write_fails m then w else award_one env u c m w) h.1,
  )

All-le_trans : (m n : ℕ) (ms : List ℕ) → m ≤ n → All (λ k. n ≤ k) ms → All (λ k. m ≤ k) ms
All-le_trans m n [] h a = tt
All-le_trans m n (k ∷ ms) h a = (omega arith, All-le_trans m n ms h a.1)

insert_milestone-IsAscending :
    (m : ℕ) (ms : List ℕ) → IsAscending ms → IsAscending (insert_milestone m ms)
unfolding insert_milestone
insert_milestone-IsAscending m [] h = (tt, tt)
insert_milestone-IsAscending m (n ∷ ms) h = elim (Bool-cases (leb m n)) [
  | inl le ↦ rw le ((ground arith, All-le_trans m n ms (ground arith) h.0), h)
  | inr gt ↦ rw gt (
    All-insert_milestone (λ k. n ≤ k) m ms (ground arith) h.0,
    insert_milestone-IsAscending m ms h.1,
  )
]

sorted_milestones-IsAscending : (ms : List ℕ) → IsAscending (sorted_milestones ms)
unfolding sorted_milestones
sorted_milestones-IsAscending [] = tt
sorted_milestones-IsAscending (m ∷ ms) =
    insert_milestone-IsAscending m (sorted_milestones ms) (sorted_milestones-IsAscending ms)

keep-IsAscending : (p : ℕ → Bool) (ms : List ℕ) → IsAscending ms → IsAscending (keep p ms)
keep-IsAscending p [] h = h
keep-IsAscending p (m ∷ ms) h =
    ground (arith, keep-IsAscending p ms h.1, All-keep (λ n. m ≤ n) p ms h.0)

award_all-IsAscending :
    (env : Env) (u c : ℕ) (ms : List ℕ) (w : World)
    → IsAscending ms
    → IsAscending (award_all env u c ms w).0
unfolding award_all
award_all-IsAscending env u c [] w h = h
award_all-IsAscending env u c (m ∷ ms) w h =
    let w' = if env.badge_write_fails m then w else award_one env u c m w in
    ground
      (arith, award_all-IsAscending env u c ms w' h.1, All-award_all (λ n. m ≤ n) env u c ms w' h.0)

evaluate_read-IsAscending :
    (milestones : List ℕ) (env : Env) (u : ℕ) (r : Result ProviderError QuestionCountRead)
    (w : World)
    → IsAscending (milestones_of (awarded_of (evaluate_read milestones env u r w).0))
unfolding evaluate_read crossed
evaluate_read-IsAscending milestones env u (err e) w = tt
evaluate_read-IsAscending milestones env u (ok read) w =
    let held = milestones_of (get_all u w) in
    let p : ℕ → Bool = λ m. leb m read.count && not (contains m held) in
    let ms = keep p (sorted_milestones milestones) in
    ground (
      arith,
      milestones_of-map u env.now read.count (award_all env u read.count ms w).0,
      award_all-IsAscending env u read.count ms w (
          keep-IsAscending p (sorted_milestones milestones)
            (sorted_milestones-IsAscending milestones)),
    )

-- Whatever the outside answers, and in whatever order the milestones were configured, the badges
-- of one evaluation come in ascending order of their milestones.
pub evaluate-IsAscending :
    (milestones : List ℕ) (env : Env) (u : ℕ) (w : World)
    → IsAscending (milestones_of (awarded_of (evaluate milestones env u w).0))
unfolding evaluate
evaluate-IsAscending milestones env u w =
    evaluate_read-IsAscending milestones env u (env.question_count u) w
