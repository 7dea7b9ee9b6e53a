-- ===== src/Streak/Badges/Once.antt =====
-- Badges are awarded once, in ascending order, and are permanent.
use ai_coaching_agent.Common.{
  ℕ, ◌≡◌, refl, Bool, true, false, not, ◌&&◌, ◌||◌, Option, none, some, List, [], ◌∷◌, map, Result,
  ok, err, arith, Bool-cases, inl, inr, keep, contains, All, ◌==◌, if◌then◌else◌,
}
use ai_coaching_agent.Common.Dict.{Dict, lookup, lookup-insert}
use ai_coaching_agent.Streak.Records.{Badge, QuestionCountRead, ProviderError}
use ai_coaching_agent.Streak.Store.{
  World, Env, rows_of, badge_rows, set_default, award, insert_sorted, sorted_badges, get_all,
}
use ai_coaching_agent.Streak.Badges.{
  badge_for, award_one, award_all, evaluate_read, evaluate, crossed, sorted_milestones,
  insert_milestone,
}

-- The badge that a learner holds for a milestone.
abbrev pub held : ℕ → ℕ → World → Option Badge
held user_id milestone w = lookup milestone (badge_rows user_id w)

-- A row that is there stands; otherwise the new one is put.
abbrev pub or_new : Option Badge → Badge → Option Badge
or_new none b = some b
or_new (some old) b = some old

abbrev standing : Option Badge → Badge → Badge
standing none b = b
standing (some old) b = old

or_new-eq-some : (o : Option Badge) (b : Badge) → or_new o b ≡ some (standing o b)
or_new-eq-some none b = refl
or_new-eq-some (some old) b = refl

lookup-set_default :
    (m j : ℕ) (b : Badge) (d : Dict Badge)
    → lookup j (set_default m b d) ≡ (if m == j then or_new (lookup j d) b else lookup j d)
unfolding set_default
lookup-set_default m j b d = ground (arith, lookup-insert m j b d)

pub held-award :
    (b : Badge) (u m : ℕ) (w : World)
    → held u m (award b w)
      ≡ (if b.user_id == u && b.milestone == m then or_new (held u m w) b else held u m w)
unfolding award badge_rows
held-award b u m w = ground (
  arith,
  lookup-insert b.user_id u (set_default b.milestone b (rows_of (lookup b.user_id w.badges)))
      w.badges,
  lookup-set_default b.milestone m b (rows_of (lookup b.user_id w.badges)),
)

held-award_one :
    (env : Env) (user_id count n u m : ℕ) (w : World)
    → held u m (award_one env user_id count n w)
      ≡ held u m (award (badge_for user_id env.now count n) w)
unfolding award_one badge_rows
held-award_one env user_id count n u m w = ground arith

-- What one turn of the loop leaves a learner with.
held_step :
    (env : Env) (user_id count n u m : ℕ) (w : World)
    → held u m (if env.badge_write_fails n then w else award_one env user_id count n w) ≡ (
        if user_id == u && n == m && not (env.badge_write_fails n)
        then or_new (held u m w) (badge_for user_id env.now count n)
        else held u m w)
unfolding award
held_step env user_id count n u m w = ground (
  arith,
  held-award_one env user_id count n u m w,
  held-award (badge_for user_id env.now count n) u m w,
)

award_all-keeps :
    (env : Env) (user_id count : ℕ) (ms : List ℕ) (u m : ℕ) (b : Badge) (w : World)
    → held u m w ≡ some b
    → held u m (award_all env user_id count ms w).1 ≡ some b
unfolding award_all
award_all-keeps env user_id count [] u m b w h = h
award_all-keeps env user_id count (n ∷ ms) u m b w h =
    award_all-keeps env user_id count ms u m b
      (if env.badge_write_fails n then w else award_one env user_id count n w)
      (ground (arith, held_step env user_id count n u m w))

evaluate_read-keeps :
    (milestones : List ℕ) (env : Env) (user_id : ℕ) (r : Result ProviderError QuestionCountRead)
    (w : World) (u m : ℕ) (b : Badge)
    → held u m w ≡ some b
    → held u m (evaluate_read milestones env user_id r w).1 ≡ some b
unfolding evaluate_read
evaluate_read-keeps milestones env user_id (err e) w u m b h = h
evaluate_read-keeps milestones env user_id (ok read) w u m b h = ground (
  arith,
  award_all-keeps env user_id read.count
      (crossed (sorted_milestones milestones) read.count
        (map (λ (c : Badge). c.milestone) (get_all user_id w)))
      u m b w h,
)

-- Whatever the provider, the repository and the sink answer, an evaluation for one learner leaves
-- every badge that any learner held in place, unchanged, also when it raises.
pub evaluate-keeps :
    (milestones : List ℕ) (env : Env) (user_id : ℕ) (w : World) (u m : ℕ) (b : Badge)
    → held u m w ≡ some b
    → held u m (evaluate milestones env user_id w).1 ≡ some b
unfolding evaluate
evaluate-keeps milestones env user_id w u m b h =
    evaluate_read-keeps milestones env user_id (env.question_count user_id) w u m b h

-- An award list: no milestone of it is held already, each is reached by the count, and every
-- badge of it is in the repository afterwards.
pub award_all-gives :
    (env : Env) (user_id count : ℕ) (ms : List ℕ) (m : ℕ) (w : World)
    → contains m ms ≡ true
    → env.badge_write_fails m ≡ false
    → (b : Badge) × (held user_id m (award_all env user_id count ms w).1 ≡ some b)
unfolding award_all
award_all-gives env user_id count [] m w h e = cc
award_all-gives env user_id count (n ∷ ms) m w h e = elim (Bool-cases (m == n)) [
  | inl same ↦
      let b = standing (held user_id m w) (badge_for user_id env.now count n) in
      (
        b,
        award_all-keeps env user_id count ms user_id m b
            (if env.badge_write_fails n then w else award_one env user_id count n w)
            (ground (
              arith,
              held_step env user_id count n user_id m w,
              or_new-eq-some (held user_id m w) (badge_for user_id env.now count n),
            )),
      )
  | inr other ↦
      award_all-gives env user_id count ms m
        (if env.badge_write_fails n then w else award_one env user_id count n w) (ground arith) e
]

-- The milestones that an evaluation hands out are among those it was given.
pub award_all-sub :
    (env : Env) (user_id count : ℕ) (ms : List ℕ) (m : ℕ) (w : World)
    → contains m (award_all env user_id count ms w).0 ≡ true
    → contains m ms ≡ true
unfolding award_all
award_all-sub env user_id count [] m w h = h
award_all-sub env user_id count (n ∷ ms) m w h = ground (
  arith,
  award_all-sub env user_id count ms m
      (if env.badge_write_fails n then w else award_one env user_id count n w),
)

pub contains-keep :
    (p : ℕ → Bool) (m : ℕ) (ms : List ℕ) → contains m (keep p ms) ≡ (contains m ms && p m)
contains-keep p m [] = refl
contains-keep p m (n ∷ ms) = ground (arith, contains-keep p m ms)

contains-insert_milestone :
    (m n : ℕ) (ns : List ℕ) → contains m (insert_milestone n ns) ≡ (m == n || contains m ns)
unfolding insert_milestone
contains-insert_milestone m n [] = refl
contains-insert_milestone m n (k ∷ ns) = ground (arith, contains-insert_milestone m n ns)

pub contains-sorted_milestones :
    (m : ℕ) (ms : List ℕ) → contains m (sorted_milestones ms) ≡ contains m ms
unfolding sorted_milestones
contains-sorted_milestones m [] = refl
contains-sorted_milestones m (n ∷ ms) =
    ground
      (arith, contains-insert_milestone m n (sorted_milestones ms), contains-sorted_milestones m ms)

-- Every row of a learner stands under its own milestone.
abbrev pub IsKeyed : Dict Badge → Type 0
IsKeyed rows = All (λ (row : ℕ × Badge). row.1.milestone ≡ row.0) rows

-- Is there a badge?
abbrev pub is_held : Option Badge → Bool
is_held none = false
is_held (some _) = true

abbrev pub milestones_of : List Badge → List ℕ
milestones_of bs = map (λ (b : Badge). b.milestone) bs

contains-insert_sorted :
    (m : ℕ) (b : Badge) (bs : List Badge)
    → contains m (milestones_of (insert_sorted b bs))
      ≡ (m == b.milestone || contains m (milestones_of bs))
unfolding insert_sorted
contains-insert_sorted m b [] = refl
contains-insert_sorted m b (c ∷ bs) = ground (arith, contains-insert_sorted m b bs)

pub contains-sorted_badges :
    (m : ℕ) (rows : Dict Badge)
    → IsKeyed rows
    → contains m (milestones_of (sorted_badges rows)) ≡ is_held (lookup m rows)
unfolding sorted_badges lookup
contains-sorted_badges m [] h = refl
contains-sorted_badges m ((k, b) ∷ rows) h =
    ground
      (arith, contains-insert_sorted m b (sorted_badges rows), contains-sorted_badges m rows h.1)
