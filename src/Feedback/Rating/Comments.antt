-- ===== src/Feedback/Rating/Comments.antt =====
-- The comment that a rating keeps.
use ai_coaching_agent.Common.{
  ℕ, ◌≤◌, ◌≡◌, refl, Bool, true, false, ◌&&◌, Option, none, some, [], ◌∷◌, length, ok, Bool-cases,
  if◌then◌else◌, inl, inr, arith,
}
use ai_coaching_agent.Common.Effect.{Triple, Triple-result, pure-Triple, raise-Triple}
use ai_coaching_agent.Streak.Time.{Moment}
use ai_coaching_agent.Feedback.Records.{InteractionRecord, Comment, RatingValue, RatingRecord}
use ai_coaching_agent.Feedback.Store.{World}
use ai_coaching_agent.Feedback.Rating.{
  is_space, is_empty, strip_left, strip_right, or_none, clean, max_comment_length, is_too_long,
  build_record,
}

abbrev pub starts_blank : Comment → Bool
starts_blank [] = false
starts_blank (c ∷ cs) = is_space c

abbrev pub ends_blank : Comment → Bool
ends_blank [] = false
ends_blank (c ∷ []) = is_space c
ends_blank (c ∷ d ∷ ds) = ends_blank (d ∷ ds)

strip_left-starts : (cs : Comment) → starts_blank (strip_left cs) ≡ false
unfolding strip_left
strip_left-starts [] = refl
strip_left-starts (c ∷ cs) = elim (Bool-cases (is_space c)) [
  | inl blank ↦ rw (strip_left, blank) (strip_left-starts cs)
  | inr text ↦ rw (strip_left, text) text
]

ends_by :
    (c : ℕ) (rest : Comment) (b : Bool)
    → is_space c ≡ b
    → ends_blank rest ≡ false
    → ends_blank (if b && is_empty rest then [] else c ∷ rest) ≡ false
ends_by c [] true e h = refl
ends_by c [] false e h = e
ends_by c (d ∷ ds) true e h = h
ends_by c (d ∷ ds) false e h = h

strip_right-ends : (cs : Comment) → ends_blank (strip_right cs) ≡ false
unfolding strip_right
strip_right-ends [] = refl
strip_right-ends (c ∷ cs) = ends_by c (strip_right cs) (is_space c) refl (strip_right-ends cs)

starts_by :
    (c : ℕ) (rest : Comment) (b : Bool)
    → is_space c ≡ false
    → starts_blank (if b then [] else c ∷ rest) ≡ false
starts_by c rest true e = refl
starts_by c rest false e = e

strip_right-starts :
    (cs : Comment) → starts_blank cs ≡ false → starts_blank (strip_right cs) ≡ false
unfolding strip_right
strip_right-starts [] e = refl
strip_right-starts (c ∷ cs) e =
    starts_by c (strip_right cs) (is_space c && is_empty (strip_right cs)) e

-- From 1 to 500 code points, with no white space at either end.
abbrev pub IsNeat : Option Comment → Type 0
IsNeat none = Unit
IsNeat (some c) =
    (1 ≤ length c)
    × (length c ≤ max_comment_length)
    × (starts_blank c ≡ false)
    × (ends_blank c ≡ false)

or_none-IsNeat :
    (c : Comment)
    → starts_blank c ≡ false
    → ends_blank c ≡ false
    → is_too_long (or_none c) ≡ false
    → IsNeat (or_none c)
or_none-IsNeat [] s e short = tt
or_none-IsNeat (x ∷ xs) s e short = (omega arith, ground (arith, short), s, e)

clean-IsNeat : (c : Option Comment) → is_too_long (clean c) ≡ false → IsNeat (clean c)
unfolding clean
clean-IsNeat none short = tt
clean-IsNeat (some c) short =
    or_none-IsNeat (strip_right (strip_left c))
      (strip_right-starts (strip_left c) (strip_left-starts c)) (strip_right-ends (strip_left c))
      short

build_record-Triple :
    (rating_id : ℕ) (i : InteractionRecord) (value : RatingValue) (comment : Option Comment)
    (rated_at : Moment)
    → Triple
        (λ w. Unit {0})
        (build_record rating_id i value comment rated_at)
        (λ s w. IsNeat s.comment)
        (λ e w. Unit {0})
unfolding build_record
build_record-Triple rating_id i value comment rated_at =
    elim (Bool-cases (is_too_long (clean comment))) [
      | inl long ↦ rw (build_record, long) (raise-Triple _ (λ w h. tt))
      | inr short ↦ rw (build_record, short) (pure-Triple _ (λ w h. clean-IsNeat comment short))
    ]

-- A record that is built has no comment, or one of 1 to 500 code points that neither starts nor ends
-- with white space.
pub build_record-IsNeat :
    (rating_id : ℕ) (i : InteractionRecord) (value : RatingValue) (comment : Option Comment)
    (rated_at : Moment) (w : World) (s : RatingRecord)
    → (build_record rating_id i value comment rated_at w).0 ≡ ok s
    → IsNeat s.comment
build_record-IsNeat rating_id i value comment rated_at w s built =
    Triple-result (build_record-Triple rating_id i value comment rated_at) w tt s built
