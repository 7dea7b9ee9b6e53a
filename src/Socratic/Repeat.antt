-- ===== src/Socratic/Repeat.antt =====
-- packages/uc05/uc05/domain/normalisation.py: `jaccard`, `similarity` and `is_repeat`.
-- The content tokens of a text are a set of stems, here a list without repetitions. How a text is
-- flattened and stemmed is a parameter. A similarity is a fraction in place of a float: division
-- is correctly rounded, hence monotone, and sets of questions are small.
use Prim.Native.String.{String}
use ai_coaching_agent.Common.{
  ℕ, suc, ◌+◌, ◌-◌, Bool, true, false, ◌&&◌, Option, none, some, List, [], ◌∷◌, contains, keep,
  length, if◌then◌else◌,
}
use ai_coaching_agent.Common.Fraction.{Fraction, frac, ge_frac, gt_frac}

-- `len(left & right)`
abbrev pub common : List ℕ → List ℕ → ℕ
common left right = length (keep (λ x. contains x right) left)

unfoldable pub jaccard : List ℕ → List ℕ → Fraction
jaccard [] [] = frac 1 1
jaccard [] (y ∷ right) = frac 0 1
jaccard (x ∷ left) [] = frac 0 1
jaccard (x ∷ left) (y ∷ right) =
    let both = common (x ∷ left) (y ∷ right) in
    frac both (length (x ∷ left) + length (y ∷ right) - both)

-- `(repeat, index_of_matched_previous, best_similarity)`
pub record Verdict : Type 0 where
  pub repeated : Bool
  pub matched : Option ℕ
  pub best : Fraction

-- `best_index is not None`
abbrev pub is_matched : Option ℕ → Bool
is_matched none = false
is_matched (some _) = true

module _ (content_tokens : String → List ℕ) where
  unfoldable pub similarity : String → String → Fraction
  similarity a b = jaccard (content_tokens a) (content_tokens b)

  -- The loop of `is_repeat` from an index on, with the best index and score so far.
  unfoldable pub scan : String → List String → ℕ → Option ℕ → Fraction → Option ℕ × Fraction
  scan candidate [] index matched best = (matched, best)
  scan candidate (earlier ∷ rest) index matched best =
      let score = similarity candidate earlier in
      let better = gt_frac score best in
      scan candidate rest (suc index) (if better then some index else matched)
        (if better then score else best)

  unfoldable pub is_repeat : String → List String → Fraction → Verdict
  unfolding scan
  is_repeat candidate previous threshold =
      let (matched, best) = scan candidate previous 0 none (frac 0 1) in
      record {
        repeated = ge_frac best threshold && is_matched matched;
        matched = matched;
        best = best;
      }
