-- ===== src/Trust/Bounds.antt =====
-- The ranges of the score and of the confidence in `calculate_score`.
use site_proof.Prelude.{ℕ, ◌≡◌, Bool, true, false, List, arith, if◌then◌else◌, subst}
use site_proof.Prelude.Float.{Float, IsFloat, ◌<=◌, whole, clamp}
use site_proof.Trust.Domain.{Signal, PolicyDefinition, ScoreBreakdown}
use site_proof.Trust.Scoring.{calculate_score, no_score}

-- A score between 0 and 100, and a confidence between 0 and 1.
abbrev pub InRange : {F : Type 0} ⦃f : Float F⦄ → ScoreBreakdown F → Type 0
InRange s =
    ((whole 0 <= s.raw_score) ≡ true)
    × ((s.raw_score <= whole 100) ≡ true)
    × ((whole 0 <= s.overall_confidence) ≡ true)
    × ((s.overall_confidence <= whole 1) ≡ true)

either-InRange :
    {F : Type 0} ⦃f : Float F⦄ (b : Bool) (x y : ScoreBreakdown F)
    → InRange x
    → InRange y
    → InRange (if b then x else y)
either-InRange true x y a b = a
either-InRange false x y a b = b

module _ {F : Type 0} ⦃f : Float F⦄ (laws : IsFloat F) where
  open laws use {le_refl, le_total, hundredths_mono, round4_mono, round4_hundredths}

  clamp_bounds :
      (lo hi x : F)
      → (lo <= hi) ≡ true
      → ((lo <= clamp lo hi x) ≡ true) × ((clamp lo hi x <= hi) ≡ true)
  clamp_bounds lo hi x h =
      ground (arith, le_refl lo, le_refl hi, le_total lo x, le_total hi x, le_total lo hi)

  round4_bounds :
      (m n : ℕ) (x : F)
      → (f.hundredths m <= x) ≡ true
      → (x <= f.hundredths n) ≡ true
      → ((f.hundredths m <= f.round4 x) ≡ true) × ((f.round4 x <= f.hundredths n) ≡ true)
  round4_bounds m n x a b = (
    subst (λ (y : F). (y <= f.round4 x) ≡ true) (round4_hundredths m) (round4_mono _ _ a),
    subst (λ (y : F). (f.round4 x <= y) ≡ true) (round4_hundredths n) (round4_mono _ _ b),
  )

  -- Whatever the signals and the policy, the score is between 0 and 100 and the confidence between
  -- 0 and 1.
  pub score_bounds :
      (signals : List (Signal F)) (policy : PolicyDefinition F)
      → InRange (calculate_score signals policy)
  unfolding calculate_score
  score_bounds signals policy =
      either-InRange {F = F} _ no_score _
        (
          le_refl _,
          hundredths_mono 0 10000 (omega arith),
          le_refl _,
          hundredths_mono 0 100 (omega arith),
        )
        (let score = clamp_bounds (whole 0) (whole 100) _ (hundredths_mono 0 10000 (omega arith)) in
          let rounded = round4_bounds 0 10000 _ score.0 score.1 in
          let confidence =
            clamp_bounds (whole 0) (whole 1) _ (hundredths_mono 0 100 (omega arith)) in
          (rounded.0, rounded.1, confidence.0, confidence.1))
