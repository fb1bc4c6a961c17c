-- ===== src/Trust/Scoring.antt =====
-- `calculate_score` of scoring.py.
use site_proof.Prelude.{Bool, not, ◌&&◌, List, [], map, if◌then◌else◌}
use site_proof.Prelude.Float.{Float, ◌<=◌, whole, clamp}
use site_proof.Prelude.Dict.{put_all, filter}
use site_proof.Trust.Domain.{
  SignalType, Signal, PolicyDefinition, ScoreBreakdown, same_type, is_unavailable,
}

module _ {F : Type 0} where
  -- `{item.type: item for item in signals}`
  unfoldable pub by_type : List (Signal F) → List (Signal F)
  by_type = put_all (λ a b. same_type a.type b.type) []

  abbrev pub is_available : Signal F → Bool
  is_available s = s.available && not (is_unavailable s.status)

module _ {F : Type 0} ⦃f : Float F⦄ where
  open f use {mul, div, sum, round4}

  unfoldable pub weight_of : PolicyDefinition F → List (Signal F) → F
  weight_of policy available = sum (map (λ s. policy.weights s.type) available)

  unfoldable pub contributions_of : PolicyDefinition F → F → List (Signal F) → List (SignalType × F)
  contributions_of policy available_weight =
      let scale = div (whole 100) available_weight in
      map (λ s. (s.type, mul (mul s.score (policy.weights s.type)) scale))

  unfoldable pub confidence_of : PolicyDefinition F → F → List (Signal F) → F
  confidence_of policy available_weight available =
      div (sum (map (λ s. mul s.confidence (policy.weights s.type)) available)) available_weight

  abbrev pub no_score : ScoreBreakdown F
  no_score = record {
    raw_score = whole 0;
    overall_confidence = whole 0;
    contributions = [];
    available_weight = whole 0;
  }

  unfoldable pub calculate_score : List (Signal F) → PolicyDefinition F → ScoreBreakdown F
  unfolding contributions_of confidence_of
  calculate_score signals policy =
      let available : List (Signal F) = filter is_available (by_type signals) in
      let available_weight = weight_of policy available in
      let contributions = contributions_of policy available_weight available in
      if available_weight <= whole 0 then no_score else record {
        raw_score = round4 (clamp (whole 0) (whole 100) (sum (map (λ c. c.1) contributions)));
        overall_confidence =
            clamp (whole 0) (whole 1) (confidence_of policy available_weight available);
        contributions = contributions;
        available_weight = available_weight;
      }
