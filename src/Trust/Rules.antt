-- ===== src/Trust/Rules.antt =====
-- The hard rules of scoring.py.
use site_proof.Prelude.{
  String, Bool, true, false, ◌&&◌, ◌||◌, Option, none, some, List, [], ◌∷◌, ◌++◌, ltb, leb, str_eq,
}
use site_proof.Prelude.Float.{Float, ◌<=◌}
use site_proof.Prelude.Dict.{put_all, any}
use site_proof.Trust.Domain.{
  location, challenge_completion, scene_continuity, visual_inertial_consistency, Signal,
  PolicyDefinition, HardRuleResult, flagged, review_required, same_type, is_fail,
}

-- STRONG_FUSION_CONTRADICTIONS
abbrev pub is_strong_contradiction : String → Bool
is_strong_contradiction s =
    str_eq s "OPPOSITE_DIRECTION"
    || str_eq s "VISUAL_WITHOUT_SENSOR_MOTION"
    || str_eq s "SENSOR_WITHOUT_VISUAL_MOTION"

-- `x == text` for a value that may be missing
abbrev is_text : Option String → String → Bool
is_text none t = false
is_text (some s) t = str_eq s t

abbrev pub same_code : HardRuleResult → HardRuleResult → Bool
same_code a b = str_eq a.code b.code

abbrev pub fusion_rule : HardRuleResult
fusion_rule = record {
  code = "HIGH_CONFIDENCE_FUSION_MISMATCH";
  maximum_verdict = flagged;
  explanation = "High-confidence camera motion physically contradicted device motion.";
}

abbrev pub location_rule : HardRuleResult
location_rule = record {
  code = "CLEAR_WRONG_LOCATION";
  maximum_verdict = flagged;
  explanation = "High-confidence location evidence placed capture outside the allowed radius.";
}

abbrev pub challenge_rule : HardRuleResult
challenge_rule = record {
  code = "MULTIPLE_HIGH_CONFIDENCE_CHALLENGE_FAILURES";
  maximum_verdict = flagged;
  explanation = "Multiple randomized challenges failed with strong sensor evidence.";
}

abbrev pub scene_rule : HardRuleResult
scene_rule = record {
  code = "MAJOR_SCENE_DISCONTINUITY";
  maximum_verdict = review_required;
  explanation = "A major scene-continuity anomaly requires human review.";
}

abbrev rule_if : Bool → HardRuleResult → List HardRuleResult
rule_if true r = r ∷ []
rule_if false r = []

module _ {F : Type 0} ⦃f : Float F⦄ where
  open f use {hundredths}

  unfoldable pub strong_fusion_mismatch : Signal F → Bool
  strong_fusion_mismatch s =
      let contradiction =
        ltb 0 s.metrics.strong_contradiction_count
        || any is_strong_contradiction s.metrics.mismatch_reasons in
      same_type s.type visual_inertial_consistency
      && is_fail s.status
      && hundredths 80 <= s.confidence
      && is_text s.metrics.consistency_status "MISMATCH"
      && contradiction

  unfoldable pub clear_wrong_location : Signal F → Bool
  clear_wrong_location s =
      same_type s.type location
      && is_fail s.status
      && hundredths 80 <= s.confidence
      && s.metrics.clearly_outside

  unfoldable pub multiple_challenge_failures : Signal F → Bool
  multiple_challenge_failures s =
      same_type s.type challenge_completion && leb 2 s.metrics.high_confidence_failures

  unfoldable pub major_scene_discontinuity : Signal F → Bool
  major_scene_discontinuity s =
      same_type s.type scene_continuity
      && is_fail s.status
      && hundredths 80 <= s.confidence
      && s.metrics.major_discontinuity

  -- The body of the loop of `evaluate_hard_rules`.
  unfoldable pub rules_of : PolicyDefinition F → Signal F → List HardRuleResult
  rules_of policy s =
      rule_if (policy.hard_rules "HIGH_CONFIDENCE_FUSION_MISMATCH" && strong_fusion_mismatch s)
        fusion_rule
      ++ (rule_if (policy.hard_rules "CLEAR_WRONG_LOCATION" && clear_wrong_location s) location_rule
          ++ (rule_if
                (policy.hard_rules "MULTIPLE_HIGH_CONFIDENCE_CHALLENGE_FAILURES"
                  && multiple_challenge_failures s)
                challenge_rule
              ++ rule_if
                  (policy.hard_rules "MAJOR_SCENE_DISCONTINUITY" && major_scene_discontinuity s)
                  scene_rule))

  unfoldable pub triggered : PolicyDefinition F → List (Signal F) → List HardRuleResult
  triggered policy [] = []
  triggered policy (s ∷ signals) = rules_of policy s ++ triggered policy signals

  unfoldable pub evaluate_hard_rules : List (Signal F) → PolicyDefinition F → List HardRuleResult
  evaluate_hard_rules signals policy = put_all same_code [] (triggered policy signals)
