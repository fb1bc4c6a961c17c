-- ===== src/Trust/Examples.antt =====
-- The trust engine at work on a session whose evidence is complete.
use site_proof.Prelude.{◌≡◌, ◌↔◌, ◌⊎◌, refl, true, false, not, ◌&&◌, none, some, List, [], ◌∷◌}
use site_proof.Prelude.Float.{Micro, micro_float, Micro-IsFloat}
use site_proof.Prelude.Dict.{any, put_all, find, filter}
use site_proof.Trust.Domain.{
  SignalType, location, challenge_completion, visual_motion, Metrics, Signal, PolicyDefinition,
  Verdict, verified, flagged, EngineDecision, SignalStatus, pass, fail,
}
use site_proof.Trust.Scoring.{calculate_score, by_type, weight_of, contributions_of, confidence_of}
use site_proof.Trust.Rules.{
  triggered, rules_of, evaluate_hard_rules, strong_fusion_mismatch, clear_wrong_location,
  multiple_challenge_failures, major_scene_discontinuity,
}
use site_proof.Trust.Decision.{
  verdict_of, gated_verdict, base_verdict, missing_required, is_lacking, resolve_decision,
  any_flagged,
}
use site_proof.Trust.Policy.{default_policy}
use site_proof.Trust.Gate.{
  reuse_rules, location_rules, device_rules, replay_rules, composite_rules, SecurityRow, high,
  evaluate_security_gate, apply_security_gate,
}
use site_proof.Trust.Bounds.{InRange, score_bounds}
use site_proof.Trust.Verdicts.{has_type, last_of, missing_required_lem, verified_iff, flagged_iff}
use site_proof.Trust.RuleLaws.{has_rule, has_rule-evaluate_hard_rules}
use site_proof.Trust.GateLaws.{is_forged_by, apply_security_gate_lem, gated_flagged_iff}

abbrev no_metrics : Metrics
no_metrics = record {
  mismatch_reasons = [];
  strong_contradiction_count = 0;
  consistency_status = none;
  clearly_outside = false;
  high_confidence_failures = 0;
  major_discontinuity = false;
}

abbrev signal : SignalType → SignalStatus → Metrics → Signal Micro
signal type status metrics = record {
  type = type;
  status = status;
  score = 950_000;
  confidence = 900_000;
  available = true;
  required = true;
  reasons = "measured" ∷ [];
  metrics = metrics;
  source_algorithm_version = none;
}

abbrev pub policy : PolicyDefinition Micro
policy = default_policy ⦃f = micro_float⦄

abbrev pub good : List (Signal Micro)
good =
    signal location pass no_metrics
    ∷ signal challenge_completion pass no_metrics
    ∷ signal visual_motion pass no_metrics
    ∷ []

abbrev outside : List (Signal Micro)
outside =
    signal location fail (record no_metrics { clearly_outside = true })
    ∷ signal challenge_completion pass no_metrics
    ∷ signal visual_motion pass no_metrics
    ∷ []

abbrev decide : List (Signal Micro) → EngineDecision Micro
decide signals = resolve_decision ⦃f = micro_float⦄ signals policy

abbrev pub reused : SecurityRow Micro
reused = record {
  reason_codes = "EXACT_EVIDENCE_REUSE" ∷ [];
  evidence_reuse_score = 990_000;
  device_integrity_status = "PASS";
  device_risk_score = 0;
  overall_risk = high;
  confidence = 950_000;
}

good_verdict : (decide good).verdict ≡ verified
unfolding resolve_decision verdict_of gated_verdict base_verdict missing_required filter
    default_policy find by_type put_all any evaluate_hard_rules triggered rules_of
    strong_fusion_mismatch clear_wrong_location multiple_challenge_failures
    major_scene_discontinuity calculate_score weight_of contributions_of confidence_of
good_verdict = refl

outside_verdict : (decide outside).verdict ≡ flagged
unfolding resolve_decision verdict_of gated_verdict base_verdict missing_required filter
    default_policy find by_type put_all any evaluate_hard_rules triggered rules_of
    strong_fusion_mismatch clear_wrong_location multiple_challenge_failures
    major_scene_discontinuity
outside_verdict = refl

reused_rules : any_flagged (evaluate_security_gate ⦃f = micro_float⦄ (some reused) none none) ≡ true
unfolding evaluate_security_gate any put_all reuse_rules location_rules device_rules replay_rules
    composite_rules
reused_rules = refl

score_bounds_example : InRange ⦃f = micro_float⦄ (calculate_score ⦃f = micro_float⦄ good policy)
score_bounds_example = score_bounds ⦃f = micro_float⦄ Micro-IsFloat good policy

missing_required_lem_example :
    has_type location (missing_required good policy)
    ≡ (policy.required_signals location && is_lacking (last_of location good))
missing_required_lem_example = missing_required_lem location good policy

verified_iff_example :
    let score = calculate_score ⦃f = micro_float⦄ good policy in
    (decide good).verdict ≡ verified ↔ (
      (missing_required good policy ≡ [])
      × (evaluate_hard_rules ⦃f = micro_float⦄ good policy ≡ [])
      × ((micro_float.le policy.verified_threshold score.raw_score) ≡ true)
      × ((micro_float.le policy.minimum_required_confidence score.overall_confidence) ≡ true))
verified_iff_example = verified_iff ⦃f = micro_float⦄ good policy

flagged_iff_example :
    let score = calculate_score ⦃f = micro_float⦄ outside policy in
    (decide outside).verdict ≡ flagged ↔ (
      (missing_required outside policy ≡ [])
      × ((any_flagged (evaluate_hard_rules ⦃f = micro_float⦄ outside policy) ≡ true)
          ⊎ ((not (micro_float.le policy.verified_threshold score.raw_score) ≡ true)
              × (not (micro_float.le policy.review_threshold score.raw_score) ≡ true))))
flagged_iff_example = flagged_iff ⦃f = micro_float⦄ outside policy

has_rule-evaluate_hard_rules_example :
    let rules = evaluate_hard_rules ⦃f = micro_float⦄ outside policy in
    let enabled = policy.hard_rules in
    (has_rule "HIGH_CONFIDENCE_FUSION_MISMATCH" rules ≡ (
      enabled "HIGH_CONFIDENCE_FUSION_MISMATCH"
      && any (strong_fusion_mismatch ⦃f = micro_float⦄) outside))
    × (has_rule "CLEAR_WRONG_LOCATION" rules
        ≡ (enabled "CLEAR_WRONG_LOCATION" && any (clear_wrong_location ⦃f = micro_float⦄) outside))
    × (has_rule "MULTIPLE_HIGH_CONFIDENCE_CHALLENGE_FAILURES" rules ≡ (
        enabled "MULTIPLE_HIGH_CONFIDENCE_CHALLENGE_FAILURES"
        && any (multiple_challenge_failures ⦃f = micro_float⦄) outside))
    × (has_rule "MAJOR_SCENE_DISCONTINUITY" rules ≡ (
        enabled "MAJOR_SCENE_DISCONTINUITY"
        && any (major_scene_discontinuity ⦃f = micro_float⦄) outside))
has_rule-evaluate_hard_rules_example = has_rule-evaluate_hard_rules ⦃f = micro_float⦄ policy outside

apply_security_gate_lem_example :
    let rules = evaluate_security_gate ⦃f = micro_float⦄ (some reused) none none in
    let after = apply_security_gate (decide good) rules in
    (after.verdict ≡ verified ↔ (((decide good).verdict ≡ verified) × (rules ≡ [])))
    × (after.verdict ≡ flagged ↔ (((decide good).verdict ≡ flagged) ⊎ (any_flagged rules ≡ true)))
    × (after.verdict ≡ Verdict.inconclusive
        ↔ (((decide good).verdict ≡ Verdict.inconclusive) × (any_flagged rules ≡ false)))
    × (after.score ≡ (decide good).score)
    × (after.confidence ≡ (decide good).confidence)
apply_security_gate_lem_example =
    apply_security_gate_lem (decide good)
      (evaluate_security_gate ⦃f = micro_float⦄ (some reused) none none)

gated_flagged_iff_example :
    (apply_security_gate
        (decide good)
        (evaluate_security_gate ⦃f = micro_float⦄ (some reused) none none)).verdict
      ≡ flagged
    ↔ (((decide good).verdict ≡ flagged)
        ⊎ (is_forged_by ⦃f = micro_float⦄ (some reused) none ≡ true))
gated_flagged_iff_example =
    gated_flagged_iff ⦃f = micro_float⦄ (decide good) (some reused) none none
