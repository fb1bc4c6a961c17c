-- ===== src/Trust/Policy.antt =====
-- policy.py: the default policy and the validation of a policy. `none` is a ValueError.
use site_proof.Prelude.{
  ℕ, String, Bool, true, false, not, ◌&&◌, ◌||◌, Option, none, some, List, map, str_eq,
  if◌then◌else◌,
}
use site_proof.Prelude.Float.{Float, ◌<=◌, ◌<<◌, whole}
use site_proof.Prelude.Dict.{any}
use site_proof.Trust.Domain.{
  SignalType, location, session_time, challenge_completion, sensor_quality, visual_motion,
  scene_continuity, visual_inertial_consistency, PolicyDefinition, all_types,
}

-- The weights of the default policy, which are whole numbers.
abbrev pub default_weight : SignalType → ℕ
default_weight location = 20
default_weight session_time = 3
default_weight challenge_completion = 45
default_weight sensor_quality = 1
default_weight visual_motion = 20
default_weight scene_continuity = 10
default_weight visual_inertial_consistency = 1

abbrev pub default_required : SignalType → Bool
default_required location = true
default_required challenge_completion = true
default_required visual_motion = true
default_required _ = false

abbrev pub default_hard_rules : String → Bool
default_hard_rules code =
    str_eq code "HIGH_CONFIDENCE_FUSION_MISMATCH"
    || str_eq code "CLEAR_WRONG_LOCATION"
    || str_eq code "MULTIPLE_HIGH_CONFIDENCE_CHALLENGE_FAILURES"
    || str_eq code "MAJOR_SCENE_DISCONTINUITY"

module _ {F : Type 0} ⦃f : Float F⦄ where
  open f use {hundredths, millionth, sub, abs, sum}

  abbrev pub between : F → F → F → Bool
  between lo hi x = lo <= x && x <= hi

  -- `validate_policy`. The type of `weights` makes the weights total, and that of
  -- `required_signals` makes the required ones known: those two checks cannot fail.
  unfoldable pub validate_policy : PolicyDefinition F → Option (PolicyDefinition F)
  validate_policy p =
      let weights : List F = map (λ t. p.weights t) all_types in
      if not (between (whole 0) (whole 100) p.review_threshold)
      then none
      else if not (between (whole 0) (whole 100) p.verified_threshold)
      then none
      else if p.verified_threshold <= p.review_threshold
      then none
      else if not (between (whole 0) (whole 1) p.minimum_required_confidence)
      then none
      else if any (λ w. w << whole 0) weights
      then none
      else if millionth << abs (sub (sum weights) (whole 100))
      then none
      else some p

  unfoldable pub default_policy : PolicyDefinition F
  default_policy = record {
    name = "Infrastructure Field Verification";
    version = "1.3";
    verified_threshold = whole 90;
    review_threshold = whole 65;
    minimum_required_confidence = hundredths 70;
    weights = λ t. whole (default_weight t);
    required_signals = default_required;
    hard_rules = default_hard_rules;
  }

  -- `default_policy_definition`
  unfoldable pub default_policy_definition : Option (PolicyDefinition F)
  unfolding default_policy
  default_policy_definition = validate_policy default_policy
