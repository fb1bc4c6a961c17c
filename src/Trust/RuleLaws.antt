-- ===== src/Trust/RuleLaws.antt =====
-- Which hard rules `evaluate_hard_rules` returns, and when one of them caps the verdict at FLAGGED.
use site_proof.Prelude.{
  String, ◌≡◌, refl, Bool, true, not, ◌&&◌, ◌||◌, List, [], ◌∷◌, ◌++◌, arith, str_eq, ◌∙◌, ap, All,
  eq_iff,
}
use site_proof.Prelude.Float.{Float}
use site_proof.Prelude.Dict.{any, put_all, any-put_all, any-append, All-put_all}
use site_proof.Trust.Domain.{Signal, PolicyDefinition, HardRuleResult, is_flagged}
use site_proof.Trust.Rules.{
  same_code, strong_fusion_mismatch, clear_wrong_location, multiple_challenge_failures,
  major_scene_discontinuity, rules_of, triggered, evaluate_hard_rules,
}
use site_proof.Trust.Decision.{any_flagged}

abbrev pub has_rule : String → List HardRuleResult → Bool
has_rule code = any (λ r. str_eq r.code code)

pub has_rule-put_all :
    (code : String) (d rules : List HardRuleResult)
    → has_rule code (put_all same_code d rules) ≡ (has_rule code d || has_rule code rules)
has_rule-put_all code =
    any-put_all same_code (λ r. str_eq r.code code)
      λ x y e. ground (arith, eq_iff x.code y.code, eq_iff x.code code, eq_iff y.code code)

-- The codes whose rules only cap a verdict at REVIEW_REQUIRED; all others flag.
unfoldable pub flags : String → Bool
flags code = not (
    str_eq code "MAJOR_SCENE_DISCONTINUITY"
    || str_eq code "SECURITY_HIGH_LOCATION_RISK"
    || str_eq code "SECURITY_HIGH_REPLAY_RISK"
    || str_eq code "SECURITY_HIGH_COMPOSITE_RISK")

abbrev pub Consistent : HardRuleResult → Type 0
Consistent r = is_flagged r.maximum_verdict ≡ flags r.code

abbrev flag_codes : List HardRuleResult → Bool
flag_codes = any (λ r. flags r.code)

flag_codes-eq :
    (rules : List HardRuleResult) → All Consistent rules → any_flagged rules ≡ flag_codes rules
unfolding any
flag_codes-eq [] c = refl
flag_codes-eq (r ∷ rules) c = ground (arith, flag_codes-eq rules c.1)

-- If the code of a rule settles whether it flags, the dictionary of the rules flags exactly if one
-- of them does.
pub any_flagged-put_all :
    (d rules : List HardRuleResult)
    → All Consistent d
    → All Consistent rules
    → any_flagged (put_all same_code d rules) ≡ (any_flagged d || any_flagged rules)
any_flagged-put_all d rules a b =
    flag_codes-eq _ (All-put_all same_code Consistent d rules a b)
    ∙ any-put_all same_code (λ r. flags r.code) by_code d rules
    ∙ rw (flag_codes-eq d a, flag_codes-eq rules b) refl
  where
    by_code : (x y : HardRuleResult) → same_code x y ≡ true → flags x.code ≡ flags y.code
    by_code x y e = ap flags ((eq_iff x.code y.code).0 e)

pub All-append {κ} :
    {A : Type 0} (P : A → Type κ) (xs ys : List A) → All P xs → All P ys → All P (xs ++ ys)
All-append P [] ys a b = b
All-append P (x ∷ xs) ys a b = (a.0, All-append P xs ys a.1 b)

module _ {F : Type 0} ⦃f : Float F⦄ (policy : PolicyDefinition F) where
  rules_of-Consistent : (s : Signal F) → All Consistent (rules_of policy s)
  unfolding rules_of flags
  rules_of-Consistent s = ground arith

  triggered-Consistent : (signals : List (Signal F)) → All Consistent (triggered policy signals)
  unfolding triggered
  triggered-Consistent [] = tt
  triggered-Consistent (s ∷ signals) =
      All-append Consistent (rules_of policy s) (triggered policy signals) (rules_of-Consistent s)
        (triggered-Consistent signals)

  -- A signal that a rule flags.
  unfoldable pub contradicts : Signal F → Bool
  contradicts s =
      (policy.hard_rules "HIGH_CONFIDENCE_FUSION_MISMATCH" && strong_fusion_mismatch s)
      || (policy.hard_rules "CLEAR_WRONG_LOCATION" && clear_wrong_location s)
      || (policy.hard_rules "MULTIPLE_HIGH_CONFIDENCE_CHALLENGE_FAILURES"
          && multiple_challenge_failures s)

  any_flagged-rules_of : (s : Signal F) → any_flagged (rules_of policy s) ≡ contradicts s
  unfolding rules_of contradicts any
  any_flagged-rules_of s = ground arith

  any_flagged-triggered :
      (signals : List (Signal F)) → any_flagged (triggered policy signals) ≡ any contradicts signals
  unfolding triggered any
  any_flagged-triggered [] = refl
  any_flagged-triggered (s ∷ signals) =
      any-append (λ r. is_flagged r.maximum_verdict) (rules_of policy s) (triggered policy signals)
      ∙ rw (any_flagged-rules_of s, any_flagged-triggered signals) (ground arith)

  -- The hard rules cap the verdict at FLAGGED exactly if the policy enables a rule that flags some
  -- signal: a physical contradiction of camera and sensors, a clearly wrong location, or two
  -- challenge failures of high confidence.
  pub any_flagged-evaluate_hard_rules :
      (signals : List (Signal F))
      → any_flagged (evaluate_hard_rules signals policy) ≡ any contradicts signals
  unfolding evaluate_hard_rules any
  any_flagged-evaluate_hard_rules signals =
      any_flagged-put_all [] (triggered policy signals) tt (triggered-Consistent signals)
      ∙ any_flagged-triggered signals

  -- One code at a time: what makes its rule appear among a signal's rules.
  has_rule-triggered :
      (code : String) (p : Signal F → Bool)
      → ((s : Signal F) → has_rule code (rules_of policy s) ≡ (policy.hard_rules code && p s))
      → (signals : List (Signal F))
      → has_rule code (triggered policy signals) ≡ (policy.hard_rules code && any p signals)
  unfolding triggered any
  has_rule-triggered code p one [] = ground arith
  has_rule-triggered code p one (s ∷ signals) =
      any-append (λ r. str_eq r.code code) (rules_of policy s) (triggered policy signals)
      ∙ rw (one s, has_rule-triggered code p one signals) (ground arith)

  appears :
      (code : String) (p : Signal F → Bool)
      → ((s : Signal F) → has_rule code (rules_of policy s) ≡ (policy.hard_rules code && p s))
      → (signals : List (Signal F))
      → has_rule code (evaluate_hard_rules signals policy)
        ≡ (policy.hard_rules code && any p signals)
  unfolding evaluate_hard_rules any
  appears code p one signals =
      has_rule-put_all code [] (triggered policy signals) ∙ has_rule-triggered code p one signals

  -- Each of the four rules is returned exactly if the policy enables it and some signal meets its
  -- condition.
  pub has_rule-evaluate_hard_rules :
      (signals : List (Signal F))
      → let rules = evaluate_hard_rules signals policy in
        let enabled = policy.hard_rules in
        (has_rule "HIGH_CONFIDENCE_FUSION_MISMATCH" rules
          ≡ (enabled "HIGH_CONFIDENCE_FUSION_MISMATCH" && any strong_fusion_mismatch signals))
        × (has_rule "CLEAR_WRONG_LOCATION" rules
            ≡ (enabled "CLEAR_WRONG_LOCATION" && any clear_wrong_location signals))
        × (has_rule "MULTIPLE_HIGH_CONFIDENCE_CHALLENGE_FAILURES" rules ≡ (
            enabled "MULTIPLE_HIGH_CONFIDENCE_CHALLENGE_FAILURES"
            && any multiple_challenge_failures signals))
        × (has_rule "MAJOR_SCENE_DISCONTINUITY" rules
            ≡ (enabled "MAJOR_SCENE_DISCONTINUITY" && any major_scene_discontinuity signals))
  unfolding rules_of any
  has_rule-evaluate_hard_rules signals = (
    appears "HIGH_CONFIDENCE_FUSION_MISMATCH" strong_fusion_mismatch (λ s. ground arith) signals,
    appears "CLEAR_WRONG_LOCATION" clear_wrong_location (λ s. ground arith) signals,
    appears "MULTIPLE_HIGH_CONFIDENCE_CHALLENGE_FAILURES" multiple_challenge_failures
        (λ s. ground arith) signals,
    appears "MAJOR_SCENE_DISCONTINUITY" major_scene_discontinuity (λ s. ground arith) signals,
  )
