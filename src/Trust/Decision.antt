-- ===== src/Trust/Decision.antt =====
-- `resolve_decision` of scoring.py.
use Prim.Native.String.{◌++◌ as append}
use site_proof.Prelude.{
  String, Bool, true, false, not, ◌&&◌, ◌||◌, Option, none, some, List, [], ◌∷◌, ◌++◌, map, take,
  if◌then◌else◌,
}
use site_proof.Prelude.Float.{Float, ◌<=◌, ◌<<◌}
use site_proof.Prelude.Dict.{find, filter, any}
use site_proof.Trust.Domain.{
  SignalType, SignalStatus, partial, inconclusive, unavailable, Verdict, verified, review_required,
  flagged, Signal, PolicyDefinition, HardRuleResult, ScoreBreakdown, EngineDecision, type_value,
  sorted_types, same_type, is_pass, is_verified, is_flagged,
}
use site_proof.Trust.Scoring.{by_type, calculate_score}
use site_proof.Trust.Rules.{evaluate_hard_rules}

-- {UNAVAILABLE, INCONCLUSIVE}
abbrev pub is_open : SignalStatus → Bool
is_open unavailable = true
is_open inconclusive = true
is_open _ = false

-- {PARTIAL, INCONCLUSIVE}
abbrev pub is_weak : SignalStatus → Bool
is_weak partial = true
is_weak inconclusive = true
is_weak _ = false

abbrev pub is_empty {ℓ} : {A : Type ℓ} → List A → Bool
is_empty [] = true
is_empty (_ ∷ _) = false

-- `any(item.maximum_verdict == FLAGGED for item in rules)`
abbrev pub any_flagged : List HardRuleResult → Bool
any_flagged = any λ r. is_flagged r.maximum_verdict

-- ", ".join(items)
abbrev join : List String → String
join [] = ""
join (s ∷ []) = s
join (s ∷ t ∷ rest) = append s (append ", " (join (t ∷ rest)))

abbrev missing_message : List SignalType → String
missing_message missing =
    append "Required evidence was unavailable or inconclusive: "
      (append (join (map type_value missing)) ".")

module _ {F : Type 0} where
  -- Why `_missing_required` counts a signal that is there.
  abbrev pub is_lacking : Option (Signal F) → Bool
  is_lacking none = true
  is_lacking (some s) = not s.available || is_open s.status

  unfoldable pub missing_required : List (Signal F) → PolicyDefinition F → List SignalType
  missing_required signals policy =
      filter
        (λ t.
          policy.required_signals t
          && is_lacking (find (λ s. same_type s.type t) (by_type signals)))
        sorted_types

  -- The first reason of each signal that passes a test.
  unfoldable pub first_reasons : (SignalStatus → Bool) → List (Signal F) → List String
  first_reasons p [] = []
  first_reasons p (s ∷ signals) =
      let rest = first_reasons p signals in if p s.status then take 1 s.reasons ++ rest else rest

module _ {F : Type 0} ⦃f : Float F⦄ where
  unfoldable pub base_verdict : F → PolicyDefinition F → Verdict
  base_verdict score policy =
      if policy.verified_threshold <= score
      then verified
      else if policy.review_threshold <= score
      then review_required
      else flagged

  -- The confidence gate of `resolve_decision`.
  unfoldable pub gated_verdict : ScoreBreakdown F → PolicyDefinition F → Verdict
  unfolding base_verdict
  gated_verdict score policy =
      let base = base_verdict score.raw_score policy in
      if is_verified base && score.overall_confidence << policy.minimum_required_confidence
      then review_required
      else base

  -- The verdict of `resolve_decision`.
  unfoldable pub verdict_of :
      List SignalType → List HardRuleResult → ScoreBreakdown F → PolicyDefinition F → Verdict
  unfolding gated_verdict
  verdict_of missing rules score policy =
      let gated = gated_verdict score policy in
      if not (is_empty missing)
      then Verdict.inconclusive
      else if any_flagged rules
      then flagged
      else if not (is_empty rules) && is_verified gated
      then review_required
      else gated

  unfoldable pub summary_of : List SignalType → List HardRuleResult → List (Signal F) → List String
  summary_of missing rules signals =
      let reasons = map (λ r. r.explanation) rules ++ first_reasons is_pass signals in
      take 8 (if is_empty missing then reasons else missing_message missing ∷ reasons)

  abbrev confidence_message : F → F → String
  confidence_message confidence minimum = append "Overall evidence confidence " (
      append (f.percent confidence)
        (append " is below the " (append (f.percent minimum) " automatic-verification threshold.")))

  unfoldable pub warnings_of : ScoreBreakdown F → PolicyDefinition F → List (Signal F) → List String
  warnings_of score policy signals =
      let weak = first_reasons is_weak signals in
      let minimum = policy.minimum_required_confidence in
      take 8 (
        if score.overall_confidence << minimum
        then weak ++ confidence_message score.overall_confidence minimum ∷ []
        else weak)

  unfoldable pub resolve_decision : List (Signal F) → PolicyDefinition F → EngineDecision F
  resolve_decision signals policy =
      let score = calculate_score signals policy in
      let missing = missing_required signals policy in
      let rules = evaluate_hard_rules signals policy in
      record {
        score = score.raw_score;
        confidence = score.overall_confidence;
        verdict = verdict_of missing rules score policy;
        hard_rules = rules;
        summary_reasons = summary_of missing rules signals;
        warnings = warnings_of score policy signals;
      }
