-- ===== src/Trust/Gate.antt =====
-- security_gate.py. The rows of the security analyses are arguments: each is what the query for a
-- completed row of the current version returns.
use site_proof.Prelude.{
  String, Bool, true, false, not, ◌&&◌, ◌||◌, Option, none, some, List, [], ◌∷◌, ◌++◌, map, take,
  str_eq, if◌then◌else◌,
}
use site_proof.Prelude.Float.{Float, ◌<=◌}
use site_proof.Prelude.Dict.{put_all, any}
use site_proof.Trust.Domain.{
  Verdict, flagged, review_required, HardRuleResult, EngineDecision, is_verified,
}
use site_proof.Trust.Rules.{same_code}
use site_proof.Trust.Decision.{any_flagged}

pub data RiskLevel : Type 0 where
  low moderate high inconclusive : RiskLevel

abbrev is_high : RiskLevel → Bool
is_high high = true
is_high _ = false

abbrev is_review : Verdict → Bool
is_review review_required = true
is_review _ = false

-- AdvancedSecurityResult, LocationRiskResult and ReplayRiskResult, as far as the gate reads them.
pub record SecurityRow (F : Type 0) : Type 0 where
  pub reason_codes : List String
  pub evidence_reuse_score : F
  pub device_integrity_status : String
  pub device_risk_score : F
  pub overall_risk : RiskLevel
  pub confidence : F

pub record LocationRow (F : Type 0) : Type 0 where
  pub mock_location_detected : Bool
  pub risk_level : RiskLevel
  pub confidence : F

pub record ReplayRow (F : Type 0) : Type 0 where
  pub risk_level : RiskLevel
  pub score : F
  pub confidence : F

abbrev pub has_code : String → List String → Bool
has_code code = any (λ c. str_eq c code)

abbrev pub rule : String → Verdict → String → HardRuleResult
rule code verdict why = record { code = code; maximum_verdict = verdict; explanation = why }

abbrev pub has_rule : String → List HardRuleResult → Bool
has_rule code = any (λ r. str_eq r.code code)

-- `engine_version_for_session`: a completed row of both analyses makes the pipeline ready.
abbrev pub is_there {ℓ} : {A : Type ℓ} → Option A → Bool
is_there none = false
is_there (some _) = true

unfoldable pub engine_version_for_session {ℓ} : {A B : Type ℓ} → Option A → Option B → String
engine_version_for_session security signals =
    if is_there security && is_there signals
    then "verification-engine-v2.0"
    else "verification-engine-v1.1"

module _ {F : Type 0} ⦃f : Float F⦄ where
  open f use {hundredths}

  unfoldable pub reuse_rules : SecurityRow F → List HardRuleResult
  reuse_rules s =
      if has_code "EXACT_EVIDENCE_REUSE" s.reason_codes || hundredths 99 <= s.evidence_reuse_score
      then rule "SECURITY_EXACT_EVIDENCE_REUSE" flagged
          "Exact verified video and sensor evidence was reused across sessions."
        ∷ []
      else if has_code "EXACT_VIDEO_REUSE" s.reason_codes && hundredths 80 <= s.evidence_reuse_score
      then rule "SECURITY_EXACT_VIDEO_REUSE" flagged
          "The exact verified live-capture video appeared in another session."
        ∷ []
      else []

  unfoldable pub location_rules : Option (LocationRow F) → List HardRuleResult
  location_rules none = []
  location_rules (some l) =
      if l.mock_location_detected && hundredths 95 <= l.confidence
      then rule "SECURITY_MOCK_LOCATION_DETECTED" flagged
          "Android marked captured location evidence as mock-provided."
        ∷ []
      else if is_high l.risk_level && hundredths 90 <= l.confidence
      then rule "SECURITY_HIGH_LOCATION_RISK" review_required
          "High-confidence location behavior requires human review."
        ∷ []
      else []

  unfoldable pub device_rules : SecurityRow F → List HardRuleResult
  device_rules s =
      if has_code "PROVIDER_DEVICE_INTEGRITY_FAILED" s.reason_codes
        && str_eq s.device_integrity_status "FAIL"
        && hundredths 95 <= s.device_risk_score
      then rule "SECURITY_PROVIDER_INTEGRITY_FAILED" flagged
          "Provider-backed application or device integrity validation failed."
        ∷ []
      else []

  unfoldable pub replay_rules : Option (ReplayRow F) → List HardRuleResult
  replay_rules none = []
  replay_rules (some r) =
      if is_high r.risk_level && hundredths 90 <= r.score && hundredths 90 <= r.confidence
      then rule "SECURITY_HIGH_REPLAY_RISK" review_required
          "High-confidence replay indicators require human review."
        ∷ []
      else []

  unfoldable pub composite_rules : SecurityRow F → List HardRuleResult → List HardRuleResult
  composite_rules s rules =
      if is_high s.overall_risk
        && hundredths 90 <= s.confidence
        && not (any_flagged rules)
        && not (has_rule "SECURITY_HIGH_REPLAY_RISK" rules)
        && not (has_rule "SECURITY_HIGH_LOCATION_RISK" rules)
      then rule "SECURITY_HIGH_COMPOSITE_RISK" review_required
          "High-confidence composite anti-spoofing risk requires human review."
        ∷ []
      else []

  unfoldable pub evaluate_security_gate :
      Option (SecurityRow F) → Option (LocationRow F) → Option (ReplayRow F) → List HardRuleResult
  evaluate_security_gate none location replay = []
  evaluate_security_gate (some s) location replay =
      let rules : List HardRuleResult =
        reuse_rules s ++ (location_rules location ++ (device_rules s ++ replay_rules replay)) in
      put_all same_code [] (rules ++ composite_rules s rules)

unfoldable pub gate_verdict : Verdict → List HardRuleResult → Verdict
gate_verdict before rules =
    if any_flagged rules then flagged else if is_verified before then review_required else before

module _ {F : Type 0} where
  unfoldable pub apply_security_gate : EngineDecision F → List HardRuleResult → EngineDecision F
  unfolding gate_verdict
  apply_security_gate d [] = d
  apply_security_gate d (r ∷ rs) =
      let rules : List HardRuleResult = r ∷ rs in
      let verdict = gate_verdict d.verdict rules in
      let security_reasons : List String = map (λ x. x.explanation) rules in
      record d {
        verdict = verdict;
        hard_rules = put_all same_code [] (d.hard_rules ++ rules);
        summary_reasons = take 8 (security_reasons ++ d.summary_reasons);
        warnings =
            if is_review verdict then take 8 (d.warnings ++ security_reasons) else d.warnings;
      }
