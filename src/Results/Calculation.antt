-- ===== src/Results/Calculation.antt =====
-- The parts of `calculate_verification` in service.py: what it reads, how far it comes, and what it
-- writes into the rows.
use site_proof.Prelude.{
  ℕ, String, Bool, true, false, not, ◌&&◌, Option, none, some, List, [], ◌∷◌, ◌++◌, map, ◌==◌,
  if◌then◌else◌, str_eq,
}
use site_proof.Prelude.Float.{Float, whole}
use site_proof.Prelude.Dict.{find, filter, any}
use site_proof.Sessions.Session.{Session}
use site_proof.Trust.Domain.{
  SignalType, SignalStatus, Signal, Verdict, verified, review_required, flagged, PolicyDefinition,
  HardRuleResult, EngineDecision, ScoreBreakdown, type_value, same_type,
}
use site_proof.Trust.Scoring.{calculate_score}
use site_proof.Trust.Decision.{resolve_decision, is_empty}
use site_proof.Trust.Gate.{
  SecurityRow, LocationRow, ReplayRow, evaluate_security_gate, apply_security_gate,
}
use site_proof.Results.Result.{
  Key, VerificationResult, SignalRow, waiting_for, calculated, waiting_for_signals, calculating,
  completed,
}
use site_proof.Results.Store.{Store, update_result, delete_signals}

-- VisualAnalysisStatus and FusionAnalysisStatus, as far as they are unfinished.
pub data AnalysisStatus : Type 0 where
  pending processing finished : AnalysisStatus

-- A row of VisualMotionResult or VisualInertialResult.
pub record Analysis : Type 0 where
  pub session_id : ℕ
  pub version : String
  pub status : AnalysisStatus

abbrev is_unfinished : AnalysisStatus → Bool
is_unfinished finished = false
is_unfinished _ = true

-- What one call reads besides the store: the clock, the ids that are drawn and the database's clock,
-- the settings, and the rows of the analyses. `collect` is what SignalCollector makes of them for the
-- required signals, one signal of each type.
pub record Inputs (F : Type 0) : Type 0 where
  pub now : ℕ
  pub new_result_id : ℕ
  pub new_policy_id : ℕ
  pub created_at : ℕ
  pub vision_version : String
  pub fusion_version : String
  pub visual_rows : List Analysis
  pub fusion_rows : List Analysis
  pub security : Option (SecurityRow F)
  pub location : Option (LocationRow F)
  pub replay : Option (ReplayRow F)
  pub advanced_signals : Option (Unit {0})
  pub collect : (SignalType → Bool) → List (Signal F)

abbrev waits_for : ℕ → String → List Analysis → String → List String
waits_for session version rows name =
    if any
      (λ (a : Analysis).
        a.session_id == session && str_eq a.version version && is_unfinished a.status)
      rows
    then name ∷ []
    else []

abbrev pub status_value : SignalStatus → String
status_value SignalStatus.pass = "PASS"
status_value SignalStatus.partial = "PARTIAL"
status_value SignalStatus.fail = "FAIL"
status_value SignalStatus.inconclusive = "INCONCLUSIVE"
status_value SignalStatus.unavailable = "UNAVAILABLE"

abbrev first_or : String → List String → String
first_or default [] = default
first_or default (s ∷ _) = s

abbrev summary_text : Verdict → String
summary_text verified = "Evidence strongly satisfies the configured SiteProof verification policy."
summary_text review_required = "Some verification signals require human review."
summary_text flagged = "Strong contradictory or failing evidence was detected."
summary_text Verdict.inconclusive =
    "Insufficient reliable evidence was available for an automatic decision."

abbrev limitations_text : List String
limitations_text =
    "The SiteProof score is confidence derived from configured multi-signal policy, not legal certainty."
    ∷ "The result depends on phone hardware, scene quality, upstream algorithms, and policy configuration."
    ∷ "Sophisticated synchronized replay or compromised device/OS behavior may remain undetected."
    ∷ "Human review remains appropriate for high-risk or ambiguous operational decisions." ∷ []

-- How far the calculation comes: it waits, with the summary and the names, or has all signals.
pub data Stage (F : Type 0) : Type 0 where
  waits : String → List String → Stage F
  decides : List (Signal F) → Stage F

module _ {F : Type 0} where
  -- `_upstream_processing`
  unfoldable pub upstream_processing : Inputs F → ℕ → List String
  upstream_processing inputs session =
      waits_for session inputs.vision_version inputs.visual_rows "VISUAL_MOTION"
      ++ waits_for session inputs.fusion_version inputs.fusion_rows "VISUAL_INERTIAL_CONSISTENCY"

  unfoldable pub new_result : Inputs F → Session → PolicyDefinition F → Key → VerificationResult F
  new_result inputs session policy key = record {
    id = inputs.new_result_id;
    organization_id = session.organization_id;
    inspection_id = session.inspection_id;
    key = key;
    policy_name = policy.name;
    processing_status = calculating;
    raw_score = none;
    final_score = none;
    verdict = none;
    overall_confidence = none;
    hard_rule_triggered = false;
    hard_rule_codes = [];
    summary = none;
    summary_reasons = [];
    warnings = [];
    limitations = [];
    diagnostics = none;
    calculated_at = none;
    created_at = inputs.created_at;
  }

  -- What `_reset_incomplete_result` writes into the row.
  unfoldable pub reset : VerificationResult F → VerificationResult F
  reset r = record r {
    processing_status = calculating;
    raw_score = none;
    final_score = none;
    verdict = none;
    overall_confidence = none;
    hard_rule_triggered = false;
    hard_rule_codes = [];
    summary = none;
    summary_reasons = [];
    warnings = [];
    limitations = [];
    diagnostics = none;
    calculated_at = none;
  }

  abbrev is_not_ready : Signal F → Bool
  is_not_ready s = s.required && not s.available

  unfoldable pub stage : Inputs F → ℕ → PolicyDefinition F → Stage F
  stage inputs session policy =
      let waiting = upstream_processing inputs session in
      let signals = inputs.collect policy.required_signals in
      let not_ready = filter is_not_ready signals in
      if not (is_empty waiting)
      then waits "Waiting for required upstream verification analysis to finish." waiting
      else if not (is_empty not_ready)
      then waits "Waiting for required upstream verification signals."
          (map (λ s. type_value s.type) not_ready)
      else decides signals

  -- The first part of the calculation: a new row, or the unfinished one reset.
  abbrev pub begun : VerificationResult F → Option (VerificationResult F) → VerificationResult F
  begun new none = new
  begun new (some r) = reset r

  abbrev pub begin : VerificationResult F → Store F → Option (VerificationResult F) → Store F
  begin new store none = record store { results = store.results ++ new ∷ [] }
  begin new store (some r) = record store {
    results = update_result r.id reset store.results;
    signals = delete_signals r.id store.signals;
  }

  unfoldable pub wait_for : String → List String → VerificationResult F → VerificationResult F
  wait_for summary names r = record r {
    processing_status = waiting_for_signals;
    summary = some summary;
    diagnostics = some (waiting_for names);
  }

module _ {F : Type 0} ⦃f : Float F⦄ where
  unfoldable pub security_rules : Inputs F → String → List HardRuleResult
  security_rules inputs engine =
      if str_eq engine "verification-engine-v2.0"
      then evaluate_security_gate inputs.security inputs.location inputs.replay
      else []

  -- The decision: that of the signals, and under the security engine the gate's.
  unfoldable pub decide :
      Inputs F → PolicyDefinition F → String → List (Signal F) → EngineDecision F
  unfolding security_rules
  decide inputs policy engine signals =
      let decision = resolve_decision signals policy in
      if str_eq engine "verification-engine-v2.0"
      then apply_security_gate decision (security_rules inputs engine)
      else decision

  unfoldable pub complete_result :
      ℕ
      → EngineDecision F
      → F
      → Bool
      → List HardRuleResult
      → VerificationResult F
      → VerificationResult F
  complete_result now d available_weight enabled rules r = record r {
    raw_score = some d.score;
    final_score = some d.score;
    overall_confidence = some d.confidence;
    verdict = some d.verdict;
    hard_rule_triggered = not (is_empty d.hard_rules);
    hard_rule_codes = map (λ h. h.code) d.hard_rules;
    summary_reasons = d.summary_reasons;
    warnings = d.warnings;
    limitations = limitations_text;
    summary = some (summary_text d.verdict);
    diagnostics = some (calculated available_weight enabled (map (λ h. h.code) rules));
    calculated_at = some now;
    processing_status = completed;
  }

  abbrev contribution_or : F → Option (SignalType × F) → F
  contribution_or default none = default
  contribution_or default (some (t, c)) = c

  unfoldable pub signal_row : ℕ → PolicyDefinition F → ScoreBreakdown F → Signal F → SignalRow F
  signal_row id policy score s = record {
    verification_result_id = id;
    signal_type = s.type;
    status = s.status;
    score = s.score;
    confidence = s.confidence;
    weight = policy.weights s.type;
    weighted_contribution =
        contribution_or (whole 0) (find (λ e. same_type e.0 s.type) score.contributions);
    required = s.required;
    reason_summary = first_or (status_value s.status) s.reasons;
    reasons = s.reasons;
    metrics = s.metrics;
    source_algorithm_version = s.source_algorithm_version;
  }

  -- What the calculation then writes into the row, and the rows of the signals.
  unfoldable pub finish_result :
      Inputs F → PolicyDefinition F → String → Stage F → VerificationResult F → VerificationResult F
  finish_result inputs policy engine (waits summary names) r = wait_for summary names r
  finish_result inputs policy engine (decides signals) r =
      complete_result inputs.now (decide inputs policy engine signals)
        (calculate_score signals policy).available_weight (str_eq engine "verification-engine-v2.0")
        (security_rules inputs engine) r

  unfoldable pub finish_signals :
      PolicyDefinition F → Stage F → ℕ → List (SignalRow F) → List (SignalRow F)
  finish_signals policy (waits summary names) id rows = rows
  finish_signals policy (decides signals) id rows =
      delete_signals id rows ++ map (signal_row id policy (calculate_score signals policy)) signals
