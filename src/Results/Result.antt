-- ===== src/Results/Result.antt =====
-- The rows of VerificationResult, VerificationSignalResult and ReviewDecision. `F` is the type of
-- the floats. A time is in microseconds, an id (UUID) a number that is only compared.
use site_proof.Prelude.{ℕ, String, Bool, true, false, ◌&&◌, Option, List, ◌==◌, str_eq}
use site_proof.Trust.Domain.{SignalType, SignalStatus, Verdict, Metrics}

-- VerificationProcessingStatus
pub data ProcessingStatus : Type 0 where
  pending waiting_for_signals calculating completed failed : ProcessingStatus

unfoldable pub is_completed : ProcessingStatus → Bool
is_completed completed = true
is_completed _ = false

-- `diagnostics_json`, without its constant entries.
pub data Diagnostics (F : Type 0) : Type 0 where
  waiting_for : List String → Diagnostics F
  -- `availableWeight`, and of the security gate `enabled` and `constraintCodes`
  calculated : F → Bool → List String → Diagnostics F

-- The columns of `uq_verification_result_session_policy_engine`.
pub record Key : Type 0 where
  pub session_id : ℕ
  pub policy_id : ℕ
  pub policy_version : String
  pub engine_version : String

unfoldable pub same_key : Key → Key → Bool
same_key a b =
    a.session_id == b.session_id
    && a.policy_id == b.policy_id
    && str_eq a.policy_version b.policy_version
    && str_eq a.engine_version b.engine_version

pub record VerificationResult (F : Type 0) : Type 0 where
  pub id : ℕ
  pub organization_id : ℕ
  pub inspection_id : ℕ
  pub key : Key
  pub policy_name : String
  pub processing_status : ProcessingStatus
  pub raw_score : Option F
  pub final_score : Option F
  pub verdict : Option Verdict
  pub overall_confidence : Option F
  pub hard_rule_triggered : Bool
  pub hard_rule_codes : List String
  pub summary : Option String
  pub summary_reasons : List String
  pub warnings : List String
  pub limitations : List String
  pub diagnostics : Option (Diagnostics F)
  pub calculated_at : Option ℕ
  pub created_at : ℕ

pub record SignalRow (F : Type 0) : Type 0 where
  pub verification_result_id : ℕ
  pub signal_type : SignalType
  pub status : SignalStatus
  pub score : F
  pub confidence : F
  pub weight : F
  pub weighted_contribution : F
  pub required : Bool
  pub reason_summary : String
  pub reasons : List String
  pub metrics : Metrics
  pub source_algorithm_version : Option String

-- ReviewDecisionType
pub data ReviewDecisionType : Type 0 where
  approved rejected recapture_required : ReviewDecisionType

pub record ReviewDecision : Type 0 where
  pub organization_id : ℕ
  pub inspection_id : ℕ
  pub session_id : ℕ
  pub verification_result_id : ℕ
  pub reviewer_user_id : ℕ
  pub decision : ReviewDecisionType
  pub reason : String
