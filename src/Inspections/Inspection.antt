-- ===== src/Inspections/Inspection.antt =====
-- The row of Inspection. A coordinate is its JSON text.
use site_proof.Prelude.{ℕ, String, Bool, true, false, Option}

-- InspectionStatus
pub data InspectionStatus : Type 0 where
  draft assigned acknowledged ready session_started evidence_uploading : InspectionStatus
  processing approved rejected recapture_required cancelled : InspectionStatus

pub record Inspection : Type 0 where
  pub id : ℕ
  pub organization_id : ℕ
  pub status : InspectionStatus
  pub expected_latitude : String
  pub expected_longitude : String
  pub allowed_radius_meters : ℕ
  pub capture_duration_seconds : ℕ
  pub deadline : ℕ
  pub cancelled_at : Option ℕ

unfoldable pub is_draft : InspectionStatus → Bool
is_draft draft = true
is_draft _ = false

unfoldable pub is_assigned : InspectionStatus → Bool
is_assigned assigned = true
is_assigned _ = false

unfoldable pub is_acknowledged : InspectionStatus → Bool
is_acknowledged acknowledged = true
is_acknowledged _ = false

unfoldable pub is_ready : InspectionStatus → Bool
is_ready ready = true
is_ready _ = false

unfoldable pub is_cancelled : InspectionStatus → Bool
is_cancelled cancelled = true
is_cancelled _ = false
