-- ===== src/Sessions/Session.antt =====
-- The row of VerificationSession. Times are microseconds. A summary is its JSON document.
use site_proof.Prelude.{ℕ, String, Bool, true, false, Option}

-- VerificationSessionStatus
pub data SessionStatus : Type 0 where
  created capturing challenges_in_progress challenges_completed challenge_failed : SessionStatus
  capture_completed uploading uploaded processing aborted expired upload_failed : SessionStatus

-- ACTIVE_SESSION_STATES
unfoldable pub is_active : SessionStatus → Bool
is_active uploaded = false
is_active processing = false
is_active aborted = false
is_active expired = false
is_active _ = true

-- LIVE_EXPIRING_STATES
unfoldable pub is_live : SessionStatus → Bool
is_live created = true
is_live capturing = true
is_live challenges_in_progress = true
is_live _ = false

-- The site's data, which the session keeps from its creation.
pub record Snapshot : Type 0 where
  pub latitude : String
  pub longitude : String
  pub allowed_radius_meters : ℕ
  pub capture_duration_seconds : ℕ
  pub deadline : ℕ

pub record Session : Type 0 where
  pub id : ℕ
  pub organization_id : ℕ
  pub inspection_id : ℕ
  pub inspector_id : ℕ
  pub status : SessionStatus
  pub device_session_id : String
  pub started_at : Option ℕ
  pub capture_started_at : Option ℕ
  pub capture_ended_at : Option ℕ
  pub uploaded_at : Option ℕ
  pub expires_at : ℕ
  pub capture_anchor_monotonic_ns : Option ℕ
  pub capture_duration_ms : Option ℕ
  pub manifest_sha256 : Option String
  pub abort_reason : Option String
  pub site_snapshot : Option Snapshot
  pub has_gyroscope : Bool
  pub has_rotation_vector : Bool
  pub sensor_summary : Option String
  pub location_summary : Option String
