-- ===== src/Sessions.antt =====
-- The verification sessions: backend/app/models/verification.py,
-- backend/app/services/session_common.py, session_creation.py and session_capture.py.
pub mod Session
pub mod Site
pub mod Capture
pub mod Creation
pub mod OneActive
pub mod Exclusive
pub mod CaptureLaws
pub mod StartLaws
pub mod Examples
