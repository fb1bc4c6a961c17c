-- ===== src/Uploads.antt =====
-- The evidence upload: backend/app/services/evidence_upload_service.py.
pub mod Evidence
pub mod Complete
pub mod Queued
pub mod Accept
pub mod Stored
mod Examples
