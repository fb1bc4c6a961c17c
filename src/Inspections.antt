-- ===== src/Inspections.antt =====
-- The inspections: backend/app/models/inspection.py and assignment.py,
-- backend/app/services/inspection_service.py.
pub mod Inspection
pub mod Service
pub mod Progress
pub mod Lifecycle
mod Examples
