-- ===== src/Pipeline.antt =====
-- One processing attempt: backend/app/services/processing_pipeline.py, and what it means for the job
-- that the worker completes.
pub mod Run
pub mod Success
mod Examples
