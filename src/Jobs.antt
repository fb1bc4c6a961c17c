-- ===== src/Jobs.antt =====
-- The durable processing queue: backend/app/models/processing_job.py and
-- backend/app/services/processing_queue.py, with backend/app/worker.py as its client.
pub mod Job
pub mod Table
pub mod Queue
pub mod Rows
pub mod Moves
pub mod Carries
pub mod Writes
pub mod Trace
pub mod Claims
pub mod Fencing
pub mod Enqueue
pub mod Worker
pub mod Backoff
mod Examples
