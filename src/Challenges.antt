-- ===== src/Challenges.antt =====
-- The movement challenges of a capture: backend/app/services/challenges/service.py and generator.py,
-- with the table of backend/app/models/challenge.py.
pub mod Challenge
pub mod Rows
pub mod Service
pub mod Submit
pub mod Sequence
pub mod Counts
pub mod Places
pub mod Invariant
pub mod Lookup
pub mod Writes
pub mod Trace
pub mod Completion
pub mod Resubmission
mod Examples
