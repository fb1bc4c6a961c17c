-- ===== src/Results.antt =====
-- The automated results and their review: backend/app/services/verification/service.py, policy.py
-- and review.py, with the rows of backend/app/models/trust.py.
pub mod Result
pub mod PolicyRows
pub mod Store
pub mod Calculation
pub mod Service
pub mod Review
pub mod Ledger
pub mod Rows
pub mod Written
pub mod Settles
pub mod Kept
pub mod Outcomes
pub mod ReviewLaws
pub mod Trace
pub mod Policies
pub mod Decides
pub mod Stored
pub mod Examples
