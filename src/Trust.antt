-- ===== src/Trust.antt =====
-- The trust engine: backend/app/services/verification (domain.py, policy.py, scoring.py and
-- security_gate.py), with the enumerations of backend/app/models/trust.py.
pub mod Domain
pub mod Scoring
pub mod Rules
pub mod Decision
pub mod Policy
pub mod Gate
pub mod Bounds
pub mod Verdicts
pub mod RuleLaws
pub mod GateLaws
pub mod Examples
