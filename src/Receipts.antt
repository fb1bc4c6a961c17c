-- ===== src/Receipts.antt =====
-- The signed receipts: backend/app/services/receipt_service.py and receipt_crypto.py, with the rows of
-- backend/app/models/receipt.py.
pub mod Receipt
pub mod Crypto
pub mod Service
pub mod Integrity
pub mod Issued
pub mod Keys
pub mod Validity
pub mod Trace
pub mod Kept
pub mod Examples
