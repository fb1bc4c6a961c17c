-- ===== src/Receipts/Receipt.antt =====
-- The rows of SigningKey and SignedReceipt. A time is in microseconds, an id (UUID) a number that is
-- only compared. AUTOMATED_VERIFICATION is the only receipt type.
use site_proof.Prelude.{ℕ, String, Bool, true, false, Option, List}

-- SigningKeyStatus
pub data KeyStatus : Type 0 where
  active retired compromised : KeyStatus

unfoldable pub is_active_key : KeyStatus → Bool
is_active_key active = true
is_active_key _ = false

unfoldable pub is_compromised : KeyStatus → Bool
is_compromised compromised = true
is_compromised _ = false

pub record SigningKey : Type 0 where
  pub key_id : String
  pub algorithm : String
  pub public_key_base64 : String
  pub status : KeyStatus
  pub active_from : ℕ
  pub retired_at : Option ℕ

-- ReceiptLifecycleStatus
pub data Lifecycle : Type 0 where
  issued revoked superseded : Lifecycle

unfoldable pub is_issued : Lifecycle → Bool
is_issued issued = true
is_issued _ = false

unfoldable pub is_revoked : Lifecycle → Bool
is_revoked revoked = true
is_revoked _ = false

unfoldable pub is_superseded : Lifecycle → Bool
is_superseded superseded = true
is_superseded _ = false

-- The fields of `_IMMUTABLE_RECEIPT_FIELDS`.
pub record Sealed (F : Type 0) : Type 0 where
  pub receipt_number : String
  pub lookup_token : String
  pub organization_id : ℕ
  pub inspection_id : ℕ
  pub session_id : ℕ
  pub verification_result_id : ℕ
  pub manifest_id : ℕ
  pub schema_version : String
  pub canonical_payload : String
  pub manifest_sha256 : String
  pub payload_sha256 : String
  pub score : F
  pub verdict : String
  pub confidence : F
  pub policy_version : String
  pub engine_version : String
  pub signature_algorithm : String
  pub signature_base64 : String
  pub signing_key_id : String
  pub issued_at : ℕ

pub record SignedReceipt (F : Type 0) : Type 0 where
  pub id : ℕ
  pub sealed : Sealed F
  pub lifecycle_status : Lifecycle
  pub revoked_at : Option ℕ
  pub revocation_reason : Option String
  pub superseded_by_id : Option ℕ

-- What the manifest of the session's evidence contributes.
pub record Manifest : Type 0 where
  pub id : ℕ
  pub sha256 : String

-- An entry of `_signal_summary`, and the document that is signed, without its constant entries.
pub record SignalSummary : Type 0 where
  pub type : String
  pub status : String
  pub score : String
  pub confidence : String
  pub weighted_contribution : String
  pub required : Bool

pub record Payload : Type 0 where
  pub receipt_id : ℕ
  pub receipt_number : String
  pub organization_id : ℕ
  pub inspection_id : ℕ
  pub session_id : ℕ
  pub manifest_sha256 : String
  pub verification_result_id : ℕ
  pub score : String
  pub confidence : String
  pub verdict : String
  pub policy_id : ℕ
  pub policy_name : String
  pub policy_version : String
  pub engine_version : String
  pub signals : List SignalSummary
  pub issued_at : ℕ
  pub key_id : String
