-- ===== src/Receipts/Integrity.antt =====
-- receipt_service.py: what the verification of a receipt answers, and its revocation.
use site_proof.Prelude.{
  ℕ, String, Bool, true, false, not, Option, none, some, List, map, ◌==◌, if◌then◌else◌, str_eq,
}
use site_proof.Results.Review.{strip}
use site_proof.Receipts.Receipt.{
  SigningKey, is_compromised, Lifecycle, revoked, is_revoked, is_superseded, SignedReceipt,
}
use site_proof.Receipts.Crypto.{Crypto, verify_ed25519_signature}
use site_proof.Receipts.Service.{Vault, find_signing_key}

module _ {F B K : Type 0} (c : Crypto F B K) where
  -- `receipt_signature_state`: the state, and whether the signature counts as valid.
  abbrev pub key_state : SignedReceipt F → Option SigningKey → String × Bool
  key_state r none = ("UNKNOWN_KEY", false)
  key_state r (some k) =
      if not (
        verify_ed25519_signature c r.sealed.canonical_payload r.sealed.signature_base64
          k.public_key_base64)
      then ("INVALID", false)
      else if is_compromised k.status
      then ("COMPROMISED_KEY", true)
      else ("VALID", true)

  unfoldable pub receipt_signature_state : SignedReceipt F → List SigningKey → String × Bool
  receipt_signature_state r keys =
      if not (str_eq (c.sha256_hex r.sealed.canonical_payload) r.sealed.payload_sha256)
      then ("INVALID_PAYLOAD_HASH", false)
      else if not (str_eq r.sealed.signature_algorithm "Ed25519")
      then ("UNSUPPORTED_ALGORITHM", false)
      else key_state r (find_signing_key r.sealed.signing_key_id keys)

  abbrev integrity : Lifecycle → String × Bool → String
  integrity lifecycle (state, valid) =
      if not valid
      then (if str_eq state "UNKNOWN_KEY" then "UNKNOWN_SIGNING_KEY" else "INVALID_SIGNATURE")
      else if is_revoked lifecycle
      then "REVOKED"
      else if is_superseded lifecycle
      then "SUPERSEDED"
      else if str_eq state "COMPROMISED_KEY"
      then "COMPROMISED_SIGNING_KEY"
      else "VALID"

  unfoldable pub overall_receipt_integrity : SignedReceipt F → List SigningKey → String
  unfolding receipt_signature_state
  overall_receipt_integrity r keys = integrity r.lifecycle_status (receipt_signature_state r keys)

module _ {F : Type 0} where
  abbrev pub mark_revoked : ℕ → String → SignedReceipt F → SignedReceipt F
  mark_revoked now reason r = record r {
    lifecycle_status = revoked;
    revoked_at = some now;
    revocation_reason = some (strip reason);
  }

  unfoldable pub revoke : ℕ → String → SignedReceipt F → SignedReceipt F
  revoke now reason r = if is_revoked r.lifecycle_status then r else mark_revoked now reason r

  -- `revoke_receipt`, for the receipt that the route has found
  unfoldable pub revoke_receipt : ℕ → String → SignedReceipt F → Vault F → SignedReceipt F × Vault F
  unfolding revoke
  revoke_receipt now reason r vault = (
    revoke now reason r,
    record vault {
      receipts = map (λ x. if x.id == r.id then revoke now reason x else x) vault.receipts;
    },
  )
