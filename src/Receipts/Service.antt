-- ===== src/Receipts/Service.antt =====
-- receipt_service.py: the keys, and the issue, the verification and the revocation of a receipt.
use site_proof.Prelude.{
  ℕ, String, not, ◌&&◌, ◌||◌, Option, none, some, List, [], ◌∷◌, ◌++◌, map, ◌==◌, if◌then◌else◌,
  str_eq,
}
use site_proof.Prelude.Dict.{find, filter}
use site_proof.Prelude.Reply.{Reply, ok, err}
use site_proof.Sessions.Session.{Session}
use site_proof.Trust.Domain.{
  SignalType, Verdict, verified, review_required, flagged, type_value, sorted_types, same_type,
}
use site_proof.Results.Result.{VerificationResult, SignalRow, is_completed}
use site_proof.Results.Calculation.{status_value}
use site_proof.Results.Store.{Store, get_result}
use site_proof.Receipts.Receipt.{
  SigningKey, is_active_key, active, retired, issued, superseded, is_issued, SignedReceipt,
  Manifest, SignalSummary, Payload,
}
use site_proof.Receipts.Crypto.{
  Crypto, SignatureResult, PublicKeyInfo, Provider, sign, get_public_key,
}

pub record Vault (F : Type 0) : Type 0 where
  pub keys : List SigningKey
  pub receipts : List (SignedReceipt F)

unfoldable pub find_signing_key : String → List SigningKey → Option SigningKey
find_signing_key id = find λ k. str_eq k.key_id id

unfoldable pub retire : ℕ → SigningKey → SigningKey
retire now k =
    if is_active_key k.status then record k { status = retired; retired_at = some now } else k

unfoldable pub new_key : ℕ → PublicKeyInfo → SigningKey
new_key now public = record {
  key_id = public.key_id;
  algorithm = public.algorithm;
  public_key_base64 = public.public_key_base64;
  status = active;
  active_from = now;
  retired_at = none;
}

abbrev pub check_key :
    PublicKeyInfo → List SigningKey → SigningKey → Reply (SigningKey × List SigningKey)
check_key public keys k =
    if not (str_eq k.algorithm public.algorithm)
      || not (str_eq k.public_key_base64 public.public_key_base64)
    then err 409 "SIGNING_KEY_ID_CONFLICT"
    else if not (is_active_key k.status)
    then err 409 "SIGNING_KEY_NOT_ACTIVE"
    else ok (k, keys)

abbrev pub key_or_new :
    ℕ → PublicKeyInfo → List SigningKey → Option SigningKey → Reply (SigningKey × List SigningKey)
key_or_new now public keys none =
    ok (new_key now public, map (retire now) keys ++ new_key now public ∷ [])
key_or_new now public keys (some k) = check_key public keys k

-- `ensure_key_metadata`: the key, and the table then.
unfoldable pub ensure_key_metadata :
    ℕ → PublicKeyInfo → List SigningKey → Reply (SigningKey × List SigningKey)
ensure_key_metadata now public keys =
    key_or_new now public keys (find_signing_key public.key_id keys)

abbrev verdict_value : Verdict → String
verdict_value verified = "VERIFIED"
verdict_value review_required = "REVIEW_REQUIRED"
verdict_value flagged = "FLAGGED"
verdict_value Verdict.inconclusive = "INCONCLUSIVE"

-- What one issue draws and reads besides the tables. `seal` is the reply of seal_evidence_manifest.
pub record Draw : Type 0 where
  pub now : ℕ
  pub receipt_id : ℕ
  pub receipt_number : String
  pub lookup_token : String
  pub seal : Session → Reply Manifest

abbrev pub check_session : ℕ → Option Session → Reply Session
check_session organization none = err 409 "SESSION_NOT_FOUND"
check_session organization (some s) =
    if s.organization_id == organization then ok s else err 409 "SESSION_NOT_FOUND"

-- A completed result, with the columns that the check finds there.
pub record Completed (F : Type 0) : Type 0 where
  pub result : VerificationResult F
  pub score : F
  pub confidence : F
  pub verdict : Verdict

module _ {F : Type 0} where
  abbrev pub completed_of :
      VerificationResult F → Option F → Option F → Option Verdict → Reply (Completed F)
  completed_of r (some s) (some c) (some v) =
      if is_completed r.processing_status
      then ok (record { result = r; score = s; confidence = c; verdict = v })
      else err 409 "VERIFICATION_NOT_COMPLETE"
  completed_of r none c v = err 409 "VERIFICATION_NOT_COMPLETE"
  completed_of r (some s) none v = err 409 "VERIFICATION_NOT_COMPLETE"
  completed_of r (some s) (some c) none = err 409 "VERIFICATION_NOT_COMPLETE"

  abbrev pub with_result : Option (VerificationResult F) → Reply (Completed F)
  with_result none = err 404 "VERIFICATION_NOT_FOUND"
  with_result (some r) = completed_of r r.final_score r.overall_confidence r.verdict

  unfoldable pub result_to_seal : ℕ → Store F → Reply (Completed F)
  result_to_seal id store = with_result (get_result id store.results)

  unfoldable pub find_receipt : ℕ → List (SignedReceipt F) → Option (SignedReceipt F)
  find_receipt result_id = find λ r. r.sealed.verification_result_id == result_id

  unfoldable pub session_of : VerificationResult F → Store F → Reply Session
  session_of r store =
      check_session r.organization_id (find (λ s. s.id == r.key.session_id) store.sessions)

  -- The receipts of the session that the new one replaces.
  unfoldable pub supersede : ℕ → ℕ → SignedReceipt F → SignedReceipt F
  supersede session id r =
      if r.sealed.session_id == session && is_issued r.lifecycle_status
      then record r { lifecycle_status = superseded; superseded_by_id = some id }
      else r

  unfoldable pub new_receipt :
      Draw → Completed F → Manifest → String → SignatureResult → SignedReceipt F
  new_receipt draw done manifest canonical signature = record {
    id = draw.receipt_id;
    sealed = record {
      receipt_number = draw.receipt_number;
      lookup_token = draw.lookup_token;
      organization_id = done.result.organization_id;
      inspection_id = done.result.inspection_id;
      session_id = done.result.key.session_id;
      verification_result_id = done.result.id;
      manifest_id = manifest.id;
      schema_version = "1.0";
      canonical_payload = canonical;
      manifest_sha256 = manifest.sha256;
      payload_sha256 = signature.payload_sha256;
      score = done.score;
      verdict = verdict_value done.verdict;
      confidence = done.confidence;
      policy_version = done.result.key.policy_version;
      engine_version = done.result.key.engine_version;
      signature_algorithm = signature.algorithm;
      signature_base64 = signature.signature_base64;
      signing_key_id = signature.key_id;
      issued_at = draw.now;
    };
    lifecycle_status = issued;
    revoked_at = none;
    revocation_reason = none;
    superseded_by_id = none;
  }

  unfoldable pub add_receipt :
      Vault F
      → List SigningKey
      → SigningKey
      → SignatureResult
      → SignedReceipt F
      → Reply (SignedReceipt F) × Vault F
  add_receipt vault keys key signature receipt =
      if not (str_eq signature.key_id key.key_id) || not (str_eq signature.algorithm key.algorithm)
      then (err 500 "SIGNING_KEY_MISMATCH", vault)
      else (
        ok receipt,
        record {
          keys = keys;
          receipts =
              map (supersede receipt.sealed.session_id receipt.id) vault.receipts ++ receipt ∷ [];
        },
      )

  -- The rest of the handler after a part of it that can fail.
  abbrev pub after {ℓ} :
      {A : Type ℓ}
      → Vault F
      → (A → Reply (SignedReceipt F) × Vault F)
      → Reply A
      → Reply (SignedReceipt F) × Vault F
  after vault handle (err status code) = (err status code, vault)
  after vault handle (ok a) = handle a

module _ {F B K : Type 0} (c : Crypto F B K) where
  abbrev signal_entry : SignalRow F → SignalSummary
  signal_entry s = record {
    type = type_value s.signal_type;
    status = status_value s.status;
    score = c.fixed_decimal s.score 6;
    confidence = c.fixed_decimal s.confidence 6;
    weighted_contribution = c.fixed_decimal s.weighted_contribution 6;
    required = s.required;
  }

  -- `_signal_summary`
  signals_by_type : ℕ → List (SignalRow F) → List SignalType → List SignalSummary
  signals_by_type id rows [] = []
  signals_by_type id rows (t ∷ types) =
      map signal_entry
        (filter (λ s. s.verification_result_id == id && same_type s.signal_type t) rows)
      ++ signals_by_type id rows types

  unfoldable pub signal_summary : ℕ → List (SignalRow F) → List SignalSummary
  unfolding signals_by_type
  signal_summary id rows = signals_by_type id rows sorted_types

  unfoldable pub payload_of : Draw → Store F → Completed F → Manifest → String → Payload
  unfolding signal_summary
  payload_of draw store done manifest key_id = record {
    receipt_id = draw.receipt_id;
    receipt_number = draw.receipt_number;
    organization_id = done.result.organization_id;
    inspection_id = done.result.inspection_id;
    session_id = done.result.key.session_id;
    manifest_sha256 = manifest.sha256;
    verification_result_id = done.result.id;
    score = c.fixed_decimal done.score 2;
    confidence = c.fixed_decimal done.confidence 6;
    verdict = verdict_value done.verdict;
    policy_id = done.result.key.policy_id;
    policy_name = done.result.policy_name;
    policy_version = done.result.key.policy_version;
    engine_version = done.result.key.engine_version;
    signals = signal_summary done.result.id store.signals;
    issued_at = draw.now;
    key_id = key_id;
  }

  unfoldable pub sign_receipt :
      Provider K
      → Draw
      → Store F
      → Vault F
      → Completed F
      → List SigningKey
      → SigningKey
      → Manifest
      → Reply (SignedReceipt F) × Vault F
  unfolding add_receipt new_receipt
  sign_receipt signer draw store vault done keys key manifest =
      let canonical = c.canonical_json (payload_of draw store done manifest key.key_id) in
      let signature = sign c signer canonical in
      add_receipt vault keys key signature (new_receipt draw done manifest canonical signature)

  unfoldable pub issue_new :
      Provider K → Draw → Store F → Vault F → Completed F → Reply (SignedReceipt F) × Vault F
  unfolding sign_receipt
  issue_new signer draw store vault done =
      after vault
        (λ (session : Session).
          after vault
            (λ (k : SigningKey × List SigningKey).
              after vault (sign_receipt signer draw store vault done k.1 k.0) (draw.seal session))
            (ensure_key_metadata draw.now (get_public_key c signer) vault.keys))
        (session_of done.result store)

  abbrev pub issue_unless_there :
      Provider K
      → Draw
      → Store F
      → Vault F
      → Completed F
      → Option (SignedReceipt F)
      → Reply (SignedReceipt F) × Vault F
  issue_unless_there signer draw store vault done none = issue_new signer draw store vault done
  issue_unless_there signer draw store vault done (some r) = (ok r, vault)

  -- `issue_automated_receipt`
  unfoldable pub issue_automated_receipt :
      Provider K → Draw → Store F → Vault F → ℕ → Reply (SignedReceipt F) × Vault F
  unfolding issue_new
  issue_automated_receipt signer draw store vault result_id =
      after vault
        (λ (done : Completed F).
          issue_unless_there signer draw store vault done
            (find_receipt done.result.id vault.receipts))
        (result_to_seal result_id store)
