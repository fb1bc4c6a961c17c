-- ===== src/Receipts/Examples.antt =====
-- A receipt that is issued, superseded and revoked, with libraries over plain texts.
use Prim.Native.String.{◌++◌ as append}
use site_proof.Prelude.{String, ◌≡◌, refl, some, [], ◌∷◌, arith, str_eq, eq_iff}
use site_proof.Prelude.Float.{Micro}
use site_proof.Prelude.Dict.{find}
use site_proof.Prelude.Reply.{ok}
use site_proof.Trust.Domain.{verified}
use site_proof.Results.Examples as Reviewed
use site_proof.Results.Store.{get_result}
use site_proof.Results.Result.{is_completed}
use site_proof.Receipts.Receipt.{SigningKey, SignedReceipt, Manifest}
use site_proof.Receipts.Crypto.{Crypto, IsCrypto, Provider, sign, get_public_key}
use site_proof.Receipts.Service.{
  Vault, Draw, Completed, issue_automated_receipt, issue_new, sign_receipt, add_receipt,
  new_receipt, find_receipt, find_signing_key, ensure_key_metadata, new_key, result_to_seal,
  session_of,
}
use site_proof.Receipts.Integrity.{overall_receipt_integrity, revoke_receipt}
use site_proof.Receipts.Issued.{receipt_for}
use site_proof.Receipts.Validity.{issue_automated_receipt-valid, issue_automated_receipt_again}
use site_proof.Receipts.Trace.{
  count_active, count_issued, IsSound, here, next, issuing, revoking, Steps-IsSound,
}
use site_proof.Receipts.Kept.{get_receipt, Kept, receipt-Kept}

abbrev pub crypto : Crypto Micro String String
crypto = record {
  sha256_hex = λ text. text;
  encode = λ bytes. bytes;
  decode = λ text. some text;
  sign = λ key payload. append key payload;
  public_bytes = λ key. key;
  verifies = λ key signature payload. str_eq signature (append key payload);
  fixed_decimal = λ value places. "0.95";
  canonical_json = λ payload. payload.receipt_number;
}

crypto-IsCrypto : IsCrypto crypto
crypto-IsCrypto = record {
  decode_encode = λ b. refl;
  verifies_sign = λ k payload. (eq_iff (append k payload) (append k payload)).1 refl;
}

abbrev pub signer : Provider String
signer = record { key_id = "key-1"; key = "secret" }

abbrev manifest : Manifest
manifest = record { id = 70; sha256 = "abc" }

abbrev pub draw : Draw
draw = record {
  now = 200;
  receipt_id = 80;
  receipt_number = "SPR-2026-1";
  lookup_token = "token";
  seal = λ session. ok manifest;
}

abbrev pub empty : Vault Micro
empty = record { keys = []; receipts = [] }

abbrev done : Completed Micro
done = record {
  result = Reviewed.result;
  score = 95_000_000;
  confidence = 900_000;
  verdict = verified;
}

abbrev key : SigningKey
key = new_key 200 (get_public_key crypto signer)

abbrev receipt : SignedReceipt Micro
receipt = receipt_for crypto signer draw Reviewed.store empty done key manifest

abbrev vault : Vault Micro
vault = record { keys = key ∷ []; receipts = receipt ∷ [] }

issued_first :
    issue_automated_receipt crypto signer draw Reviewed.store empty 30 ≡ (ok receipt, vault)
unfolding issue_automated_receipt issue_new sign_receipt add_receipt new_receipt find_receipt
    find_signing_key ensure_key_metadata new_key get_public_key sign result_to_seal session_of
    get_result find is_completed
issued_first = refl

issue_automated_receipt-valid_example :
    overall_receipt_integrity crypto receipt vault.keys ≡ "VALID"
issue_automated_receipt-valid_example =
    issue_automated_receipt-valid crypto signer draw Reviewed.store empty 30 receipt vault
      crypto-IsCrypto (unfold find_receipt find in refl) issued_first

abbrev rotated : Provider String
rotated = record { key_id = "key-2"; key = "other" }

issue_automated_receipt_again_example :
    issue_automated_receipt crypto rotated draw Reviewed.store vault 30 ≡ (ok receipt, vault)
issue_automated_receipt_again_example =
    issue_automated_receipt_again crypto signer draw Reviewed.store empty 30 receipt vault rotated
      draw issued_first

empty-IsSound : IsSound empty
unfolding count_active count_issued
empty-IsSound = record { one_active = omega arith; one_issued = λ session. omega arith }

abbrev issued_vault : Vault Micro
issued_vault = (issue_automated_receipt crypto signer draw Reviewed.store empty 30).1

abbrev revoked_vault : Vault Micro
revoked_vault = (revoke_receipt 300 " wrong site " receipt issued_vault).1

Steps-IsSound_example : IsSound revoked_vault
Steps-IsSound_example =
    Steps-IsSound crypto empty revoked_vault empty-IsSound (
      next (next here (issuing signer draw Reviewed.store 30))
        (revoking 300 " wrong site " receipt))

receipt-Kept_example : Kept receipt (revoke_receipt 300 " wrong site " receipt vault).1.receipts 80
receipt-Kept_example =
    receipt-Kept crypto vault (revoke_receipt 300 " wrong site " receipt vault).1 80 receipt
      (next here (revoking 300 " wrong site " receipt))
      (unfold get_receipt find new_receipt in refl)
