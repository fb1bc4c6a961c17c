-- ===== src/Receipts/Validity.antt =====
-- What the verification of a receipt answers after its issue, and what a second issue does.
use mathlib.Core.Option
use site_proof.Prelude.{
  ℕ, ◌≡◌, refl, Bool, true, none, some, List, [], ◌∷◌, map, arith, ap, inl, inr, str_eq, eq_iff,
  ◌==◌, ◌∙◌,
}
use site_proof.Prelude.Dict.{find}
use site_proof.Prelude.Rows.{find-map, find-append}
use site_proof.Prelude.Reply.{ok}
use site_proof.Results.Store.{Store}
use site_proof.Receipts.Receipt.{SigningKey, SignedReceipt, Manifest, is_revoked, is_superseded}
use site_proof.Receipts.Crypto.{
  Crypto, IsCrypto, Provider, sign, get_public_key, verify_ed25519_signature,
  verify_ed25519_signature-sign,
}
use site_proof.Receipts.Service.{
  Vault, Draw, Completed, issue_automated_receipt, new_receipt, find_receipt, find_signing_key,
  supersede, result_to_seal,
}
use site_proof.Receipts.Integrity.{receipt_signature_state, overall_receipt_integrity}
use site_proof.Receipts.Keys.{Ensured, ensure_key_metadata-Ensured, active-not_compromised}
use site_proof.Receipts.Issued.{
  receipt_for, canonical, Issue, issue_automated_receipt-ok, result_to_seal-ok,
}

module _ {F B K : Type 0} (c : Crypto F B K) (signer : Provider K) (draw : Draw) (store : Store F)
    (vault : Vault F) where
  overall-receipt_for :
      (done : Completed F) (key : SigningKey) (manifest : Manifest) (keys : List SigningKey)
      → IsCrypto c
      → Ensured (get_public_key c signer) key keys
      → overall_receipt_integrity c (receipt_for c signer draw store vault done key manifest) keys
        ≡ "VALID"
  unfolding overall_receipt_integrity receipt_signature_state new_receipt sign is_revoked
      is_superseded
  overall-receipt_for done key manifest keys laws ensured =
      let text = canonical c signer draw store vault done key manifest in
      let hashed : str_eq (c.sha256_hex text) (c.sha256_hex text) ≡ true =
        (eq_iff (c.sha256_hex text) (c.sha256_hex text)).1 refl in
      let found : find_signing_key signer.key_id keys ≡ some key =
        unfold get_public_key in ensured.found in
      let verifies : verify_ed25519_signature c text (sign c signer text).signature_base64
            key.public_key_base64
          ≡ true =
        ap (verify_ed25519_signature c text (sign c signer text).signature_base64) ensured.material
        ∙ verify_ed25519_signature-sign c signer text laws in
      let trusted = active-not_compromised key.status ensured.is_active in
      rw (hashed, found, verifies, trusted) refl

  -- Under the documented behaviour of the libraries, a receipt that an issue has made is VALID under
  -- the keys that the issue leaves.
  pub issue_automated_receipt-valid :
      (id : ℕ) (r : SignedReceipt F) (vault' : Vault F)
      → IsCrypto c
      → find_receipt id vault.receipts ≡ none
      → issue_automated_receipt c signer draw store vault id ≡ (ok r, vault')
      → overall_receipt_integrity c r vault'.keys ≡ "VALID"
  issue_automated_receipt-valid id r vault' laws new e =
      elim (issue_automated_receipt-ok c signer draw store vault id {r = r} {vault' = vault'} e) [
        | inl (there, _, _, _) ↦ cc (there, new)
        | inr (_, i) ↦
            let ensured =
              ensure_key_metadata-Ensured draw.now (get_public_key c signer) vault.keys vault'.keys
                i.key i.keys in
            ap (λ (x : SignedReceipt F). overall_receipt_integrity c x vault'.keys) i.receipt
            ∙ overall-receipt_for i.done i.key i.manifest vault'.keys laws ensured
      ]

  -- The row that an issue has made is found again.
  find_receipt-Issue :
      (id : ℕ) (r : SignedReceipt F) (vault' : Vault F)
      → find_receipt id vault.receipts ≡ none
      → Issue c signer draw store vault id r vault'
      → find_receipt id vault'.receipts ≡ some r
  unfolding find_receipt
  find_receipt-Issue id r vault' new i =
      let (at_id, _) = result_to_seal-ok id store {done = i.done} i.is_done in
      let sealed_id : r.sealed.verification_result_id ≡ id =
        ap (λ (x : SignedReceipt F). x.sealed.verification_result_id) i.receipt
        ∙ (unfold new_receipt in at_id) in
      let kept =
        find-map (of_result id) (supersede r.sealed.session_id r.id) vault.receipts
          (λ x. unfold supersede in ground arith) in
      ap (find (of_result id)) i.receipts
      ∙ find-append (of_result id) (map (supersede r.sealed.session_id r.id) vault.receipts)
          (r ∷ [])
      ∙ rw (kept, new) (unfold Option.or_else find in ground arith)
    where
      of_result : ℕ → SignedReceipt F → Bool
      of_result n x = x.sealed.verification_result_id == n

  pub find_receipt-issue :
      (id : ℕ) (r : SignedReceipt F) (vault' : Vault F)
      → issue_automated_receipt c signer draw store vault id ≡ (ok r, vault')
      → (find_receipt id vault'.receipts ≡ some r)
        × (done : Completed F) × (result_to_seal id store ≡ ok done)
  find_receipt-issue id r vault' e =
      elim (issue_automated_receipt-ok c signer draw store vault id {r = r} {vault' = vault'} e) [
        | inl (there, same, done, at_result) ↦
            (ap (λ (v : Vault F). find_receipt id v.receipts) same ∙ there, done, at_result)
        | inr (new, i) ↦ (find_receipt-Issue id r vault' new i, i.done, i.is_done)
      ]

  -- After an issue, another one for the same result, with any key at any time, answers the same receipt
  -- and writes nothing.
  pub issue_automated_receipt_again :
      (id : ℕ) (r : SignedReceipt F) (vault' : Vault F) (signer' : Provider K) (draw' : Draw)
      → issue_automated_receipt c signer draw store vault id ≡ (ok r, vault')
      → issue_automated_receipt c signer' draw' store vault' id ≡ (ok r, vault')
  unfolding issue_automated_receipt
  issue_automated_receipt_again id r vault' signer' draw' e =
      let (found, done, at_result) = find_receipt-issue id r vault' e in
      let (at_id, _) = result_to_seal-ok id store {done = done} at_result in
      rw (at_result, at_id, found) refl
