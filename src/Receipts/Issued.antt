-- ===== src/Receipts/Issued.antt =====
-- What an issue that is accepted has written.
use site_proof.Prelude.{
  ℕ, ◌≡◌, refl, String, true, false, not, Option, none, some, List, [], ◌∷◌, ◌++◌, map, arith, ap,
  sym, ◌==◌, Bool-cases, inl, inr, ◌⊎◌, ◌||◌, str_eq, eq_iff, ◌∙◌,
}
use site_proof.Prelude.Reply.{Reply, ok, err, is_ok}
use site_proof.Prelude.Rows.{find-true}
use site_proof.Trust.Domain.{Verdict}
use site_proof.Results.Result.{VerificationResult, is_completed}
use site_proof.Results.Store.{Store, get_result}
use site_proof.Receipts.Receipt.{SigningKey, SignedReceipt, Manifest}
use site_proof.Receipts.Crypto.{Crypto, Provider, SignatureResult, sign, get_public_key}
use site_proof.Receipts.Service.{
  Vault, Draw, Completed, after, issue_automated_receipt, issue_new, issue_unless_there,
  sign_receipt, add_receipt, new_receipt, payload_of, find_receipt, result_to_seal, session_of,
  ensure_key_metadata, supersede, with_result, completed_of,
}

module _ {F : Type 0} where
  after-ok {ℓ} :
      {A : Type ℓ} (vault : Vault F) (handle : A → Reply (SignedReceipt F) × Vault F) (x : Reply A)
      {r : SignedReceipt F} {vault' : Vault F}
      → after vault handle x ≡ (ok r, vault')
      → (a : A) × (x ≡ ok a) × (handle a ≡ (ok r, vault'))
  after-ok vault handle (err status code) e = cc e
  after-ok vault handle (ok a) e = (a, refl, e)

  completed_of-ok :
      (r : VerificationResult F) (s o : Option F) (v : Option Verdict) {done : Completed F}
      → completed_of r s o v ≡ ok done
      → (done.result ≡ r) × (is_completed r.processing_status ≡ true)
  completed_of-ok r none o v e = cc
  completed_of-ok r (some s) none v e = cc
  completed_of-ok r (some s) (some o) none e = cc
  completed_of-ok r (some s) (some o) (some v) {done} e =
      elim (Bool-cases (is_completed r.processing_status)) [
        | inl t ↦ let there = rw t at e in (cc there, t)
        | inr t ↦ cc (rw t at e)
      ]

  -- What is sealed is the completed result with this id.
  pub result_to_seal-ok :
      (id : ℕ) (store : Store F) {done : Completed F}
      → result_to_seal id store ≡ ok done
      → (done.result.id ≡ id) × (is_completed done.result.processing_status ≡ true)
  unfolding result_to_seal get_result
  result_to_seal-ok id store {done} e = by_row (get_result id store.results) refl e
    where
      by_row :
          (o : Option (VerificationResult F))
          → get_result id store.results ≡ o
          → with_result o ≡ ok done
          → (done.result.id ≡ id) × (is_completed done.result.processing_status ≡ true)
      by_row none a h = cc
      by_row (some r) a h =
          let (same, t) =
            completed_of-ok r r.final_score r.overall_confidence r.verdict {done = done} h in
          let is_id =
            find-true (λ (x : VerificationResult F). x.id == id) store.results {a = r} a in
          (
            ap (λ (x : VerificationResult F). x.id) same ∙ ground (arith, is_id),
            ap (λ (x : VerificationResult F). is_completed x.processing_status) same ∙ t,
          )

  add_receipt-ok :
      (vault : Vault F) (keys : List SigningKey) (key : SigningKey) (signature : SignatureResult)
      (receipt : SignedReceipt F) {r : SignedReceipt F} {vault' : Vault F}
      → add_receipt vault keys key signature receipt ≡ (ok r, vault')
      → (key.key_id ≡ signature.key_id)
        × (r ≡ receipt)
        × (vault'.keys ≡ keys)
        × (vault'.receipts
            ≡ map (supersede receipt.sealed.session_id receipt.id) vault.receipts ++ receipt ∷ [])
  unfolding add_receipt
  add_receipt-ok vault keys key signature receipt {r} {vault'} e =
      elim (Bool-cases (
        not (str_eq signature.key_id key.key_id)
        || not (str_eq signature.algorithm key.algorithm))) [
          | inl t ↦ cc (rw t at e)
          | inr t ↦
              let written = rw t at e in
              (
                ground (arith, eq_iff signature.key_id key.key_id),
                cc written,
                cc written,
                cc written,
              )
        ]

  add_receipt-error :
      (vault : Vault F) (keys : List SigningKey) (key : SigningKey) (signature : SignatureResult)
      (receipt : SignedReceipt F)
      → is_ok (add_receipt vault keys key signature receipt).0 ≡ false
      → (add_receipt vault keys key signature receipt).1 ≡ vault
  unfolding add_receipt
  add_receipt-error vault keys key signature receipt e =
      elim (Bool-cases (
        not (str_eq signature.key_id key.key_id)
        || not (str_eq signature.algorithm key.algorithm))) [
          | inl t ↦ rw t refl
          | inr t ↦ cc (rw t at e)
        ]

module _ {F B K : Type 0} (c : Crypto F B K) (signer : Provider K) (draw : Draw) (store : Store F)
    (vault : Vault F) where
  abbrev pub canonical : Completed F → SigningKey → Manifest → String
  canonical done key manifest = c.canonical_json (payload_of c draw store done manifest key.key_id)

  abbrev pub receipt_for : Completed F → SigningKey → Manifest → SignedReceipt F
  receipt_for done key manifest =
      new_receipt draw done manifest (canonical done key manifest)
        (sign c signer (canonical done key manifest))

  -- The parts of an accepted issue.
  pub record Issue (id : ℕ) (r : SignedReceipt F) (vault' : Vault F) : Type 0 where
    pub done : Completed F
    pub key : SigningKey
    pub manifest : Manifest
    pub is_done : result_to_seal id store ≡ ok done
    pub keys :
        ensure_key_metadata draw.now (get_public_key c signer) vault.keys ≡ ok (key, vault'.keys)
    pub receipt : r ≡ receipt_for done key manifest
    pub receipts :
        vault'.receipts ≡ map (supersede r.sealed.session_id r.id) vault.receipts ++ r ∷ []

  sign_receipt-Issue :
      (id : ℕ) (done : Completed F) (keys : List SigningKey) (key : SigningKey)
      (manifest : Manifest) {r : SignedReceipt F} {vault' : Vault F}
      → result_to_seal id store ≡ ok done
      → ensure_key_metadata draw.now (get_public_key c signer) vault.keys ≡ ok (key, keys)
      → sign_receipt c signer draw store vault done keys key manifest ≡ (ok r, vault')
      → Issue id r vault'
  unfolding sign_receipt
  sign_receipt-Issue id done keys key manifest {r} {vault'} a b e =
      let (_, same, keys_eq, receipts_eq) =
        add_receipt-ok vault keys key (sign c signer (canonical done key manifest))
          (receipt_for done key manifest) {r = r} {vault' = vault'} e in
      record {
        done = done;
        key = key;
        manifest = manifest;
        is_done = a;
        keys = rw keys_eq b;
        receipt = same;
        receipts = rw same receipts_eq;
      }

  issue_new-Issue :
      (id : ℕ) (done : Completed F) {r : SignedReceipt F} {vault' : Vault F}
      → result_to_seal id store ≡ ok done
      → issue_new c signer draw store vault done ≡ (ok r, vault')
      → Issue id r vault'
  unfolding issue_new
  issue_new-Issue id done {r} {vault'} a e =
      let (session, at_session, rest) =
        after-ok vault _ (session_of done.result store) {r = r} {vault' = vault'} e in
      let ((key, keys), at_key, sealing) = after-ok vault _ _ {r = r} {vault' = vault'} rest in
      let (manifest, at_seal, signing) =
        after-ok vault _ (draw.seal session) {r = r} {vault' = vault'} sealing in
      sign_receipt-Issue id done keys key manifest {r = r} {vault' = vault'} a at_key signing

  -- An accepted issue answers the receipt that is there, or makes one.
  pub issue_automated_receipt-ok :
      (id : ℕ) {r : SignedReceipt F} {vault' : Vault F}
      → issue_automated_receipt c signer draw store vault id ≡ (ok r, vault')
      → ((find_receipt id vault.receipts ≡ some r)
          × (vault' ≡ vault)
          × (done : Completed F) × (result_to_seal id store ≡ ok done))
        ⊎ ((find_receipt id vault.receipts ≡ none) × Issue id r vault')
  unfolding issue_automated_receipt
  issue_automated_receipt-ok id {r} {vault'} e =
      let (done, at_result, rest) =
        after-ok vault _ (result_to_seal id store) {r = r} {vault' = vault'} e in
      let (at_id, _) = result_to_seal-ok id store {done = done} at_result in
      let there = ap (λ n. find_receipt n vault.receipts) at_id in
      by_receipt done (find_receipt done.result.id vault.receipts) at_result (sym there) rest
    where
      by_receipt :
          (done : Completed F) (o : Option (SignedReceipt F))
          → result_to_seal id store ≡ ok done
          → find_receipt id vault.receipts ≡ o
          → issue_unless_there c signer draw store vault done o ≡ (ok r, vault')
          → ((find_receipt id vault.receipts ≡ some r)
              × (vault' ≡ vault)
              × (done : Completed F) × (result_to_seal id store ≡ ok done))
            ⊎ ((find_receipt id vault.receipts ≡ none) × Issue id r vault')
      by_receipt done none a h k = inr (h, issue_new-Issue id done {r = r} {vault' = vault'} a k)
      by_receipt done (some x) a h k =
          let same : x ≡ r = cc k in
          let vaults : vault' ≡ vault = cc k in
          inl (h ∙ ap (λ (y : SignedReceipt F). some y) same, vaults, done, a)

  -- A refused issue leaves the vault as it was.
  abbrev pub KeptByError : Reply (SignedReceipt F) × Vault F → Type 0
  KeptByError x = is_ok x.0 ≡ false → x.1 ≡ vault

  after-KeptByError {ℓ} :
      {A : Type ℓ} (handle : A → Reply (SignedReceipt F) × Vault F) (x : Reply A)
      → ((a : A) → KeptByError (handle a))
      → KeptByError (after vault handle x)
  after-KeptByError handle (err status code) h = λ _. refl
  after-KeptByError handle (ok a) h = h a

  sign_receipt-KeptByError :
      (done : Completed F) (keys : List SigningKey) (key : SigningKey) (manifest : Manifest)
      → KeptByError (sign_receipt c signer draw store vault done keys key manifest)
  unfolding sign_receipt
  sign_receipt-KeptByError done keys key manifest =
      add_receipt-error vault keys key (sign c signer (canonical done key manifest))
        (receipt_for done key manifest)

  pub issue_automated_receipt-KeptByError :
      (id : ℕ) → KeptByError (issue_automated_receipt c signer draw store vault id)
  unfolding issue_automated_receipt issue_new
  issue_automated_receipt-KeptByError id =
      after-KeptByError _ (result_to_seal id store)
        λ done. by_receipt done (find_receipt done.result.id vault.receipts)
    where
      by_receipt :
          (done : Completed F) (o : Option (SignedReceipt F))
          → KeptByError (issue_unless_there c signer draw store vault done o)
      by_receipt done (some r) = λ e. cc
      by_receipt done none = after-KeptByError _ (session_of done.result store) λ session.
          after-KeptByError _ (ensure_key_metadata draw.now (get_public_key c signer) vault.keys)
            λ k.
              after-KeptByError _ (draw.seal session)
                λ manifest. sign_receipt-KeptByError done k.1 k.0 manifest
