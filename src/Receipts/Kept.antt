-- ===== src/Receipts/Kept.antt =====
-- What issues and revocations keep of a receipt.
use mathlib.Core.Option
use site_proof.Prelude.{
  ℕ, ◌≡◌, refl, String, true, false, Option, some, List, [], ◌∷◌, ◌++◌, map, arith, ap, sym, subst,
  inl, inr, ◌==◌, ◌∙◌, if◌then◌else◌,
}
use site_proof.Prelude.Dict.{find}
use site_proof.Prelude.Rows.{find-map, find-append}
use site_proof.Prelude.Reply.{Reply, ok, err, is_ok}
use site_proof.Results.Store.{Store}
use site_proof.Receipts.Receipt.{
  SignedReceipt, Lifecycle, is_issued, is_revoked, issued, revoked, superseded,
}
use site_proof.Receipts.Crypto.{Crypto, Provider}
use site_proof.Receipts.Service.{Vault, Draw, issue_automated_receipt, supersede}
use site_proof.Receipts.Integrity.{revoke, revoke_receipt}
use site_proof.Receipts.Issued.{issue_automated_receipt-ok, issue_automated_receipt-KeptByError}
use site_proof.Receipts.Trace.{Step, issuing, revoking, Steps, here, next}

revoked-not_issued : (s : Lifecycle) → is_revoked s ≡ true → is_issued s ≡ false
unfolding is_revoked is_issued
revoked-not_issued revoked e = refl
revoked-not_issued superseded e = refl
revoked-not_issued issued e = cc

module _ {F : Type 0} where
  unfoldable pub get_receipt : ℕ → List (SignedReceipt F) → Option (SignedReceipt F)
  get_receipt id = find λ r. r.id == id

  -- What becomes of one receipt: its sealed fields stay, and a revoked one stays as it is.
  pub record Kept (r : SignedReceipt F) (receipts : List (SignedReceipt F)) (id : ℕ) : Type 0 where
    pub row : SignedReceipt F
    pub found : get_receipt id receipts ≡ some row
    pub sealed : row.sealed ≡ r.sealed
    pub final : is_revoked r.lifecycle_status ≡ true → row ≡ r

  same-Kept :
      (id : ℕ) (r : SignedReceipt F) (rows : List (SignedReceipt F))
      → get_receipt id rows ≡ some r
      → Kept r rows id
  same-Kept id r rows found = record { row = r; found = found; sealed = refl; final = λ _. refl }

  trans-Kept :
      (id : ℕ) (r : SignedReceipt F) (xs ys : List (SignedReceipt F)) (k : Kept r xs id)
      → Kept k.row ys id
      → Kept r ys id
  trans-Kept id r xs ys k n = record {
    row = n.row;
    found = n.found;
    sealed = n.sealed ∙ k.sealed;
    final = λ t.
        let same = k.final t in
        n.final (ap (λ (x : SignedReceipt F). is_revoked x.lifecycle_status) same ∙ t) ∙ same;
  }

  revoked-Kept :
      (now : ℕ) (reason : String) (other id : ℕ) (r : SignedReceipt F)
      (rows : List (SignedReceipt F))
      → get_receipt id rows ≡ some r
      → Kept r (map (λ x. if x.id == other then revoke now reason x else x) rows) id
  unfolding get_receipt revoke
  revoked-Kept now reason other id r rows found = record {
    row = if r.id == other then revoke now reason r else r;
    found =
        find-map (λ (x : SignedReceipt F). x.id == id) _ rows (λ x. ground arith) ∙ rw found refl;
    sealed = ground arith;
    final = λ t. ground arith;
  }

  added-Kept :
      (session other id : ℕ) (r new : SignedReceipt F) (rows : List (SignedReceipt F))
      → get_receipt id rows ≡ some r
      → Kept r (map (supersede session other) rows ++ new ∷ []) id
  unfolding get_receipt supersede is_issued is_revoked
  added-Kept session other id r new rows found = record {
    row = supersede session other r;
    found =
        find-append (λ (x : SignedReceipt F). x.id == id) (map (supersede session other) rows)
          (new ∷ [])
        ∙ rw
            (
              find-map (λ (x : SignedReceipt F). x.id == id) (supersede session other) rows
                  (λ x. ground arith),
              found,
            )
            (unfold Option.or_else in refl);
    sealed = ground arith;
    final = λ t. ground (arith, revoked-not_issued r.lifecycle_status t);
  }

module _ {F B K : Type 0} (c : Crypto F B K) where
  issue-Kept :
      (signer : Provider K) (draw : Draw) (store : Store F) (vault : Vault F) (result id : ℕ)
      (r : SignedReceipt F) (x : Reply (SignedReceipt F) × Vault F)
      → get_receipt id vault.receipts ≡ some r
      → issue_automated_receipt c signer draw store vault result ≡ x
      → Kept r x.1.receipts id
  issue-Kept signer draw store vault result id r (err status code, vault') found e =
      let kept : vault' ≡ vault =
        subst (λ y. is_ok y.0 ≡ false → y.1 ≡ vault) e
          (issue_automated_receipt-KeptByError c signer draw store vault result) refl in
      subst (λ (v : Vault F). Kept r v.receipts id) (sym kept) (same-Kept id r vault.receipts found)
  issue-Kept signer draw store vault result id r (ok new, vault') found e =
      elim (issue_automated_receipt-ok c signer draw store vault result {r = new} {vault' = vault'}
        e) [
          | inl (there, same, done, at_result) ↦
              subst (λ (v : Vault F). Kept r v.receipts id) (sym same)
                (same-Kept id r vault.receipts found)
          | inr (absent, i) ↦
              subst (λ (rows : List (SignedReceipt F)). Kept r rows id) (sym i.receipts)
                (added-Kept new.sealed.session_id new.id id r new vault.receipts found)
        ]

  Step-Kept :
      (a b : Vault F) (id : ℕ) (r : SignedReceipt F)
      → Step c a b
      → get_receipt id a.receipts ≡ some r
      → Kept r b.receipts id
  unfolding revoke_receipt
  Step-Kept a _ id r (issuing signer draw store result) found =
      issue-Kept signer draw store a result id r _ found refl
  Step-Kept a _ id r (revoking now reason x) found =
      revoked-Kept now reason x.id id r a.receipts found

  -- After any issues and revocations a receipt is still there with the same sealed fields, and a revoked
  -- one is the same row.
  pub receipt-Kept :
      (a b : Vault F) (id : ℕ) (r : SignedReceipt F)
      → Steps c a b
      → get_receipt id a.receipts ≡ some r
      → Kept r b.receipts id
  receipt-Kept a _ id r here found = same-Kept id r a.receipts found
  receipt-Kept a b id r (next {a = m} steps step) found =
      let k = receipt-Kept a m id r steps found in
      trans-Kept id r m.receipts b.receipts k (Step-Kept m b id k.row step k.found)
