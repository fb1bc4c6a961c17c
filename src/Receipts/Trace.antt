-- ===== src/Receipts/Trace.antt =====
-- The vault over any sequence of issues and revocations.
use site_proof.Prelude.{
  ℕ, suc, ◌+◌, ◌≤◌, ◌≡◌, refl, String, Bool, false, ◌&&◌, Option, none, some, List, [], ◌∷◌, ◌++◌,
  map, arith, sym, subst, inl, inr, ◌==◌, if◌then◌else◌,
}
use site_proof.Prelude.Reply.{Reply, ok, err, is_ok}
use site_proof.Results.Store.{Store}
use site_proof.Receipts.Receipt.{SigningKey, SignedReceipt, is_active_key, is_issued}
use site_proof.Receipts.Crypto.{Crypto, Provider, PublicKeyInfo, get_public_key}
use site_proof.Receipts.Service.{
  Vault, Draw, issue_automated_receipt, new_key, retire, supersede, ensure_key_metadata, key_or_new,
  find_signing_key,
}
use site_proof.Receipts.Integrity.{revoke, revoke_receipt}
use site_proof.Receipts.Keys.{check_key-keys}
use site_proof.Receipts.Issued.{
  Issue, issue_automated_receipt-ok, issue_automated_receipt-KeptByError,
}

unfoldable pub count_active : List SigningKey → ℕ
count_active [] = 0
count_active (k ∷ keys) =
    if is_active_key k.status then suc (count_active keys) else count_active keys

count_active-retire : (now : ℕ) (keys : List SigningKey) → count_active (map (retire now) keys) ≡ 0
unfolding count_active retire is_active_key
count_active-retire now [] = refl
count_active-retire now (k ∷ keys) = ground (arith, count_active-retire now keys)

count_active-append :
    (xs ys : List SigningKey) → count_active (xs ++ ys) ≡ count_active xs + count_active ys
unfolding count_active
count_active-append [] ys = omega arith
count_active-append (x ∷ xs) ys = ground (arith, count_active-append xs ys)

inserted_key-count :
    (now : ℕ) (public : PublicKeyInfo) (keys : List SigningKey)
    → count_active (map (retire now) keys ++ new_key now public ∷ []) ≤ 1
inserted_key-count now public keys =
    rw
      (
        count_active-append (map (retire now) keys) (new_key now public ∷ []),
        count_active-retire now keys,
      )
      (unfold count_active new_key is_active_key in omega arith)

ensure_key_metadata-count :
    (now : ℕ) (public : PublicKeyInfo) (keys keys' : List SigningKey) (key : SigningKey)
    → ensure_key_metadata now public keys ≡ ok (key, keys')
    → count_active keys ≤ 1
    → count_active keys' ≤ 1
unfolding ensure_key_metadata
ensure_key_metadata-count now public keys keys' key e h =
    by_key (find_signing_key public.key_id keys) e
  where
    by_key :
        (o : Option SigningKey)
        → key_or_new now public keys o ≡ ok (key, keys')
        → count_active keys' ≤ 1
    by_key none a =
        let tables : map (retire now) keys ++ new_key now public ∷ [] ≡ keys' = cc a in
        subst (λ (x : List SigningKey). count_active x ≤ 1) tables
          (inserted_key-count now public keys)
    by_key (some k) a =
        subst (λ (x : List SigningKey). count_active x ≤ 1)
          (sym (check_key-keys public keys keys' k key a)) h

module _ {F : Type 0} where
  abbrev is_issued_of : ℕ → SignedReceipt F → Bool
  is_issued_of session r = r.sealed.session_id == session && is_issued r.lifecycle_status

  unfoldable pub count_issued : ℕ → List (SignedReceipt F) → ℕ
  count_issued session [] = 0
  count_issued session (r ∷ rest) =
      let n = count_issued session rest in if is_issued_of session r then suc n else n

  count_issued-append :
      (session : ℕ) (xs ys : List (SignedReceipt F))
      → count_issued session (xs ++ ys) ≡ count_issued session xs + count_issued session ys
  unfolding count_issued
  count_issued-append session [] ys = omega arith
  count_issued-append session (x ∷ xs) ys = ground (arith, count_issued-append session xs ys)

  count_issued-supersede :
      (session s id : ℕ) (rows : List (SignedReceipt F))
      → count_issued session (map (supersede s id) rows)
        ≡ (if s == session then 0 else count_issued session rows)
  unfolding count_issued supersede is_issued
  count_issued-supersede session s id [] = ground arith
  count_issued-supersede session s id (r ∷ rows) =
      ground (arith, count_issued-supersede session s id rows)

  abbrev revoke_at : ℕ → String → ℕ → SignedReceipt F → SignedReceipt F
  revoke_at now reason id r = if r.id == id then revoke now reason r else r

  count_issued-revoke :
      (session now : ℕ) (reason : String) (id : ℕ) (rows : List (SignedReceipt F))
      → count_issued session (map (revoke_at now reason id) rows) ≤ count_issued session rows
  unfolding count_issued revoke is_issued
  count_issued-revoke session now reason id [] = omega arith
  count_issued-revoke session now reason id (r ∷ rows) =
      ground (arith, count_issued-revoke session now reason id rows)

  -- One active key at most, and one issued receipt of each session at most.
  pub record IsSound (vault : Vault F) : Type 0 where
    pub one_active : count_active vault.keys ≤ 1
    pub one_issued : (session : ℕ) → count_issued session vault.receipts ≤ 1

module _ {F B K : Type 0} (c : Crypto F B K) where
  pub data Step (vault : Vault F) : Vault F → Type 0 where
    issuing :
        (signer : Provider K) (draw : Draw) (store : Store F) (id : ℕ)
        → Step vault (issue_automated_receipt c signer draw store vault id).1
    revoking :
        (now : ℕ) (reason : String) (r : SignedReceipt F)
        → Step vault (revoke_receipt now reason r vault).1

  pub data Steps (vault : Vault F) : Vault F → Type 0 where
    here : Steps vault vault
    next : {a b : Vault F} → Steps vault a → Step a b → Steps vault b

  Issue-IsSound :
      (signer : Provider K) (draw : Draw) (store : Store F) (vault : Vault F) (id : ℕ)
      {r : SignedReceipt F} {vault' : Vault F}
      → IsSound vault
      → Issue c signer draw store vault id r vault'
      → IsSound vault'
  Issue-IsSound signer draw store vault id {r} {vault'} v i = record {
    one_active =
        ensure_key_metadata-count draw.now (get_public_key c signer) vault.keys vault'.keys i.key
          i.keys v.one_active;
    one_issued = λ session. rw i.receipts (
        unfold count_issued in
        ground (
          arith,
          count_issued-append session (map (supersede r.sealed.session_id r.id) vault.receipts)
              (r ∷ []),
          count_issued-supersede session r.sealed.session_id r.id vault.receipts,
          v.one_issued session,
        ));
  }

  revoke_receipt-IsSound :
      (now : ℕ) (reason : String) (r : SignedReceipt F) (vault : Vault F)
      → IsSound vault
      → IsSound (revoke_receipt now reason r vault).1
  unfolding revoke_receipt
  revoke_receipt-IsSound now reason r vault v = record {
    one_active = v.one_active;
    one_issued = λ session.
        omega
          (arith, count_issued-revoke session now reason r.id vault.receipts, v.one_issued session);
  }

  issue-IsSound :
      (signer : Provider K) (draw : Draw) (store : Store F) (vault : Vault F) (id : ℕ)
      (x : Reply (SignedReceipt F) × Vault F)
      → IsSound vault
      → issue_automated_receipt c signer draw store vault id ≡ x
      → IsSound x.1
  issue-IsSound signer draw store vault id (err status code, vault') v e =
      let kept : vault' ≡ vault =
        subst (λ y. is_ok y.0 ≡ false → y.1 ≡ vault) e
          (issue_automated_receipt-KeptByError c signer draw store vault id) refl in
      subst IsSound (sym kept) v
  issue-IsSound signer draw store vault id (ok r, vault') v e =
      elim (issue_automated_receipt-ok c signer draw store vault id {r = r} {vault' = vault'} e) [
        | inl (there, same, done, at_result) ↦ subst IsSound (sym same) v
        | inr (new, i) ↦ Issue-IsSound signer draw store vault id {r = r} {vault' = vault'} v i
      ]

  Step-IsSound : (a b : Vault F) → IsSound a → Step a b → IsSound b
  Step-IsSound a _ v (issuing signer draw store id) = issue-IsSound signer draw store a id _ v refl
  Step-IsSound a _ v (revoking now reason r) = revoke_receipt-IsSound now reason r a v

  -- From a vault with one active key and one issued receipt of each session at most, any issues and
  -- revocations lead to such a vault.
  pub Steps-IsSound : (a b : Vault F) → IsSound a → Steps a b → IsSound b
  Steps-IsSound a _ v here = v
  Steps-IsSound a b v (next {a = m} steps step) = Step-IsSound m b (Steps-IsSound a m v steps) step
