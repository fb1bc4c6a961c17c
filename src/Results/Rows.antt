-- ===== src/Results/Rows.antt =====
-- The rows of the results: what a write to one row does to each query, and to the ledger.
use mathlib.Core.Option
use site_proof.Prelude.{
  ℕ, ◌≡◌, ◌≢◌, refl, true, false, Option, none, some, List, [], ◌∷◌, ◌++◌, arith, ap, ◌==◌,
  if◌then◌else◌, Bool-cases, inl, inr,
}
use site_proof.Prelude.Dict.{find}
use site_proof.Prelude.Rows.{Distinct, find-map, find-append, find-true, find-id, map-Distinct}
use site_proof.Results.Result.{Key, same_key, VerificationResult}
use site_proof.Results.Store.{has_key, find_result, get_result, update_result}
use site_proof.Results.Calculation.{reset}
use site_proof.Results.Ledger.{settle, decision_of, decision_at, ledger, same_key-eq, same_key_refl}

module _ {F : Type 0} where
  -- A write that leaves the id and the key alone.
  pub record Keeps (w : VerificationResult F → VerificationResult F) : Type 0 where
    pub ids : (r : VerificationResult F) → (w r).id ≡ r.id
    pub keys : (r : VerificationResult F) → (w r).key ≡ r.key

  pub reset-Keeps : Keeps reset
  unfolding reset
  reset-Keeps = record { ids = λ r. refl; keys = λ r. refl }

  abbrev pub at_id :
      ℕ
      → (VerificationResult F → VerificationResult F)
      → VerificationResult F
      → VerificationResult F
  at_id id w r = if r.id == id then w r else r

  pub at_id-Keeps :
      (id : ℕ) (w : VerificationResult F → VerificationResult F) → Keeps w → Keeps (at_id id w)
  at_id-Keeps id w k = record {
    ids = λ r. ground (arith, k.ids r);
    keys = λ r. ground (arith, k.keys r);
  }

  pub find-update_result :
      (q : Key) (id : ℕ) (w : VerificationResult F → VerificationResult F)
      (rows : List (VerificationResult F))
      → Keeps w
      → find_result q (update_result id w rows) ≡ Option.map (at_id id w) (find_result q rows)
  unfolding find_result update_result
  find-update_result q id w rows k =
      find-map (has_key q) (at_id id w) rows (λ r. rw ((at_id-Keeps id w k).keys r) refl)

  pub update_result-Distinct :
      (id : ℕ) (w : VerificationResult F → VerificationResult F)
      (rows : List (VerificationResult F))
      → Keeps w
      → Distinct (λ (r : VerificationResult F). r.id) rows
      → Distinct (λ (r : VerificationResult F). r.id) (update_result id w rows)
  unfolding update_result
  update_result-Distinct id w rows k d =
      map-Distinct (λ (r : VerificationResult F). r.id) (at_id id w) rows (at_id-Keeps id w k).ids d

module _ {F : Type 0} where
  -- Two writes to one row are one.
  pub update_result-update_result :
      (id : ℕ) (v w : VerificationResult F → VerificationResult F)
      (rows : List (VerificationResult F))
      → Keeps v
      → update_result id w (update_result id v rows) ≡ update_result id (λ r. w (v r)) rows
  unfolding update_result
  update_result-update_result id v w [] k = refl
  update_result-update_result id v w (r ∷ rows) k =
      ground (arith, k.ids r, update_result-update_result id v w rows k)

  -- A write that no row meets.
  pub update_result-none :
      (id : ℕ) (w : VerificationResult F → VerificationResult F)
      (rows : List (VerificationResult F))
      → get_result id rows ≡ none
      → update_result id w rows ≡ rows
  unfolding update_result get_result find
  update_result-none id w [] e = refl
  update_result-none id w (r ∷ rows) e = ground (arith, update_result-none id w rows)

  pub update_result-append :
      (id : ℕ) (w : VerificationResult F → VerificationResult F)
      (rows others : List (VerificationResult F))
      → update_result id w (rows ++ others) ≡ update_result id w rows ++ update_result id w others
  unfolding update_result
  update_result-append id w [] others = refl
  update_result-append id w (r ∷ rows) others =
      ap (λ (tail : List (VerificationResult F)). at_id id w r ∷ tail)
        (update_result-append id w rows others)

  pub update_result-last :
      (w : VerificationResult F → VerificationResult F) (rows : List (VerificationResult F))
      (new : VerificationResult F)
      → get_result new.id rows ≡ none
      → update_result new.id w (rows ++ new ∷ []) ≡ rows ++ w new ∷ []
  update_result-last w rows new e =
      rw (update_result-append new.id w rows (new ∷ []), update_result-none new.id w rows e)
        (unfold update_result in ground arith)

  pub find_result-get_result :
      (k : Key) (rows : List (VerificationResult F)) {r : VerificationResult F}
      → Distinct (λ (r : VerificationResult F). r.id) rows
      → find_result k rows ≡ some r
      → get_result r.id rows ≡ some r
  unfolding find_result get_result
  find_result-get_result k rows {r} d e =
      find-id (λ (r : VerificationResult F). r.id) (has_key k) rows {a = r} d e

  pub find_result-key :
      (k : Key) (rows : List (VerificationResult F)) {r : VerificationResult F}
      → find_result k rows ≡ some r
      → k ≡ r.key
  unfolding find_result
  find_result-key k rows {r} e = same_key-eq k r.key (find-true (has_key k) rows {a = r} e)

  pub find_result-same :
      (q k : Key) (rows : List (VerificationResult F))
      → same_key q k ≡ true
      → find_result q rows ≡ find_result k rows
  find_result-same q k rows e = ap (λ (x : Key). find_result x rows) (same_key-eq q k e)

  -- Rows under different keys have different ids.
  pub other_row :
      (q k : Key) (rows : List (VerificationResult F)) {r r' : VerificationResult F}
      → Distinct (λ (r : VerificationResult F). r.id) rows
      → find_result q rows ≡ some r'
      → find_result k rows ≡ some r
      → same_key q k ≡ false
      → r'.id ≢ r.id
  other_row q k rows {r} {r'} d h e t same =
      let at_q = find_result-get_result q rows {r = r'} d h in
      let at_k = find_result-get_result k rows {r = r} d e in
      let rows_eq : r' ≡ r = cc (ap (λ (n : ℕ). get_result n rows) same, at_q, at_k) in
      let keys_eq : q ≡ k =
        cc (find_result-key q rows {r = r'} h, find_result-key k rows {r = r} e, rows_eq) in
      ground (arith, ap (λ (x : Key). same_key x k) keys_eq, same_key_refl k)

  -- A write to a row without a decision settles its key.
  pub ledger-update_result :
      (k q : Key) (w : VerificationResult F → VerificationResult F)
      (rows : List (VerificationResult F)) {r : VerificationResult F}
      → Keeps w
      → Distinct (λ (r : VerificationResult F). r.id) rows
      → find_result k rows ≡ some r
      → decision_of r ≡ none
      → ledger (update_result r.id w rows) q ≡ settle k (decision_of (w r)) (ledger rows) q
  unfolding ledger settle Option.or_else
  ledger-update_result k q w rows {r} keeps d e none_yet =
      rw (find-update_result q r.id w rows keeps) (by_row (find_result q rows) refl)
    where
      by_row :
          (o : Option (VerificationResult F))
          → find_result q rows ≡ o
          → decision_at (Option.map (at_id r.id w) o) ≡ (
              if same_key q k
              then Option.or_else (decision_at o) (decision_of (w r))
              else decision_at o)
      by_row none h = elim (Bool-cases (same_key q k)) [
        | inl t ↦ ground (arith, find_result-same q k rows t)
        | inr t ↦ ground arith
      ]
      by_row (some r') h = elim (Bool-cases (same_key q k)) [
        | inl t ↦
            let same : r' ≡ r = cc (find_result-same q k rows t, h, e) in
            rw (same, t, none_yet) (ground arith)
        | inr t ↦ ground (arith, other_row q k rows {r = r} {r' = r'} d h e t)
      ]

  pub find_result-append :
      (q : Key) (rows : List (VerificationResult F)) (new : VerificationResult F)
      → find_result q (rows ++ new ∷ [])
        ≡ Option.or_else (find_result q rows) (if same_key q new.key then some new else none)
  unfolding find_result find
  find_result-append q rows new = find-append (has_key q) rows (new ∷ [])

  pub ledger-append :
      (q : Key) (new : VerificationResult F) (rows : List (VerificationResult F))
      → find_result new.key rows ≡ none
      → ledger (rows ++ new ∷ []) q ≡ settle new.key (decision_of new) (ledger rows) q
  unfolding ledger settle Option.or_else
  ledger-append q new rows h = rw (find_result-append q rows new) (by_row (find_result q rows) refl)
    where
      by_row :
          (o : Option (VerificationResult F))
          → find_result q rows ≡ o
          → decision_at (Option.or_else o (if same_key q new.key then some new else none)) ≡ (
              if same_key q new.key
              then Option.or_else (decision_at o) (decision_of new)
              else decision_at o)
      by_row none i = ground arith
      by_row (some r) i = elim (Bool-cases (same_key q new.key)) [
        | inl t ↦ ground (arith, find_result-same q new.key rows t)
        | inr t ↦ ground arith
      ]
