-- ===== src/Results/Stored.antt =====
-- What `calculate_verification` returns, and the row under its key.
use mathlib.Core.Option
use site_proof.Prelude.{ℕ, ◌≡◌, refl, true, Option, none, some, arith, ap, ◌==◌, ◌∙◌, if_both}
use site_proof.Prelude.Float.{Float}
use site_proof.Prelude.Rows.{find-true}
use site_proof.Sessions.Session.{Session}
use site_proof.Trust.Domain.{PolicyDefinition}
use site_proof.Results.Result.{Key, same_key, VerificationResult, is_completed}
use site_proof.Results.Store.{Store, Outcome, returned, find_result, get_result}
use site_proof.Results.Calculation.{Inputs, reset}
use site_proof.Results.Service.{
  calculate, calculate_unless_completed, calculate_verification, key_for,
}
use site_proof.Results.Ledger.{same_key_refl}
use site_proof.Results.Rows.{find-update_result, find_result-append}
use site_proof.Results.Written.{
  written, fresh_row, rewritten-Keeps, calculate-none_rows, calculate-some_rows,
}
use site_proof.Results.Settles.{key-written_fresh}
use site_proof.Results.Outcomes.{
  Ends, refuses, calculates, calculate_verification-Ends, with_policies,
}

module _ {F : Type 0} ⦃f : Float F⦄ where
  module _ (inputs : Inputs F) (session : Session) (policy : PolicyDefinition F) (key : Key)
      (store : Store F) where
    abbrev Stored : Outcome (VerificationResult F) × Store F → Type 0
    Stored x = (r : VerificationResult F) → x.0 ≡ returned r → find_result key x.1.results ≡ some r

    calculate-none-Stored :
        get_result inputs.new_result_id store.results ≡ none
        → find_result key store.results ≡ none
        → Stored (calculate inputs session policy key store none)
    calculate-none-Stored new e r h =
        let row =
          written inputs session policy key store (fresh_row inputs session policy key store) in
        let same : row ≡ r = unfold calculate in cc h in
        let own : same_key key row.key ≡ true =
          ap (same_key key) (key-written_fresh inputs session policy key store)
          ∙ same_key_refl key in
        ap (find_result key) (calculate-none_rows inputs session policy key store new)
        ∙ find_result-append key store.results row
        ∙ rw (e, own) (unfold Option.or_else in ap (λ (x : VerificationResult F). some x) same)

    calculate-some-Stored :
        (o : VerificationResult F)
        → find_result key store.results ≡ some o
        → Stored (calculate inputs session policy key store (some o))
    calculate-some-Stored o e r h =
        let row = written inputs session policy key store (reset o) in
        let same : row ≡ r = unfold calculate in cc h in
        ap (find_result key) (calculate-some_rows inputs session policy key store o)
        ∙ find-update_result key o.id _ store.results
            (rewritten-Keeps inputs session policy key store)
        ∙ ap (Option.map _) e
        ∙ ap (λ (x : VerificationResult F). some x) (ground (arith, same))

    calculate_unless_completed-Stored :
        (o : Option (VerificationResult F))
        → get_result inputs.new_result_id store.results ≡ none
        → find_result key store.results ≡ o
        → Stored (calculate_unless_completed inputs session policy key store o)
    calculate_unless_completed-Stored none new e = calculate-none-Stored new e
    calculate_unless_completed-Stored (some o) new e =
        if_both Stored (is_completed o.processing_status) (returned o, store)
          (calculate inputs session policy key store (some o))
          (λ r h. let same : o ≡ r = cc h in e ∙ ap (λ (x : VerificationResult F). some x) same)
          (calculate-some-Stored o e)

  -- The row that is returned is in the store, under a key of the session.
  pub calculate_verification-stored :
      (inputs : Inputs F) (session_id : ℕ) (store : Store F) (r : VerificationResult F)
      → get_result inputs.new_result_id store.results ≡ none
      → (calculate_verification inputs session_id store).0 ≡ returned r
      → (k : Key) × (find_result k (calculate_verification inputs session_id store).1.results
          ≡ some r)
        × (k.session_id ≡ session_id)
  calculate_verification-stored inputs session_id store r new h =
      by_end _ (calculate_verification-Ends inputs session_id store) h
    where
      by_end :
          (x : Outcome (VerificationResult F) × Store F)
          → Ends inputs session_id store x
          → x.0 ≡ returned r
          → (k : Key) × (find_result k x.1.results ≡ some r) × (k.session_id ≡ session_id)
      by_end _ (refuses m n) e = cc
      by_end _ (calculates session row policies policy a m b c) e =
          let key = key_for inputs session row policy in
          let is_id = find-true (λ s. s.id == session_id) store.sessions {a = session} a in
          (
            key,
            calculate_unless_completed-Stored inputs session policy key
                (with_policies policies store) _ new refl r e,
            unfold key_for in ground (arith, is_id),
          )
