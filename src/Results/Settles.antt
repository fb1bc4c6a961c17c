-- ===== src/Results/Settles.antt =====
-- What a calculation does to the ledger, at its key and elsewhere.
use mathlib.Core.Option
use site_proof.Prelude.{◌≡◌, refl, true, false, Option, none, some, ap, ◌∙◌, Bool-cases, inl, inr}
use site_proof.Prelude.Float.{Float}
use site_proof.Prelude.Rows.{All-find}
use site_proof.Sessions.Session.{Session}
use site_proof.Trust.Domain.{PolicyDefinition}
use site_proof.Results.Result.{Key, same_key, VerificationResult, is_completed}
use site_proof.Results.Store.{Store, has_key, find_result, get_result}
use site_proof.Results.Calculation.{Inputs, reset, new_result}
use site_proof.Results.Service.{calculate, calculate_unless_completed}
use site_proof.Results.Ledger.{settle, decision_of, ledger, IsConsistent, IsValid}
use site_proof.Results.Rows.{ledger-append, ledger-update_result, find_result-same}
use site_proof.Results.Written.{
  outcome, written, fresh_row, written-Keeps, rewritten-Keeps, calculate-none_rows,
  calculate-some_rows, decision-written,
}

module _ {F : Type 0} ⦃f : Float F⦄ (inputs : Inputs F) (session : Session)
    (policy : PolicyDefinition F) (key : Key) (store : Store F) where
  pub key-written_fresh :
      (written inputs session policy key store (fresh_row inputs session policy key store)).key
      ≡ key
  unfolding new_result
  key-written_fresh =
      (written-Keeps inputs session policy key store).keys
        (fresh_row inputs session policy key store)

  ledger-calculate-none :
      (q : Key)
      → get_result inputs.new_result_id store.results ≡ none
      → find_result key store.results ≡ none
      → ledger (calculate inputs session policy key store none).1.results q
        ≡ settle key (outcome inputs session policy key) (ledger store.results) q
  ledger-calculate-none q new e =
      let absent : find_result
            (written inputs session policy key store
              (fresh_row inputs session policy key store)).key
            store.results
          ≡ none =
        ap (λ (k : Key). find_result k store.results) key-written_fresh ∙ e in
      cc (
        calculate-none_rows inputs session policy key store new,
        ledger-append q
            (written inputs session policy key store (fresh_row inputs session policy key store))
            store.results absent,
        key-written_fresh,
        decision-written inputs session policy key store
            (fresh_row inputs session policy key store),
      )

  ledger-calculate-some :
      (q : Key) (r : VerificationResult F)
      → IsValid store.results
      → find_result key store.results ≡ some r
      → is_completed r.processing_status ≡ false
      → ledger (calculate inputs session policy key store (some r)).1.results q
        ≡ settle key (outcome inputs session policy key) (ledger store.results) q
  unfolding decision_of
  ledger-calculate-some q r v e t =
      let none_yet : decision_of r ≡ none = rw t refl in
      cc (
        calculate-some_rows inputs session policy key store r,
        ledger-update_result key q (λ x. (written inputs session policy key store) (reset x))
            store.results {r = r} (rewritten-Keeps inputs session policy key store) v.distinct e
            none_yet,
        decision-written inputs session policy key store (reset r),
      )

  -- A decision that is there is kept.
  settled_ledger :
      (q : Key) (r : VerificationResult F)
      → IsValid store.results
      → find_result key store.results ≡ some r
      → is_completed r.processing_status ≡ true
      → ledger store.results q
        ≡ settle key (outcome inputs session policy key) (ledger store.results) q
  unfolding settle ledger Option.or_else
  settled_ledger q r v e t =
      let consistent : IsConsistent r =
        unfold find_result in
        All-find IsConsistent (has_key key) store.results {a = r} v.consistent e in
      let (d, h) = consistent.decided t in
      elim (Bool-cases (same_key q key)) [
        | inl same ↦
            let found : find_result q store.results ≡ some r =
              find_result-same q key store.results same ∙ e in
            rw (same, found, h) refl
        | inr other ↦ rw other refl
      ]

  pub calculate_unless_completed-ledger :
      (q : Key) (o : Option (VerificationResult F))
      → IsValid store.results
      → get_result inputs.new_result_id store.results ≡ none
      → find_result key store.results ≡ o
      → ledger (calculate_unless_completed inputs session policy key store o).1.results q
        ≡ settle key (outcome inputs session policy key) (ledger store.results) q
  calculate_unless_completed-ledger q none v new e = ledger-calculate-none q new e
  calculate_unless_completed-ledger q (some r) v new e =
      elim (Bool-cases (is_completed r.processing_status)) [
        | inl t ↦ rw t (settled_ledger q r v e t)
        | inr t ↦ rw t (ledger-calculate-some q r v e t)
      ]
