-- ===== src/Results/Kept.antt =====
-- What a calculation does to the validity of the table, and to a completed row and its signals.
use mathlib.Core.Option
use site_proof.Prelude.{
  ℕ, ◌≡◌, ◌≢◌, refl, true, Option, none, some, List, [], ◌∷◌, ◌++◌, arith, ap, ◌∙◌, ◌==◌, if_both,
  map, Bool-cases, inl, inr,
}
use mathlib.Core.List.{append-nil}
use mathlib.Core.Path.{subst⁻¹}
use site_proof.Prelude.Float.{Float}
use site_proof.Prelude.Dict.{find, filter}
use site_proof.Prelude.Rows.{find-map, find-append, append-Distinct, All-map, All-append, find-true}
use site_proof.Sessions.Session.{Session}
use site_proof.Trust.Domain.{Signal, PolicyDefinition, ScoreBreakdown}
use site_proof.Results.Result.{Key, VerificationResult, SignalRow, is_completed}
use site_proof.Results.Store.{
  Store, Outcome, find_result, get_result, update_result, delete_signals,
}
use site_proof.Results.Calculation.{
  Inputs, Stage, waits, decides, reset, finish_signals, signal_row, new_result, stage,
}
use site_proof.Results.Service.{calculate, calculate_unless_completed}
use site_proof.Results.Ledger.{IsConsistent, IsValid}
use site_proof.Results.Rows.{at_id, update_result-Distinct, find_result-get_result}
use site_proof.Results.Written.{
  finish_result-IsConsistent, written, fresh_row, written-Keeps, rewritten-Keeps,
  calculate-none_rows, calculate-some_rows,
}

module _ {F : Type 0} where
  -- The signals of a result.
  unfoldable pub signals_of : ℕ → List (SignalRow F) → List (SignalRow F)
  signals_of id = filter λ s. s.verification_result_id == id

  signals_of-append :
      (id : ℕ) (xs ys : List (SignalRow F))
      → signals_of id (xs ++ ys) ≡ signals_of id xs ++ signals_of id ys
  unfolding signals_of filter
  signals_of-append id [] ys = refl
  signals_of-append id (x ∷ xs) ys = ground (arith, signals_of-append id xs ys)

  signals_of-delete_signals :
      (id other : ℕ) (rows : List (SignalRow F))
      → id ≢ other
      → signals_of id (delete_signals other rows) ≡ signals_of id rows
  unfolding signals_of delete_signals filter
  signals_of-delete_signals id other [] n = refl
  signals_of-delete_signals id other (x ∷ rows) n =
      ground (arith, signals_of-delete_signals id other rows n)

module _ {F : Type 0} ⦃f : Float F⦄ where
  signals_of-signal_row :
      (id other : ℕ) (policy : PolicyDefinition F) (score : ScoreBreakdown F)
      (signals : List (Signal F))
      → id ≢ other
      → signals_of id (map (signal_row other policy score) signals) ≡ []
  unfolding signals_of filter signal_row
  signals_of-signal_row id other policy score [] n = refl
  signals_of-signal_row id other policy score (s ∷ signals) n =
      ground (arith, signals_of-signal_row id other policy score signals n)

  signals_of-finish_signals :
      (id other : ℕ) (policy : PolicyDefinition F) (s : Stage F) (rows : List (SignalRow F))
      → id ≢ other
      → signals_of id (finish_signals policy s other rows) ≡ signals_of id rows
  unfolding finish_signals
  signals_of-finish_signals id other policy (waits summary names) rows n = refl
  signals_of-finish_signals id other policy (decides signals) rows n =
      rw
        (
          signals_of-append,
          signals_of-delete_signals id other rows n,
          signals_of-signal_row id other policy _ signals n,
        )
        (append-nil (signals_of id rows))

module _ {F : Type 0} ⦃f : Float F⦄ (inputs : Inputs F) (session : Session)
    (policy : PolicyDefinition F) (key : Key) (store : Store F) where
  written-IsConsistent :
      (r : VerificationResult F)
      → r.verdict ≡ none
      → IsConsistent (written inputs session policy key store r)
  written-IsConsistent r e =
      finish_result-IsConsistent inputs policy key.engine_version (stage inputs session.id policy) r
        e

  abbrev after : Option (VerificationResult F) → Store F
  after o = (calculate_unless_completed inputs session policy key store o).1

  appended : VerificationResult F
  appended = written inputs session policy key store (fresh_row inputs session policy key store)

  id-appended : appended.id ≡ inputs.new_result_id
  unfolding appended new_result
  id-appended =
      (written-Keeps inputs session policy key store).ids
        (fresh_row inputs session policy key store)

  appended-IsConsistent : IsConsistent appended
  unfolding appended new_result
  appended-IsConsistent = written-IsConsistent (fresh_row inputs session policy key store) refl

  appended_rows :
      get_result inputs.new_result_id store.results ≡ none
      → (calculate inputs session policy key store none).1.results ≡ store.results ++ appended ∷ []
  unfolding appended
  appended_rows new = calculate-none_rows inputs session policy key store new

  appended-IsValid :
      IsValid store.results
      → get_result inputs.new_result_id store.results ≡ none
      → IsValid (store.results ++ appended ∷ [])
  unfolding get_result
  appended-IsValid v new = record {
    distinct =
        append-Distinct (λ (r : VerificationResult F). r.id) store.results appended
          (ap (λ (n : ℕ). find (λ r. r.id == n) store.results) id-appended ∙ new) v.distinct;
    consistent =
        All-append IsConsistent store.results (appended ∷ []) v.consistent
          (appended-IsConsistent, tt);
  }

  rewritten-IsConsistent :
      (id : ℕ) (r : VerificationResult F)
      → IsConsistent r
      → IsConsistent (at_id id (λ x. written inputs session policy key store (reset x)) r)
  unfolding reset
  rewritten-IsConsistent id r c =
      if_both IsConsistent (r.id == id) _ r (written-IsConsistent (reset r) refl) c

  rewritten-IsValid :
      (id : ℕ)
      → IsValid store.results
      → IsValid
          (update_result id (λ x. written inputs session policy key store (reset x)) store.results)
  unfolding update_result
  rewritten-IsValid id v = record {
    distinct =
        update_result-Distinct id _ store.results (rewritten-Keeps inputs session policy key store)
          v.distinct;
    consistent = All-map IsConsistent _ store.results (rewritten-IsConsistent id) v.consistent;
  }

  pub calculate_unless_completed-IsValid :
      (o : Option (VerificationResult F))
      → IsValid store.results
      → get_result inputs.new_result_id store.results ≡ none
      → IsValid (after o).results
  calculate_unless_completed-IsValid none v new =
      subst⁻¹ IsValid (appended_rows new) (appended-IsValid v new)
  calculate_unless_completed-IsValid (some r) v new =
      if_both (λ (x : Outcome (VerificationResult F) × Store F). IsValid x.1.results)
        (is_completed r.processing_status) _ _ v
        (subst⁻¹ IsValid (calculate-some_rows inputs session policy key store r)
          (rewritten-IsValid r.id v))

  -- A row is kept by what does not write it.
  get_result-appended :
      (id : ℕ) {r : VerificationResult F}
      → get_result id store.results ≡ some r
      → get_result id (store.results ++ appended ∷ []) ≡ some r
  unfolding get_result Option.or_else
  get_result-appended id found =
      find-append (λ (x : VerificationResult F). x.id == id) store.results (appended ∷ [])
      ∙ rw found refl

  get_result-rewritten :
      (id other : ℕ) {r : VerificationResult F}
      → id ≢ other
      → get_result id store.results ≡ some r
      → get_result id (
          update_result other
            (λ x. written inputs session policy key store (reset x))
            store.results)
        ≡ some r
  unfolding get_result update_result
  get_result-rewritten id other {r} n found =
      find-map (λ (x : VerificationResult F). x.id == id) _ store.results
        (λ x. ground (arith, (rewritten-Keeps inputs session policy key store).ids x))
      ∙ rw found (
          let is_id =
            find-true (λ (x : VerificationResult F). x.id == id) store.results {a = r} found in
          ground (arith, is_id))

  signals-calculate-none :
      (id : ℕ)
      → id ≢ inputs.new_result_id
      → signals_of id (calculate inputs session policy key store none).1.signals
        ≡ signals_of id store.signals
  unfolding calculate new_result
  signals-calculate-none id n =
      signals_of-finish_signals id inputs.new_result_id policy _ store.signals n

  signals-calculate-some :
      (id : ℕ) (r : VerificationResult F)
      → id ≢ r.id
      → signals_of id (calculate inputs session policy key store (some r)).1.signals
        ≡ signals_of id store.signals
  unfolding calculate reset
  signals-calculate-some id r n =
      signals_of-finish_signals id r.id policy _ (delete_signals r.id store.signals) n
      ∙ signals_of-delete_signals id r.id store.signals n

  -- A completed row is not the one that a calculation writes.
  pub calculate_unless_completed-kept :
      (o : Option (VerificationResult F)) (id : ℕ) (r : VerificationResult F)
      → IsValid store.results
      → get_result inputs.new_result_id store.results ≡ none
      → find_result key store.results ≡ o
      → get_result id store.results ≡ some r
      → is_completed r.processing_status ≡ true
      → (get_result id (after o).results ≡ some r)
        × (signals_of id (after o).signals ≡ signals_of id store.signals)
  calculate_unless_completed-kept none id r v new e found t = (
    rw (appended_rows new) (get_result-appended id {r = r} found),
    signals-calculate-none id
        (λ same. cc (ap (λ (n : ℕ). get_result n store.results) same, found, new)),
  )
  calculate_unless_completed-kept (some r') id r v new e found t =
      elim (Bool-cases (is_completed r'.processing_status)) [
        | inl done ↦ rw (done, after) (found, refl)
        | inr open_yet ↦
            let at_r' = find_result-get_result key store.results {r = r'} v.distinct e in
            let n : id ≢ r'.id = λ same.
              let rows_eq : r ≡ r' =
                cc (ap (λ (n : ℕ). get_result n store.results) same, found, at_r') in
              cc (
                ap (λ (x : VerificationResult F). is_completed x.processing_status) rows_eq,
                t,
                open_yet,
              ) in
            rw (open_yet, after)
              (
                rw (calculate-some_rows inputs session policy key store r')
                    (get_result-rewritten id r'.id {r = r} n found),
                signals-calculate-some id r' n,
              )
      ]
