-- ===== src/Results/Trace.antt =====
-- The results over any sequence of calculations, reviews and writes of the other services.
use site_proof.Prelude.{ℕ, ◌≡◌, refl, ap, true, none, some, ◌∙◌, inl, inr}
use mathlib.Core.Path.{subst⁻¹}
use site_proof.Prelude.Float.{Float}
use site_proof.Results.Result.{VerificationResult, is_completed}
use site_proof.Results.Store.{Store, Outcome, find_result, get_result}
use site_proof.Results.Calculation.{Inputs}
use site_proof.Results.Service.{calculate_verification, key_for}
use site_proof.Results.Review.{Reviewer, ReviewRequest, create_review_decision}
use site_proof.Results.ReviewLaws.{create_review_decision_outcome, Refused-store}
use site_proof.Results.Ledger.{IsValid}
use site_proof.Results.Kept.{
  signals_of, calculate_unless_completed-IsValid, calculate_unless_completed-kept,
}
use site_proof.Results.Outcomes.{
  Ends, refuses, calculates, calculate_verification-Ends, with_policies,
}

module _ {F : Type 0} ⦃f : Float F⦄ where
  pub data Step (store : Store F) : Store F → Type 0 where
    -- with an id that is not used yet
    calculating :
        (inputs : Inputs F) (session_id : ℕ)
        → get_result inputs.new_result_id store.results ≡ none
        → Step store (calculate_verification inputs session_id store).1
    reviewing :
        (user : Reviewer) (inspection_id : ℕ) (payload : ReviewRequest)
        → Step store (create_review_decision user inspection_id payload store).1
    -- the other services, which write neither the results nor their signals
    elsewhere :
        (store' : Store F)
        → store'.results ≡ store.results
        → store'.signals ≡ store.signals
        → Step store store'

  pub data Steps (store : Store F) : Store F → Type 0 where
    here : Steps store store
    next : {a b : Store F} → Steps store a → Step a b → Steps store b

  -- `b` has what is completed in `a`.
  record Keeps (a b : Store F) : Type 0 where
    pub valid : IsValid b.results
    pub rows :
        (id : ℕ) (r : VerificationResult F)
        → get_result id a.results ≡ some r
        → is_completed r.processing_status ≡ true
        → (get_result id b.results ≡ some r) × (signals_of id b.signals ≡ signals_of id a.signals)

  same-Keeps :
      (a b : Store F)
      → IsValid a.results
      → b.results ≡ a.results
      → b.signals ≡ a.signals
      → Keeps a b
  same-Keeps a b v e h = record {
    valid = subst⁻¹ IsValid e v;
    rows = λ id r found t. (rw (e, found) refl, rw h refl);
  }

  trans-Keeps : (a b c : Store F) → Keeps a b → Keeps b c → Keeps a c
  trans-Keeps a b c x y = record {
    valid = y.valid;
    rows = λ id r found t.
        let (at_b, same) = x.rows id r found t in
        let (at_c, same') = y.rows id r at_b t in (at_c, same' ∙ same);
  }

  Ends-Keeps :
      (inputs : Inputs F) (session_id : ℕ) (store : Store F)
      (x : Outcome (VerificationResult F) × Store F)
      → IsValid store.results
      → get_result inputs.new_result_id store.results ≡ none
      → Ends inputs session_id store x
      → Keeps store x.1
  Ends-Keeps inputs session_id store _ v new (refuses m n) = same-Keeps store store v refl refl
  Ends-Keeps inputs session_id store _ v new (calculates session row policies policy a m b c) =
      let key = key_for inputs session row policy in
      let found = find_result key store.results in
      record {
        valid =
            calculate_unless_completed-IsValid inputs session policy key
              (with_policies policies store) found v new;
        rows = λ id r e t.
            calculate_unless_completed-kept inputs session policy key (with_policies policies store)
              found id r v new refl e t;
      }

  results-create_review_decision :
      (user : Reviewer) (id : ℕ) (payload : ReviewRequest) (store : Store F)
      → IsValid store.results
      → ((create_review_decision user id payload store).1.results ≡ store.results)
        × ((create_review_decision user id payload store).1.signals ≡ store.signals)
  results-create_review_decision user id payload store v =
      elim (create_review_decision_outcome user id payload store v) [
        | inl refused ↦
            let same = Refused-store user id payload store _ refused in
            (ap (λ (s : Store F). s.results) same, ap (λ (s : Store F). s.signals) same)
        | inr (i, session, r, verdict, a, b, c, d, e, f', h) ↦ rw h (refl, refl)
      ]

  Step-Keeps : (a b : Store F) → IsValid a.results → Step a b → Keeps a b
  Step-Keeps a _ v (calculating inputs session_id new) =
      Ends-Keeps inputs session_id a _ v new (calculate_verification-Ends inputs session_id a)
  Step-Keeps a _ v (reviewing user id payload) =
      let (e, h) = results-create_review_decision user id payload a v in same-Keeps a _ v e h
  Step-Keeps a b v (elsewhere _ e h) = same-Keeps a b v e h

  Steps-Keeps : (a b : Store F) → IsValid a.results → Steps a b → Keeps a b
  Steps-Keeps a _ v here = same-Keeps a a v refl refl
  Steps-Keeps a c v (next {a = b} steps step) =
      let first = Steps-Keeps a b v steps in
      trans-Keeps a b c first (Step-Keeps b c first.valid step)

  -- From a valid store, after any calculations with unused ids, reviews and writes of the other
  -- services: ids are unique, a completed row has its verdict, score and confidence, and any other row
  -- has no verdict.
  pub Steps-IsValid : (a b : Store F) → IsValid a.results → Steps a b → IsValid b.results
  Steps-IsValid a b v steps = (Steps-Keeps a b v steps).valid

  -- A completed result of a valid store and its signals are the same after any calculations with unused
  -- ids, reviews and writes of the other services.
  pub completed_kept :
      (a b : Store F) (id : ℕ) (r : VerificationResult F)
      → IsValid a.results
      → Steps a b
      → get_result id a.results ≡ some r
      → is_completed r.processing_status ≡ true
      → (get_result id b.results ≡ some r) × (signals_of id b.signals ≡ signals_of id a.signals)
  completed_kept a b id r v steps found t = (Steps-Keeps a b v steps).rows id r found t
