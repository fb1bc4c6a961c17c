-- ===== src/Results/Outcomes.antt =====
-- How a call of `calculate_verification` can end: with an exception, or with a calculation under the
-- session's policy and engine.
use site_proof.Prelude.{
  ℕ, ◌≡◌, ◌∙◌, refl, sym, ap, subst, String, Bool, true, false, Option, none, some, List, ◌==◌, ◌⊎◌,
  inl, inr, if_both, if◌then◌else◌,
}
use site_proof.Prelude.Float.{Float}
use site_proof.Prelude.Dict.{find}
use site_proof.Inspections.Inspection.{Inspection}
use site_proof.Sessions.Session.{Session}
use site_proof.Trust.Domain.{PolicyDefinition}
use site_proof.Results.Result.{Key, VerificationResult, is_completed}
use site_proof.Results.PolicyRows.{PolicyRow, policy_from_row, get_or_create_default_policy}
use site_proof.Results.Store.{Store, Outcome, returned, raised, find_result, get_result}
use site_proof.Results.Calculation.{Inputs}
use site_proof.Results.Service.{
  calculate, calculate_unless_completed, calculate_for, with_policy, with_found, matches, key_for,
  calculate_verification,
}
use site_proof.Results.Ledger.{settle, ledger, IsValid}
use site_proof.Results.Written.{outcome}
use site_proof.Results.Settles.{calculate_unless_completed-ledger}

module _ {F : Type 0} ⦃f : Float F⦄ where
  abbrev pub with_policies : List (PolicyRow F) → Store F → Store F
  with_policies policies store = record store { policies = policies }

  -- The session is there with its inspection, and the stored policy of its organization can be read.
  abbrev pub IsReadable : Inputs F → ℕ → Store F → Type 0
  IsReadable inputs session_id store =
      (session : Session) × (row : PolicyRow F) × (policies : List (PolicyRow F))
      × (policy : PolicyDefinition F) × (find (λ s. s.id == session_id) store.sessions
          ≡ some session)
      × (matches session (find (λ i. i.id == session.inspection_id) store.inspections) ≡ true)
      × (get_or_create_default_policy inputs.new_policy_id session.organization_id store.policies
          ≡ some (row, policies))
      × (policy_from_row row ≡ some policy)

  pub data Ends (inputs : Inputs F) (session_id : ℕ) (store : Store F)
      : Outcome (VerificationResult F) × Store F → Type 0 where
    refuses :
        (m : String)
        → ¬ IsReadable inputs session_id store
        → Ends inputs session_id store (raised m, store)
    calculates :
        (session : Session) (row : PolicyRow F) (policies : List (PolicyRow F))
        (policy : PolicyDefinition F)
        → find (λ s. s.id == session_id) store.sessions ≡ some session
        → matches session (find (λ i. i.id == session.inspection_id) store.inspections) ≡ true
        → get_or_create_default_policy inputs.new_policy_id session.organization_id store.policies
          ≡ some (row, policies)
        → policy_from_row row ≡ some policy
        → Ends inputs session_id store (
            calculate_unless_completed inputs session policy
              (key_for inputs session row policy)
              (with_policies policies store)
              (find_result (key_for inputs session row policy) store.results))

  pub calculate_verification-Ends :
      (inputs : Inputs F) (session_id : ℕ) (store : Store F)
      → Ends inputs session_id store (calculate_verification inputs session_id store)
  unfolding calculate_verification
  calculate_verification-Ends inputs session_id store =
      by_session (find (λ s. s.id == session_id) store.sessions) refl
    where
      by_policy :
          (session : Session) (row : PolicyRow F) (policies : List (PolicyRow F))
          (o : Option (PolicyDefinition F))
          → find (λ s. s.id == session_id) store.sessions ≡ some session
          → matches session (find (λ i. i.id == session.inspection_id) store.inspections) ≡ true
          → get_or_create_default_policy inputs.new_policy_id session.organization_id store.policies
            ≡ some (row, policies)
          → policy_from_row row ≡ o
          → Ends inputs session_id store
              (calculate_for inputs session row store (with_policies policies store) o)
      by_policy session row policies none a m b e =
          refuses "ValueError" λ (s, r, ps, p, a', m', b', c'). cc (a, a', b, b', e, c')
      by_policy session row policies (some policy) a m b e =
          calculates session row policies policy a m b e

      by_row :
          (session : Session) (o : Option (PolicyRow F × List (PolicyRow F)))
          → find (λ s. s.id == session_id) store.sessions ≡ some session
          → matches session (find (λ i. i.id == session.inspection_id) store.inspections) ≡ true
          → get_or_create_default_policy inputs.new_policy_id session.organization_id store.policies
            ≡ o
          → Ends inputs session_id store (with_policy inputs session store o)
      by_row session none a m e =
          refuses "ValueError" λ (s, r, ps, p, a', m', b', c'). cc (a, a', e, b')
      by_row session (some (row, policies)) a m e =
          by_policy session row policies (policy_from_row row) a m e refl

      inspection_of : Session → Option Inspection
      inspection_of session = find (λ i. i.id == session.inspection_id) store.inspections

      by_match :
          (session : Session) (b : Bool)
          → find (λ s. s.id == session_id) store.sessions ≡ some session
          → matches session (inspection_of session) ≡ b
          → Ends inputs session_id store (
              if b
              then with_policy inputs session store (
                  get_or_create_default_policy inputs.new_policy_id session.organization_id
                    store.policies)
              else (raised "ValueError", store))
      by_match session true a m = by_row session _ a m refl
      by_match session false a m = refuses "ValueError" λ (s, r, ps, p, a', m', b', c').
          let same : s ≡ session = cc (a, a') in
          cc (m, subst (λ (x : Session). matches x (inspection_of x) ≡ true) same m')

      by_session :
          (o : Option Session)
          → find (λ s. s.id == session_id) store.sessions ≡ o
          → Ends inputs session_id store (with_found inputs store o)
      by_session none e = refuses "ValueError" λ (s, r, ps, p, a', m', b', c'). cc (e, a')
      by_session (some session) e =
          by_match session (matches session (inspection_of session)) e refl

  abbrev pub Raises : Inputs F → ℕ → Store F → Outcome (VerificationResult F) × Store F → Type 0
  Raises inputs session_id store x =
      ¬ IsReadable inputs session_id store × ((m : String) × (x ≡ (raised m, store)))

  -- The session is there with its inspection, and the policy is what its organization's stored row
  -- reads as. The ledger is settled under the key of the session, this policy and the engine.
  abbrev pub Settles : Inputs F → ℕ → Store F → Outcome (VerificationResult F) × Store F → Type 0
  Settles inputs session_id store x =
      (session : Session) × (row : PolicyRow F) × (policy : PolicyDefinition F) × (find
          (λ s. s.id == session_id) store.sessions
        ≡ some session)
      × (matches session (find (λ i. i.id == session.inspection_id) store.inspections) ≡ true)
      × (get_or_create_default_policy inputs.new_policy_id session.organization_id store.policies
          ≡ some (row, x.1.policies))
      × (policy_from_row row ≡ some policy)
      × ((q : Key)
          → ledger x.1.results q
            ≡ settle (key_for inputs session row policy)
                (outcome inputs session policy (key_for inputs session row policy))
                (ledger store.results) q)

  -- A calculation writes no policy.
  calculate_unless_completed-policies :
      (inputs : Inputs F) (session : Session) (policy : PolicyDefinition F) (key : Key)
      (store : Store F) (o : Option (VerificationResult F))
      → (calculate_unless_completed inputs session policy key store o).1.policies ≡ store.policies
  unfolding calculate
  calculate_unless_completed-policies inputs session policy key store none = refl
  calculate_unless_completed-policies inputs session policy key store (some r) =
      if_both (λ (x : Outcome (VerificationResult F) × Store F). x.1.policies ≡ store.policies)
        (is_completed r.processing_status) (returned r, store)
        (calculate inputs session policy key store (some r)) refl refl

  Ends-Settles :
      (inputs : Inputs F) (session_id : ℕ) (store : Store F)
      (x : Outcome (VerificationResult F) × Store F)
      → IsValid store.results
      → get_result inputs.new_result_id store.results ≡ none
      → Ends inputs session_id store x
      → Raises inputs session_id store x ⊎ Settles inputs session_id store x
  Ends-Settles inputs session_id store _ v new (refuses m n) = inl (n, (m, refl))
  Ends-Settles inputs session_id store _ v new (calculates session row policies policy a m b c) =
      let key = key_for inputs session row policy in
      let before = with_policies policies store in
      let settles = λ (q : Key).
        calculate_unless_completed-ledger inputs session policy key before q _ v new refl in
      let kept =
        calculate_unless_completed-policies inputs session policy key before
          (find_result key store.results) in
      inr (
        session,
        row,
        policy,
        a,
        m,
        b ∙ ap (λ (p : List (PolicyRow F)). some (row, p)) (sym kept),
        c,
        settles,
      )

  -- A call of calculate_verification with an unused id on a valid store raises and leaves the store
  -- as it is, and then the session, its inspection or a policy that can be read is missing; or it
  -- finds the session and its inspection, reads the policy from the stored row of the session's
  -- organization, or from the default row that it adds, and settles the ledger of decisions under
  -- the key of the session, this policy and its engine, with the decision that the inputs lead to if
  -- they lead to one, and nowhere else.
  pub calculate_verification_refines :
      (inputs : Inputs F) (session_id : ℕ) (store : Store F)
      → IsValid store.results
      → get_result inputs.new_result_id store.results ≡ none
      → Raises inputs session_id store (calculate_verification inputs session_id store)
        ⊎ Settles inputs session_id store (calculate_verification inputs session_id store)
  calculate_verification_refines inputs session_id store v new =
      Ends-Settles inputs session_id store _ v new
        (calculate_verification-Ends inputs session_id store)
