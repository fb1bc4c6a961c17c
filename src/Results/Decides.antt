-- ===== src/Results/Decides.antt =====
-- A calculation that has all its signals.
use site_proof.Prelude.{
  ℕ, ◌≡◌, ◌↔◌, ◌⊎◌, refl, true, false, Option, none, some, List, subst, ◌==◌, Bool-cases, inl, inr,
}
use site_proof.Prelude.Float.{Float}
use site_proof.Prelude.Dict.{find}
use site_proof.Sessions.Session.{Session}
use site_proof.Trust.Domain.{Signal, Verdict, flagged, PolicyDefinition}
use site_proof.Trust.Decision.{resolve_decision}
use site_proof.Trust.Gate.{SecurityRow, LocationRow, engine_version_for_session}
use site_proof.Trust.GateLaws.{is_forged, secured_flagged_iff}
use site_proof.Results.Result.{Key, VerificationResult, is_completed}
use site_proof.Results.PolicyRows.{PolicyRow, policy_from_row, get_or_create_default_policy}
use site_proof.Results.Store.{Store, Outcome, returned, has_key, find_result}
use site_proof.Results.Calculation.{
  Inputs, decides, decide, security_rules, stage, finish_result, complete_result,
}
use site_proof.Results.Service.{
  calculate, calculate_unless_completed, calculate_verification, matches, key_for,
}
use site_proof.Results.Ledger.{IsValid, IsConsistent, ledger, decision_of, decision_at}
use site_proof.Results.Outcomes.{with_policies}
use site_proof.Prelude.Rows.{All-find}

module _ {F : Type 0} ⦃f : Float F⦄ where
  -- A result that is completed, with a verdict that flags what the signals flag and what is forged.
  abbrev pub Judged :
      List (Signal F)
      → PolicyDefinition F
      → SecurityRow F
      → Option (LocationRow F)
      → Outcome (VerificationResult F)
      → Type 0
  Judged signals policy s location answer =
      (r : VerificationResult F) × (v : Verdict) × (answer ≡ returned r)
      × (is_completed r.processing_status ≡ true)
      × (r.verdict ≡ some v)
      × (v ≡ flagged
          ↔ (((resolve_decision signals policy).verdict ≡ flagged) ⊎ (is_forged s location ≡ true)))

  calculate-Judged :
      (inputs : Inputs F) (session : Session) (policy : PolicyDefinition F) (key : Key)
      (store : Store F) (o : Option (VerificationResult F)) (signals : List (Signal F))
      (s : SecurityRow F)
      → key.engine_version ≡ "verification-engine-v2.0"
      → inputs.security ≡ some s
      → stage inputs session.id policy ≡ decides signals
      → Judged signals policy s inputs.location (calculate inputs session policy key store o).0
  unfolding calculate finish_result complete_result decide security_rules is_completed
  calculate-Judged inputs session policy key store o signals s engine security all_there =
      rw (engine, all_there, security)
        (
          _,
          _,
          refl,
          refl,
          refl,
          secured_flagged_iff (resolve_decision signals policy) s inputs.location inputs.replay,
        )

  -- A row without a decision is not completed.
  open_row :
      (key : Key) (rows : List (VerificationResult F)) {r : VerificationResult F}
      → IsValid rows
      → ledger rows key ≡ none
      → find_result key rows ≡ some r
      → is_completed r.processing_status ≡ false
  unfolding ledger
  open_row key rows {r} v none_yet e = elim (Bool-cases (is_completed r.processing_status)) [
    | inr t ↦ t
    | inl t ↦
        let consistent : IsConsistent r =
          unfold find_result in All-find IsConsistent (has_key key) rows {a = r} v.consistent e in
        let (d, h) = consistent.decided t in
        let undecided : decision_of r ≡ none = subst (λ o. decision_at o ≡ none) e none_yet in
        cc (h, undecided)
  ]

  module _ (inputs : Inputs F) (session : Session) (row : PolicyRow F) (policy : PolicyDefinition F)
      (store : Store F) (signals : List (Signal F)) (s : SecurityRow F) where
    abbrev key : Key
    key = key_for inputs session row policy

    engine_is_v2 :
        inputs.security ≡ some s
        → inputs.advanced_signals ≡ some tt
        → key.engine_version ≡ "verification-engine-v2.0"
    unfolding key_for engine_version_for_session
    engine_is_v2 security advanced = rw (security, advanced) refl

    calculated-Judged :
        (o : Option (VerificationResult F))
        → IsValid store.results
        → ledger store.results key ≡ none
        → find_result key store.results ≡ o
        → inputs.security ≡ some s
        → inputs.advanced_signals ≡ some tt
        → stage inputs session.id policy ≡ decides signals
        → Judged signals policy s inputs.location
            (calculate_unless_completed inputs session policy key store o).0
    calculated-Judged none v none_yet e security advanced all_there =
        calculate-Judged inputs session policy key store none signals s
          (engine_is_v2 security advanced) security all_there
    calculated-Judged (some r) v none_yet e security advanced all_there =
        rw (open_row key store.results {r = r} v none_yet e) (
          calculate-Judged inputs session policy key store (some r) signals s
            (engine_is_v2 security advanced) security all_there)

  -- On a valid store without a decision yet, with the security analyses complete, no analysis unfinished
  -- and every required signal available, calculate_verification returns a completed result, which is
  -- FLAGGED exactly if the signals alone are flagged or the evidence is forged.
  pub calculate_verification-Judged :
      (inputs : Inputs F) (session_id : ℕ) (store : Store F) (session : Session) (row : PolicyRow F)
      (policies : List (PolicyRow F)) (policy : PolicyDefinition F) (signals : List (Signal F))
      (s : SecurityRow F)
      → IsValid store.results
      → find (λ x. x.id == session_id) store.sessions ≡ some session
      → matches session (find (λ i. i.id == session.inspection_id) store.inspections) ≡ true
      → get_or_create_default_policy inputs.new_policy_id session.organization_id store.policies
        ≡ some (row, policies)
      → policy_from_row row ≡ some policy
      → inputs.security ≡ some s
      → inputs.advanced_signals ≡ some tt
      → stage inputs session.id policy ≡ decides signals
      → ledger store.results (key_for inputs session row policy) ≡ none
      → Judged signals policy s inputs.location (calculate_verification inputs session_id store).0
  unfolding calculate_verification
  calculate_verification-Judged inputs session_id store session row policies policy signals s v
        found matching loaded read security advanced all_there none_yet =
      rw (found, matching, loaded, read)
        (calculated-Judged inputs session row policy (with_policies policies store) signals s _ v
          none_yet refl security advanced all_there)
