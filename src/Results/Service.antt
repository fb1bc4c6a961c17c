-- ===== src/Results/Service.antt =====
-- `calculate_verification` and `get_scoped_result` of service.py.
use site_proof.Prelude.{ℕ, Bool, false, ◌&&◌, Option, none, some, List, ◌==◌, if◌then◌else◌}
use site_proof.Prelude.Float.{Float}
use site_proof.Prelude.Dict.{find}
use site_proof.Prelude.Reply.{Reply, ok, err}
use site_proof.Inspections.Inspection.{Inspection}
use site_proof.Sessions.Session.{Session}
use site_proof.Trust.Domain.{PolicyDefinition}
use site_proof.Trust.Gate.{engine_version_for_session}
use site_proof.Results.Result.{Key, VerificationResult, is_completed}
use site_proof.Results.PolicyRows.{PolicyRow, policy_from_row, get_or_create_default_policy}
use site_proof.Results.Store.{
  Store, Outcome, returned, raised, find_result, update_result, latest_result,
}
use site_proof.Results.Calculation.{
  Inputs, new_result, begin, begun, stage, finish_result, finish_signals,
}

abbrev pub matches : Session → Option Inspection → Bool
matches session none = false
matches session (some i) = i.organization_id == session.organization_id

module _ {F : Type 0} where
  -- The key of the row that belongs to the session, the policy and the engine at hand.
  unfoldable pub key_for : Inputs F → Session → PolicyRow F → PolicyDefinition F → Key
  key_for inputs session row policy = record {
    session_id = session.id;
    policy_id = row.id;
    policy_version = policy.version;
    engine_version = engine_version_for_session inputs.security inputs.advanced_signals;
  }

module _ {F : Type 0} ⦃f : Float F⦄ where
  unfoldable pub calculate :
      Inputs F
      → Session
      → PolicyDefinition F
      → Key
      → Store F
      → Option (VerificationResult F)
      → Outcome (VerificationResult F) × Store F
  unfolding finish_result finish_signals
  calculate inputs session policy key store existing =
      let new = new_result inputs session policy key in
      let store' = begin new store existing in
      let r = begun new existing in
      let s = stage inputs session.id policy in
      let write = finish_result inputs policy key.engine_version s in
      (
        returned (write r),
        record store' {
          results = update_result r.id write store'.results;
          signals = finish_signals policy s r.id store'.signals;
        },
      )

  -- An automated decision is kept: a completed row is returned as it is.
  abbrev pub calculate_unless_completed :
      Inputs F
      → Session
      → PolicyDefinition F
      → Key
      → Store F
      → Option (VerificationResult F)
      → Outcome (VerificationResult F) × Store F
  calculate_unless_completed inputs session policy key store none =
      calculate inputs session policy key store none
  calculate_unless_completed inputs session policy key store (some r) =
      if is_completed r.processing_status
      then (returned r, store)
      else calculate inputs session policy key store (some r)

  abbrev pub calculate_for :
      Inputs F
      → Session
      → PolicyRow F
      → Store F
      → Store F
      → Option (PolicyDefinition F)
      → Outcome (VerificationResult F) × Store F
  calculate_for inputs session row before store none = (raised "ValueError", before)
  calculate_for inputs session row before store (some policy) =
      let key = key_for inputs session row policy in
      calculate_unless_completed inputs session policy key store (find_result key store.results)

  abbrev pub with_policy :
      Inputs F
      → Session
      → Store F
      → Option (PolicyRow F × List (PolicyRow F))
      → Outcome (VerificationResult F) × Store F
  with_policy inputs session store none = (raised "ValueError", store)
  with_policy inputs session store (some (row, policies)) =
      calculate_for inputs session row store (record store { policies = policies })
        (policy_from_row row)

  abbrev pub with_found :
      Inputs F → Store F → Option Session → Outcome (VerificationResult F) × Store F
  with_found inputs store none = (raised "ValueError", store)
  with_found inputs store (some session) =
      if matches session (find (λ i. i.id == session.inspection_id) store.inspections)
      then with_policy inputs session store
          (get_or_create_default_policy inputs.new_policy_id session.organization_id store.policies)
      else (raised "ValueError", store)

  -- What an exception leaves is what the caller's rollback leaves.
  unfoldable pub calculate_verification :
      Inputs F → ℕ → Store F → Outcome (VerificationResult F) × Store F
  unfolding calculate key_for
  calculate_verification inputs session_id store =
      with_found inputs store (find (λ s. s.id == session_id) store.sessions)

module _ {F : Type 0} where
  abbrev scoped : ℕ → Store F → Option Session → Reply (Option (VerificationResult F))
  scoped organization store none = err 404 "SESSION_NOT_FOUND"
  scoped organization store (some session) =
      if session.organization_id == organization
      then ok (
          latest_result (λ r. r.key.session_id == session.id && r.organization_id == organization)
            store.results)
      else err 404 "SESSION_NOT_FOUND"

  -- `get_scoped_result`
  unfoldable pub get_scoped_result : ℕ → ℕ → Store F → Reply (Option (VerificationResult F))
  get_scoped_result organization session_id store =
      scoped organization store (find (λ s. s.id == session_id) store.sessions)
