-- ===== src/Results/Store.antt =====
-- The tables that service.py and review.py of backend/app/services/verification read and write.
use site_proof.Prelude.{
  ℕ, String, Bool, not, Option, none, some, List, [], ◌∷◌, map, ◌==◌, leb, if◌then◌else◌,
}
use site_proof.Prelude.Dict.{find, filter}
use site_proof.Inspections.Inspection.{Inspection}
use site_proof.Sessions.Session.{Session}
use site_proof.Results.Result.{Key, VerificationResult, SignalRow, ReviewDecision, same_key}
use site_proof.Results.PolicyRows.{PolicyRow}

pub record Store (F : Type 0) : Type 0 where
  pub inspections : List Inspection
  pub sessions : List Session
  pub policies : List (PolicyRow F)
  pub results : List (VerificationResult F)
  pub signals : List (SignalRow F)
  pub reviews : List ReviewDecision

-- A service function's return value, or the message of the exception that it raises.
pub data Outcome {ℓ} (A : Type ℓ) : Type ℓ where
  returned : A → Outcome A
  raised : String → Outcome A

module _ {F : Type 0} where
  abbrev pub has_key : Key → VerificationResult F → Bool
  has_key k r = same_key k r.key

  -- `_latest_current_result`, and a row by its id
  unfoldable pub find_result : Key → List (VerificationResult F) → Option (VerificationResult F)
  find_result k = find (has_key k)

  unfoldable pub get_result : ℕ → List (VerificationResult F) → Option (VerificationResult F)
  get_result id = find λ r. r.id == id

  unfoldable pub update_result :
      ℕ
      → (VerificationResult F → VerificationResult F)
      → List (VerificationResult F)
      → List (VerificationResult F)
  update_result id write = map (λ r. if r.id == id then write r else r)

  -- `delete(VerificationSignalResult).where(verification_result_id == id)`
  unfoldable pub delete_signals : ℕ → List (SignalRow F) → List (SignalRow F)
  delete_signals id = filter λ s. not (s.verification_result_id == id)

  -- `ORDER BY created_at DESC`: a later row comes first only if it is newer. SQL leaves a tie open.
  abbrev pub newer : VerificationResult F → Option (VerificationResult F) → VerificationResult F
  newer r none = r
  newer r (some best) = if leb best.created_at r.created_at then r else best

  unfoldable pub latest_result :
      (VerificationResult F → Bool) → List (VerificationResult F) → Option (VerificationResult F)
  latest_result p [] = none
  latest_result p (r ∷ rest) =
      let best = latest_result p rest in if p r then some (newer r best) else best
