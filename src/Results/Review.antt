-- ===== src/Results/Review.antt =====
-- `create_review_decision` of backend/app/services/verification/review.py, for a caller whose role
-- the route has checked.
use Prim.Native.Char.{code}
use Prim.Native.String.{count}
use site_proof.Prelude.{
  ℕ, String, Bool, true, false, ◌&&◌, ◌||◌, Option, none, some, List, [], ◌∷◌, ◌++◌, map, ltb, leb,
  ◌==◌, if◌then◌else◌, str_eq,
}
use site_proof.Prelude.Dict.{find}
use site_proof.Prelude.Reply.{Reply, ok, err}
use site_proof.Inspections.Inspection.{Inspection, InspectionStatus}
use site_proof.Sessions.Session.{Session}
use site_proof.Trust.Domain.{Verdict}
use site_proof.Results.Result.{
  VerificationResult, ReviewDecision, ReviewDecisionType, approved, rejected, recapture_required,
}
use site_proof.Results.Store.{Store, latest_result}

-- `str.isspace` of one character.
abbrev is_space : ℕ → Bool
is_space n =
    (leb 9 n && leb n 13)
    || (leb 28 n && leb n 32)
    || n == 133
    || n == 160
    || n == 5_760
    || (leb 8_192 n && leb n 8_202)
    || n == 8_232
    || n == 8_233
    || n == 8_239
    || n == 8_287
    || n == 12_288

strip_start : String → String
strip_start String.[] = ""
strip_start (String.◌∷◌ c s) =
    let rest = strip_start s in if is_space (code c) then rest else String.◌∷◌ c s

strip_end : String → String
strip_end String.[] = ""
strip_end (String.◌∷◌ c s) =
    let rest = strip_end s in if is_space (code c) && str_eq rest "" then "" else String.◌∷◌ c rest

-- `str.strip`
unfoldable pub strip : String → String
unfolding strip_start strip_end
strip s = strip_end (strip_start s)

pub record ReviewRequest : Type 0 where
  pub session_id : ℕ
  pub decision : ReviewDecisionType
  pub reason : String

pub record Reviewer : Type 0 where
  pub id : ℕ
  pub organization_id : ℕ

-- {REJECTED, RECAPTURE_REQUIRED}
unfoldable pub needs_reason : ReviewDecisionType → Bool
needs_reason approved = false
needs_reason _ = true

unfoldable pub status_after : ReviewDecisionType → InspectionStatus
status_after approved = InspectionStatus.approved
status_after rejected = InspectionStatus.rejected
status_after recapture_required = InspectionStatus.recapture_required

unfoldable pub set_status : ℕ → InspectionStatus → List Inspection → List Inspection
set_status id status = map (λ i. if i.id == id then record i { status = status } else i)

unfoldable pub lacks_reason : ReviewRequest → Bool
lacks_reason payload = needs_reason payload.decision && ltb (count (strip payload.reason)) 8

module _ {F : Type 0} where
  unfoldable pub new_review :
      Reviewer → Inspection → Session → VerificationResult F → ReviewRequest → ReviewDecision
  new_review user i session result payload = record {
    organization_id = user.organization_id;
    inspection_id = i.id;
    session_id = session.id;
    verification_result_id = result.id;
    reviewer_user_id = user.id;
    decision = payload.decision;
    reason = strip payload.reason;
  }

  abbrev pub if_verdict : VerificationResult F → Option Verdict → Reply (VerificationResult F)
  if_verdict r none = err 409 "VERIFICATION_NOT_READY"
  if_verdict r (some _) = ok r

  abbrev pub has_verdict : Option (VerificationResult F) → Reply (VerificationResult F)
  has_verdict none = err 409 "VERIFICATION_NOT_READY"
  has_verdict (some r) = if_verdict r r.verdict

  unfoldable pub find_inspection : Reviewer → ℕ → Store F → Option Inspection
  find_inspection user id store =
      find (λ i. i.id == id && i.organization_id == user.organization_id) store.inspections

  unfoldable pub find_reviewed : Reviewer → ℕ → Inspection → Store F → Option Session
  find_reviewed user id i store =
      find (λ s. s.id == id && s.inspection_id == i.id && s.organization_id == user.organization_id)
        store.sessions

  unfoldable pub result_to_review : Reviewer → Session → Store F → Reply (VerificationResult F)
  result_to_review user session store = has_verdict (
      latest_result
        (λ r. r.key.session_id == session.id && r.organization_id == user.organization_id)
        store.results)

  unfoldable pub record_review :
      Reviewer
      → ReviewRequest
      → Store F
      → Inspection
      → Session
      → VerificationResult F
      → Reply ReviewDecision × Store F
  record_review user payload store i session result =
      let review = new_review user i session result payload in
      if lacks_reason payload then (err 422 "REVIEW_REASON_REQUIRED", store) else (
        ok review,
        record store {
          inspections = set_status i.id (status_after payload.decision) store.inspections;
          reviews = store.reviews ++ review ∷ [];
        },
      )

  abbrev pub review_result :
      Reviewer
      → ReviewRequest
      → Store F
      → Inspection
      → Session
      → Reply (VerificationResult F)
      → Reply ReviewDecision × Store F
  review_result user payload store i session (err status code) = (err status code, store)
  review_result user payload store i session (ok result) =
      record_review user payload store i session result

  abbrev pub review_session :
      Reviewer
      → ReviewRequest
      → Store F
      → Inspection
      → Option Session
      → Reply ReviewDecision × Store F
  review_session user payload store i none = (err 404 "SESSION_NOT_FOUND", store)
  review_session user payload store i (some session) =
      review_result user payload store i session (result_to_review user session store)

  abbrev pub review_inspection :
      Reviewer → ReviewRequest → Store F → Option Inspection → Reply ReviewDecision × Store F
  review_inspection user payload store none = (err 404 "INSPECTION_NOT_FOUND", store)
  review_inspection user payload store (some i) =
      review_session user payload store i (find_reviewed user payload.session_id i store)

  unfoldable pub create_review_decision :
      Reviewer → ℕ → ReviewRequest → Store F → Reply ReviewDecision × Store F
  unfolding record_review
  create_review_decision user id payload store =
      review_inspection user payload store (find_inspection user id store)
