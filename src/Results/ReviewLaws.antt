-- ===== src/Results/ReviewLaws.antt =====
-- How `create_review_decision` ends.
use site_proof.Prelude.{
  ℕ, ◌≡◌, refl, Bool, true, false, ◌&&◌, Option, none, some, List, [], ◌∷◌, ◌++◌, All, arith, ap,
  sym, ◌∙◌, Bool-cases, Option-cases, ◌==◌, ◌⊎◌, inl, inr,
}
use site_proof.Prelude.Reply.{Reply, ok, err}
use site_proof.Inspections.Inspection.{Inspection}
use site_proof.Sessions.Session.{Session}
use site_proof.Trust.Domain.{Verdict}
use site_proof.Results.Result.{VerificationResult, ReviewDecision, is_completed}
use site_proof.Results.Store.{Store, latest_result}
use site_proof.Results.Ledger.{IsValid, IsConsistent}
use site_proof.Results.Review.{
  Reviewer, ReviewRequest, create_review_decision, record_review, review_result, review_session,
  review_inspection, find_inspection, find_reviewed, result_to_review, has_verdict, if_verdict,
  lacks_reason, new_review, set_status, status_after,
}

module _ {F : Type 0} where
  All-latest_result :
      (P : VerificationResult F → Type 0) (p : VerificationResult F → Bool)
      (rows : List (VerificationResult F)) {r : VerificationResult F}
      → All P rows
      → latest_result p rows ≡ some r
      → P r
  unfolding latest_result
  All-latest_result P p [] all e = cc
  All-latest_result P p (x ∷ rows) {r} all e = elim (Option-cases (latest_result p rows)) [
    | inl h ↦ ground (arith, all.0)
    | inr (b, h) ↦ ground (arith, all.0, All-latest_result P p rows {r = b} all.1 h)
  ]

  -- A row with a verdict is completed.
  verdict-completed :
      (r : VerificationResult F) {v : Verdict}
      → IsConsistent r
      → r.verdict ≡ some v
      → is_completed r.processing_status ≡ true
  verdict-completed r c e = elim (Bool-cases (is_completed r.processing_status)) [
    | inl t ↦ t
    | inr t ↦ cc (c.undecided t, e)
  ]

  abbrev is_of : Reviewer → Session → VerificationResult F → Bool
  is_of user session r = r.key.session_id == session.id && r.organization_id == user.organization_id

  -- The row that the review looks at.
  abbrev pub latest_of : Reviewer → Session → Store F → Option (VerificationResult F)
  latest_of user session store = latest_result (is_of user session) store.results

  -- Why a review is refused, with the store as it was.
  pub data Refused (user : Reviewer) (id : ℕ) (payload : ReviewRequest) (store : Store F)
      : Reply ReviewDecision × Store F → Type 0 where
    no_inspection :
        find_inspection user id store ≡ none
        → Refused user id payload store (err 404 "INSPECTION_NOT_FOUND", store)
    no_session :
        (i : Inspection)
        → find_inspection user id store ≡ some i
        → find_reviewed user payload.session_id i store ≡ none
        → Refused user id payload store (err 404 "SESSION_NOT_FOUND", store)
    not_ready :
        (i : Inspection) (session : Session)
        → find_inspection user id store ≡ some i
        → find_reviewed user payload.session_id i store ≡ some session
        → ((r : VerificationResult F) → latest_of user session store ≡ some r → r.verdict ≡ none)
        → Refused user id payload store (err 409 "VERIFICATION_NOT_READY", store)
    no_reason :
        (i : Inspection) (session : Session) (r : VerificationResult F) (verdict : Verdict)
        → find_inspection user id store ≡ some i
        → find_reviewed user payload.session_id i store ≡ some session
        → latest_of user session store ≡ some r
        → r.verdict ≡ some verdict
        → lacks_reason payload ≡ true
        → Refused user id payload store (err 422 "REVIEW_REASON_REQUIRED", store)

  pub Refused-store :
      (user : Reviewer) (id : ℕ) (payload : ReviewRequest) (store : Store F)
      (x : Reply ReviewDecision × Store F)
      → Refused user id payload store x
      → x.1 ≡ store
  Refused-store user id payload store _ (no_inspection a) = refl
  Refused-store user id payload store _ (no_session i a b) = refl
  Refused-store user id payload store _ (not_ready i session a b c) = refl
  Refused-store user id payload store _ (no_reason i session r verdict a b c d e) = refl

  abbrev pub Accepted :
      Reviewer → ℕ → ReviewRequest → Store F → Reply ReviewDecision × Store F → Type 0
  Accepted user id payload store x =
      (i : Inspection) × (session : Session) × (r : VerificationResult F) × (verdict : Verdict)
      × (find_inspection user id store ≡ some i)
      × (find_reviewed user payload.session_id i store ≡ some session)
      × (latest_of user session store ≡ some r)
      × (r.verdict ≡ some verdict)
      × (is_completed r.processing_status ≡ true)
      × (lacks_reason payload ≡ false)
      × (x ≡ (
        ok (new_review user i session r payload),
        record store {
          inspections = set_status i.id (status_after payload.decision) store.inspections;
          reviews = store.reviews ++ new_review user i session r payload ∷ [];
        },
      ))

  abbrev Decides : Reviewer → ℕ → ReviewRequest → Store F → Reply ReviewDecision × Store F → Type 0
  Decides user id payload store x =
      Refused user id payload store x ⊎ Accepted user id payload store x

  -- On a valid store a review is either refused, with the store as it was, because the caller's
  -- organization has no such inspection, or the inspection no such session, or the latest result of
  -- the session is missing or has no verdict, or a rejection or a recapture has a reason of less
  -- than eight characters; or none of these is so, and it is accepted: then the latest result is
  -- completed, every inspection row with the id has the decision's status and the review of this
  -- result is added.
  pub create_review_decision_outcome :
      (user : Reviewer) (id : ℕ) (payload : ReviewRequest) (store : Store F)
      → IsValid store.results
      → Refused user id payload store (create_review_decision user id payload store)
        ⊎ Accepted user id payload store (create_review_decision user id payload store)
  unfolding create_review_decision record_review result_to_review
  create_review_decision_outcome user id payload store v =
      by_inspection (find_inspection user id store) refl
    where
      by_verdict :
          (i : Inspection) (session : Session) (r : VerificationResult F) (o : Option Verdict)
          → find_inspection user id store ≡ some i
          → find_reviewed user payload.session_id i store ≡ some session
          → latest_of user session store ≡ some r
          → r.verdict ≡ o
          → Decides user id payload store
              (review_result user payload store i session (if_verdict r o))
      by_verdict i session r none a b c e = inl (
          not_ready i session a b λ r' c'.
            let same : r ≡ r' = cc (c, c') in
            ap (λ (x : VerificationResult F). x.verdict) (sym same) ∙ e)
      by_verdict i session r (some verdict) a b c e = elim (Bool-cases (lacks_reason payload)) [
        | inl t ↦ rw t (inl (no_reason i session r verdict a b c e t))
        | inr t ↦ inr (
          i,
          session,
          r,
          verdict,
          a,
          b,
          c,
          e,
          verdict-completed r
              (All-latest_result IsConsistent (is_of user session) store.results {r = r}
                v.consistent c)
              e,
          t,
          rw t refl,
        )
      ]

      by_result :
          (i : Inspection) (session : Session) (o : Option (VerificationResult F))
          → find_inspection user id store ≡ some i
          → find_reviewed user payload.session_id i store ≡ some session
          → latest_of user session store ≡ o
          → Decides user id payload store
              (review_result user payload store i session (has_verdict o))
      by_result i session none a b e = inl (not_ready i session a b λ r c. cc (e, c))
      by_result i session (some r) a b e = by_verdict i session r r.verdict a b e refl

      by_session :
          (i : Inspection) (o : Option Session)
          → find_inspection user id store ≡ some i
          → find_reviewed user payload.session_id i store ≡ o
          → Decides user id payload store (review_session user payload store i o)
      by_session i none a e = inl (no_session i a e)
      by_session i (some session) a e = by_result i session _ a e refl

      by_inspection :
          (o : Option Inspection)
          → find_inspection user id store ≡ o
          → Decides user id payload store (review_inspection user payload store o)
      by_inspection none e = inl (no_inspection e)
      by_inspection (some i) e = by_session i (find_reviewed user payload.session_id i store) e refl
