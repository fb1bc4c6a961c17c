-- ===== src/Sessions/CaptureLaws.antt =====
-- When a capture may start and end, and what a repeated completion gets.
use site_proof.Prelude.{
  ℕ, ◌+◌, ◌*◌, ◌≤◌, ◌≡◌, ◌≢◌, ◌↔◌, refl, Bool, true, false, Option, none, some, arith, ltb, eq_iff,
  if◌then◌else◌,
}
use site_proof.Prelude.Float.{Float, ◌<=◌, whole, fmax}
use site_proof.Prelude.Reply.{Reply, Check, ok, err}
use site_proof.Inspections.Inspection.{Inspection}
use site_proof.Sessions.Session.{Session, capture_completed}
use site_proof.Sessions.Site.{Site, expire}
use site_proof.Sessions.Capture.{
  finish_checked, finish_timed, finish_inspected, Settings, CaptureEnd, check_location,
  check_samples, complete_row, is_challenge_done, is_capture_done, required_seconds,
  configured_min_seconds, effective_max_seconds, same_payload, mark_capture_completed,
}

capture_completed-is_capture_done : is_capture_done capture_completed ≡ true
unfolding is_capture_done
capture_completed-is_capture_done = refl

-- A completion as recorded is the same payload as the one that was sent.
recorded-same_payload :
    (payload : CaptureEnd) (end : ℕ) (s : Session)
    → same_payload payload (mark_capture_completed payload end s) ≡ true
unfolding same_payload mark_capture_completed
recorded-same_payload payload end s = ground (
  arith,
  eq_iff payload.sensor_summary payload.sensor_summary,
  eq_iff payload.location_summary payload.location_summary,
)

-- A recorded completion answers the same payload again without a write, at any later time.
complete_again :
    (settings : Settings) (now : ℕ) (payload : CaptureEnd) (end : ℕ) (s : Session) (site : Site)
    → let s' = mark_capture_completed payload end s in
      complete_row settings now payload site s' ≡ (ok s', site)
unfolding complete_row mark_capture_completed
complete_again settings now payload end s site =
    ground (arith, capture_completed-is_capture_done, recorded-same_payload payload end s)

-- A guard whose reply is an error was passed.
pub passed :
    (b : Bool) (x y : Reply Session × Site) (r : Session)
    → x.0 ≢ ok r
    → (if b then x else y).0 ≡ ok r
    → (b ≡ false) × (y.0 ≡ ok r)
passed true x y r n h = ground arith
passed false x y r n h = (refl, h)

finish_checked_lem :
    (payload : CaptureEnd) (site : Site) (s r : Session) (end : ℕ) (k : Check)
    → (finish_checked payload site s end k).0 ≡ ok r
    → (k ≡ ok tt) × (r ≡ mark_capture_completed payload end s)
finish_checked_lem payload site s r end (err status code) h = ground arith
finish_checked_lem payload site s r end (ok _) h = (refl, cc h)

finish_timed_lem :
    (payload : CaptureEnd) (site : Site) (s r : Session) (o : Option ℕ)
    → (finish_timed payload site s o).0 ≡ ok r
    → (check_samples payload s ≡ ok tt)
      × ((start : ℕ) × (o ≡ some start)
          × (start + payload.capture_duration_ms * 1_000 ≤ s.expires_at)
          × (r ≡ mark_capture_completed payload (start + payload.capture_duration_ms * 1_000) s))
finish_timed_lem payload site s r none h = ground arith
finish_timed_lem payload site s r (some start) h =
    let end = start + payload.capture_duration_ms * 1_000 in
    let check = finish_checked_lem payload site s r end (check_samples payload s) in
    let late : (ltb s.expires_at end ≡ false)
        × ((finish_checked payload site s end (check_samples payload s)).0 ≡ ok r) =
      passed (ltb s.expires_at end) (err 409 "SESSION_EXPIRED", expire s site) _ r
        (λ q. ground arith) h in
    let done = check late.1 in (done.0, (start, refl, ground arith, done.1))

finish_inspected_lem :
    (settings : Settings) (payload : CaptureEnd) (site : Site) (s r : Session)
    (o : Option Inspection)
    → (finish_inspected settings payload site s o).0 ≡ ok r
    → (i : Inspection) × (o ≡ some i)
      × (configured_min_seconds settings (required_seconds s i) * 1_000
          ≤ payload.capture_duration_ms)
      × (payload.capture_duration_ms
          ≤ effective_max_seconds settings (required_seconds s i) * 1_000)
      × ((finish_timed payload site s s.capture_started_at).0 ≡ ok r)
finish_inspected_lem settings payload site s r none h = ground arith
finish_inspected_lem settings payload site s r (some i) h =
    let required = required_seconds s i in
    let long =
      passed (ltb payload.capture_duration_ms (configured_min_seconds settings required * 1_000))
        (err 422 "CAPTURE_TOO_SHORT", site) _ r (λ q. ground arith) h in
    let short =
      passed (ltb (effective_max_seconds settings required * 1_000) payload.capture_duration_ms)
        (err 422 "CAPTURE_TOO_LONG", site) _ r (λ q. ground arith) long.1 in
    (i, refl, ground arith, ground arith, short.1)

before_finish :
    (settings : Settings) (now : ℕ) (payload : CaptureEnd) (site : Site) (s r : Session)
    → is_capture_done s.status ≡ false
    → (complete_row settings now payload site s).0 ≡ ok r
    → (is_challenge_done s.status ≡ true)
      × ((finish_inspected settings payload site s site.inspection).0 ≡ ok r)
unfolding complete_row
before_finish settings now payload site s r d h = ground arith

-- A completion of a capture that is not completed yet is accepted only after the challenges, with a
-- duration within the bounds, an inferred end before the session's expiry and all samples.
pub complete_accepts :
    (settings : Settings) (now : ℕ) (payload : CaptureEnd) (site : Site) (s r : Session)
    → is_capture_done s.status ≡ false
    → (complete_row settings now payload site s).0 ≡ ok r
    → (is_challenge_done s.status ≡ true)
      × (check_samples payload s ≡ ok tt)
      × ((i : Inspection) × (start : ℕ) × (site.inspection ≡ some i)
          × (s.capture_started_at ≡ some start)
          × (configured_min_seconds settings (required_seconds s i) * 1_000
              ≤ payload.capture_duration_ms)
          × (payload.capture_duration_ms
              ≤ effective_max_seconds settings (required_seconds s i) * 1_000)
          × (start + payload.capture_duration_ms * 1_000 ≤ s.expires_at)
          × (r ≡ mark_capture_completed payload (start + payload.capture_duration_ms * 1_000) s))
complete_accepts settings now payload site s r d h =
    let inspected = before_finish settings now payload site s r d h in
    let timed = finish_inspected_lem settings payload site s r site.inspection inspected.1 in
    let done = finish_timed_lem payload site s r s.capture_started_at timed.4 in
    (
      inspected.0,
      done.0,
      (timed.0, done.1.0, timed.1, done.1.1, timed.2, timed.3, done.1.2, done.1.3),
    )

module _ {F : Type 0} ⦃f : Float F⦄ where
  -- A position is accepted exactly if its distance less and plus the uncertainty is within the
  -- radius.
  pub check_location_iff :
      (distance accuracy : F) (radius : ℕ)
      → check_location distance accuracy radius ≡ ok tt ↔ (
          ((fmax (f.sub distance (fmax accuracy (whole 0))) (whole 0) <= whole radius) ≡ true)
          × ((f.add distance (fmax accuracy (whole 0)) <= whole radius) ≡ true))
  unfolding check_location
  check_location_iff distance accuracy radius = (ground arith, ground arith)
