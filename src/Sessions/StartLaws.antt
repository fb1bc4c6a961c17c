-- ===== src/Sessions/StartLaws.antt =====
-- When a capture may start.
use site_proof.Prelude.{
  ℕ, ◌+◌, ◌≤◌, ◌≡◌, refl, ap, ◌∙◌, sym, true, false, Option, none, some, arith, ltb,
}
use site_proof.Prelude.Float.{Float}
use site_proof.Prelude.Reply.{Reply, Check, ok, err}
use site_proof.Inspections.Inspection.{Inspection, is_cancelled, ready, session_started}
use site_proof.Sessions.Session.{Session, Snapshot}
use site_proof.Sessions.Site.{Site, mark_expired, needs_expiry, update, write_session}
use site_proof.Sessions.Capture.{
  Settings, CaptureStart, seconds, check_location, start_row, start_inspected, after_location,
  is_created, mark_capturing, snapshot_of, or_else,
}
use site_proof.Sessions.CaptureLaws.{passed}

-- The site's data that a session is measured against.
unfoldable pub measured : Session → Inspection → Snapshot
measured s i = or_else (snapshot_of i) s.site_snapshot

module _ {F : Type 0} ⦃f : Float F⦄ where
  after_location_lem :
      (now : ℕ) (payload : CaptureStart F) (site : Site) (s r : Session) (i : Inspection)
      (k : Check)
      → (after_location now payload site s i k).0 ≡ ok r
      → (k ≡ ok tt)
        × (after_location now payload site s i k
            ≡ write_session s
                (mark_capturing now payload)
                (some (record i { status = session_started }))
                site)
  after_location_lem now payload site s r i (err status code) h = ground arith
  after_location_lem now payload site s r i (ok _) h = (refl, refl)

  start_inspected_lem :
      (settings : Settings) (now : ℕ) (payload : CaptureStart F) (site : Site) (s r : Session)
      (o : Option Inspection)
      → (start_inspected settings now payload site s o).0 ≡ ok r
      → (i : Inspection) × (o ≡ some i)
        × (is_cancelled i.status ≡ false)
        × (now ≤ (measured s i).deadline + seconds settings.session_start_grace_seconds)
        × (check_location
              (payload.distance (measured s i))
              payload.accuracy_meters
              (measured s i).allowed_radius_meters
            ≡ ok tt)
        × (start_inspected settings now payload site s o
            ≡ write_session s
                (mark_capturing now payload)
                (some (record i { status = session_started }))
                site)
  unfolding measured
  start_inspected_lem settings now payload site s r none h = ground arith
  start_inspected_lem settings now payload site s r (some i) h =
      let expired_reply : Reply Session × Site = (
        err 409 "SESSION_EXPIRED",
        record {
          sessions = update s.id mark_expired site.sessions;
          inspection = some (record i { status = ready });
        },
      ) in
      let live =
        passed (is_cancelled i.status) (err 409 "INSPECTION_UNAVAILABLE", site) _ r
          (λ q. ground arith) h in
      let early =
        passed
          (ltb
            ((or_else (snapshot_of i) s.site_snapshot).deadline
              + seconds settings.session_start_grace_seconds)
            now)
          expired_reply _ r (λ q. ground arith) live.1 in
      let there = after_location_lem now payload site s r i _ early.1 in
      (i, refl, live.0, ground arith, there.0, rw (live.0, early.0) there.1)

  before_start :
      (settings : Settings) (now : ℕ) (payload : CaptureStart F) (site : Site) (s r : Session)
      → (start_row settings now payload site s).0 ≡ ok r
      → (needs_expiry now s ≡ false)
        × (is_created s.status ≡ true)
        × (start_row settings now payload site s
            ≡ start_inspected settings now payload site s site.inspection)
  unfolding start_row
  before_start settings now payload site s r h = ground arith

  -- A capture starts only in a session that was just created and has not expired, of an inspection
  -- that is not cancelled, at most the grace period after the deadline and at an accepted position;
  -- the session is then capturing and the inspection's session started, and nothing else changes.
  pub start_accepts :
      (settings : Settings) (now : ℕ) (payload : CaptureStart F) (site : Site) (s r : Session)
      → (start_row settings now payload site s).0 ≡ ok r
      → (needs_expiry now s ≡ false)
        × (is_created s.status ≡ true)
        × ((i : Inspection) × (site.inspection ≡ some i)
            × (is_cancelled i.status ≡ false)
            × (now ≤ (measured s i).deadline + seconds settings.session_start_grace_seconds)
            × (check_location
                  (payload.distance (measured s i))
                  payload.accuracy_meters
                  (measured s i).allowed_radius_meters
                ≡ ok tt)
            × (start_row settings now payload site s
                ≡ write_session s
                    (mark_capturing now payload)
                    (some (record i { status = session_started }))
                    site))
  start_accepts settings now payload site s r h =
      let before = before_start settings now payload site s r h in
      let started =
        start_inspected_lem settings now payload site s r site.inspection
          (ap (λ (x : Reply Session × Site). x.0) (sym before.2) ∙ h) in
      (
        before.0,
        before.1,
        (started.0, started.1, started.2, started.3, started.4, before.2 ∙ started.5),
      )
