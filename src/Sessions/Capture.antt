-- ===== src/Sessions/Capture.antt =====
-- session_capture.py: the start, the end and the abort of a capture.
use site_proof.Prelude.{
  ℕ, ◌+◌, ◌*◌, min, max, String, Bool, true, false, not, ◌&&◌, Option, none, some, ltb, ◌==◌,
  str_eq, if◌then◌else◌,
}
use site_proof.Prelude.Float.{Float, ◌<<◌, whole, fmax}
use site_proof.Prelude.Reply.{Reply, Check, ok, err}
use site_proof.Inspections.Inspection.{
  Inspection, is_cancelled, ready, session_started, evidence_uploading,
}
use site_proof.Sessions.Session.{
  Session, SessionStatus, Snapshot, is_active, created, capturing, challenges_completed,
  challenge_failed, capture_completed, uploading, upload_failed, uploaded, aborted,
}
use site_proof.Sessions.Site.{
  Site, Caller, owned_session, move_inspection, mark_expired, needs_expiry, expire, with_session,
  write_session, update,
}

pub record Settings : Type 0 where
  pub session_start_grace_seconds : ℕ
  pub capture_min_seconds : ℕ
  pub capture_max_seconds : ℕ
  pub vision_max_duration_seconds : ℕ
  pub verification_session_ttl_minutes : ℕ

abbrev pub seconds : ℕ → ℕ
seconds n = n * 1_000_000

unfoldable pub is_created : SessionStatus → Bool
is_created created = true
is_created _ = false

unfoldable pub is_capturing : SessionStatus → Bool
is_capturing capturing = true
is_capturing _ = false

-- The `completed_states` and the `challenge_terminal_states` of `complete_capture`.
unfoldable pub is_capture_done : SessionStatus → Bool
is_capture_done capture_completed = true
is_capture_done uploading = true
is_capture_done upload_failed = true
is_capture_done uploaded = true
is_capture_done _ = false

unfoldable pub is_challenge_done : SessionStatus → Bool
is_challenge_done challenges_completed = true
is_challenge_done challenge_failed = true
is_challenge_done _ = false

abbrev pub or_else {ℓ} : {A : Type ℓ} → A → Option A → A
or_else x none = x
or_else x (some y) = y

unfoldable pub snapshot_of : Inspection → Snapshot
snapshot_of i = record {
  latitude = i.expected_latitude;
  longitude = i.expected_longitude;
  allowed_radius_meters = i.allowed_radius_meters;
  capture_duration_seconds = i.capture_duration_seconds;
  deadline = i.deadline;
}

-- The position that the phone reports. `distance` computes `haversine_meters` from the site.
pub record CaptureStart (F : Type 0) : Type 0 where
  pub distance : Snapshot → F
  pub accuracy_meters : F
  pub client_monotonic_ns : ℕ
  pub has_gyroscope : Bool
  pub has_rotation_vector : Bool

module _ {F : Type 0} ⦃f : Float F⦄ where
  -- The whole circle of uncertainty has to lie in the allowed radius.
  unfoldable pub check_location : F → F → ℕ → Check
  check_location distance accuracy allowed_radius =
      let radius = whole allowed_radius in
      let uncertainty = fmax accuracy (whole 0) in
      let nearest = fmax (f.sub distance uncertainty) (whole 0) in
      let farthest = f.add distance uncertainty in
      if radius << nearest
      then err 409 "OUTSIDE_ALLOWED_LOCATION"
      else if radius << farthest
      then err 409 "LOCATION_INCONCLUSIVE"
      else ok tt

  unfoldable pub mark_capturing : ℕ → CaptureStart F → Session → Session
  mark_capturing now payload s = record s {
    status = capturing;
    started_at = some (or_else now s.started_at);
    capture_started_at = some now;
    capture_anchor_monotonic_ns = some payload.client_monotonic_ns;
    has_gyroscope = payload.has_gyroscope;
    has_rotation_vector = payload.has_rotation_vector;
  }

  abbrev pub after_location :
      ℕ → CaptureStart F → Site → Session → Inspection → Check → Reply Session × Site
  after_location now payload site s i (err status code) = (err status code, site)
  after_location now payload site s i (ok _) =
      write_session s (mark_capturing now payload) (some (record i { status = session_started }))
        site

  abbrev pub start_inspected :
      Settings → ℕ → CaptureStart F → Site → Session → Option Inspection → Reply Session × Site
  start_inspected settings now payload site s none = (err 409 "INSPECTION_UNAVAILABLE", site)
  start_inspected settings now payload site s (some i) =
      let snapshot = or_else (snapshot_of i) s.site_snapshot in
      if is_cancelled i.status
      then (err 409 "INSPECTION_UNAVAILABLE", site)
      else if ltb (snapshot.deadline + seconds settings.session_start_grace_seconds) now
      then (
        err 409 "SESSION_EXPIRED",
        record {
          sessions = update s.id mark_expired site.sessions;
          inspection = some (record i { status = ready });
        },
      )
      else after_location now payload site s i (
          check_location (payload.distance snapshot) payload.accuracy_meters
            snapshot.allowed_radius_meters)

  unfoldable pub start_row : Settings → ℕ → CaptureStart F → Site → Session → Reply Session × Site
  start_row settings now payload site s =
      if needs_expiry now s
      then (err 409 "SESSION_EXPIRED", expire s site)
      else if not (is_created s.status)
      then (err 409 "INVALID_STATUS_TRANSITION", site)
      else start_inspected settings now payload site s site.inspection

  -- `start_capture`
  unfoldable pub start_capture :
      Settings → (ℕ → ℕ → Bool) → Caller → ℕ → CaptureStart F → ℕ → Site → Reply Session × Site
  start_capture settings is_assigned caller now payload id site =
      with_session site (start_row settings now payload site)
        (owned_session true is_assigned caller id site.sessions)

-- `CaptureCompleteRequest`. The summaries are the JSON documents of the two models.
pub record CaptureEnd : Type 0 where
  pub capture_duration_ms : ℕ
  pub video_file_count : ℕ
  pub accelerometer_samples : ℕ
  pub gyroscope_samples : ℕ
  pub rotation_vector_samples : ℕ
  pub location_samples : ℕ
  pub sensor_summary : String
  pub location_summary : String

abbrev pub is_number : ℕ → Option ℕ → Bool
is_number n none = false
is_number n (some m) = m == n

abbrev pub same_document : Option String → String → Bool
same_document stored sent = str_eq (or_else "{}" stored) sent

unfoldable pub same_payload : CaptureEnd → Session → Bool
same_payload payload s =
    is_number payload.capture_duration_ms s.capture_duration_ms
    && same_document s.sensor_summary payload.sensor_summary
    && same_document s.location_summary payload.location_summary

unfoldable pub required_seconds : Session → Inspection → ℕ
required_seconds s i = (or_else (snapshot_of i) s.site_snapshot).capture_duration_seconds

-- The shortest and the longest capture, in seconds.
unfoldable pub configured_min_seconds : Settings → ℕ → ℕ
configured_min_seconds settings required = max settings.capture_min_seconds required

unfoldable pub effective_max_seconds : Settings → ℕ → ℕ
effective_max_seconds settings required =
    min (max settings.capture_max_seconds (required + 15)) settings.vision_max_duration_seconds

-- The files and samples that a capture must have.
unfoldable pub check_samples : CaptureEnd → Session → Check
check_samples payload s =
    if not (payload.video_file_count == 1)
    then err 422 "VIDEO_REQUIRED"
    else if payload.accelerometer_samples == 0
    then err 422 "SENSOR_DATA_REQUIRED"
    else if s.has_gyroscope && payload.gyroscope_samples == 0
    then err 422 "SENSOR_DATA_REQUIRED"
    else if s.has_rotation_vector && payload.rotation_vector_samples == 0
    then err 422 "SENSOR_DATA_REQUIRED"
    else if payload.location_samples == 0
    then err 422 "LOCATION_DATA_REQUIRED"
    else ok tt

unfoldable pub mark_capture_completed : CaptureEnd → ℕ → Session → Session
mark_capture_completed payload inferred_end s = record s {
  status = capture_completed;
  capture_ended_at = some inferred_end;
  capture_duration_ms = some payload.capture_duration_ms;
  sensor_summary = some payload.sensor_summary;
  location_summary = some payload.location_summary;
}

abbrev pub finish_checked : CaptureEnd → Site → Session → ℕ → Check → Reply Session × Site
finish_checked payload site s inferred_end (err status code) = (err status code, site)
finish_checked payload site s inferred_end (ok _) =
    write_session s (mark_capture_completed payload inferred_end)
      (move_inspection evidence_uploading site.inspection) site

-- The end of the recording is inferred from its start and its duration.
abbrev pub finish_timed : CaptureEnd → Site → Session → Option ℕ → Reply Session × Site
finish_timed payload site s none = (err 409 "CAPTURE_START_MISSING", site)
finish_timed payload site s (some start) =
    let inferred_end = start + payload.capture_duration_ms * 1_000 in
    if ltb s.expires_at inferred_end
    then (err 409 "SESSION_EXPIRED", expire s site)
    else finish_checked payload site s inferred_end (check_samples payload s)

abbrev pub finish_inspected :
    Settings → CaptureEnd → Site → Session → Option Inspection → Reply Session × Site
finish_inspected settings payload site s none = (err 409 "INSPECTION_UNAVAILABLE", site)
finish_inspected settings payload site s (some i) =
    let required = required_seconds s i in
    if ltb payload.capture_duration_ms (configured_min_seconds settings required * 1_000)
    then (err 422 "CAPTURE_TOO_SHORT", site)
    else if ltb (effective_max_seconds settings required * 1_000) payload.capture_duration_ms
    then (err 422 "CAPTURE_TOO_LONG", site)
    else finish_timed payload site s s.capture_started_at

unfoldable pub complete_row : Settings → ℕ → CaptureEnd → Site → Session → Reply Session × Site
complete_row settings now payload site s =
    if is_capture_done s.status
    then (if same_payload payload s
        then (ok s, site)
        else (err 409 "CAPTURE_SUMMARY_CONFLICT", site))
    else if not (is_challenge_done s.status)
    then (if is_capturing s.status
        then (err 409 "CHALLENGES_REQUIRED", site)
        else if needs_expiry now s
        then (err 409 "SESSION_EXPIRED", expire s site)
        else (err 409 "INVALID_STATUS_TRANSITION", site))
    else finish_inspected settings payload site s site.inspection

-- `complete_capture`
unfoldable pub complete_capture :
    Settings → (ℕ → ℕ → Bool) → Caller → ℕ → CaptureEnd → ℕ → Site → Reply Session × Site
complete_capture settings is_assigned caller now payload id site =
    with_session site (complete_row settings now payload site)
      (owned_session true is_assigned caller id site.sessions)

unfoldable pub mark_aborted : String → Session → Session
mark_aborted reason s = record s { status = aborted; abort_reason = some reason }

unfoldable pub abort_row : String → Site → Session → Reply Session × Site
abort_row reason site s =
    if not (is_active s.status)
    then (err 409 "INVALID_STATUS_TRANSITION", site)
    else write_session s (mark_aborted reason) (move_inspection ready site.inspection) site

-- `abort_session`
unfoldable pub abort_session : Caller → String → ℕ → Site → Reply Session × Site
abort_session caller reason id site =
    with_session site (abort_row reason site)
      (owned_session false (λ inspection inspector. false) caller id site.sessions)
