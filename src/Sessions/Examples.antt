-- ===== src/Sessions/Examples.antt =====
-- A session that is created, captured and completed.
use site_proof.Sessions.StartLaws.{measured, start_accepts}
use site_proof.Prelude.{ℕ, ◌+◌, ◌*◌, ◌≤◌, ◌≡◌, refl, true, false, none, some, [], ◌∷◌, arith}
use site_proof.Prelude.Float.{Micro, micro_float}
use site_proof.Prelude.Reply.{ok}
use site_proof.Inspections.Inspection.{Inspection, ready, session_started, is_cancelled}
use site_proof.Sessions.Session.{Session, challenges_completed, created, is_live}
use site_proof.Sessions.Site.{Site, Caller, needs_expiry, write_session}
use site_proof.Sessions.Capture.{
  Settings, CaptureEnd, check_location, check_samples, complete_row, mark_capture_completed,
  configured_min_seconds, effective_max_seconds, required_seconds, is_capture_done,
  is_challenge_done, snapshot_of, CaptureStart, start_row, is_created, mark_capturing, seconds,
}
use site_proof.Sessions.Creation.{create_verification_session}
use site_proof.Sessions.OneActive.{count_active, IsExclusive}
use site_proof.Sessions.Exclusive.{create_verification_session-IsExclusive}
use site_proof.Sessions.CaptureLaws.{complete_accepts}

abbrev settings : Settings
settings = record {
  session_start_grace_seconds = 120;
  capture_min_seconds = 8;
  capture_max_seconds = 60;
  vision_max_duration_seconds = 90;
  verification_session_ttl_minutes = 15;
}

abbrev pub inspection : Inspection
inspection = record {
  id = 7;
  organization_id = 5;
  status = ready;
  expected_latitude = "26.9";
  expected_longitude = "75.8";
  allowed_radius_meters = 100;
  capture_duration_seconds = 20;
  deadline = 5_000_000_000;
  cancelled_at = none;
}

abbrev pub session : Session
session = record {
  id = 1;
  organization_id = 5;
  inspection_id = 7;
  inspector_id = 9;
  status = challenges_completed;
  device_session_id = "device";
  started_at = some 10;
  capture_started_at = some 10;
  capture_ended_at = none;
  uploaded_at = none;
  expires_at = 900_000_000;
  capture_anchor_monotonic_ns = some 100;
  capture_duration_ms = none;
  manifest_sha256 = none;
  abort_reason = none;
  site_snapshot = none;
  has_gyroscope = true;
  has_rotation_vector = true;
  sensor_summary = none;
  location_summary = none;
}

abbrev pub caller : Caller
caller = record { is_inspector = true; organization_id = 5; profile = some 9 }

abbrev empty : Site
empty = record { sessions = []; inspection = some inspection }

abbrev site : Site
site = record { sessions = session ∷ []; inspection = some inspection }

abbrev payload : CaptureEnd
payload = record {
  capture_duration_ms = 25_000;
  video_file_count = 1;
  accelerometer_samples = 100;
  gyroscope_samples = 100;
  rotation_vector_samples = 100;
  location_samples = 3;
  sensor_summary = "{\"accelerometer_samples\": 100}";
  location_summary = "{\"location_samples\": 3}";
}

empty-IsExclusive : IsExclusive empty
unfolding count_active
empty-IsExclusive i = omega arith

completed :
    (complete_row settings 40 payload site session).0
    ≡ ok (mark_capture_completed payload 25_000_010 session)
unfolding complete_row is_capture_done is_challenge_done check_samples required_seconds
    configured_min_seconds effective_max_seconds snapshot_of mark_capture_completed
completed = refl

open_capture : is_capture_done session.status ≡ false
unfolding is_capture_done
open_capture = refl

create_verification_session-IsExclusive_example :
    IsExclusive (create_verification_session settings (λ i j. true) caller 20 2 "phone" empty).1
create_verification_session-IsExclusive_example =
    create_verification_session-IsExclusive settings (λ i j. true) caller 20 2 "phone" empty
      empty-IsExclusive

complete_accepts_example :
    (is_challenge_done session.status ≡ true)
    × (check_samples payload session ≡ ok tt)
    × ((i : Inspection) × (start : ℕ) × (site.inspection ≡ some i)
        × (session.capture_started_at ≡ some start)
        × (configured_min_seconds settings (required_seconds session i) * 1_000
            ≤ payload.capture_duration_ms)
        × (payload.capture_duration_ms
            ≤ effective_max_seconds settings (required_seconds session i) * 1_000)
        × (start + payload.capture_duration_ms * 1_000 ≤ session.expires_at)
        × (mark_capture_completed payload 25_000_010 session
            ≡ mark_capture_completed payload (start + payload.capture_duration_ms * 1_000) session))
complete_accepts_example =
    complete_accepts settings 40 payload site session
      (mark_capture_completed payload 25_000_010 session) open_capture completed

abbrev fresh_session : Session
fresh_session = record session { status = created; started_at = none; capture_started_at = none }

abbrev waiting : Site
waiting = record { sessions = fresh_session ∷ []; inspection = some inspection }

abbrev arrival : CaptureStart Micro
arrival = record {
  distance = λ snapshot. 30_000_000;
  accuracy_meters = 20_000_000;
  client_monotonic_ns = 100;
  has_gyroscope = true;
  has_rotation_vector = true;
}

begun :
    (start_row ⦃f = micro_float⦄ settings 40 arrival waiting fresh_session).0
    ≡ ok (mark_capturing ⦃f = micro_float⦄ 40 arrival fresh_session)
unfolding start_row is_live is_created is_cancelled check_location needs_expiry snapshot_of
begun = refl

start_accepts_example :
    (needs_expiry 40 fresh_session ≡ false)
    × (is_created fresh_session.status ≡ true)
    × ((i : Inspection) × (waiting.inspection ≡ some i)
        × (is_cancelled i.status ≡ false)
        × (40 ≤ (measured fresh_session i).deadline + seconds 120)
        × (check_location ⦃f = micro_float⦄
              (arrival.distance (measured fresh_session i))
              arrival.accuracy_meters
              (measured fresh_session i).allowed_radius_meters
            ≡ ok tt)
        × (start_row ⦃f = micro_float⦄ settings 40 arrival waiting fresh_session
            ≡ write_session fresh_session
                (mark_capturing ⦃f = micro_float⦄ 40 arrival)
                (some (record i { status = session_started }))
                waiting))
start_accepts_example =
    start_accepts ⦃f = micro_float⦄ settings 40 arrival waiting fresh_session
      (mark_capturing ⦃f = micro_float⦄ 40 arrival fresh_session) begun
