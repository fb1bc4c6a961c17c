-- ===== src/Sessions/Creation.antt =====
-- `create_verification_session` of session_creation.py, as one transaction at one time `now`.
use site_proof.Prelude.{
  ℕ, ◌+◌, ◌*◌, String, Bool, false, not, ◌&&◌, ◌||◌, Option, none, some, [], ◌∷◌, ◌++◌, ltb, ◌==◌,
  str_eq, if◌then◌else◌,
}
use site_proof.Prelude.Reply.{Reply, ok, err}
use site_proof.Inspections.Inspection.{Inspection, is_cancelled, is_ready, session_started}
use site_proof.Sessions.Session.{Session, is_active, created, aborted}
use site_proof.Sessions.Site.{
  Site, Caller, get_inspector_for_user, find_session, update, needs_expiry, expire,
}
use site_proof.Sessions.Capture.{Settings, seconds, snapshot_of}

abbrev pub is_active_of : ℕ → Session → Bool
is_active_of inspection s = s.inspection_id == inspection && is_active s.status

unfoldable pub new_session : Settings → ℕ → ℕ → ℕ → ℕ → String → Inspection → Session
new_session settings now id organization inspector device i = record {
  id = id;
  organization_id = organization;
  inspection_id = i.id;
  inspector_id = inspector;
  status = created;
  device_session_id = device;
  started_at = none;
  capture_started_at = none;
  capture_ended_at = none;
  uploaded_at = none;
  expires_at = now + seconds (settings.verification_session_ttl_minutes * 60);
  capture_anchor_monotonic_ns = none;
  capture_duration_ms = none;
  manifest_sha256 = none;
  abort_reason = none;
  site_snapshot = some (snapshot_of i);
  has_gyroscope = false;
  has_rotation_vector = false;
  sensor_summary = none;
  location_summary = none;
}

abbrev pub abort_changed : Session → Session
abort_changed s = record s { status = aborted; abort_reason = some "ASSIGNMENT_CHANGED" }

-- The checks of the inspection and the insert, once no session of it is active. An error rolls
-- back to `before`.
abbrev insert_into :
    Settings → ℕ → ℕ → ℕ → ℕ → String → Site → Site → Option Inspection → Reply Session × Site
insert_into settings now id organization inspector device before site none =
    (err 404 "INSPECTION_NOT_FOUND", before)
insert_into settings now id organization inspector device before site (some i) =
    let s = new_session settings now id organization inspector device i in
    if not (is_ready i.status)
    then (err 409 "INSPECTION_NOT_READY", before)
    else if ltb i.deadline now
    then (err 409 "INSPECTION_DEADLINE_PASSED", before)
    else (
      ok s,
      record {
        sessions = site.sessions ++ s ∷ [];
        inspection = some (record i { status = session_started });
      },
    )

unfoldable pub insert_session :
    Settings → ℕ → ℕ → ℕ → ℕ → String → Site → Site → Reply Session × Site
insert_session settings now id organization inspector device before site =
    insert_into settings now id organization inspector device before site site.inspection

-- The active session of the inspection is expired, or aborted if it is another inspector's.
unfoldable pub replace_existing :
    Settings → ℕ → ℕ → ℕ → ℕ → String → Site → Option Session → Reply Session × Site
replace_existing settings now id organization inspector device site none =
    insert_session settings now id organization inspector device site site
replace_existing settings now id organization inspector device site (some s) =
    if needs_expiry now s
    then insert_session settings now id organization inspector device site (expire s site)
    else if not (s.inspector_id == inspector)
    then insert_session settings now id organization inspector device site
        (record site { sessions = update s.id abort_changed site.sessions })
    else (err 409 "ACTIVE_SESSION_EXISTS", site)

-- A session of the same device id is answered again if it is the caller's.
unfoldable pub reuse_device :
    Settings → ℕ → ℕ → ℕ → ℕ → String → Site → Inspection → Option Session → Reply Session × Site
reuse_device settings now id organization inspector device site i none =
    replace_existing settings now id organization inspector device site
      (find_session (is_active_of i.id) site.sessions)
reuse_device settings now id organization inspector device site i (some s) =
    if not (s.inspection_id == i.id) || not (s.inspector_id == inspector)
    then (err 409 "DEVICE_SESSION_CONFLICT", site)
    else if needs_expiry now s
    then (err 409 "SESSION_EXPIRED", expire s site)
    else (ok s, site)

abbrev pub create_inspected :
    Settings
    → (ℕ → ℕ → Bool)
    → ℕ
    → ℕ
    → ℕ
    → String
    → Site
    → ℕ
    → Option Inspection
    → Reply Session × Site
create_inspected settings is_assigned now id organization device site inspector none =
    (err 404 "INSPECTION_NOT_FOUND", site)
create_inspected settings is_assigned now id organization device site inspector (some i) =
    if not (i.organization_id == organization)
    then (err 404 "INSPECTION_NOT_FOUND", site)
    else if not (is_assigned i.id inspector)
    then (err 403 "NOT_ASSIGNED", site)
    else if is_cancelled i.status
    then (err 409 "INSPECTION_CANCELLED", site)
    else reuse_device settings now id organization inspector device site i (
        find_session (λ s. s.organization_id == organization && str_eq s.device_session_id device)
          site.sessions)

abbrev pub create_by : (ℕ → Reply Session × Site) → Site → Reply ℕ → Reply Session × Site
create_by handle site (err status code) = (err status code, site)
create_by handle site (ok inspector) = handle inspector

-- `create_verification_session`
unfoldable pub create_verification_session :
    Settings → (ℕ → ℕ → Bool) → Caller → ℕ → ℕ → String → Site → Reply Session × Site
create_verification_session settings is_assigned caller now id device site =
    create_by
      (λ inspector.
        create_inspected settings is_assigned now id caller.organization_id device site inspector
          site.inspection)
      site (get_inspector_for_user caller)
