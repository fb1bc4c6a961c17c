-- ===== src/Uploads/Complete.antt =====
-- `complete_evidence_upload`. The check of the stored evidence against its manifest is an argument.
use site_proof.Prelude.{
  ℕ, String, Bool, true, false, not, ◌&&◌, Option, none, some, List, [], ◌==◌, if◌then◌else◌,
  str_eq,
}
use site_proof.Prelude.Dict.{any, find_last}
use site_proof.Prelude.Reply.{Reply, Check, ok, err}
use site_proof.Inspections.Inspection.{InspectionStatus}
use site_proof.Sessions.Session.{
  Session, SessionStatus, uploading, uploaded, processing, upload_failed,
}
use site_proof.Sessions.Site.{Site, Caller, owned_session, update, move_inspection}
use site_proof.Jobs.Job.{Job}
use site_proof.Jobs.Queue.{enqueue}
use site_proof.Uploads.Evidence.{
  EvidenceFileType, EvidenceFile, manifest, same_file_type, required_evidence, is_missing,
  is_unverified,
}

-- The tables of the transaction.
pub record Desk : Type 0 where
  pub site : Site
  pub files : List EvidenceFile
  pub jobs : List Job

-- What one call reads besides: the clocks, the id that a new job draws, and the reply of
-- validate_uploaded_evidence.
pub record Arrival : Type 0 where
  pub now : ℕ
  pub job_id : ℕ
  pub created_at : ℕ
  pub validate : Session → List EvidenceFile → Check

abbrev pub pipeline_version : String
pipeline_version = "verification-v2.0"

-- {UPLOADED, PROCESSING}
unfoldable pub is_complete : SessionStatus → Bool
is_complete uploaded = true
is_complete processing = true
is_complete _ = false

-- {UPLOADING, UPLOAD_FAILED}
unfoldable pub is_uploading : SessionStatus → Bool
is_uploading uploading = true
is_uploading upload_failed = true
is_uploading _ = false

abbrev pub is_text : String → Option String → Bool
is_text text none = false
is_text text (some t) = str_eq t text

-- `records.get(file_type)`, of the session's files
unfoldable pub record_of : Session → EvidenceFileType → List EvidenceFile → Option EvidenceFile
record_of s t = find_last λ f. f.session_id == s.id && same_file_type f.file_type t

abbrev has_hash : String → Option EvidenceFile → Bool
has_hash sha none = false
has_hash sha (some f) = str_eq f.sha256 sha

-- The checks of the records and of the manifest's hash.
unfoldable pub check_records : String → Session → List EvidenceFile → Check
check_records sha s files =
    if any (λ t. is_missing (record_of s t files)) required_evidence
    then err 422 "MISSING_REQUIRED_EVIDENCE"
    else if any (λ t. is_unverified (record_of s t files)) required_evidence
    then err 409 "EVIDENCE_NOT_UPLOADED"
    else if not (has_hash sha (record_of s manifest files))
    then err 422 "MANIFEST_HASH_MISMATCH"
    else ok tt

abbrev pub mark_uploaded : ℕ → String → Session → Session
mark_uploaded now sha s = record s {
  status = uploaded;
  uploaded_at = some now;
  manifest_sha256 = some sha;
}

unfoldable pub uploaded_site : ℕ → String → Session → Site → Site
uploaded_site now sha s site = record {
  sessions = update s.id (mark_uploaded now sha) site.sessions;
  inspection = move_inspection InspectionStatus.processing site.inspection;
}

-- The commit with the queue's row. `none` is the error that the queue raises again, which rolls the
-- transaction back.
abbrev pub commit_with : Desk → Site → Session → Option (Job × List Job) → Reply Session × Desk
commit_with desk site s none = (err 500 "INTERNAL_SERVER_ERROR", desk)
commit_with desk site s (some (job, jobs)) = (ok s, record desk { site = site; jobs = jobs })

-- The call of enqueue_processing_job and the commit.
unfoldable pub commit_enqueued : Arrival → Desk → Site → Session → Reply Session × Desk
commit_enqueued arrival desk site s =
    commit_with desk site s (
      enqueue desk.jobs [] true arrival.job_id s.id pipeline_version arrival.now arrival.created_at)

abbrev pub after_check : Desk → Reply Session × Desk → Check → Reply Session × Desk
after_check desk rest (err status code) = (err status code, desk)
after_check desk rest (ok _) = rest

unfoldable pub complete_session : Arrival → String → Desk → Session → Reply Session × Desk
unfolding commit_enqueued
complete_session arrival sha desk s =
    if is_complete s.status
    then (if is_text sha s.manifest_sha256
        then commit_enqueued arrival desk desk.site s
        else (err 409 "UPLOAD_ALREADY_COMPLETED", desk))
    else if not (is_uploading s.status)
    then (err 409 "INVALID_STATUS_TRANSITION", desk)
    else after_check desk
        (after_check desk
          (commit_enqueued arrival desk (uploaded_site arrival.now sha s desk.site)
            (mark_uploaded arrival.now sha s))
          (arrival.validate s desk.files))
        (check_records sha s desk.files)

abbrev pub with_owned :
    Desk → (Session → Reply Session × Desk) → Reply Session → Reply Session × Desk
with_owned desk handle (err status code) = (err status code, desk)
with_owned desk handle (ok s) = handle s

unfoldable pub complete_evidence_upload :
    (ℕ → ℕ → Bool) → Caller → Arrival → ℕ → String → Desk → Reply Session × Desk
unfolding complete_session
complete_evidence_upload is_assigned caller arrival session_id sha desk =
    with_owned desk (complete_session arrival sha desk)
      (owned_session true is_assigned caller session_id desk.site.sessions)
