-- ===== src/Uploads/Examples.antt =====
-- An upload that is accepted, and one that is completed.
use site_proof.Prelude.{
  ℕ, String, ◌≡◌, refl, true, false, Bool-cases, inl, inr, Option, none, some, List, [], ◌∷◌,
  length, str_eq, eq_iff, if◌then◌else◌,
}
use site_proof.Prelude.Dict.{any, find, find_last}
use site_proof.Prelude.Reply.{ok}
use site_proof.Sessions.Session.{Session, uploading}
use site_proof.Sessions.Site.{owned_session, get_inspector_for_user, find_session}
use site_proof.Sessions.Examples as Captured
use site_proof.Jobs.Table.{get, find_key}
use site_proof.Jobs.Queue.{enqueue, insert_or_reuse}
use site_proof.Jobs.Trace.{IsValid-empty}
use site_proof.Uploads.Evidence.{
  EvidenceFileType, EvidenceFile, uploaded, pending, video, sensor_data, location_data,
  session_metadata, manifest, is_uploaded,
}
use site_proof.Uploads.Complete.{
  Desk, Arrival, is_complete, is_uploading, record_of, check_records, mark_uploaded,
  commit_enqueued, complete_session, complete_evidence_upload,
}
use site_proof.Uploads.Accept.{
  Storage, IsStorage, Request, Intake, Depot, no_header, uploaded_row, receive, write_file,
  check_headers, check_content, upload_body, accept_evidence_upload,
}
use site_proof.Uploads.Stored.{IsStored, Accepts, accept_evidence_upload-Accepts}
use site_proof.Uploads.Queued.{IsQueued, Completes, complete_evidence_upload-Completes}

abbrev session : Session
session = record Captured.session { status = uploading }

abbrev file : ℕ → EvidenceFileType → EvidenceFile
file id type = record {
  id = id;
  organization_id = 5;
  session_id = 1;
  file_type = type;
  mime_type = "application/json";
  size_bytes = 10;
  sha256 = "abc";
  storage_key = "key";
  upload_status = uploaded;
  hash_verified = true;
  uploaded_at = some 50;
}

abbrev desk : Desk
desk = record {
  site = record { sessions = session ∷ []; inspection = none };
  files =
      file 1 video
      ∷ file 2 sensor_data
      ∷ file 3 location_data
      ∷ file 4 session_metadata
      ∷ file 5 manifest
      ∷ [];
  jobs = [];
}

abbrev arrival : Arrival
arrival = record { now = 60; job_id = 9; created_at = 60; validate = λ s files. ok tt }

accepted :
    (complete_evidence_upload (λ i j. true) Captured.caller arrival 1 "abc" desk).0
    ≡ ok (mark_uploaded 60 "abc" session)
unfolding complete_evidence_upload complete_session owned_session get_inspector_for_user
    find_session is_complete is_uploading check_records record_of any find_last is_uploaded
    commit_enqueued enqueue insert_or_reuse find_key get
accepted = refl

queued : IsQueued desk
unfolding is_complete
queued = (λ c. cc, tt)

unused : get arrival.job_id desk.jobs ≡ none
unfolding get
unused = refl

complete_evidence_upload-Completes_example :
    Completes desk (complete_evidence_upload (λ i j. true) Captured.caller arrival 1 "abc" desk)
complete_evidence_upload-Completes_example =
    complete_evidence_upload-Completes (λ i j. true) Captured.caller arrival 1 "abc" desk
      IsValid-empty unused queued

-- Objects as a function of their keys.
abbrev Objects : Type 0
Objects = String → Option (List ℕ)

abbrev storage : Storage Objects
storage = record {
  put_file = λ key content objects.
      (some (length content), λ k. if str_eq k key then some content else objects k);
  read_bytes = λ key objects. objects key;
}

storage-IsStorage : IsStorage storage
storage-IsStorage = record {
  put_read = λ key content objects size e. rw ((eq_iff key key).1 refl) refl;
  put_other = λ key other content objects n. elim (Bool-cases (str_eq other key)) [
    | inl e ↦ elim (n ((eq_iff other key).0 e)) [ ]
    | inr e ↦ rw e refl
  ];
}

abbrev intake : Intake
intake = record { sha256_hex = λ content. "abc"; size_limit = λ t. 100; now = 55 }

abbrev pending_file : EvidenceFile
pending_file = record (file 1 video) {
  size_bytes = 3;
  upload_status = pending;
  hash_verified = false;
  uploaded_at = none;
}

abbrev depot : Depot Objects
depot = record { desk = record desk { files = pending_file ∷ [] }; objects = λ k. none }

abbrev request : Request
request = record {
  content_type = "application/json";
  content_length = no_header;
  chunks = (7 ∷ 8 ∷ []) ∷ [] ∷ (9 ∷ []) ∷ [];
  broken = false;
}

received :
    (accept_evidence_upload storage intake (λ i j. true) Captured.caller 1 1 request depot).0
    ≡ ok (uploaded_row 55 pending_file)
unfolding accept_evidence_upload owned_session get_inspector_for_user find_session is_uploading find
    is_uploaded check_headers upload_body receive check_content write_file
received = refl

not_verified : IsStored storage intake depot.objects pending_file
unfolding is_uploaded
not_verified = λ v. cc v

accept_evidence_upload-Accepts_example :
    Accepts storage intake
      (accept_evidence_upload storage intake (λ i j. true) Captured.caller 1 1 request depot)
accept_evidence_upload-Accepts_example =
    accept_evidence_upload-Accepts storage intake (λ i j. true) Captured.caller 1 1 request depot
      storage-IsStorage ((λ e. refl, tt), tt) (not_verified, tt)
