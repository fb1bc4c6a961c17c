-- ===== src/Uploads/Accept.antt =====
-- `accept_evidence_upload` and `mark_upload_failed`. The storage service is an interface, as it is in
-- backend/app/services/storage_service.py; the digest and the configured limits are arguments.
use site_proof.Prelude.{
  ℕ, ◌≡◌, ◌≢◌, String, Bool, true, false, not, ◌&&◌, ◌||◌, Option, none, some, List, [], ◌∷◌, ◌++◌,
  map, length, ltb, ◌==◌, if◌then◌else◌, str_eq,
}
use site_proof.Prelude.Dict.{find}
use site_proof.Prelude.Reply.{Reply, Check, ok, err}
use site_proof.Sessions.Session.{Session, SessionStatus, uploading, upload_failed}
use site_proof.Sessions.Site.{Caller, owned_session, update}
use site_proof.Uploads.Evidence.{
  EvidenceFileType, EvidenceFile, EvidenceUploadStatus, uploaded, failed, is_verified,
}
use site_proof.Uploads.Complete.{Desk, is_uploading}

-- StorageService over the objects `O`: what put_file answers (`none` if it raises) and leaves.
pub record Storage (O : Type 0) : Type 0 where
  pub put_file : String → List ℕ → O → Option ℕ × O
  pub read_bytes : String → O → Option (List ℕ)

-- What a storage service promises: a put that answers has stored the file, and no put touches
-- another key. Keys are in the normal form in which storage_key makes them; of others,
-- LocalObjectStorage takes some for one, such as a//b and a/b.
pub record IsStorage {O : Type 0} (storage : Storage O) : Type 0 where
  pub put_read :
      (key : String) (content : List ℕ) (objects : O) (size : ℕ)
      → (storage.put_file key content objects).0 ≡ some size
      → storage.read_bytes key (storage.put_file key content objects).1 ≡ some content
  pub put_other :
      (key other : String) (content : List ℕ) (objects : O)
      → other ≢ key
      → storage.read_bytes other (storage.put_file key content objects).1
        ≡ storage.read_bytes other objects

-- The Content-Length header.
pub data ContentLength : Type 0 where
  no_header not_a_number below_zero : ContentLength
  declared : ℕ → ContentLength

-- The media type of the header in lower case, empty without a header, and the chunks of the body;
-- `broken` says whether the stream raises after them.
pub record Request : Type 0 where
  pub content_type : String
  pub content_length : ContentLength
  pub chunks : List (List ℕ)
  pub broken : Bool

-- The settings: hashlib's digest in hexadecimal, `size_limit`, and the clock.
pub record Intake : Type 0 where
  pub sha256_hex : List ℕ → String
  pub size_limit : EvidenceFileType → ℕ
  pub now : ℕ

pub record Depot (O : Type 0) : Type 0 where
  pub desk : Desk
  pub objects : O

abbrev check_length : ℕ → ContentLength → Check
check_length size no_header = ok tt
check_length size not_a_number = err 400 "INVALID_CONTENT_LENGTH"
check_length size below_zero = err 422 "SIZE_MISMATCH"
check_length size (declared n) = if n == size then ok tt else err 422 "SIZE_MISMATCH"

-- The checks of the headers.
unfoldable pub check_headers : EvidenceFile → Request → Check
check_headers r q =
    if not (str_eq q.content_type "") && not (str_eq q.content_type r.mime_type)
    then err 415 "CONTENT_TYPE_MISMATCH"
    else check_length r.size_bytes q.content_length

-- The loop over the chunks: `none` when a chunk goes over a limit.
unfoldable pub receive : ℕ → ℕ → List ℕ → List (List ℕ) → Option (List ℕ)
receive size limit got [] = some got
receive size limit got ([] ∷ chunks) = receive size limit got chunks
receive size limit got ((b ∷ chunk) ∷ chunks) =
    let rest = receive size limit (got ++ b ∷ chunk) chunks in
    let total = length (got ++ b ∷ chunk) in
    if ltb size total || ltb limit total then none else rest

unfoldable pub write_file : EvidenceFile → List EvidenceFile → List EvidenceFile
write_file r = map λ f. if f.id == r.id then r else f

-- The row and its session's status are written.
unfoldable pub write : ℕ → SessionStatus → EvidenceFile → Desk → Desk
write session_id status r desk = record desk {
  site = record desk.site {
    sessions = update session_id (λ s. record s { status = status }) desk.site.sessions;
  };
  files = write_file r desk.files;
}

abbrev pub failed_row : EvidenceFile → EvidenceFile
failed_row r = record r { upload_status = failed; hash_verified = false }

abbrev pub uploaded_row : ℕ → EvidenceFile → EvidenceFile
uploaded_row now r = record r {
  upload_status = uploaded;
  hash_verified = true;
  uploaded_at = some now;
}

abbrev pub uploading_row : EvidenceFile → EvidenceFile
uploading_row r = record r { upload_status = EvidenceUploadStatus.uploading }

module _ {O : Type 0} (storage : Storage O) (intake : Intake) where
  abbrev pub mark_upload_failed : Session → EvidenceFile → Depot O → Depot O
  mark_upload_failed s r depot = record depot {
    desk = write s.id upload_failed (failed_row r) depot.desk;
  }

  -- What follows put_file.
  abbrev pub stored : Session → EvidenceFile → Desk → Option ℕ × O → Reply EvidenceFile × Depot O
  stored s r desk (none, objects) =
      (err 503 "STORAGE_ERROR", mark_upload_failed s r (record { desk = desk; objects = objects }))
  stored s r desk (some size, objects) =
      if not (size == r.size_bytes)
      then (
        err 500 "STORAGE_SIZE_MISMATCH",
        mark_upload_failed s r (record { desk = desk; objects = objects }),
      )
      else (
        ok (uploaded_row intake.now r),
        record { desk = write s.id uploading (uploaded_row intake.now r) desk; objects = objects },
      )

  -- The file is received.
  unfoldable pub check_content :
      Session → EvidenceFile → Depot O → List ℕ → Reply EvidenceFile × Depot O
  check_content s r depot content =
      if not (length content == r.size_bytes)
      then (err 422 "SIZE_MISMATCH", mark_upload_failed s r depot)
      else if not (str_eq (intake.sha256_hex content) r.sha256)
      then (err 422 "HASH_MISMATCH", mark_upload_failed s r depot)
      else stored s r depot.desk (storage.put_file r.storage_key content depot.objects)

  abbrev pub after_receive :
      Session → EvidenceFile → Depot O → Bool → Option (List ℕ) → Reply EvidenceFile × Depot O
  after_receive s r depot broken none = (err 413 "EVIDENCE_FILE_TOO_LARGE", depot)
  after_receive s r depot broken (some content) =
      if broken
      then (err 503 "STORAGE_ERROR", mark_upload_failed s r depot)
      else check_content s r depot content

  -- After the headers: the row is committed as UPLOADING, and the body is read.
  unfoldable pub upload_body :
      Session → EvidenceFile → Request → Depot O → Reply EvidenceFile × Depot O
  upload_body s r q depot =
      after_receive s (uploading_row r)
        (record depot {
          desk = record depot.desk { files = write_file (uploading_row r) depot.desk.files };
        })
        q.broken (receive r.size_bytes (intake.size_limit r.file_type) [] q.chunks)

  abbrev pub checked :
      EvidenceFile → Session → Request → Depot O → Check → Reply EvidenceFile × Depot O
  checked r s q depot (err status code) = (err status code, depot)
  checked r s q depot (ok _) = upload_body s r q depot

  abbrev pub with_record :
      Session → Request → Depot O → Option EvidenceFile → Reply EvidenceFile × Depot O
  with_record s q depot none = (err 404 "EVIDENCE_FILE_NOT_FOUND", depot)
  with_record s q depot (some r) =
      if is_verified r then (ok r, depot) else checked r s q depot (check_headers r q)

  abbrev pub with_session : ℕ → ℕ → Request → Depot O → Reply Session → Reply EvidenceFile × Depot O
  with_session organization file_id q depot (err status code) = (err status code, depot)
  with_session organization file_id q depot (ok s) =
      if not (is_uploading s.status)
      then (err 409 "INVALID_STATUS_TRANSITION", depot)
      else with_record s q depot (
          find (λ f. f.id == file_id && f.session_id == s.id && f.organization_id == organization)
            depot.desk.files)

  unfoldable pub accept_evidence_upload :
      (ℕ → ℕ → Bool) → Caller → ℕ → ℕ → Request → Depot O → Reply EvidenceFile × Depot O
  accept_evidence_upload is_assigned caller session_id file_id q depot =
      with_session caller.organization_id file_id q depot
        (owned_session true is_assigned caller session_id depot.desk.site.sessions)
