-- ===== src/Uploads/Evidence.antt =====
-- The row of EvidenceFile (backend/app/models/verification.py), and the types that
-- backend/app/services/evidence_common.py requires.
use site_proof.Prelude.{
  ℕ, String, Bool, true, false, not, ◌&&◌, Option, none, some, List, [], ◌∷◌, ◌==◌,
}

pub data EvidenceFileType : Type 0 where
  video sensor_data location_data session_metadata manifest thumbnail : EvidenceFileType

pub data EvidenceUploadStatus : Type 0 where
  pending uploading uploaded failed : EvidenceUploadStatus

pub record EvidenceFile : Type 0 where
  pub id : ℕ
  pub organization_id : ℕ
  pub session_id : ℕ
  pub file_type : EvidenceFileType
  pub mime_type : String
  pub size_bytes : ℕ
  pub sha256 : String
  pub storage_key : String
  pub upload_status : EvidenceUploadStatus
  pub hash_verified : Bool
  pub uploaded_at : Option ℕ

abbrev type_index : EvidenceFileType → ℕ
type_index video = 0
type_index sensor_data = 1
type_index location_data = 2
type_index session_metadata = 3
type_index manifest = 4
type_index thumbnail = 5

abbrev pub same_file_type : EvidenceFileType → EvidenceFileType → Bool
same_file_type a b = type_index a == type_index b

-- REQUIRED_EVIDENCE
abbrev pub required_evidence : List EvidenceFileType
required_evidence = video ∷ sensor_data ∷ location_data ∷ session_metadata ∷ manifest ∷ []

unfoldable pub is_uploaded : EvidenceUploadStatus → Bool
is_uploaded uploaded = true
is_uploaded _ = false

abbrev pub is_missing : Option EvidenceFile → Bool
is_missing none = true
is_missing (some _) = false

abbrev pub is_verified : EvidenceFile → Bool
is_verified f = is_uploaded f.upload_status && f.hash_verified

-- Not uploaded, or not with the hash that was declared.
abbrev pub is_unverified : Option EvidenceFile → Bool
is_unverified none = false
is_unverified (some f) = not (is_verified f)
