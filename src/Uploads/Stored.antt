-- ===== src/Uploads/Stored.antt =====
-- `accept_evidence_upload`, and what the storage has of the evidence files.
use site_proof.Prelude.{
  ℕ, ◌≡◌, ◌≢◌, refl, String, Bool, true, not, Option, none, some, List, [], ◌∷◌, length, All, arith,
  subst, Bool-cases, inl, inr, if_both, str_eq, eq_iff, ◌==◌, ◌∙◌,
}
use site_proof.Prelude.Rows.{All-find}
use site_proof.Prelude.Reply.{Reply, Check, ok, err}
use site_proof.Sessions.Session.{Session, SessionStatus}
use site_proof.Sessions.Site.{Caller, owned_session}
use site_proof.Uploads.Evidence.{EvidenceFile, is_uploaded, is_verified}
use site_proof.Uploads.Complete.{Desk, is_uploading}
use site_proof.Uploads.Accept.{
  Storage, IsStorage, Request, Intake, Depot, write_file, write, failed_row, uploading_row,
  uploaded_row, mark_upload_failed, stored, check_headers, check_content, after_receive,
  upload_body, checked, with_record, with_session, accept_evidence_upload,
}

-- Each storage key belongs to one row.
abbrev pub HasOwnKeys : List EvidenceFile → Type 0
HasOwnKeys files = All (λ r. All (λ f. f.storage_key ≡ r.storage_key → f.id ≡ r.id) files) files

module _ {O : Type 0} (storage : Storage O) (intake : Intake) where
  -- The storage has, under the file's key, what was declared of it.
  abbrev pub IsHeld : O → EvidenceFile → Type 0
  IsHeld objects f =
      (content : List ℕ) × (storage.read_bytes f.storage_key objects ≡ some content)
      × (intake.sha256_hex content ≡ f.sha256)
      × (length content ≡ f.size_bytes)

  abbrev pub IsStored : O → EvidenceFile → Type 0
  IsStored objects f = is_verified f ≡ true → IsHeld objects f

  abbrev pub AreStored : Depot O → Type 0
  AreStored depot = All (IsStored depot.objects) depot.desk.files

  -- Every verified file is held, and so is the file of an accepted call, which is verified.
  abbrev pub Accepts : Reply EvidenceFile × Depot O → Type 0
  Accepts x =
      AreStored x.1
      × ((f : EvidenceFile) → x.0 ≡ ok f → (is_verified f ≡ true) × IsHeld x.1.objects f)

  -- A stored row that shares the key with no other row than the one at hand.
  abbrev IsRow : O → EvidenceFile → EvidenceFile → Type 0
  IsRow objects r f = IsStored objects f × (f.storage_key ≡ r.storage_key → f.id ≡ r.id)

  All-IsRow :
      (objects : O) (r : EvidenceFile) (files : List EvidenceFile)
      → All (IsStored objects) files
      → All (λ f. f.storage_key ≡ r.storage_key → f.id ≡ r.id) files
      → All (IsRow objects r) files
  All-IsRow objects r [] a b = tt
  All-IsRow objects r (x ∷ xs) a b = ((a.0, b.0), All-IsRow objects r xs a.1 b.1)

  All-IsStored :
      (objects : O) (r : EvidenceFile) (files : List EvidenceFile)
      → All (IsRow objects r) files
      → All (IsStored objects) files
  All-IsStored objects r [] a = tt
  All-IsStored objects r (x ∷ xs) a = (a.0.0, All-IsStored objects r xs a.1)

  -- The objects change at most under the row's key.
  abbrev IsAt : EvidenceFile → O → O → Type 0
  IsAt r objects objects' =
      (key : String)
      → key ≢ r.storage_key
      → storage.read_bytes key objects' ≡ storage.read_bytes key objects

  write_file-All :
      (objects objects' : O) (r : EvidenceFile) (files : List EvidenceFile)
      → IsStored objects' r
      → IsAt r objects objects'
      → All (IsRow objects r) files
      → All (IsRow objects' r) (write_file r files)
  unfolding write_file
  write_file-All objects objects' r [] held same rows = tt
  write_file-All objects objects' r (f ∷ files) held same ((kept, own), rows) = (
    elim (Bool-cases (f.id == r.id)) [
      | inl e ↦ rw e (held, λ _. refl)
      | inr e ↦ rw e (
        λ v.
            let (content, read, digest, size) = kept v in
            (
              content,
              same f.storage_key (λ k. let i : f.id ≡ r.id = own k in ground arith) ∙ read,
              digest,
              size,
            ),
        own,
      )
    ],
    write_file-All objects objects' r files held same rows,
  )

  write-AreStored :
      (session_id : ℕ) (status : SessionStatus) (desk : Desk) (objects objects' : O)
      (r : EvidenceFile)
      → IsStored objects' r
      → IsAt r objects objects'
      → All (IsRow objects r) desk.files
      → AreStored (record { desk = write session_id status r desk; objects = objects' })
  unfolding write
  write-AreStored session_id status desk objects objects' r held same rows =
      All-IsStored objects' r (write_file r desk.files)
        (write_file-All objects objects' r desk.files held same rows)

  failed-Accepts :
      (s : Session) (r : EvidenceFile) (desk : Desk) (objects objects' : O) (status : ℕ)
      (code : String)
      → IsAt r objects objects'
      → All (IsRow objects r) desk.files
      → Accepts (
        err status code,
        mark_upload_failed storage intake s r (record { desk = desk; objects = objects' }),
      )
  failed-Accepts s r desk objects objects' status code same rows = (
    write-AreStored s.id _ desk objects objects' (failed_row r) (λ v. unfold is_uploaded in cc v)
        same rows,
    λ f e. cc e,
  )

  -- What follows put_file, for a content of the declared digest and size.
  stored-Accepts :
      (s : Session) (r : EvidenceFile) (desk : Desk) (objects : O) (p : Option ℕ × O)
      (content : List ℕ)
      → IsAt r objects p.1
      → ((n : ℕ) → p.0 ≡ some n → storage.read_bytes r.storage_key p.1 ≡ some content)
      → (intake.sha256_hex content ≡ r.sha256)
      → (length content ≡ r.size_bytes)
      → All (IsRow objects r) desk.files
      → Accepts (stored storage intake s r desk p)
  stored-Accepts s r desk objects (none, objects') content same read digest size rows =
      failed-Accepts s r desk objects objects' 503 "STORAGE_ERROR" same rows
  stored-Accepts s r desk objects (some n, objects') content same read digest size rows =
      if_both Accepts (not (n == r.size_bytes)) _ _
        (failed-Accepts s r desk objects objects' 500 "STORAGE_SIZE_MISMATCH" same rows)
        (
          write-AreStored s.id _ desk objects objects' (uploaded_row intake.now r) (λ v. held) same
              rows,
          λ f e.
              let row_eq : uploaded_row intake.now r ≡ f = cc e in
              subst (λ (x : EvidenceFile). (is_verified x ≡ true) × IsHeld objects' x) row_eq
                (unfold is_uploaded in refl, held),
        )
    where
      held : IsHeld objects' (uploaded_row intake.now r)
      held = (content, read n refl, digest, size)

  check_content-Accepts :
      (s : Session) (r : EvidenceFile) (depot : Depot O) (content : List ℕ)
      → IsStorage storage
      → All (IsRow depot.objects r) depot.desk.files
      → Accepts (check_content storage intake s r depot content)
  unfolding check_content
  check_content-Accepts s r depot content laws rows =
      elim (Bool-cases (length content == r.size_bytes)) [
        | inr e ↦
            rw e (failed-Accepts s r depot.desk depot.objects depot.objects _ _ (λ k n. refl) rows)
        | inl sized ↦ rw sized (elim (Bool-cases (str_eq (intake.sha256_hex content) r.sha256)) [
          | inr e ↦
              rw e
                (failed-Accepts s r depot.desk depot.objects depot.objects _ _ (λ k n. refl) rows)
          | inl digest ↦ rw digest (
              stored-Accepts s r depot.desk depot.objects
                (storage.put_file r.storage_key content depot.objects) content
                (λ k n. laws.put_other r.storage_key k content depot.objects n)
                (laws.put_read r.storage_key content depot.objects)
                ((eq_iff (intake.sha256_hex content) r.sha256).0 digest) (ground arith) rows)
        ])
      ]

  received-Accepts :
      (s : Session) (r : EvidenceFile) (depot : Depot O) (broken : Bool) (body : Option (List ℕ))
      → IsStorage storage
      → All (IsRow depot.objects r) depot.desk.files
      → Accepts (after_receive storage intake s r depot broken body)
  received-Accepts s r depot broken none laws rows =
      (All-IsStored depot.objects r depot.desk.files rows, λ f e. cc e)
  received-Accepts s r depot broken (some content) laws rows =
      if_both Accepts broken _ _
        (failed-Accepts s r depot.desk depot.objects depot.objects 503 "STORAGE_ERROR" (λ k n. refl)
          rows)
        (check_content-Accepts s r depot content laws rows)

  upload_body-Accepts :
      (s : Session) (r : EvidenceFile) (q : Request) (depot : Depot O)
      → IsStorage storage
      → All (IsRow depot.objects r) depot.desk.files
      → Accepts (upload_body storage intake s r q depot)
  unfolding upload_body
  upload_body-Accepts s r q depot laws rows =
      received-Accepts s (uploading_row r) _ q.broken _ laws (
        write_file-All depot.objects depot.objects (uploading_row r) depot.desk.files
          (λ v. unfold is_uploaded in cc v) (λ k n. refl) rows)

  with_record-Accepts :
      (s : Session) (q : Request) (depot : Depot O) (o : Option EvidenceFile)
      → IsStorage storage
      → AreStored depot
      → ((r : EvidenceFile)
          → o ≡ some r
          → IsStored depot.objects r × All (IsRow depot.objects r) depot.desk.files)
      → Accepts (with_record storage intake s q depot o)
  with_record-Accepts s q depot none laws a found = (a, λ f e. cc e)
  with_record-Accepts s q depot (some r) laws a found = elim (Bool-cases (is_verified r)) [
    | inl v ↦ rw v (
      a,
      λ f e.
          let row_eq : r ≡ f = cc e in
          subst (λ (x : EvidenceFile). (is_verified x ≡ true) × IsHeld depot.objects x) row_eq
            (v, (found r refl).0 v),
    )
    | inr v ↦ rw v (by_check (check_headers r q))
  ]
    where
      by_check : (k : Check) → Accepts (checked storage intake r s q depot k)
      by_check (err status code) = (a, λ f e. cc e)
      by_check (ok _) = upload_body-Accepts s r q depot laws (found r refl).1

  -- If the storage service does what it promises, each storage key belongs to one row and every
  -- verified file is in the storage with the size and the digest that its row declares, then after
  -- accept_evidence_upload, refused calls included, every verified file is, and the file that an
  -- accepted call answers is verified and is in the storage.
  pub accept_evidence_upload-Accepts :
      (is_assigned : ℕ → ℕ → Bool) (caller : Caller) (session_id file_id : ℕ) (q : Request)
      (depot : Depot O)
      → IsStorage storage
      → HasOwnKeys depot.desk.files
      → AreStored depot
      → Accepts
          (accept_evidence_upload storage intake is_assigned caller session_id file_id q depot)
  unfolding accept_evidence_upload
  accept_evidence_upload-Accepts is_assigned caller session_id file_id q depot laws keys a =
      by_session (owned_session true is_assigned caller session_id depot.desk.site.sessions)
    where
      by_session :
          (o : Reply Session)
          → Accepts (with_session storage intake caller.organization_id file_id q depot o)
      by_session (err status code) = (a, λ f e. cc e)
      by_session (ok s) =
          if_both Accepts (not (is_uploading s.status)) _ _ (a, λ f e. cc e)
            (with_record-Accepts s q depot _ laws a λ r e. (
              All-find (IsStored depot.objects) _ depot.desk.files a e,
              All-IsRow depot.objects r depot.desk.files a (
                  All-find
                    (λ r. All (λ f. f.storage_key ≡ r.storage_key → f.id ≡ r.id) depot.desk.files) _
                    depot.desk.files keys e),
            ))
