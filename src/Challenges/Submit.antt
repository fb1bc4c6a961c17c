-- ===== src/Challenges/Submit.antt =====
-- `submit_challenge` of service.py. `Tools` are what it takes from elsewhere: the hash of the
-- evidence document, the conversion of a nanosecond count by `timedelta`, and the validators.
use site_proof.Prelude.{
  ℕ, ◌+◌, ◌-◌, ◌*◌, String, Bool, true, false, not, ◌&&◌, ◌||◌, Option, none, some, List, [], ◌∷◌,
  length, ltb, leb, ◌==◌, str_eq, if◌then◌else◌,
}
use site_proof.Prelude.Dict.{any}
use site_proof.Prelude.Reply.{Reply, Check, ok, err}
use site_proof.Sessions.Session.{Session, SessionStatus}
use site_proof.Challenges.Challenge.{
  Challenge, ChallengeResult, inconclusive, Settings, Outcome, is_terminal, is_started,
  is_retryable, mark_submitted,
}
use site_proof.Challenges.Rows.{get, update, retry_count}
use site_proof.Challenges.Service.{
  Store, with_access, with_row, is_in_progress, is_complete, finalize_sequence,
}

-- The part of the request that `_evidence_hash` covers.
pub record Document : Type 0 where
  pub start_relative_ns : ℕ
  pub end_relative_ns : ℕ
  pub timestamps : List ℕ
  pub samples : String

pub record Submission : Type 0 where
  pub nonce : String
  pub idempotency_key : String
  pub document : Document

pub record Tools : Type 0 where
  pub hash : Document → String
  pub to_micros : ℕ → ℕ
  pub validate : Session → Challenge → Document → Outcome

-- `ChallengeValidationResponse`
pub record Response : Type 0 where
  pub challenge_id : ℕ
  pub sequence_number : ℕ
  pub result : ChallengeResult
  pub details : Option String
  pub retry_allowed : Bool
  pub sequence_complete : Bool
  pub session_status : SessionStatus

abbrev pub or_inconclusive : Option ChallengeResult → ChallengeResult
or_inconclusive none = inconclusive
or_inconclusive (some r) = r

-- `_result_response`
unfoldable pub result_response : Settings → Store → Challenge → Response
result_response settings store c = record {
  challenge_id = c.id;
  sequence_number = c.sequence_number;
  result = or_inconclusive c.result;
  details = c.details;
  retry_allowed =
      is_retryable c.result
      && ltb (retry_count store.rows c.sequence_number) settings.challenge_max_retries
      && leb c.sequence_number settings.challenge_count;
  sequence_complete = is_complete store.session.status;
  session_status = store.session.status;
}

-- `timestamps != sorted(timestamps)`, negated.
unfoldable pub is_sorted : List ℕ → Bool
is_sorted [] = true
is_sorted (t ∷ []) = true
is_sorted (t ∷ u ∷ ts) = leb t u && is_sorted (u ∷ ts)

-- A distance of more than `bound` between two numbers: `abs(a - b) > bound`.
abbrev pub far_apart : ℕ → ℕ → ℕ → Bool
far_apart bound a b = ltb (b + bound) a || ltb (a + bound) b

-- `aware(None)` of a missing start raises an AttributeError, an internal error.
abbrev pub check_end : Settings → ℕ → ℕ → Option ℕ → Check
check_end settings expires_at elapsed none = err 500 "INTERNAL_ERROR"
check_end settings expires_at elapsed (some started_at) =
    if ltb (expires_at + settings.challenge_end_tolerance_ms * 1_000) (started_at + elapsed)
    then err 409 "CHALLENGE_EXPIRED"
    else ok tt

-- The end of `_validate_structure`, on the two anchors.
unfoldable pub validate_timing : Settings → Tools → ℕ → ℕ → Option ℕ → ℕ → Document → Check
validate_timing settings tools anchor client_start started_at expires_at document =
    if far_apart (settings.challenge_window_start_tolerance_ms * 1_000_000)
      (document.start_relative_ns + anchor) client_start
    then err 422 "SENSOR_EVIDENCE_INVALID"
    else if ltb (anchor + document.end_relative_ns) client_start
    then err 422 "SENSOR_EVIDENCE_INVALID"
    else check_end settings expires_at
        (tools.to_micros (anchor + document.end_relative_ns - client_start)) started_at

abbrev pub with_anchors : Option ℕ → Option ℕ → (ℕ → ℕ → Check) → Check
with_anchors none _ k = err 409 "SESSION_NOT_ACTIVE"
with_anchors (some anchor) none k = err 409 "SESSION_NOT_ACTIVE"
with_anchors (some anchor) (some client_start) k = k anchor client_start

-- `_validate_structure`
unfoldable pub validate_structure : Settings → Tools → Session → Challenge → Document → Check
validate_structure settings tools session c document =
    if leb document.end_relative_ns document.start_relative_ns
    then err 422 "SENSOR_EVIDENCE_INVALID"
    else if ltb settings.challenge_max_sensor_samples (length document.timestamps)
    then err 422 "SENSOR_EVIDENCE_INVALID"
    else if not (is_sorted document.timestamps)
    then err 422 "SENSOR_EVIDENCE_INVALID"
    else if any (λ t. ltb t document.start_relative_ns || ltb document.end_relative_ns t)
        document.timestamps
    then err 422 "SENSOR_EVIDENCE_INVALID"
    else with_anchors session.capture_anchor_monotonic_ns c.client_start_monotonic_ns
        λ anchor client_start.
          validate_timing settings tools anchor client_start c.started_at c.expires_at document

abbrev pub is_text : String → Option String → Bool
is_text s none = false
is_text s (some t) = str_eq t s

abbrev pub is_set {ℓ} : {A : Type ℓ} → Option A → Bool
is_set none = false
is_set (some _) = true

-- The writes after a validation, and the end of the sequence.
unfoldable pub record_outcome :
    Settings → ℕ → Submission → String → Store → Challenge → Outcome → Reply Response × Store
record_outcome settings now payload evidence_hash store c outcome =
    let write = mark_submitted now outcome evidence_hash payload.idempotency_key in
    let rows = update c.id write store.rows in
    let retry_allowed =
      is_retryable (some outcome.result)
      && ltb (retry_count rows c.sequence_number) settings.challenge_max_retries in
    let session =
      if leb settings.challenge_count c.sequence_number && not retry_allowed
      then finalize_sequence settings rows store.session
      else store.session in
    let after : Store = record { session = session; rows = rows } in
    (ok (result_response settings after (write c)), after)

abbrev pub after_check {ℓ} : {A : Type ℓ} → Check → Store → Reply A × Store → Reply A × Store
after_check (ok _) store rest = rest
after_check (err status code) store rest = (err status code, store)

-- A submission of a terminal challenge: the same one again is answered, any other one refused.
unfoldable pub is_same_submission : Submission → String → Challenge → Bool
is_same_submission payload evidence_hash c =
    is_text payload.idempotency_key c.submission_idempotency_key
    && is_text evidence_hash c.evidence_sha256
    && str_eq c.nonce payload.nonce

unfoldable pub submit_row :
    Settings → Tools → ℕ → Check → ℕ → Submission → Store → Challenge → Reply Response × Store
submit_row settings tools now access organization payload store c =
    let evidence_hash = tools.hash payload.document in
    with_access access store (
      if not (c.organization_id == organization)
      then (err 404 "CHALLENGE_NOT_FOUND", store)
      else if leb store.session.expires_at now
      then (err 409 "SESSION_NOT_ACTIVE", store)
      else if is_terminal c.status
      then (if is_same_submission payload evidence_hash c
          then (ok (result_response settings store c), store)
          else (err 409 "CHALLENGE_ALREADY_COMPLETED", store))
      else if not (is_in_progress store.session.status)
      then (err 409 "SESSION_NOT_ACTIVE", store)
      else if not (is_started c.status)
      then (err 409 "CHALLENGE_NOT_ACTIVE", store)
      else if is_set c.nonce_consumed_at || not (str_eq c.nonce payload.nonce)
      then (err 409 "CHALLENGE_NONCE_INVALID", store)
      else if any
          (λ d. is_text payload.idempotency_key d.submission_idempotency_key && not (d.id == c.id))
          store.rows
      then (err 409 "CHALLENGE_ALREADY_COMPLETED", store)
      else after_check (validate_structure settings tools store.session c payload.document) store (
          record_outcome settings now payload evidence_hash store c
            (tools.validate store.session c payload.document)))

unfoldable pub submit_challenge :
    Settings → Tools → ℕ → Check → ℕ → ℕ → Submission → Store → Reply Response × Store
submit_challenge settings tools now access organization id payload store =
    with_row store (submit_row settings tools now access organization payload store)
      (get id store.rows)
