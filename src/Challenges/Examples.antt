-- ===== src/Challenges/Examples.antt =====
-- A session whose first challenge is started and submitted.
use site_proof.Prelude.{
  ◌+◌, ◌*◌, ◌≤◌, ◌≡◌, refl, true, false, ◌&&◌, none, some, List, [], ◌∷◌, arith, length, str_eq,
  if◌then◌else◌,
}
use site_proof.Prelude.Dict.{any}
use site_proof.Prelude.Reply.{ok, err}
use site_proof.Sessions.Session.{Session, challenges_in_progress}
use site_proof.Challenges.Challenge.{
  Challenge, pass, rotate_left, started, Settings, Fresh, Outcome, is_terminal, is_retryable,
  status_of, mark_submitted,
}
use site_proof.Challenges.Rows.{get, update, retry_count, latest_by_sequence, explicit_failures}
use site_proof.Challenges.Invariant.{IsValid}
use site_proof.Challenges.Service.{Store, is_in_progress, is_complete, finalize_sequence}
use site_proof.Challenges.Submit.{
  Submission, Tools, Response, is_sorted, result_response, validate_structure, validate_timing,
  record_outcome, submit_row, submit_challenge,
}
use site_proof.Challenges.Trace.{Call, issues, starts, submits, run, challenges-IsValid, run_bound}
use site_proof.Challenges.Completion.{status_after, submit_challenge-status}
use site_proof.Challenges.Resubmission.{submit_again}

abbrev settings : Settings
settings = record {
  challenge_count = 3;
  challenge_max_retries = 3;
  challenge_failure_limit = 2;
  challenge_timeout_seconds = 18;
  challenge_max_sensor_samples = 5_000;
  challenge_window_start_tolerance_ms = 1_000;
  challenge_end_tolerance_ms = 500;
}

abbrev passes : Outcome
passes = record { result = pass; failure_reason = none; details = "passed" }

abbrev tools : Tools
tools = record {
  hash = λ document. document.samples;
  to_micros = λ ns. ns;
  validate = λ session c document. passes;
}

abbrev session : Session
session = record {
  id = 1;
  organization_id = 5;
  inspection_id = 7;
  inspector_id = 9;
  status = challenges_in_progress;
  device_session_id = "device";
  started_at = some 10;
  capture_started_at = some 10;
  capture_ended_at = none;
  uploaded_at = none;
  expires_at = 900_000_000;
  capture_anchor_monotonic_ns = some 100;
  capture_duration_ms = none;
  manifest_sha256 = none;
  abort_reason = none;
  site_snapshot = none;
  has_gyroscope = true;
  has_rotation_vector = true;
  sensor_summary = none;
  location_summary = none;
}

abbrev challenge : Challenge
challenge = record {
  id = 3;
  organization_id = 5;
  sequence_number = 1;
  attempt_number = 1;
  challenge_type = rotate_left;
  nonce = "nonce";
  status = started;
  result = none;
  issued_at = 20;
  started_at = some 30;
  completed_at = none;
  expires_at = 18_000_020;
  client_start_monotonic_ns = some 200;
  failure_reason = none;
  details = none;
  evidence_sha256 = none;
  submission_idempotency_key = none;
  nonce_consumed_at = none;
}

abbrev store : Store
store = record { session = session; rows = challenge ∷ [] }

abbrev payload : Submission
payload = record {
  nonce = "nonce";
  idempotency_key = "submission-1";
  document = record {
    start_relative_ns = 100;
    end_relative_ns = 5_000;
    timestamps = 200 ∷ 300 ∷ [];
    samples = "gyroscope";
  };
}

abbrev other : Submission
other = record payload { idempotency_key = "submission-2" }

abbrev response : Response
response = record {
  challenge_id = 3;
  sequence_number = 1;
  result = pass;
  details = some "passed";
  retry_allowed = false;
  sequence_complete = false;
  session_status = challenges_in_progress;
}

abbrev fresh : Fresh
fresh = record { taken_elsewhere = false; id = 3; nonce = "nonce"; choice = λ types. rotate_left }

abbrev calls : List Call
calls =
    issues fresh 20 (ok tt)
    ∷ starts 30 (ok tt) 5 3 "nonce" 200
    ∷ submits 40 (ok tt) 5 3 payload
    ∷ []

store_found : get 3 store.rows ≡ some challenge
unfolding get
store_found = refl

submitted : (submit_challenge settings tools 40 (ok tt) 5 3 payload store).0 ≡ ok response
unfolding submit_challenge submit_row record_outcome validate_structure validate_timing is_sorted
    any is_terminal is_in_progress get update retry_count mark_submitted status_of is_retryable
    result_response is_complete finalize_sequence
submitted = refl

challenges-IsValid_example :
    IsValid settings (run settings tools calls (record { session = session; rows = [] })).rows
challenges-IsValid_example =
    challenges-IsValid settings tools calls (record { session = session; rows = [] }) (tt, tt)

run_bound_example :
    length (run settings tools calls (record { session = session; rows = [] })).rows ≤ 3 * (3 + 1)
run_bound_example = run_bound settings tools calls session

submit_challenge-status_example :
    let after = (submit_challenge settings tools 40 (ok tt) 5 3 payload store).1 in
    after.session.status
    ≡ status_after settings tools passes challenge
        (explicit_failures (latest_by_sequence after.rows))
        challenges_in_progress
submit_challenge-status_example =
    submit_challenge-status settings tools 40 (ok tt) 5 3 payload store challenge response
      ((refl, refl, omega arith), ((refl, refl, refl), tt)) store_found refl submitted

submit_again_example :
    let after = (submit_challenge settings tools 40 (ok tt) 5 3 payload store).1 in
    submit_challenge settings tools 50 (ok tt) 5 3 other after ≡ (
      if str_eq payload.idempotency_key other.idempotency_key
        && str_eq (tools.hash payload.document) (tools.hash other.document)
        && str_eq challenge.nonce other.nonce
      then (ok response, after)
      else (err 409 "CHALLENGE_ALREADY_COMPLETED", after))
submit_again_example =
    submit_again settings tools 40 (ok tt) 5 3 payload store challenge response 50 other store_found
      refl submitted (omega arith)
