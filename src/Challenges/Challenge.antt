-- ===== src/Challenges/Challenge.antt =====
-- The row of VerificationChallenge, the settings, and the changes of one row. Times are
-- microseconds. `details` stands for the scores, the reasons and the metrics of a validation, which
-- no handler reads.
use site_proof.Prelude.{
  ℕ, ◌+◌, ◌*◌, String, Bool, true, false, Option, none, some, List, [], ◌∷◌, ◌==◌, if◌then◌else◌,
  not,
}
use site_proof.Prelude.Dict.{filter}

pub data ChallengeType : Type 0 where
  rotate_left rotate_right tilt_up tilt_down : ChallengeType

pub data ChallengeStatus : Type 0 where
  issued started passed failed inconclusive expired cancelled : ChallengeStatus

pub data ChallengeResult : Type 0 where
  pass fail inconclusive : ChallengeResult

pub record Settings : Type 0 where
  pub challenge_count : ℕ
  pub challenge_max_retries : ℕ
  pub challenge_failure_limit : ℕ
  pub challenge_timeout_seconds : ℕ
  pub challenge_max_sensor_samples : ℕ
  pub challenge_window_start_tolerance_ms : ℕ
  pub challenge_end_tolerance_ms : ℕ

pub record Challenge : Type 0 where
  pub id : ℕ
  pub organization_id : ℕ
  pub sequence_number : ℕ
  pub attempt_number : ℕ
  pub challenge_type : ChallengeType
  pub nonce : String
  pub status : ChallengeStatus
  pub result : Option ChallengeResult
  pub issued_at : ℕ
  pub started_at : Option ℕ
  pub completed_at : Option ℕ
  pub expires_at : ℕ
  pub client_start_monotonic_ns : Option ℕ
  pub failure_reason : Option String
  pub details : Option String
  pub evidence_sha256 : Option String
  pub submission_idempotency_key : Option String
  pub nonce_consumed_at : Option ℕ

-- ACTIVE_CHALLENGE_STATES
unfoldable pub is_active : ChallengeStatus → Bool
is_active issued = true
is_active started = true
is_active _ = false

-- TERMINAL_CHALLENGE_STATES
unfoldable pub is_terminal : ChallengeStatus → Bool
is_terminal issued = false
is_terminal started = false
is_terminal _ = true

abbrev pub is_issued : ChallengeStatus → Bool
is_issued issued = true
is_issued _ = false

abbrev pub is_started : ChallengeStatus → Bool
is_started started = true
is_started _ = false

-- RETRYABLE_CHALLENGE_RESULTS
unfoldable pub is_retryable : Option ChallengeResult → Bool
is_retryable (some fail) = true
is_retryable (some inconclusive) = true
is_retryable _ = false

unfoldable pub is_failure : Option ChallengeResult → Bool
is_failure (some fail) = true
is_failure _ = false

abbrev pub type_index : ChallengeType → ℕ
type_index rotate_left = 0
type_index rotate_right = 1
type_index tilt_up = 2
type_index tilt_down = 3

-- The candidates of `generate_definition`: every type but the previous one.
unfoldable pub candidates : Option ChallengeType → List ChallengeType
candidates none = rotate_left ∷ rotate_right ∷ tilt_up ∷ tilt_down ∷ []
candidates (some previous) =
    filter (λ t. not (type_index t == type_index previous))
      (rotate_left ∷ rotate_right ∷ tilt_up ∷ tilt_down ∷ [])

-- What the database and the random sources choose for a new row, and whether a row of another
-- session has this id or nonce.
pub record Fresh : Type 0 where
  pub taken_elsewhere : Bool
  pub id : ℕ
  pub nonce : String
  pub choice : List ChallengeType → ChallengeType

-- The new row of `issue_next_challenge`.
unfoldable pub new_challenge : Settings → Fresh → ℕ → ℕ → ℕ → ℕ → Option ChallengeType → Challenge
new_challenge settings fresh now organization sequence attempt previous = record {
  id = fresh.id;
  organization_id = organization;
  sequence_number = sequence;
  attempt_number = attempt;
  challenge_type = fresh.choice (candidates previous);
  nonce = fresh.nonce;
  status = issued;
  result = none;
  issued_at = now;
  started_at = none;
  completed_at = none;
  expires_at = now + settings.challenge_timeout_seconds * 1_000_000;
  client_start_monotonic_ns = none;
  failure_reason = none;
  details = none;
  evidence_sha256 = none;
  submission_idempotency_key = none;
  nonce_consumed_at = none;
}

-- `_mark_expired`
unfoldable pub mark_expired : ℕ → Challenge → Challenge
mark_expired now c =
    if is_active c.status
    then record c {
      status = expired;
      result = some ChallengeResult.inconclusive;
      completed_at = some now;
      failure_reason = some "CHALLENGE_EXPIRED";
      details = some "Challenge expired before valid sensor evidence was submitted.";
    }
    else c

-- The writes of `start_challenge`.
unfoldable pub mark_started : ℕ → ℕ → Challenge → Challenge
mark_started now client_monotonic_ns c = record c {
  status = started;
  started_at = some now;
  client_start_monotonic_ns = some client_monotonic_ns;
}

-- The outcome of a validator.
pub record Outcome : Type 0 where
  pub result : ChallengeResult
  pub failure_reason : Option String
  pub details : String

unfoldable pub status_of : ChallengeResult → ChallengeStatus
status_of pass = passed
status_of fail = failed
status_of inconclusive = ChallengeStatus.inconclusive

-- The writes of `submit_challenge`.
unfoldable pub mark_submitted : ℕ → Outcome → String → String → Challenge → Challenge
mark_submitted now outcome evidence_hash key c = record c {
  status = status_of outcome.result;
  result = some outcome.result;
  failure_reason = outcome.failure_reason;
  details = some outcome.details;
  evidence_sha256 = some evidence_hash;
  submission_idempotency_key = some key;
  nonce_consumed_at = some now;
  completed_at = some now;
}
