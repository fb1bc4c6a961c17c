-- ===== src/Jobs/Job.antt =====
-- A row of `verification_processing_jobs` (backend/app/models/processing_job.py), and what the queue
-- writes into one row. Times are microseconds; an id (UUID) is a number that is only compared.
use site_proof.Prelude.{
  ℕ, zero, suc, ◌+◌, ◌-◌, ◌*◌, ◌^◌, min, max, String, Bool, true, false, ◌&&◌, Option, none, some,
  ltb, leb, if◌then◌else◌, str_eq,
}

pub data Status : Type 0 where
  pending running retry completed failed : Status

pub record Job : Type 0 where
  pub id : ℕ
  pub session_id : ℕ
  pub pipeline_version : String
  pub status : Status
  pub attempts : ℕ
  pub max_attempts : ℕ
  pub next_attempt_at : Option ℕ
  pub lease_expires_at : Option ℕ
  pub last_error : Option String
  pub created_at : ℕ

abbrev pub seconds : ℕ → ℕ
seconds n = n * 1_000_000

abbrev pub default_max_attempts : ℕ
default_max_attempts = 5

abbrev pub default_lease_seconds : ℕ
default_lease_seconds = 300

abbrev pub max_error_length : ℕ
max_error_length = 4000

abbrev pub is_running : Status → Bool
is_running running = true
is_running _ = false

abbrev pub is_failed : Status → Bool
is_failed failed = true
is_failed _ = false

-- `status.in_(["PENDING", "RETRY"])`
abbrev pub is_waiting : Status → Bool
is_waiting pending = true
is_waiting retry = true
is_waiting _ = false

-- `_reuse_existing_job`
unfoldable pub reuse : ℕ → Job → Job
reuse now j =
    if is_failed j.status && ltb j.attempts j.max_attempts
    then record j {
      status = retry;
      next_attempt_at = some now;
      lease_expires_at = none;
      last_error = none;
    }
    else j

-- The row that `enqueue_processing_job` inserts. `created_at` is the database's clock.
unfoldable pub new_job : ℕ → ℕ → String → ℕ → ℕ → Job
new_job id session version now created = record {
  id = id;
  session_id = session;
  pipeline_version = version;
  status = pending;
  attempts = 0;
  max_attempts = default_max_attempts;
  next_attempt_at = some now;
  lease_expires_at = none;
  last_error = none;
  created_at = created;
}

-- The filter of `_recover_expired_leases`: a running row whose lease is over.
abbrev pub reached : ℕ → Option ℕ → Bool
reached now none = false
reached now (some t) = leb t now

unfoldable pub is_expired : ℕ → Job → Bool
is_expired now j = is_running j.status && reached now j.lease_expires_at

-- `if not job.last_error`: an empty text counts as none.
abbrev or_message : Option String → String → Option String
or_message none m = some m
or_message (some e) m = if str_eq e "" then some m else some e

-- The body of the loop of `_recover_expired_leases`.
unfoldable pub recovered : ℕ → Job → Job
recovered now j = record (if leb j.max_attempts j.attempts then failing else retrying) {
  lease_expires_at = none;
  last_error = or_message j.last_error "Worker lease expired before processing completed.";
}
  where
    failing : Job
    failing = record j { status = failed; next_attempt_at = none }

    retrying : Job
    retrying = record j { status = retry; next_attempt_at = some now }

-- The filter of `claim_processing_job`.
abbrev pub due : ℕ → Option ℕ → Bool
due now none = true
due now (some t) = leb t now

unfoldable pub is_runnable : ℕ → Job → Bool
is_runnable now j =
    is_waiting j.status && ltb j.attempts j.max_attempts && due now j.next_attempt_at

abbrev pub lease_until : ℕ → ℕ → ℕ
lease_until now lease_seconds = now + seconds (max 30 lease_seconds)

-- What `claim_processing_job` writes into the row that it leases.
unfoldable pub claimed : ℕ → ℕ → Job → Job
claimed now lease_seconds j = record j {
  status = running;
  attempts = j.attempts + 1;
  next_attempt_at = none;
  lease_expires_at = some (lease_until now lease_seconds);
  last_error = none;
}

-- What `heartbeat_processing_job` and `mark_processing_job_succeeded` write.
unfoldable pub extended : ℕ → ℕ → Job → Job
extended now lease_seconds j = record j { lease_expires_at = some (lease_until now lease_seconds) }

unfoldable pub succeeded : Job → Job
succeeded j = record j {
  status = completed;
  next_attempt_at = none;
  lease_expires_at = none;
  last_error = none;
}

-- An exception: `str(error)` and `error.__class__.__name__`.
pub record Error : Type 0 where
  pub message : String
  pub class_name : String

-- `text[:n]`
take_chars : ℕ → String → String
take_chars zero s = ""
take_chars (suc n) String.[] = ""
take_chars (suc n) (String.◌∷◌ c s) = String.◌∷◌ c (take_chars n s)

unfoldable pub error_text : Error → String
unfolding take_chars
error_text e = take_chars max_error_length (if str_eq e.message "" then e.class_name else e.message)

unfoldable pub retry_delay : ℕ → ℕ
retry_delay attempts = min 300 (5 * 2 ^ (attempts - 1))

-- What `mark_processing_job_failed` writes. On ℕ `attempts - 1` is `max(0, attempts - 1)`.
unfoldable pub gave_up : ℕ → Error → Job → Job
gave_up now e j =
    if leb j.max_attempts j.attempts
    then record j {
      last_error = some (error_text e);
      lease_expires_at = none;
      status = failed;
      next_attempt_at = none;
    }
    else record j {
      last_error = some (error_text e);
      lease_expires_at = none;
      status = retry;
      next_attempt_at = some (now + seconds (retry_delay j.attempts));
    }
