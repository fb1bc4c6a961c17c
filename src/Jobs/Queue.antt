-- ===== src/Jobs/Queue.antt =====
-- The operations of processing_queue.py. Each is one transaction, so a function from the table that
-- it reads to the table that it commits. `locked` are the rows that other open transactions hold,
-- which SKIP LOCKED passes over.
use site_proof.Prelude.{
  ℕ, String, Bool, true, false, not, ◌&&◌, Option, none, some, List, [], ◌∷◌, ◌++◌, ◌==◌,
  if◌then◌else◌,
}
use site_proof.Jobs.Job.{
  Job, Error, is_running, reuse, new_job, is_expired, recovered, is_runnable, claimed, extended,
  succeeded, gave_up,
}
use site_proof.Jobs.Table.{get, update, update_where, find_key, first_where}

abbrev pub is_none : Option Job → Bool
is_none none = true
is_none (some _) = false

-- The write to the row that a query returned. Without one the IntegrityError is raised again.
abbrev pub reuse_row : ℕ → List Job → Option Job → Option (Job × List Job)
reuse_row now db none = none
reuse_row now db (some old) = some (reuse now old, update old.id (reuse now) db)

-- The insert inside its savepoint, with the `except IntegrityError` branch: the primary key, the
-- unique constraint and the foreign key (`session_exists`) can refuse the row.
unfoldable pub insert_or_reuse : ℕ → Bool → Job → List Job → Option (Job × List Job)
insert_or_reuse now session_exists job db =
    let existing = find_key job.session_id job.pipeline_version db in
    if session_exists && is_none (get job.id db) && is_none existing
    then some (job, db ++ job ∷ [])
    else reuse_row now db existing

-- `enqueue_processing_job`. `db` is the table that the first query reads, and `won` the rows that
-- other transactions commit after it.
abbrev pub found_or :
    Option (Job × List Job) → (Job → Option (Job × List Job)) → Option Job → Option (Job × List Job)
found_or missing found none = missing
found_or missing found (some old) = found old

unfoldable pub enqueue :
    List Job → List Job → Bool → ℕ → ℕ → String → ℕ → ℕ → Option (Job × List Job)
enqueue db won session_exists id session version now created =
    let db' = db ++ won in
    found_or (insert_or_reuse now session_exists (new_job id session version now created) db')
      (λ old. reuse_row now db' (some old)) (find_key session version db)

-- `_recover_expired_leases`
unfoldable pub recover : (ℕ → Bool) → ℕ → List Job → List Job
recover locked now = update_where (λ j. is_expired now j && not (locked j.id)) (recovered now)

-- The rows that one claim may lease, and the lease of the row that its query returns.
abbrev pub is_claimable : (ℕ → Bool) → ℕ → Job → Bool
is_claimable locked now j = is_runnable now j && not (locked j.id)

abbrev pub lease_row : ℕ → ℕ → List Job → Option Job → Option Job × List Job
lease_row lease_seconds now db none = (none, db)
lease_row lease_seconds now db (some j) =
    (some (claimed now lease_seconds j), update j.id (claimed now lease_seconds) db)

-- `claim_processing_job`
unfoldable pub claim : (ℕ → Bool) → ℕ → ℕ → List Job → Option Job × List Job
claim locked lease_seconds now db =
    let db' = recover locked now db in
    lease_row lease_seconds now db' (first_where (is_claimable locked now) db')

-- `_active_attempt`
unfoldable pub active_attempt : ℕ → ℕ → List Job → Option Job
active_attempt id attempt db = elim (get id db) [
  | none ↦ none
  | some j ↦ if is_running j.status && j.attempts == attempt then some j else none
]

-- A write of the holder of an attempt, and whether it was accepted.
abbrev pub write_row : ℕ → (Job → Job) → List Job → Option Job → Bool × List Job
write_row id write db none = (false, db)
write_row id write db (some _) = (true, update id write db)

unfoldable pub fenced : ℕ → ℕ → (Job → Job) → List Job → Bool × List Job
fenced id attempt write db = write_row id write db (active_attempt id attempt db)

-- `heartbeat_processing_job`
unfoldable pub heartbeat : ℕ → ℕ → ℕ → ℕ → List Job → Bool × List Job
unfolding fenced
heartbeat id attempt lease_seconds now = fenced id attempt (extended now lease_seconds)

-- `mark_processing_job_succeeded`
unfoldable pub mark_succeeded : ℕ → ℕ → List Job → Bool × List Job
unfolding fenced
mark_succeeded id attempt = fenced id attempt succeeded

-- `mark_processing_job_failed`
unfoldable pub mark_failed : ℕ → ℕ → Error → ℕ → List Job → Bool × List Job
unfolding fenced
mark_failed id attempt e now = fenced id attempt (gave_up now e)
