-- ===== src/Jobs/Examples.antt =====
-- The queue at work on concrete rows.
use site_proof.Prelude.{
  ℕ, ◌+◌, ◌≤◌, ◌<◌, ◌≡◌, ◌≢◌, refl, Bool, true, false, ◌++◌, Option, none, some, List, [], ◌∷◌,
  arith, ◌⊎◌, inl, subst, ap,
}
use site_proof.Jobs.Job.{
  Job, Error, pending, running, retry, completed, failed, seconds, new_job, gave_up, claimed,
  succeeded, recovered, is_expired, is_runnable,
}
use site_proof.Jobs.Table.{get, find_key, first_where, update, update_where}
use site_proof.Jobs.Queue.{
  enqueue, claim, recover, heartbeat, mark_succeeded, mark_failed, insert_or_reuse, fenced,
  active_attempt,
}
use site_proof.Jobs.Carries.{IsValid}
use site_proof.Jobs.Trace.{
  Call, enqueues, claims, succeeds, fails, step, run, run-IsValid, run-IsFinal, IsValid-empty,
}
use site_proof.Jobs.Claims.{Outcome, claim_outcome, claim_live}
use site_proof.Jobs.Fencing.{stale_token, tokens_differ}
use site_proof.Jobs.Enqueue.{enqueue_race, enqueue_again}
use site_proof.Jobs.Worker.{process_one, ended, beats, process_one_outcome, process_one_completes}
use site_proof.Jobs.Backoff.{gave_up_schedule}

abbrev unlocked : ℕ → Bool
unlocked _ = false

abbrev enqueued : List Call
enqueued = enqueues true 1 7 "verification-v2.0" 100 90 ∷ []

abbrev waiting_job : Job
waiting_job = record {
  id = 1;
  session_id = 7;
  pipeline_version = "verification-v2.0";
  status = pending;
  attempts = 0;
  max_attempts = 5;
  next_attempt_at = some 100;
  lease_expires_at = none;
  last_error = none;
  created_at = 90;
}

abbrev claimed_job : Job
claimed_job = record waiting_job {
  status = running;
  attempts = 1;
  next_attempt_at = none;
  lease_expires_at = some 300_000_200;
}

abbrev done_job : Job
done_job = record claimed_job { status = completed; lease_expires_at = none }

abbrev crash : Error
crash = record { message = ""; class_name = "RuntimeError" }

waiting_db : run [] enqueued ≡ waiting_job ∷ []
unfolding run step enqueue insert_or_reuse new_job get find_key
waiting_db = refl

waiting_IsValid : IsValid (waiting_job ∷ [])
waiting_IsValid = subst IsValid waiting_db (run-IsValid [] enqueued IsValid-empty)

claim_waiting : claim unlocked 300 200 (waiting_job ∷ []) ≡ (some claimed_job, claimed_job ∷ [])
unfolding claim recover update_where update first_where is_expired is_runnable claimed
claim_waiting = refl

claimed_IsValid : IsValid (claimed_job ∷ [])
unfolding run step
claimed_IsValid =
    subst IsValid (ap (λ (r : Option Job × List Job). r.1) claim_waiting)
      (run-IsValid _ (claims unlocked 300 200 ∷ []) waiting_IsValid)

run-IsValid_example : IsValid (
    run []
      (enqueues true 1 7 "verification-v2.0" 100 90 ∷ claims unlocked 300 200 ∷ succeeds 1 1 ∷ []))
run-IsValid_example = run-IsValid [] _ IsValid-empty

done_db : run (claimed_job ∷ []) (succeeds 1 1 ∷ []) ≡ done_job ∷ []
unfolding run step mark_succeeded fenced active_attempt get update succeeded
done_db = refl

done_IsValid : IsValid (done_job ∷ [])
done_IsValid = subst IsValid done_db (run-IsValid _ (succeeds 1 1 ∷ []) claimed_IsValid)

run-IsFinal_example :
    get 1 (run (done_job ∷ []) (fails 1 1 crash 5 ∷ claims unlocked 300 9 ∷ [])) ≡ some done_job
unfolding get
run-IsFinal_example =
    run-IsFinal (done_job ∷ []) (fails 1 1 crash 5 ∷ claims unlocked 300 9 ∷ []) 1 done_job
      done_IsValid refl (inl refl)

claim_outcome_example :
    Outcome unlocked 300 200 (waiting_job ∷ []) (claim unlocked 300 200 (waiting_job ∷ []))
claim_outcome_example = claim_outcome unlocked 300 200 (waiting_job ∷ []) waiting_IsValid

claim_live_example : get 1 (claim unlocked 300 250 (claimed_job ∷ [])).1 ≡ some claimed_job
unfolding get
claim_live_example =
    claim_live unlocked 300 250 (claimed_job ∷ []) 1 300_000_200 claimed_job claimed_IsValid refl
      refl refl (omega arith)

stale_token_example :
    let db' = run (claimed_job ∷ []) (claims unlocked 300 300_000_200 ∷ []) in
    (heartbeat 1 0 300 9 db' ≡ (false, db'))
    × (mark_succeeded 1 0 db' ≡ (false, db'))
    × (mark_failed 1 0 crash 9 db' ≡ (false, db'))
unfolding get
stale_token_example =
    stale_token (claimed_job ∷ []) (claims unlocked 300 300_000_200 ∷ []) 1 0 claimed_job
      claimed_IsValid refl (omega arith) 300 9 crash

-- The lease is over, and another worker claims the row.
abbrev reclaimed_job : Job
reclaimed_job = record claimed_job { attempts = 2; lease_expires_at = some 600_000_200 }

claim_expired :
    claim unlocked 300 300_000_200 (run (claimed_job ∷ []) [])
    ≡ (some reclaimed_job, reclaimed_job ∷ [])
unfolding claim recover update_where update first_where is_expired is_runnable claimed recovered run
claim_expired = refl

tokens_differ_example : claimed_job.attempts < reclaimed_job.attempts
tokens_differ_example =
    tokens_differ (waiting_job ∷ []) (claimed_job ∷ []) (reclaimed_job ∷ []) [] claimed_job
      reclaimed_job unlocked unlocked 300 300 200 300_000_200 waiting_IsValid claim_waiting
      claim_expired refl

enqueue_race_example :
    enqueue [] (waiting_job ∷ []) true 2 7 "verification-v2.0" 300 300
    ≡ enqueue ([] ++ waiting_job ∷ []) [] true 2 7 "verification-v2.0" 300 300
enqueue_race_example = enqueue_race [] (waiting_job ∷ []) true 2 7 "verification-v2.0" 300 300

enqueue_again_example :
    (db' : List Job) × (enqueue (done_job ∷ []) [] true 2 7 "verification-v2.0" 300 300
      ≡ some (done_job, db'))
    × ((k : ℕ) → get k db' ≡ get k (done_job ∷ []))
unfolding find_key
enqueue_again_example =
    enqueue_again (done_job ∷ []) true 2 7 "verification-v2.0" 300 300 done_job done_IsValid refl

process_one_outcome_example :
    let (worked, end) = process_one unlocked 200 [] (some crash) 400 (waiting_job ∷ []) in
    (worked ≡ true)
    × (running ≡ running
        → claimed_job.attempts ≡ claimed_job.attempts
        → get 1 end ≡ some (ended (some crash) 400 claimed_job))
    × ((running ≢ running) ⊎ (claimed_job.attempts ≢ claimed_job.attempts)
        → end ≡ run (claimed_job ∷ []) [])
unfolding get run
process_one_outcome_example =
    process_one_outcome unlocked 200 [] (some crash) 400 (waiting_job ∷ []) (claimed_job ∷ [])
      claimed_job claimed_job claim_waiting refl

process_one_completes_example :
    (r : Job) × (get 1
        (process_one unlocked 200 (beats 1 1 (300 ∷ 400 ∷ [])) none 500 (waiting_job ∷ [])).1
      ≡ some r)
    × (r.status ≡ completed)
process_one_completes_example =
    process_one_completes unlocked 200 (300 ∷ 400 ∷ []) 500 (waiting_job ∷ []) (claimed_job ∷ [])
      claimed_job waiting_IsValid claim_waiting

gave_up_schedule_example :
    let j' = gave_up 10 crash claimed_job in
    ((5 ≤ 1) × (j'.status ≡ failed) × (j'.next_attempt_at ≡ none))
    ⊎ ((1 < 5)
        × (j'.status ≡ retry)
        × ((t : ℕ) × (j'.next_attempt_at ≡ some t) × (10 + seconds 5 ≤ t) × (t ≤ 10 + seconds 300)))
gave_up_schedule_example = gave_up_schedule 10 crash claimed_job (omega arith)
