-- ===== src/Jobs/Worker.antt =====
-- backend/app/worker.py: `process_one`, and the heartbeats of its thread. What the pipeline does to
-- other tables is not part of the queue: its result is `none` for a return, or the exception.
use mathlib.Core.Option
use site_proof.Prelude.{
  ℕ, ◌≡◌, ◌≢◌, refl, Bool, true, false, Option, none, some, List, [], ◌∷◌, arith, ap, ◌∙◌, subst,
  ◌⊎◌,
}
use site_proof.Jobs.Job.{
  Job, Error, running, completed, default_lease_seconds, extended, succeeded, gave_up,
}
use site_proof.Jobs.Table.{get}
use site_proof.Jobs.Queue.{claim, active_attempt, fenced, heartbeat, mark_succeeded, mark_failed}
use site_proof.Jobs.Rows.{KeepsKey, get-id, get-update}
use site_proof.Jobs.Carries.{IsValid}
use site_proof.Jobs.Claims.{Outcome, claim_outcome}
use site_proof.Jobs.Trace.{Call, heartbeats, step, run}

-- The write at the end of `process_one`: the `except` branch, or the `else` branch.
unfoldable pub finish : ℕ → ℕ → Option Error → ℕ → List Job → Bool × List Job
finish id attempt none now db = mark_succeeded id attempt db
finish id attempt (some e) now db = mark_failed id attempt e now db

-- `process_one`. `others` are the transactions between the claim and the end, of the heartbeat
-- thread and of other processes.
abbrev pub work : List Call → Option Error → ℕ → Option Job × List Job → Bool × List Job
work others outcome later (none, db) = (false, db)
work others outcome later (some job, db) =
    (true, (finish job.id job.attempts outcome later (run db others)).1)

unfoldable pub process_one :
    (ℕ → Bool) → ℕ → List Call → Option Error → ℕ → List Job → Bool × List Job
process_one locked now others outcome later db =
    work others outcome later (claim locked default_lease_seconds now db)

-- What the end of an attempt makes of its row.
abbrev pub ended : Option Error → ℕ → Job → Job
ended none now j = succeeded j
ended (some e) now j = gave_up now e j

succeeded-KeepsKey : KeepsKey succeeded
unfolding succeeded
succeeded-KeepsKey = ground arith

gave_up-KeepsKey : (now : ℕ) (e : Error) → KeepsKey (gave_up now e)
unfolding gave_up
gave_up-KeepsKey now e = ground arith

active :
    (id attempt : ℕ) (db : List Job) (j : Job)
    → get id db ≡ some j
    → j.status ≡ running
    → j.attempts ≡ attempt
    → active_attempt id attempt db ≡ some j
unfolding active_attempt
active id attempt db j e r a = ground arith

fenced_active :
    (id attempt : ℕ) (write : Job → Job) (db : List Job) (j : Job)
    → KeepsKey write
    → get id db ≡ some j
    → j.status ≡ running
    → j.attempts ≡ attempt
    → ((fenced id attempt write db).0 ≡ true)
      × (get id (fenced id attempt write db).1 ≡ some (write j))
unfolding fenced
fenced_active id attempt write db j keeps e r a =
    rw (active id attempt db j e r a)
      (refl, get-update id id write db keeps ∙ ap (Option.map _) e ∙ ground (arith, get-id id db e))

-- The end of an attempt that is still the row's: the row is completed, tried again or failed.
finish_active :
    (id attempt : ℕ) (outcome : Option Error) (now : ℕ) (db : List Job) (j : Job)
    → get id db ≡ some j
    → j.status ≡ running
    → j.attempts ≡ attempt
    → get id (finish id attempt outcome now db).1 ≡ some (ended outcome now j)
unfolding finish mark_succeeded mark_failed
finish_active id attempt none now db j e r a =
    (fenced_active id attempt succeeded db j succeeded-KeepsKey e r a).1
finish_active id attempt (some x) now db j e r a =
    (fenced_active id attempt (gave_up now x) db j (gave_up-KeepsKey now x) e r a).1

-- The end of one that is not: nothing is written.
finish_superseded :
    (id attempt : ℕ) (outcome : Option Error) (now : ℕ) (db : List Job) (j : Job)
    → get id db ≡ some j
    → (j.status ≢ running) ⊎ (j.attempts ≢ attempt)
    → (finish id attempt outcome now db).1 ≡ db
unfolding finish mark_succeeded mark_failed fenced active_attempt
finish_superseded id attempt none now db j e h = ground arith
finish_superseded id attempt (some x) now db j e h = ground arith

-- `process_one` reports that it worked exactly if the claim returned a job. If the row of this job is
-- still running at the claimed attempt when the pipeline ends, the row is then completed (or retried
-- or failed, after an exception); if not, the end of the attempt writes nothing.
pub process_one_outcome :
    (locked : ℕ → Bool) (now : ℕ) (others : List Call) (outcome : Option Error) (later : ℕ)
    (db db' : List Job) (job r : Job)
    → claim locked default_lease_seconds now db ≡ (some job, db')
    → get job.id (run db' others) ≡ some r
    → let (worked, end) = process_one locked now others outcome later db in
      (worked ≡ true)
      × (r.status ≡ running
          → r.attempts ≡ job.attempts
          → get job.id end ≡ some (ended outcome later r))
      × ((r.status ≢ running) ⊎ (r.attempts ≢ job.attempts) → end ≡ run db' others)
unfolding process_one
process_one_outcome locked now others outcome later db db' job r c e = rw c (
  refl,
  λ s a. finish_active job.id job.attempts outcome later (run db' others) r e s a,
  λ h. finish_superseded job.id job.attempts outcome later (run db' others) r e h,
)

-- The heartbeats of the thread at the given times.
abbrev pub beats : ℕ → ℕ → List ℕ → List Call
beats id attempt [] = []
beats id attempt (t ∷ ts) = heartbeats id attempt default_lease_seconds t ∷ beats id attempt ts

extended-KeepsKey : (now lease : ℕ) → KeepsKey (extended now lease)
unfolding extended
extended-KeepsKey now lease = ground arith

beats-run :
    (id attempt : ℕ) (ts : List ℕ) (db : List Job) (j : Job)
    → get id db ≡ some j
    → j.status ≡ running
    → j.attempts ≡ attempt
    → (r : Job) × (get id (run db (beats id attempt ts)) ≡ some r)
      × (r.status ≡ running)
      × (r.attempts ≡ attempt)
unfolding run step heartbeat
beats-run id attempt [] db j e r a = (j, e, r, a)
beats-run id attempt (t ∷ ts) db j e r a =
    beats-run id attempt ts _ (extended t default_lease_seconds j)
      (fenced_active id attempt (extended t default_lease_seconds) db j
        (extended-KeepsKey t default_lease_seconds) e r a).1
      (unfold extended in r) (unfold extended in a)

-- A worker that claims a job from a valid table, whose heartbeats alone reach the table until the
-- pipeline returns, completes this job.
pub process_one_completes :
    (locked : ℕ → Bool) (now : ℕ) (ts : List ℕ) (later : ℕ) (db db' : List Job) (job : Job)
    → IsValid db
    → claim locked default_lease_seconds now db ≡ (some job, db')
    → (r : Job) × (get job.id
          (process_one locked now (beats job.id job.attempts ts) none later db).1
        ≡ some r)
      × (r.status ≡ completed)
process_one_completes locked now ts later db db' job v c =
    let (_, leased) =
      subst (Outcome locked default_lease_seconds now db) c
        (claim_outcome locked default_lease_seconds now db v) in
    let (r, e, s, a) = beats-run job.id job.attempts ts db' job leased.written leased.status refl in
    let all =
      process_one_outcome locked now (beats job.id job.attempts ts) none later db db' job r c e in
    (succeeded r, all.1 s a, unfold succeeded in refl)
