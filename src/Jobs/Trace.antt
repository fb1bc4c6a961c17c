-- ===== src/Jobs/Trace.antt =====
-- Workers and API requests as an interleaving: any sequence of the transactions of
-- processing_queue.py, each by whichever process, at whatever time, with whatever rows locked.
use site_proof.Prelude.{ℕ, ◌≡◌, ◌∙◌, String, Bool, some, List, [], ◌∷◌, ap}
use mathlib.Core.List.{append-nil}
use site_proof.Jobs.Job.{Job, Error}
use site_proof.Jobs.Table.{get}
use site_proof.Jobs.Queue.{enqueue, claim, heartbeat, mark_succeeded, mark_failed}
use site_proof.Jobs.Moves.{IsFinal, Moves-IsFinal}
use site_proof.Jobs.Carries.{IsValid, Carries-refl, Kept, Kept-trans, claim-Kept}
use site_proof.Jobs.Writes.{
  table_after, enqueue-Kept, heartbeat-Kept, mark_succeeded-Kept, mark_failed-Kept,
}

-- A transaction with its arguments, the clock and the locks. Racing enqueues are one after the other
-- here, which `Enqueue.enqueue_race` justifies.
pub data Call : Type 0 where
  enqueues : Bool → ℕ → ℕ → String → ℕ → ℕ → Call
  claims : (ℕ → Bool) → ℕ → ℕ → Call
  heartbeats : ℕ → ℕ → ℕ → ℕ → Call
  succeeds : ℕ → ℕ → Call
  fails : ℕ → ℕ → Error → ℕ → Call

unfoldable pub step : List Job → Call → List Job
step db (enqueues session_exists id session version now created) =
    table_after db (enqueue db [] session_exists id session version now created)
step db (claims locked lease now) = (claim locked lease now db).1
step db (heartbeats id attempt lease now) = (heartbeat id attempt lease now db).1
step db (succeeds id attempt) = (mark_succeeded id attempt db).1
step db (fails id attempt e now) = (mark_failed id attempt e now db).1

unfoldable pub run : List Job → List Call → List Job
run db [] = db
run db (c ∷ cs) = run (step db c) cs

step-Kept : (db : List Job) (c : Call) → IsValid db → Kept db (step db c)
unfolding step
step-Kept db (enqueues session_exists id session version now created) v =
    rw append-nil at
      (enqueue-Kept db [] session_exists id session version now created (rw append-nil v))
step-Kept db (claims locked lease now) v = claim-Kept locked lease now db v
step-Kept db (heartbeats id attempt lease now) v = heartbeat-Kept id attempt lease now db v
step-Kept db (succeeds id attempt) v = mark_succeeded-Kept id attempt db v
step-Kept db (fails id attempt e now) v = mark_failed-Kept id attempt e now db v

pub run-Kept : (db : List Job) (cs : List Call) → IsValid db → Kept db (run db cs)
unfolding run
run-Kept db [] v = (v, Carries-refl db)
run-Kept db (c ∷ cs) v =
    let first = step-Kept db c v in
    Kept-trans db (step db c) _ first (run-Kept (step db c) cs first.0)

-- From a valid table, after any transactions in any order: the keys are still unique, and in every
-- row the lease, the attempts, the next attempt and the error fit the status.
pub run-IsValid : (db : List Job) (cs : List Call) → IsValid db → IsValid (run db cs)
run-IsValid db cs v = (run-Kept db cs v).0

-- A row that is completed, or failed with no attempt left, is the same row after any transactions.
pub run-IsFinal :
    (db : List Job) (cs : List Call) (k : ℕ) (j : Job)
    → IsValid db
    → get k db ≡ some j
    → IsFinal j
    → get k (run db cs) ≡ some j
run-IsFinal db cs k j v e f =
    let (j', e', m) = (run-Kept db cs v).1 k j e in e' ∙ ap some (Moves-IsFinal m f)

pub IsValid-empty : IsValid []
unfolding get
IsValid-empty = record { unique = tt; rows = λ k j e. cc }
