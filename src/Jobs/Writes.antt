-- ===== src/Jobs/Writes.antt =====
-- The other operations as such writes: what `_active_attempt` finds and lets a holder write, and the
-- rows that `enqueue_processing_job` inserts or takes up again.
use mathlib.Core.Option
use site_proof.Prelude.{
  ℕ, ◌≡◌, refl, String, Bool, true, ◌&&◌, Option, none, some, List, [], ◌∷◌, ◌++◌, arith,
  Bool-cases, Option-cases, inl, inr, subst,
}
use site_proof.Jobs.Job.{Job, Error, is_running, reuse, new_job, extended, succeeded, gave_up}
use site_proof.Jobs.Table.{get, find_key}
use site_proof.Jobs.Queue.{
  enqueue, insert_or_reuse, reuse_row, is_none, found_or, active_attempt, write_row, fenced,
  heartbeat, mark_succeeded, mark_failed,
}
use site_proof.Jobs.Rows.{KeepsKey, get-append, append-Unique}
use site_proof.Jobs.Moves.{Move, reuses, extends, succeeds, gives_up, here, IsValidJob}
use site_proof.Jobs.Carries.{IsValid, Carries-refl, Kept, update-Kept}

-- What `_active_attempt` finds is the row with this id, running, at this attempt.
pub active_attempt-some :
    (id attempt : ℕ) (db : List Job) {j : Job}
    → active_attempt id attempt db ≡ some j
    → (get id db ≡ some j) × (is_running j.status ≡ true) × (j.attempts ≡ attempt)
unfolding active_attempt
active_attempt-some id attempt db e = ground arith

write_row-Kept :
    (id attempt : ℕ) (write : Job → Job) (db : List Job) (o : Option Job)
    → KeepsKey write
    → ((j : Job) → is_running j.status ≡ true → Move j (write j))
    → active_attempt id attempt db ≡ o
    → IsValid db
    → Kept db (write_row id write db o).1
write_row-Kept id attempt write db none keeps moves e v = (v, Carries-refl db)
write_row-Kept id attempt write db (some j) keeps moves e v =
    let (found, active, _) = active_attempt-some id attempt db e in
    update-Kept id write db keeps
      (λ i q.
        let same : j ≡ i = cc (q, found) in
        subst (λ (x : Job). Move x (write x)) same (moves j active))
      v

fenced-Kept :
    (id attempt : ℕ) (write : Job → Job) (db : List Job)
    → KeepsKey write
    → ((j : Job) → is_running j.status ≡ true → Move j (write j))
    → IsValid db
    → Kept db (fenced id attempt write db).1
unfolding fenced
fenced-Kept id attempt write db keeps moves v =
    write_row-Kept id attempt write db _ keeps moves refl v

pub heartbeat-Kept :
    (id attempt lease now : ℕ) (db : List Job)
    → IsValid db
    → Kept db (heartbeat id attempt lease now db).1
unfolding heartbeat
heartbeat-Kept id attempt lease now db v =
    fenced-Kept id attempt _ db (unfold extended in ground arith) (extends now lease) v

pub mark_succeeded-Kept :
    (id attempt : ℕ) (db : List Job) → IsValid db → Kept db (mark_succeeded id attempt db).1
unfolding mark_succeeded
mark_succeeded-Kept id attempt db v =
    fenced-Kept id attempt _ db (unfold succeeded in ground arith) succeeds v

gave_up-KeepsKey : (now : ℕ) (e : Error) → KeepsKey (gave_up now e)
unfolding gave_up
gave_up-KeepsKey now e = ground arith

pub mark_failed-Kept :
    (id attempt : ℕ) (e : Error) (now : ℕ) (db : List Job)
    → IsValid db
    → Kept db (mark_failed id attempt e now db).1
unfolding mark_failed
mark_failed-Kept id attempt e now db v =
    fenced-Kept id attempt _ db (gave_up-KeepsKey now e) (gives_up now e) v

new_job-IsValidJob :
    (id session : ℕ) (version : String) (now created : ℕ)
    → IsValidJob (new_job id session version now created)
unfolding new_job
new_job-IsValidJob id session version now created = ground arith

-- The insert of a valid row whose id and key are new.
append-Kept :
    (db : List Job) (job : Job)
    → IsValidJob job
    → get job.id db ≡ none
    → find_key job.session_id job.pipeline_version db ≡ none
    → IsValid db
    → Kept db (db ++ job ∷ [])
append-Kept db job valid a b v = (
  record {
    unique = append-Unique db job a b v.unique;
    rows = λ k j e. elim (Option-cases (get k db)) [
      | inl q ↦ subst IsValidJob (new_row k j q e) valid
      | inr (i, q) ↦ subst IsValidJob (old_row k i j q e) (v.rows k i q)
    ];
  },
  λ k j e. (j, rw (get-append, e) (unfold Option.or_else in refl), here),
)
  where
    new_row : (k : ℕ) (j : Job) → get k db ≡ none → get k (db ++ job ∷ []) ≡ some j → job ≡ j
    new_row k j q e = unfold get Option.or_else in ground (arith, get-append k db (job ∷ []))

    old_row : (k : ℕ) (i j : Job) → get k db ≡ some i → get k (db ++ job ∷ []) ≡ some j → i ≡ j
    old_row k i j q e = unfold Option.or_else in ground (arith, get-append k db (job ∷ []))

reuse-KeepsKey : (now : ℕ) → KeepsKey (reuse now)
unfolding reuse
reuse-KeepsKey now = ground arith

-- The table after an operation that may raise, which then has no effect.
abbrev pub table_after : List Job → Option (Job × List Job) → List Job
table_after db none = db
table_after db (some (_, db')) = db'

pub reuse_row-Kept :
    (now : ℕ) (db : List Job) (o : Option Job)
    → IsValid db
    → Kept db (table_after db (reuse_row now db o))
reuse_row-Kept now db none v = (v, Carries-refl db)
reuse_row-Kept now db (some old) v =
    update-Kept old.id (reuse now) db (reuse-KeepsKey now) (λ j _. reuses now j) v

insert_or_reuse-Kept :
    (now : ℕ) (session_exists : Bool) (job : Job) (db : List Job)
    → IsValidJob job
    → IsValid db
    → Kept db (table_after db (insert_or_reuse now session_exists job db))
unfolding insert_or_reuse
insert_or_reuse-Kept now session_exists job db valid v =
    elim (Bool-cases (session_exists && is_none (get job.id db) && is_none existing)) [
      | inl t ↦ rw t (append-Kept db job valid (ground arith) (ground arith) v)
      | inr t ↦ rw t (reuse_row-Kept now db existing v)
    ]
  where
    existing : Option Job
    existing = find_key job.session_id job.pipeline_version db

found_or-Kept :
    (db : List Job) (missing : Option (Job × List Job)) (found : Job → Option (Job × List Job))
    (o : Option Job)
    → Kept db (table_after db missing)
    → ((j : Job) → Kept db (table_after db (found j)))
    → Kept db (table_after db (found_or missing found o))
found_or-Kept db missing found none a b = a
found_or-Kept db missing found (some j) a b = b j

-- Whatever is enqueued keeps the table that it commits to valid, even when it raises.
pub enqueue-Kept :
    (db won : List Job) (session_exists : Bool) (id session : ℕ) (version : String)
    (now created : ℕ)
    → let after = db ++ won in
      IsValid after
      → Kept after
          (table_after after (enqueue db won session_exists id session version now created))
unfolding enqueue
enqueue-Kept db won session_exists id session version now created v =
    let after : List Job = db ++ won in
    found_or-Kept after _ _ (find_key session version db)
      (insert_or_reuse-Kept now session_exists _ after
        (new_job-IsValidJob id session version now created) v)
      (λ old. reuse_row-Kept now after (some old) v)
