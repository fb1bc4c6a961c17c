-- ===== src/Jobs/Fencing.antt =====
-- The attempt number as a fencing token: what a worker may write after its lease was given to another
-- one, and the numbers that claims of a row return.
use site_proof.Prelude.{ℕ, ◌<◌, ◌≡◌, Bool, false, Option, some, List, arith, ap, subst}
use site_proof.Jobs.Job.{Job, Error}
use site_proof.Jobs.Table.{get}
use site_proof.Jobs.Queue.{active_attempt, fenced, heartbeat, mark_succeeded, mark_failed, claim}
use site_proof.Jobs.Moves.{Moves-Follows}
use site_proof.Jobs.Carries.{IsValid, claim-Kept}
use site_proof.Jobs.Claims.{Outcome, claim_outcome}
use site_proof.Jobs.Trace.{Call, run, run-Kept}

-- A token that is not the row's number of attempts is refused, and the table stays as it is.
fenced_stale :
    (id attempt : ℕ) (write : Job → Job) (db : List Job) (j : Job)
    → get id db ≡ some j
    → attempt < j.attempts
    → fenced id attempt write db ≡ (false, db)
unfolding fenced active_attempt
fenced_stale id attempt write db j e h = ground arith

-- Once a row has gone past an attempt, whatever transactions follow, a heartbeat, a success and a
-- failure that carry this attempt are all refused and change nothing.
pub stale_token :
    (db : List Job) (cs : List Call) (id attempt : ℕ) (j : Job)
    → IsValid db
    → get id db ≡ some j
    → attempt < j.attempts
    → (lease now : ℕ) (e : Error)
    → let db' = run db cs in
      (heartbeat id attempt lease now db' ≡ (false, db'))
      × (mark_succeeded id attempt db' ≡ (false, db'))
      × (mark_failed id attempt e now db' ≡ (false, db'))
unfolding heartbeat mark_succeeded mark_failed
stale_token db cs id attempt j v q h lease now e =
    let (j', q', m) = (run-Kept db cs v).1 id j q in
    let later : attempt < j'.attempts = omega (arith, (Moves-Follows m).attempts_grow) in
    (
      fenced_stale id attempt _ _ j' q' later,
      fenced_stale id attempt _ _ j' q' later,
      fenced_stale id attempt _ _ j' q' later,
    )

-- Two claims of one row, with any transactions between them, return different tokens: the later one
-- is greater.
pub tokens_differ :
    (db db₁ db₂ : List Job) (cs : List Call) (a b : Job) (locked₁ locked₂ : ℕ → Bool)
    (lease₁ lease₂ now₁ now₂ : ℕ)
    → IsValid db
    → claim locked₁ lease₁ now₁ db ≡ (some a, db₁)
    → claim locked₂ lease₂ now₂ (run db₁ cs) ≡ (some b, db₂)
    → a.id ≡ b.id
    → a.attempts < b.attempts
tokens_differ db db₁ db₂ cs a b locked₁ locked₂ lease₁ lease₂ now₁ now₂ v e f same =
    let (_, first) =
      subst (Outcome locked₁ lease₁ now₁ db) e (claim_outcome locked₁ lease₁ now₁ db v) in
    let valid : IsValid db₁ =
      subst IsValid (ap (λ (r : Option Job × List Job). r.1) e)
        (claim-Kept locked₁ lease₁ now₁ db v).0 in
    let (run_valid, carries) = run-Kept db₁ cs valid in
    let (a', e', m) = carries a.id a first.written in
    let (i, second) =
      subst (Outcome locked₂ lease₂ now₂ (run db₁ cs)) f
        (claim_outcome locked₂ lease₂ now₂ (run db₁ cs) run_valid) in
    let one : a' ≡ i = cc (e', second.found, same) in
    omega (
      arith,
      (Moves-Follows m).attempts_grow,
      second.next_attempt,
      ap (λ (j : Job). j.attempts) one,
    )
