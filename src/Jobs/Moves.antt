-- ===== src/Jobs/Moves.antt =====
-- The life of one row: every change that processing_queue.py makes to a job is one of six moves.
use site_proof.Prelude.{ℕ, ◌≤◌, ◌<◌, ◌≡◌, ◌≢◌, refl, ◌∙◌, true, none, arith, subst, sym, ◌⊎◌}
use site_proof.Jobs.Job.{
  Job, Error, pending, running, retry, completed, failed, is_running, reuse, is_expired, recovered,
  is_runnable, claimed, extended, succeeded, gave_up,
}

pub data Move : Job → Job → Type 0 where
  reuses : (now : ℕ) (j : Job) → Move j (reuse now j)
  recovers : (now : ℕ) (j : Job) → is_expired now j ≡ true → Move j (recovered now j)
  claims : (now lease : ℕ) (j : Job) → is_runnable now j ≡ true → Move j (claimed now lease j)
  extends : (now lease : ℕ) (j : Job) → is_running j.status ≡ true → Move j (extended now lease j)
  succeeds : (j : Job) → is_running j.status ≡ true → Move j (succeeded j)
  gives_up : (now : ℕ) (e : Error) (j : Job) → is_running j.status ≡ true → Move j (gave_up now e j)

pub data Moves (j : Job) : Job → Type 0 where
  here : Moves j j
  next : {i k : Job} → Moves j i → Move i k → Moves j k

pub Moves-trans : {a b c : Job} → Moves a b → Moves b c → Moves a c
Moves-trans r here = r
Moves-trans r (next s m) = next (Moves-trans r s) m

-- What holds of a row between two transactions.
pub record IsValidJob (j : Job) : Type 0 where
  pub budget : j.attempts ≤ j.max_attempts
  pub running_leased : j.status ≡ running → j.lease_expires_at ≢ none
  pub idle_unleased : j.status ≢ running → j.lease_expires_at ≡ none
  pub running_tried : j.status ≡ running → 0 < j.attempts
  pub pending_fresh : j.status ≡ pending → (j.attempts ≡ 0) × (0 < j.max_attempts)
  pub retry_left : j.status ≡ retry → (j.attempts < j.max_attempts) × (j.next_attempt_at ≢ none)
  pub failed_spent : j.status ≡ failed → j.attempts ≡ j.max_attempts
  pub settled : j.status ≡ completed → (j.next_attempt_at ≡ none) × (j.last_error ≡ none)

Move-IsValidJob : {i j : Job} → Move i j → IsValidJob i → IsValidJob j
unfolding reuse is_expired recovered is_runnable claimed extended succeeded gave_up
Move-IsValidJob (reuses now j) v = ground arith
Move-IsValidJob (recovers now j h) v = ground arith
Move-IsValidJob (claims now lease j h) v = ground arith
Move-IsValidJob (extends now lease j h) v = ground arith
Move-IsValidJob (succeeds j h) v = ground arith
Move-IsValidJob (gives_up now e j h) v = ground arith

pub Moves-IsValidJob : {i j : Job} → IsValidJob i → Moves i j → IsValidJob j
Moves-IsValidJob v here = v
Moves-IsValidJob v (next r m) = Move-IsValidJob m (Moves-IsValidJob v r)

-- What a row keeps for ever.
pub record Follows (i j : Job) : Type 0 where
  pub same_id : j.id ≡ i.id
  pub same_session : j.session_id ≡ i.session_id
  pub same_version : j.pipeline_version ≡ i.pipeline_version
  pub same_budget : j.max_attempts ≡ i.max_attempts
  pub same_birth : j.created_at ≡ i.created_at
  pub attempts_grow : i.attempts ≤ j.attempts

Move-Follows : {i j : Job} → Move i j → Follows i j
unfolding reuse recovered claimed extended succeeded gave_up
Move-Follows (reuses now j) = ground arith
Move-Follows (recovers now j h) = ground arith
Move-Follows (claims now lease j h) = ground arith
Move-Follows (extends now lease j h) = ground arith
Move-Follows (succeeds j h) = ground arith
Move-Follows (gives_up now e j h) = ground arith

pub Moves-Follows : {i j : Job} → Moves i j → Follows i j
Moves-Follows here = ground arith
Moves-Follows (next r m) =
    let f = Moves-Follows r in
    let g = Move-Follows m in
    record {
      same_id = g.same_id ∙ f.same_id;
      same_session = g.same_session ∙ f.same_session;
      same_version = g.same_version ∙ f.same_version;
      same_budget = g.same_budget ∙ f.same_budget;
      same_birth = g.same_birth ∙ f.same_birth;
      attempts_grow = omega arith;
    }

-- A completed row, and a failed one with no attempt left, never change again.
abbrev pub IsFinal : Job → Type 0
IsFinal j = (j.status ≡ completed) ⊎ ((j.status ≡ failed) × (j.max_attempts ≤ j.attempts))

Move-IsFinal : {i j : Job} → Move i j → IsFinal i → j ≡ i
unfolding reuse is_expired is_runnable
Move-IsFinal (reuses now j) f = ground arith
Move-IsFinal (recovers now j h) f = ground arith
Move-IsFinal (claims now lease j h) f = ground arith
Move-IsFinal (extends now lease j h) f = ground arith
Move-IsFinal (succeeds j h) f = ground arith
Move-IsFinal (gives_up now e j h) f = ground arith

pub Moves-IsFinal : {i j : Job} → Moves i j → IsFinal i → j ≡ i
Moves-IsFinal here f = refl
Moves-IsFinal (next r m) f =
    let e = Moves-IsFinal r f in Move-IsFinal m (subst IsFinal (sym e) f) ∙ e
