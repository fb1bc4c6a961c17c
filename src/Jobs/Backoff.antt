-- ===== src/Jobs/Backoff.antt =====
-- The delay before the next attempt of a failed job, in `mark_processing_job_failed`.
use native.Mathlib.Nat.{pow-suc}
use site_proof.Prelude.{
  ℕ, zero, suc, ◌+◌, ◌-◌, ◌*◌, ◌^◌, ◌≤◌, ◌<◌, ◌≡◌, min, arith, some, none, ◌⊎◌, inl, inr,
  Bool-cases, leb, subst,
}
use site_proof.Jobs.Job.{Job, Error, retry, failed, retry_delay, gave_up, seconds}

pow_pos : (n : ℕ) → 1 ≤ 2 ^ n
pow_pos zero = omega arith
pow_pos (suc n) = rw pow-suc (omega (arith, pow_pos n))

-- Between 5 and 300 seconds, doubling from one attempt to the next up to the cap.
pub retry_delay_bounds :
    (n : ℕ)
    → (5 ≤ retry_delay (suc n))
      × (retry_delay (suc n) ≤ 300)
      × (retry_delay (suc (suc n)) ≡ min 300 (2 * retry_delay (suc n)))
unfolding retry_delay
retry_delay_bounds n =
    let one : suc n - 1 ≡ n = omega arith in
    let two : suc (suc n) - 1 ≡ suc n = omega arith in
    rw (one, two, pow-suc) (omega (arith, pow_pos n))

-- A failure of the last attempt is final. Any other one is tried again, no sooner than 5 seconds and
-- no later than 300 seconds from the failure.
pub gave_up_schedule :
    (now : ℕ) (e : Error) (j : Job)
    → 0 < j.attempts
    → let j' = gave_up now e j in
      ((j.max_attempts ≤ j.attempts) × (j'.status ≡ failed) × (j'.next_attempt_at ≡ none))
      ⊎ ((j.attempts < j.max_attempts)
          × (j'.status ≡ retry)
          × ((t : ℕ) × (j'.next_attempt_at ≡ some t)
              × (now + seconds 5 ≤ t)
              × (t ≤ now + seconds 300)))
unfolding gave_up
gave_up_schedule now e j h = elim (Bool-cases (leb j.max_attempts j.attempts)) [
  | inl t ↦ inl (ground arith, rw t, rw t)
  | inr t ↦
      let b = retry_delay_bounds (j.attempts - 1) in
      let n : suc (j.attempts - 1) ≡ j.attempts = omega arith in
      let b' = subst (λ (k : ℕ). (5 ≤ retry_delay k) × (retry_delay k ≤ 300)) n (b.0, b.1) in
      inr (
        ground arith,
        rw t,
        (now + seconds (retry_delay j.attempts), rw t, omega arith, omega arith),
      )
]
