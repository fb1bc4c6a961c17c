-- ===== src/Challenges/Completion.antt =====
-- What an accepted submission does: when it ends the sequence, and what a second one gets.
use site_proof.Prelude.{
  ℕ, String, ◌+◌, ◌≡◌, refl, ap, ◌∙◌, sym, subst, true, false, not, ◌&&◌, Option, some, List, ◌∷◌,
  arith, length, leb, if◌then◌else◌,
}
use site_proof.Prelude.Reply.{Reply, Check, ok, err}
use site_proof.Sessions.Session.{SessionStatus, challenge_failed, challenges_completed}
use site_proof.Challenges.Challenge.{
  Challenge, ChallengeStatus, started, Settings, Outcome, is_started, is_terminal, is_retryable,
  mark_submitted,
}
use site_proof.Challenges.Rows.{get, update, retry_count, latest_by_sequence, explicit_failures}
use site_proof.Challenges.Sequence.{IsSequence, settled, settled_lem, length-append_one}
use site_proof.Challenges.Counts.{retry_count_lem}
use site_proof.Challenges.Places.{update-last, last-IsSequence}
use site_proof.Challenges.Invariant.{IsValid}
use site_proof.Challenges.Service.{Store, with_row, finalize_sequence}
use site_proof.Challenges.Submit.{
  after_check, Tools, Submission, Response, validate_structure, submit_challenge, submit_row,
  record_outcome,
}
use site_proof.Challenges.Writes.{submitted_keeps, started-is_active}
use site_proof.Challenges.Lookup.{get-last}

started-is_terminal : (s : ChallengeStatus) → is_started s ≡ true → is_terminal s ≡ false
unfolding is_terminal
started-is_terminal started e = refl
started-is_terminal _ e = ground arith

checked :
    {A : Type 0} (k : Check) (store : Store) (rest : Reply A × Store) (r : A)
    → (after_check k store rest).0 ≡ ok r
    → after_check k store rest ≡ rest
checked (ok _) store rest r e = refl
checked (err a b) store rest r e = ground arith

module _ (settings : Settings) (tools : Tools) where
  -- An accepted submission of a started challenge records the validator's outcome.
  pub accepted :
      (now : ℕ) (access : Check) (organization : ℕ) (payload : Submission) (store : Store)
      (c : Challenge) (r : Response)
      → is_started c.status ≡ true
      → (submit_row settings tools now access organization payload store c).0 ≡ ok r
      → (submit_row settings tools now access organization payload store c
          ≡ record_outcome settings now payload
              (tools.hash payload.document)
              store
              c
              (tools.validate store.session c payload.document))
        × (c.organization_id ≡ organization)
  unfolding submit_row
  accepted now (err a b) organization payload store c r s e = ground arith
  accepted now (ok _) organization payload store c r s e =
      let open_status = started-is_terminal c.status s in
      let check =
        checked (validate_structure settings tools store.session c payload.document) store
          (record_outcome settings now payload (tools.hash payload.document) store c
            (tools.validate store.session c payload.document))
          r in
      ground arith

  length_latest :
      (c : Challenge) (older : List Challenge)
      → IsSequence settings (c ∷ older)
      → length (latest_by_sequence (c ∷ older)) ≡ c.sequence_number
  length_latest c older v =
      let latest = settled_lem settings c older v in
      ap length latest.2 ∙ length-append_one (settled (c ∷ older)) c ∙ latest.1

  -- The numbers of the code after a write to the last row.
  counts :
      (c : Challenge) (older : List Challenge) (f : Challenge → Challenge)
      → (f c).id ≡ c.id
      → (f c).sequence_number ≡ c.sequence_number
      → (f c).attempt_number ≡ c.attempt_number
      → IsSequence settings (c ∷ older)
      → let rows = update c.id f (c ∷ older) in
        (retry_count rows c.sequence_number + 1 ≡ c.attempt_number)
        × (length (latest_by_sequence rows) ≡ c.sequence_number)
  counts c older f i s a v =
      let written = update-last settings c older f v in
      let v' = last-IsSequence settings c (f c) older i s a v in
      let retries = retry_count_lem settings (f c) older v' in
      let latest = length_latest (f c) older v' in
      (
        ap (λ rows. retry_count rows c.sequence_number + 1) written
            ∙ ap (λ n. retry_count (f c ∷ older) n + 1) (sym s)
            ∙ retries
            ∙ a,
        ap (λ rows. length (latest_by_sequence rows)) written ∙ latest ∙ s,
      )

  -- The status after an outcome, from the place of the challenge in the sequence.
  unfoldable pub status_after : Outcome → Challenge → ℕ → SessionStatus → SessionStatus
  status_after outcome c failures before =
      let retry_left =
        is_retryable (some outcome.result) && leb c.attempt_number settings.challenge_max_retries in
      if leb settings.challenge_count c.sequence_number && not retry_left
      then (if leb settings.challenge_failure_limit failures
          then challenge_failed
          else challenges_completed)
      else before

  recorded :
      (now : ℕ) (payload : Submission) (hash : String) (store : Store) (c : Challenge)
      (outcome : Outcome)
      → let rows =
          update c.id (mark_submitted now outcome hash payload.idempotency_key) store.rows in
        let after = (record_outcome settings now payload hash store c outcome).1 in
        (retry_count rows c.sequence_number + 1 ≡ c.attempt_number)
        → (length (latest_by_sequence rows) ≡ c.sequence_number)
        → after.session.status
          ≡ status_after outcome c
              (explicit_failures (latest_by_sequence after.rows))
              store.session.status
  unfolding record_outcome finalize_sequence status_after
  recorded now payload hash store c outcome retries latest = ground arith

  -- On valid rows, an accepted submission of a started challenge ends the session's challenges
  -- exactly if its sequence number has reached the count and no retry is left, with CHALLENGE_FAILED
  -- exactly if the last attempts of the sequences have as many failures as the limit.
  pub submit_challenge-status :
      (now : ℕ) (access : Check) (organization id : ℕ) (payload : Submission) (store : Store)
      (c : Challenge) (r : Response)
      → IsValid settings store.rows
      → get id store.rows ≡ some c
      → is_started c.status ≡ true
      → (submit_challenge settings tools now access organization id payload store).0 ≡ ok r
      → let after = (submit_challenge settings tools now access organization id payload store).1 in
        let outcome = tools.validate store.session c payload.document in
        after.session.status
        ≡ status_after outcome c
            (explicit_failures (latest_by_sequence after.rows))
            store.session.status
  unfolding submit_challenge
  submit_challenge-status now access organization id payload store c r v e s h = rw e (
      subst
        (λ (x : Reply Response × Store).
          x.1.session.status
          ≡ status_after outcome c (explicit_failures (latest_by_sequence x.1.rows))
              store.session.status)
        (sym
          (accepted now access organization payload store c r s (
            subst
              (λ (o : Option Challenge).
                (with_row store (submit_row settings tools now access organization payload store)
                  o).0
                ≡ ok r)
              e h)).0)
        (recorded now payload hash store c outcome numbers.0 numbers.1))
    where
      outcome : Outcome
      outcome = tools.validate store.session c payload.document

      hash : String
      hash = tools.hash payload.document

      write : Challenge → Challenge
      write = mark_submitted now outcome hash payload.idempotency_key

      numbers :
          (retry_count (update c.id write store.rows) c.sequence_number + 1 ≡ c.attempt_number)
          × (length (latest_by_sequence (update c.id write store.rows)) ≡ c.sequence_number)
      numbers =
          let last =
            get-last settings store.rows id c v.0 e (started-is_active settings c.status s) in
          let keeps = submitted_keeps settings now outcome hash payload.idempotency_key c in
          subst
            (λ rows.
              (retry_count (update c.id write rows) c.sequence_number + 1 ≡ c.attempt_number)
              × (length (latest_by_sequence (update c.id write rows)) ≡ c.sequence_number))
            (sym last.1)
            (counts c last.0 write keeps.0 keeps.1 keeps.2 (subst (IsSequence settings) last.1 v.0))
