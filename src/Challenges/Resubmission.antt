-- ===== src/Challenges/Resubmission.antt =====
-- A second submission of a challenge whose first one was accepted.
use site_proof.Prelude.{
  ℕ, String, ◌<◌, ◌≡◌, ◌≢◌, ◌⊎◌, inl, inr, refl, ap, ◌∙◌, sym, subst, Bool, true, ◌&&◌, some, List,
  [], ◌∷◌, arith, str_eq, if◌then◌else◌,
}
use site_proof.Prelude.Reply.{Reply, Check, ok, err}
use site_proof.Sessions.Session.{Session}
use site_proof.Challenges.Challenge.{
  Challenge, ChallengeResult, pass, Settings, Outcome, is_started, is_terminal, status_of,
  mark_submitted,
}
use site_proof.Challenges.Rows.{get, update}
use site_proof.Challenges.Service.{Store, with_row, finalize_sequence}
use site_proof.Challenges.Submit.{
  Tools, Submission, Response, is_same_submission, submit_challenge, submit_row, record_outcome,
}
use site_proof.Challenges.Lookup.{get-cons, update-cons, get_id}
use site_proof.Challenges.Completion.{accepted}

get-head :
    (id : ℕ) (x : Challenge) (xs : List Challenge)
    → (x.id ≡ id → get id (x ∷ xs) ≡ some x) × (x.id ≢ id → get id (x ∷ xs) ≡ get id xs)
unfolding get
get-head id x xs = (λ h. ground arith, λ h. ground arith)

get_nothing : {A : Type 0} (id : ℕ) (c : Challenge) → get id [] ≡ some c → A
unfolding get
get_nothing id c h = ground arith

get-update :
    (id : ℕ) (rows : List Challenge) (c : Challenge) (f : Challenge → Challenge)
    → get id rows ≡ some c
    → (f c).id ≡ id
    → get id (update id f rows) ≡ some (f c)
get-update id [] c f e i = get_nothing id c e
get-update id (d ∷ older) c f e i = after (get-update id older c f) (get-cons id d c older e)
  where
    after :
        (get id older ≡ some c → (f c).id ≡ id → get id (update id f older) ≡ some (f c))
        → ((d ≡ c) × (d.id ≡ id)) ⊎ ((d.id ≢ id) × (get id older ≡ some c))
        → get id (update id f (d ∷ older)) ≡ some (f c)
    after rest (inl found) =
        let same : f d ≡ f c = ap f found.0 in
        ap (get id) ((update-cons id d older f).0 found.1)
        ∙ ap (λ x. get id (x ∷ update id f older)) same
        ∙ (get-head id (f c) (update id f older)).0 i
    after rest (inr other) =
        ap (get id) ((update-cons id d older f).1 other.0)
        ∙ (get-head id d (update id f older)).1 other.0
        ∙ rest other.1 i

terminal-status_of : (r : ChallengeResult) → is_terminal (status_of r) ≡ true
unfolding is_terminal status_of
terminal-status_of pass = refl
terminal-status_of _ = refl

module _ (settings : Settings) (tools : Tools) where
  expiry :
      (rows : List Challenge) (session : Session)
      → (finalize_sequence settings rows session).expires_at ≡ session.expires_at
  unfolding finalize_sequence
  expiry rows session = ground arith

  resubmitted :
      (now : ℕ) (organization : ℕ) (payload : Submission) (store : Store) (c : Challenge)
      (later : ℕ) (payload' : Submission) (outcome : Outcome)
      → c.organization_id ≡ organization
      → later < store.session.expires_at
      → let hash = tools.hash payload.document in
        let recorded = record_outcome settings now payload hash store c outcome in
        let same =
          str_eq payload.idempotency_key payload'.idempotency_key
          && str_eq hash (tools.hash payload'.document)
          && str_eq c.nonce payload'.nonce in
        submit_row settings tools later
          (ok tt)
          organization
          payload'
          recorded.1
          (mark_submitted now outcome hash payload.idempotency_key c)
        ≡ (if same then recorded else (err 409 "CHALLENGE_ALREADY_COMPLETED", recorded.1))
  unfolding submit_row record_outcome mark_submitted is_same_submission
  resubmitted now organization payload store c later payload' outcome o l = ground (
    arith,
    terminal-status_of outcome.result,
    expiry
        (update c.id
          (mark_submitted now outcome (tools.hash payload.document) payload.idempotency_key)
          store.rows)
        store.session,
  )

  on_row :
      (now : ℕ) (access : Check) (organization id : ℕ) (payload : Submission) (store : Store)
      (c : Challenge)
      → get id store.rows ≡ some c
      → submit_challenge settings tools now access organization id payload store
        ≡ submit_row settings tools now access organization payload store c
  unfolding submit_challenge
  on_row now access organization id payload store c e =
      ap (with_row store (submit_row settings tools now access organization payload store)) e

  recorded_rows :
      (now : ℕ) (payload : Submission) (hash : String) (store : Store) (c : Challenge)
      (outcome : Outcome)
      → (record_outcome settings now payload hash store c outcome).1.rows
        ≡ update c.id (mark_submitted now outcome hash payload.idempotency_key) store.rows
  unfolding record_outcome
  recorded_rows now payload hash store c outcome = refl

  submitted_id :
      (now : ℕ) (outcome : Outcome) (hash key : String) (c : Challenge)
      → (mark_submitted now outcome hash key c).id ≡ c.id
  unfolding mark_submitted
  submitted_id now outcome hash key c = refl

  -- A challenge whose submission was accepted answers the same submission again, without a write,
  -- and refuses every other one, as long as the session has not expired.
  pub submit_again :
      (now : ℕ) (access : Check) (organization id : ℕ) (payload : Submission) (store : Store)
      (c : Challenge) (r : Response) (later : ℕ) (payload' : Submission)
      → get id store.rows ≡ some c
      → is_started c.status ≡ true
      → (submit_challenge settings tools now access organization id payload store).0 ≡ ok r
      → later < store.session.expires_at
      → let after = (submit_challenge settings tools now access organization id payload store).1 in
        let same =
          str_eq payload.idempotency_key payload'.idempotency_key
          && str_eq (tools.hash payload.document) (tools.hash payload'.document)
          && str_eq c.nonce payload'.nonce in
        submit_challenge settings tools later (ok tt) organization id payload' after
        ≡ (if same then (ok r, after) else (err 409 "CHALLENGE_ALREADY_COMPLETED", after))
  submit_again now access organization id payload store c r later payload' e s h l =
      subst
        (λ (x : Reply Response × Store).
          submit_challenge settings tools later (ok tt) organization id payload' x.1
          ≡ (if same then (ok r, x.1) else (err 409 "CHALLENGE_ALREADY_COMPLETED", x.1)))
        (sym first)
        (opened (written_row)
          ∙ again
          ∙ ap
              (λ (x : Reply Response).
                if same
                then (x, recorded.1)
                else (err 409 "CHALLENGE_ALREADY_COMPLETED", recorded.1))
              answered)
    where
      outcome : Outcome
      outcome = tools.validate store.session c payload.document

      hash : String
      hash = tools.hash payload.document

      write : Challenge → Challenge
      write = mark_submitted now outcome hash payload.idempotency_key

      recorded : Reply Response × Store
      recorded = record_outcome settings now payload hash store c outcome

      same : Bool
      same =
          str_eq payload.idempotency_key payload'.idempotency_key
          && str_eq hash (tools.hash payload'.document)
          && str_eq c.nonce payload'.nonce

      found :
          submit_challenge settings tools now access organization id payload store
          ≡ submit_row settings tools now access organization payload store c
      found = on_row now access organization id payload store c e

      ok_row : (submit_row settings tools now access organization payload store c).0 ≡ ok r
      ok_row = ap (λ (x : Reply Response × Store). x.0) (sym found) ∙ h

      first : submit_challenge settings tools now access organization id payload store ≡ recorded
      first = found ∙ (accepted settings tools now access organization payload store c r s ok_row).0

      answered : recorded.0 ≡ ok r
      answered = ap (λ (x : Reply Response × Store). x.0) (sym first) ∙ h

      again :
          submit_row settings tools later (ok tt) organization payload' recorded.1 (write c)
          ≡ (if same then recorded else (err 409 "CHALLENGE_ALREADY_COMPLETED", recorded.1))
      again =
          resubmitted now organization payload store c later payload' outcome
            (accepted settings tools now access organization payload store c r s ok_row).1 l

      written_row : get id recorded.1.rows ≡ some (write c)
      written_row =
          let same_id = get_id settings store.rows id c e in
          ap (get id) (recorded_rows now payload hash store c outcome)
          ∙ ap (λ n. get id (update n write store.rows)) same_id
          ∙ get-update id store.rows c write e
              (submitted_id now outcome hash payload.idempotency_key c ∙ same_id)

      opened :
          get id recorded.1.rows ≡ some (write c)
          → submit_challenge settings tools later (ok tt) organization id payload' recorded.1
            ≡ submit_row settings tools later (ok tt) organization payload' recorded.1 (write c)
      opened g = on_row later (ok tt) organization id payload' recorded.1 (write c) g
