-- ===== src/Challenges/Writes.antt =====
-- `start_challenge` and `submit_challenge` on valid rows.
use site_proof.Prelude.{
  ℕ, String, ◌≡◌, ◌⊎◌, inl, inr, refl, sym, subst, true, false, Option, none, some, List, arith,
  Bool-cases,
}
use site_proof.Prelude.Reply.{Check, ok, err}
use site_proof.Challenges.Challenge.{
  Challenge, ChallengeStatus, issued, started, Settings, Outcome, is_active, is_issued, is_started,
  mark_expired, mark_started, mark_submitted,
}
use site_proof.Challenges.Rows.{get, update}
use site_proof.Challenges.Invariant.{
  Fits, FitsAt, IsValid, mark_submitted-Fits, mark_expired-Fits, expired_keeps, write_last-IsValid,
}
use site_proof.Challenges.Service.{Store, with_row, start_challenge, start_row}
use site_proof.Challenges.Submit.{
  validate_structure, Tools, Submission, submit_challenge, submit_row, record_outcome,
}
use site_proof.Challenges.Lookup.{update_same, get-last, get_id}

module _ (settings : Settings) where
  -- A write to an active row that keeps its id and its numbers, and fits.
  write_active-IsValid :
      (rows : List Challenge) (id : ℕ) (c : Challenge) (f : Challenge → Challenge)
      → IsValid settings rows
      → get id rows ≡ some c
      → is_active c.status ≡ true
      → (f c).id ≡ c.id
      → (f c).sequence_number ≡ c.sequence_number
      → (f c).attempt_number ≡ c.attempt_number
      → (Fits c → Fits (f c))
      → IsValid settings (update c.id f rows)
  write_active-IsValid rows id c f v e a i s t fits =
      let last = get-last settings rows id c v.0 e a in
      let v' = subst (IsValid settings) last.1 v in
      subst (λ rs. IsValid settings (update c.id f rs)) (sym last.1)
        (write_last-IsValid settings c last.0 f i s t (fits v'.1.0) v')

  -- What `start_challenge` does to the rows.
  start_row_cases :
      (now : ℕ) (access : Check) (organization : ℕ) (nonce : String) (client_ns : ℕ) (store : Store)
      (c : Challenge)
      → let after = (start_row now access organization nonce client_ns store c).1.rows in
        (after ≡ store.rows)
        ⊎ (after ≡ update c.id (mark_expired now) store.rows)
        ⊎ ((is_issued c.status ≡ true)
            × (after ≡ update c.id (mark_started now client_ns) store.rows))
  unfolding start_row
  start_row_cases now (err status code) organization nonce client_ns store c = inl refl
  start_row_cases now (ok _) organization nonce client_ns store c =
      by_anchor store.session.capture_anchor_monotonic_ns refl
    where
      by_anchor :
          (o : Option ℕ)
          → store.session.capture_anchor_monotonic_ns ≡ o
          → (let after = (start_row now (ok tt) organization nonce client_ns store c).1.rows in
              (after ≡ store.rows)
              ⊎ (after ≡ update c.id (mark_expired now) store.rows)
              ⊎ ((is_issued c.status ≡ true)
                  × (after ≡ update c.id (mark_started now client_ns) store.rows)))
      by_anchor none e = rw e (ground arith)
      by_anchor (some anchor) e = rw e (ground arith)

  issued-is_active : (s : ChallengeStatus) → is_issued s ≡ true → is_active s ≡ true
  unfolding is_active
  issued-is_active issued e = refl
  issued-is_active _ e = ground arith

  pub started-is_active : (s : ChallengeStatus) → is_started s ≡ true → is_active s ≡ true
  unfolding is_active
  started-is_active started e = refl
  started-is_active _ e = ground arith

  idle-mark_expired :
      (now : ℕ) (c : Challenge) → is_active c.status ≡ false → mark_expired now c ≡ c
  unfolding mark_expired
  idle-mark_expired now c e = rw e refl

  started-Fits :
      (now client_ns : ℕ) (c : Challenge)
      → is_issued c.status ≡ true
      → Fits c
      → Fits (mark_started now client_ns c)
  unfolding mark_started
  started-Fits now client_ns c e h = of_issued c.status e h
    where
      of_issued : (s : ChallengeStatus) → is_issued s ≡ true → FitsAt s c → FitsAt issued c
      of_issued issued e h = h
      of_issued _ e h = ground arith

  started_keeps :
      (now client_ns : ℕ) (c : Challenge)
      → let c' = mark_started now client_ns c in
        (c'.id ≡ c.id)
        × (c'.sequence_number ≡ c.sequence_number)
        × (c'.attempt_number ≡ c.attempt_number)
  unfolding mark_started
  started_keeps now client_ns c = (refl, refl, refl)

  pub submitted_keeps :
      (now : ℕ) (o : Outcome) (h k : String) (c : Challenge)
      → let c' = mark_submitted now o h k c in
        (c'.id ≡ c.id)
        × (c'.sequence_number ≡ c.sequence_number)
        × (c'.attempt_number ≡ c.attempt_number)
  unfolding mark_submitted
  submitted_keeps now o h k c = (refl, refl, refl)

  expire_row-IsValid :
      (now : ℕ) (rows : List Challenge) (c : Challenge)
      → IsValid settings rows
      → get c.id rows ≡ some c
      → IsValid settings (update c.id (mark_expired now) rows)
  expire_row-IsValid now rows c v e = elim (Bool-cases (is_active c.status)) [
    | inl busy ↦
        let keeps = expired_keeps settings now c in
        write_active-IsValid rows c.id c (mark_expired now) v e busy keeps.0 keeps.1 keeps.2
          (λ h. mark_expired-Fits now c h busy)
    | inr idle ↦
        subst (IsValid settings)
          (sym (
            update_same settings rows c.id c (mark_expired now) v.0 e
              (idle-mark_expired now c idle)))
          v
  ]

  -- `start_challenge` keeps the rows valid.
  pub start_challenge-IsValid :
      (now : ℕ) (access : Check) (organization id : ℕ) (nonce : String) (client_ns : ℕ)
      (store : Store)
      → IsValid settings store.rows
      → IsValid settings (start_challenge now access organization id nonce client_ns store).1.rows
  unfolding start_challenge
  start_challenge-IsValid now access organization id nonce client_ns store v =
      by_row (get id store.rows) refl
    where
      by_row :
          (o : Option Challenge)
          → get id store.rows ≡ o
          → IsValid settings
              (with_row store (start_row now access organization nonce client_ns store) o).1.rows
      by_row none e = v
      by_row (some c) e =
          let same = get_id settings store.rows id c e in
          let found = subst (λ n. get n store.rows ≡ some c) (sym same) e in
          elim (start_row_cases now access organization nonce client_ns store c) [
            | inl kept ↦ subst (IsValid settings) (sym kept) v
            | inr (inl expired) ↦
                subst (IsValid settings) (sym expired) (expire_row-IsValid now store.rows c v found)
            | inr (inr begun) ↦
                let keeps = started_keeps now client_ns c in
                subst (IsValid settings) (sym begun.1) (
                  write_active-IsValid store.rows c.id c (mark_started now client_ns) v found
                    (issued-is_active c.status begun.0) keeps.0 keeps.1 keeps.2
                    (started-Fits now client_ns c begun.0))
          ]

  -- What `submit_challenge` does to the rows.
  submit_row_cases :
      (tools : Tools) (now : ℕ) (access : Check) (organization : ℕ) (payload : Submission)
      (store : Store) (c : Challenge)
      → let after = (submit_row settings tools now access organization payload store c).1.rows in
        let outcome = tools.validate store.session c payload.document in
        let write =
          mark_submitted now outcome (tools.hash payload.document) payload.idempotency_key in
        (after ≡ store.rows)
        ⊎ ((is_started c.status ≡ true) × (after ≡ update c.id write store.rows))
  unfolding submit_row record_outcome
  submit_row_cases tools now (err status code) organization payload store c = inl refl
  submit_row_cases tools now (ok _) organization payload store c =
      by_check (validate_structure settings tools store.session c payload.document) refl
    where
      by_check :
          (r : Check)
          → validate_structure settings tools store.session c payload.document ≡ r
          → (let after =
                (submit_row settings tools now (ok tt) organization payload store c).1.rows in
              let outcome = tools.validate store.session c payload.document in
              let write =
                mark_submitted now outcome (tools.hash payload.document) payload.idempotency_key in
              (after ≡ store.rows)
              ⊎ ((is_started c.status ≡ true) × (after ≡ update c.id write store.rows)))
      by_check (ok _) e = rw e (ground arith)
      by_check (err a b) e = rw e (ground arith)

  -- `submit_challenge` keeps the rows valid.
  pub submit_challenge-IsValid :
      (tools : Tools) (now : ℕ) (access : Check) (organization id : ℕ) (payload : Submission)
      (store : Store)
      → IsValid settings store.rows
      → IsValid settings
          (submit_challenge settings tools now access organization id payload store).1.rows
  unfolding submit_challenge
  submit_challenge-IsValid tools now access organization id payload store v =
      by_row (get id store.rows) refl
    where
      by_row :
          (o : Option Challenge)
          → get id store.rows ≡ o
          → IsValid settings
              (with_row store
                (submit_row settings tools now access organization payload store)
                o).1.rows
      by_row none e = v
      by_row (some c) e =
          let same = get_id settings store.rows id c e in
          let found = subst (λ n. get n store.rows ≡ some c) (sym same) e in
          let outcome = tools.validate store.session c payload.document in
          let hash = tools.hash payload.document in
          let key = payload.idempotency_key in
          let keeps = submitted_keeps now outcome hash key c in
          elim (submit_row_cases tools now access organization payload store c) [
            | inl kept ↦ subst (IsValid settings) (sym kept) v
            | inr done ↦ subst (IsValid settings) (sym done.1) (
                write_active-IsValid store.rows c.id c (mark_submitted now outcome hash key) v found
                  (started-is_active c.status done.0) keeps.0 keeps.1 keeps.2
                  (λ h. mark_submitted-Fits now outcome hash key c))
          ]
