-- ===== src/Challenges/Invariant.antt =====
-- The invariant of the challenges: their order, and that each row's fields fit its status.
use site_proof.Prelude.{
  ℕ, String, ◌≤◌, ◌≡◌, ◌≢◌, ◌⊎◌, inl, inr, refl, ap, ◌∙◌, sym, subst, Bool, true, false, not,
  Option, none, some, List, [], ◌∷◌, arith, All, ltb, leb, ◌==◌, if◌then◌else◌, if_both,
}
use site_proof.Prelude.Dict.{any}
use site_proof.Prelude.Reply.{Reply, Check, ok, err}
use site_proof.Challenges.Challenge.{
  Challenge, ChallengeStatus, issued, started, passed, failed, inconclusive, expired, cancelled,
  ChallengeResult, pass, fail, Settings, Fresh, Outcome, is_active, new_challenge, mark_expired,
  mark_submitted, status_of,
}
use site_proof.Challenges.Rows.{
  add, update, active_challenge, previous, max_sequence, latest_by_sequence,
}
use site_proof.Challenges.Sequence.{IsSequence}
use site_proof.Challenges.Places.{
  Unused, update-last, last-IsSequence, active_lem, next_place-Follows, add-IsSequence, add-last,
}
use site_proof.Challenges.Service.{
  Store, accepts_challenges, next_place, previous_type, conflicts, issue_at, issue_after,
  issue_next_challenge,
}

-- The fields of a row that its status settles: only a submission gives a verdict and consumes the
-- nonce.
abbrev pub FitsAt : ChallengeStatus → Challenge → Type 0
FitsAt issued c =
    (c.result ≡ none) × (c.nonce_consumed_at ≡ none) × (c.submission_idempotency_key ≡ none)
FitsAt started c =
    (c.result ≡ none) × (c.nonce_consumed_at ≡ none) × (c.submission_idempotency_key ≡ none)
FitsAt passed c =
    (c.result ≡ some pass) × (c.nonce_consumed_at ≢ none) × (c.submission_idempotency_key ≢ none)
FitsAt failed c =
    (c.result ≡ some fail) × (c.nonce_consumed_at ≢ none) × (c.submission_idempotency_key ≢ none)
FitsAt inconclusive c =
    (c.result ≡ some ChallengeResult.inconclusive)
    × (c.nonce_consumed_at ≢ none)
    × (c.submission_idempotency_key ≢ none)
FitsAt expired c =
    (c.result ≡ some ChallengeResult.inconclusive)
    × (c.nonce_consumed_at ≡ none)
    × (c.submission_idempotency_key ≡ none)
FitsAt cancelled c = c.result ≡ none

abbrev pub Fits : Challenge → Type 0
Fits c = FitsAt c.status c

abbrev pub IsValid : Settings → List Challenge → Type 0
IsValid settings rows = IsSequence settings rows × All Fits rows

active_status :
    (s : ChallengeStatus) (c : Challenge)
    → FitsAt s c
    → is_active s ≡ true
    → (c.nonce_consumed_at ≡ none) × (c.submission_idempotency_key ≡ none)
unfolding is_active
active_status issued c h e = (h.1, h.2)
active_status started c h e = (h.1, h.2)
active_status _ c h e = ground arith

pub mark_expired-Fits :
    (now : ℕ) (c : Challenge) → Fits c → is_active c.status ≡ true → Fits (mark_expired now c)
unfolding mark_expired
mark_expired-Fits now c h e = let old = active_status c.status c h e in rw e (refl, old.0, old.1)

submitted-FitsAt :
    (r : ChallengeResult) (c : Challenge)
    → (c.result ≡ some r)
    → (c.nonce_consumed_at ≢ none)
    → (c.submission_idempotency_key ≢ none)
    → FitsAt (status_of r) c
unfolding status_of
submitted-FitsAt pass c a b d = (a, b, d)
submitted-FitsAt fail c a b d = (a, b, d)
submitted-FitsAt ChallengeResult.inconclusive c a b d = (a, b, d)

pub mark_submitted-Fits :
    (now : ℕ) (o : Outcome) (h k : String) (c : Challenge) → Fits (mark_submitted now o h k c)
unfolding mark_submitted
mark_submitted-Fits now o h k c = submitted-FitsAt o.result _ refl (ground arith) (ground arith)

any-Unused : (id : ℕ) (rows : List Challenge) → any (λ d. d.id == id) rows ≡ false → Unused id rows
unfolding any
any-Unused id [] e = tt
any-Unused id (d ∷ rows) e = (ground arith, any-Unused id rows (ground arith))

module _ (settings : Settings) where
  -- A write to the last row that keeps its id and its numbers.
  pub write_last-IsValid :
      (c : Challenge) (older : List Challenge) (f : Challenge → Challenge)
      → (f c).id ≡ c.id
      → (f c).sequence_number ≡ c.sequence_number
      → (f c).attempt_number ≡ c.attempt_number
      → Fits (f c)
      → IsValid settings (c ∷ older)
      → IsValid settings (update c.id f (c ∷ older))
  write_last-IsValid c older f i s a fits v =
      subst (IsValid settings) (sym (update-last settings c older f v.0))
        (last-IsSequence settings c (f c) older i s a v.0, (fits, v.1.1))

  next_row : Fresh → ℕ → Store → List Challenge → Challenge
  next_row fresh now store rows =
      let place = next_place settings rows in
      new_challenge settings fresh now store.session.organization_id place.0 place.1
        (previous_type (previous rows))

  -- What `issue_at` does to the rows: nothing, a rollback, or one more row.
  issue_at_rows :
      (fresh : Fresh) (now : ℕ) (store : Store) (rows : List Challenge)
      → let after = (issue_at settings fresh now store rows).1.rows in
        let c = next_row fresh now store rows in
        (after ≡ rows)
        ⊎ (after ≡ store.rows)
        ⊎ ((after ≡ add c rows)
            × ((next_place settings rows).0 ≤ settings.challenge_count)
            × (any (λ d. d.id == c.id) rows ≡ false))
  unfolding issue_at next_row conflicts
  issue_at_rows fresh now store rows = ground arith

  rests :
      (p : Challenge) (older : List Challenge)
      → active_challenge (p ∷ older) ≡ none
      → is_active p.status ≡ false
  unfolding active_challenge
  rests p older e = ground arith

  first_row-IsValid :
      (fresh : Fresh) (now : ℕ) (store : Store)
      → (next_place settings []).0 ≤ settings.challenge_count
      → IsValid settings (add (next_row fresh now store []) [])
  unfolding next_row new_challenge next_place max_sequence latest_by_sequence add
  first_row-IsValid fresh now store bound = ((refl, refl, bound), ((refl, refl, refl), tt))

  next_row-IsValid :
      (fresh : Fresh) (now : ℕ) (store : Store) (rows : List Challenge)
      → IsValid settings rows
      → active_challenge rows ≡ none
      → (next_place settings rows).0 ≤ settings.challenge_count
      → Unused (next_row fresh now store rows).id rows
      → IsValid settings (add (next_row fresh now store rows) rows)
  unfolding next_row new_challenge
  next_row-IsValid fresh now store [] v idle bound u = first_row-IsValid fresh now store bound
  next_row-IsValid fresh now store (p ∷ older) v idle bound u =
      let h =
        next_place-Follows settings p (next_row fresh now store (p ∷ older)) older v.0 refl refl in
      let resting : is_active p.status ≡ false = rests p older idle in
      (
        add-IsSequence settings p (next_row fresh now store (p ∷ older)) older v.0 resting h bound
            u,
        subst (All Fits) (sym (add-last settings p (next_row fresh now store (p ∷ older)) older h))
            ((refl, refl, refl), v.1),
      )

  issue_at-IsValid :
      (fresh : Fresh) (now : ℕ) (store : Store) (rows : List Challenge)
      → IsValid settings store.rows
      → IsValid settings rows
      → active_challenge rows ≡ none
      → IsValid settings (issue_at settings fresh now store rows).1.rows
  issue_at-IsValid fresh now store rows old v idle = elim (issue_at_rows fresh now store rows) [
    | inl same ↦ subst (IsValid settings) (sym same) v
    | inr (inl back) ↦ subst (IsValid settings) (sym back) old
    | inr (inr new) ↦
        subst (IsValid settings) (sym new.0)
          (next_row-IsValid fresh now store rows v idle new.1 (any-Unused _ rows new.2))
  ]

  expired_rests :
      (now : ℕ) (c : Challenge)
      → is_active c.status ≡ true
      → is_active (mark_expired now c).status ≡ false
  unfolding mark_expired is_active
  expired_rests now c e = rw e refl

  pub expired_keeps :
      (now : ℕ) (c : Challenge)
      → ((mark_expired now c).id ≡ c.id)
        × ((mark_expired now c).sequence_number ≡ c.sequence_number)
        × ((mark_expired now c).attempt_number ≡ c.attempt_number)
  unfolding mark_expired
  expired_keeps now c = ground arith

  pub chosen :
      (b : Bool) (d c : Challenge) → (if b then some d else none) ≡ some c → (d ≡ c) × (b ≡ true)
  chosen true d c e = (cc e, refl)
  chosen false d c e = ground arith

  -- An active row is the last one.
  pub active-last :
      (rows : List Challenge) (c : Challenge)
      → IsSequence settings rows
      → active_challenge rows ≡ some c
      → (older : List Challenge) × (rows ≡ c ∷ older) × (is_active c.status ≡ true)
  unfolding active_challenge
  active-last [] c v e = ground arith
  active-last (d ∷ older) c v e =
      let same = chosen (is_active d.status) d c (sym (active_lem settings d older v) ∙ e) in
      (
        older,
        ap (λ x. x ∷ older) same.0,
        subst (λ (x : Challenge). is_active x.status ≡ true) same.0 same.1,
      )

  expire_lem :
      (now : ℕ) (c : Challenge) (older : List Challenge)
      → is_active c.status ≡ true
      → IsValid settings (c ∷ older)
      → let rows = update c.id (mark_expired now) (c ∷ older) in
        IsValid settings rows × (active_challenge rows ≡ none)
  expire_lem now c older e v =
      let keeps = expired_keeps now c in
      let valid =
        write_last-IsValid c older (mark_expired now) keeps.0 keeps.1 keeps.2
          (mark_expired-Fits now c v.1.0 e) v in
      let last =
        last-IsSequence settings c (mark_expired now c) older keeps.0 keeps.1 keeps.2 v.0 in
      (
        valid,
        ap active_challenge (update-last settings c older (mark_expired now) v.0)
            ∙ active_lem settings (mark_expired now c) older last
            ∙ rw (expired_rests now c e) refl,
      )

  -- `issue_next_challenge` keeps the rows valid.
  pub issue_next_challenge-IsValid :
      (fresh : Fresh) (now : ℕ) (access : Check) (store : Store)
      → IsValid settings store.rows
      → IsValid settings (issue_next_challenge settings fresh now access store).1.rows
  unfolding issue_next_challenge
  issue_next_challenge-IsValid fresh now (err status code) store v = v
  issue_next_challenge-IsValid fresh now (ok _) store v =
      if_both Keeps (leb store.session.expires_at now) (err 409 "SESSION_NOT_ACTIVE", store) _ v
        (if_both Keeps (not (accepts_challenges store.session.status))
          (err 409 "SESSION_NOT_ACTIVE", store)
          (issue_after settings fresh now store (active_challenge store.rows)) v
          (by_active (active_challenge store.rows) refl))
    where
      Keeps : Reply Challenge × Store → Type 0
      Keeps after = IsValid settings after.1.rows

      by_active :
          (o : Option Challenge)
          → active_challenge store.rows ≡ o
          → Keeps (issue_after settings fresh now store o)
      by_active none e = issue_at-IsValid fresh now store store.rows v v e
      by_active (some c) e =
          let last = active-last store.rows c v.0 e in
          let expired =
            subst
              (λ rows.
                IsValid settings (update c.id (mark_expired now) rows)
                × (active_challenge (update c.id (mark_expired now) rows) ≡ none))
              (sym last.1) (expire_lem now c last.0 last.2 (subst (IsValid settings) last.1 v)) in
          if_both Keeps (ltb now c.expires_at) (ok c, store)
            (issue_at settings fresh now store (update c.id (mark_expired now) store.rows)) v
            (issue_at-IsValid fresh now store _ v expired.0 expired.1)
