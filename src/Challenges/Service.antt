-- ===== src/Challenges/Service.antt =====
-- The handlers of service.py, each as one transaction on a session and its challenges, at one time
-- `now`. `access` is the reply of `owned_session` for the caller. A reply that the code raises before
-- its commit leaves the store as it was.
use site_proof.Prelude.{
  ℕ, ◌+◌, String, Bool, true, false, not, ◌&&◌, ◌||◌, Option, none, some, List, [], ◌∷◌, length,
  ltb, leb, ◌==◌, str_eq, if◌then◌else◌,
}
use site_proof.Prelude.Dict.{any}
use site_proof.Prelude.Reply.{Reply, Check, ok, err}
use site_proof.Sessions.Session.{
  Session, SessionStatus, capturing, challenges_in_progress, challenges_completed, challenge_failed,
}
use site_proof.Challenges.Challenge.{
  Challenge, ChallengeType, Settings, Fresh, is_issued, is_retryable, new_challenge, mark_expired,
  mark_started,
}
use site_proof.Challenges.Rows.{
  add, get, update, active_challenge, previous, retry_count, latest_by_sequence, max_sequence,
  explicit_failures,
}

pub record Store : Type 0 where
  pub session : Session
  pub rows : List Challenge

unfoldable pub accepts_challenges : SessionStatus → Bool
accepts_challenges capturing = true
accepts_challenges challenges_in_progress = true
accepts_challenges _ = false

unfoldable pub is_in_progress : SessionStatus → Bool
is_in_progress challenges_in_progress = true
is_in_progress _ = false

unfoldable pub is_complete : SessionStatus → Bool
is_complete challenges_completed = true
is_complete challenge_failed = true
is_complete _ = false

-- The rest of a handler after `owned_session`.
abbrev pub with_access {ℓ} : {A : Type ℓ} → Check → Store → Reply A × Store → Reply A × Store
with_access (ok _) store rest = rest
with_access (err status code) store rest = (err status code, store)

-- `_finalize_sequence`
unfoldable pub finalize_sequence : Settings → List Challenge → Session → Session
finalize_sequence settings rows session =
    let latest = latest_by_sequence rows in
    let failures = explicit_failures latest in
    if ltb (length latest) settings.challenge_count then session else record session {
      status =
          if leb settings.challenge_failure_limit failures
          then challenge_failed
          else challenges_completed;
    }

-- The sequence and attempt numbers of the next challenge: a retry, or the next sequence.
abbrev next_sequence : List Challenge → ℕ × ℕ
next_sequence rows = (max_sequence (latest_by_sequence rows) + 1, 1)

unfoldable pub next_place : Settings → List Challenge → ℕ × ℕ
next_place settings [] = next_sequence []
next_place settings (p ∷ older) =
    if is_retryable p.result
      && ltb (retry_count (p ∷ older) p.sequence_number) settings.challenge_max_retries
    then (p.sequence_number, p.attempt_number + 1)
    else next_sequence (p ∷ older)

abbrev pub previous_type : Option Challenge → Option ChallengeType
previous_type none = none
previous_type (some c) = some c.challenge_type

-- The unique constraints of the table that a new row can break.
unfoldable pub conflicts : Fresh → Challenge → List Challenge → Bool
conflicts fresh c rows =
    fresh.taken_elsewhere
    || any (λ d. d.id == c.id) rows
    || any (λ d. str_eq d.nonce c.nonce) rows
    || any (λ d. d.sequence_number == c.sequence_number && d.attempt_number == c.attempt_number)
        rows

-- `issue_next_challenge` once no challenge of `rows` is active. A broken constraint raises an
-- IntegrityError, which is an internal error.
unfoldable pub issue_at : Settings → Fresh → ℕ → Store → List Challenge → Reply Challenge × Store
issue_at settings fresh now store rows =
    let session : Session = record store.session { status = challenges_in_progress } in
    let place = next_place settings rows in
    let c =
      new_challenge settings fresh now session.organization_id place.0 place.1
        (previous_type (previous rows)) in
    if ltb settings.challenge_count place.0
    then (
      err 409 "CHALLENGE_LIMIT_REACHED",
      record { session = finalize_sequence settings rows session; rows = rows },
    )
    else if conflicts fresh c rows
    then (err 500 "INTERNAL_ERROR", store)
    else (ok c, record { session = session; rows = add c rows })

-- The active challenge is answered again, or expires and another one is issued.
abbrev pub issue_after : Settings → Fresh → ℕ → Store → Option Challenge → Reply Challenge × Store
issue_after settings fresh now store none = issue_at settings fresh now store store.rows
issue_after settings fresh now store (some c) =
    if ltb now c.expires_at
    then (ok c, store)
    else issue_at settings fresh now store (update c.id (mark_expired now) store.rows)

unfoldable pub issue_next_challenge : Settings → Fresh → ℕ → Check → Store → Reply Challenge × Store
issue_next_challenge settings fresh now access store = with_access access store (
    if leb store.session.expires_at now
    then (err 409 "SESSION_NOT_ACTIVE", store)
    else if not (accepts_challenges store.session.status)
    then (err 409 "SESSION_NOT_ACTIVE", store)
    else issue_after settings fresh now store (active_challenge store.rows))

abbrev pub set_row : ℕ → (Challenge → Challenge) → Store → Store
set_row id f store = record store { rows = update id f store.rows }

-- The capture's anchor is there and the challenge does not start before it.
abbrev pub anchored : Option ℕ → ℕ → Reply Challenge × Store → Store → Reply Challenge × Store
anchored none client_ns rest store = (err 409 "SESSION_NOT_ACTIVE", store)
anchored (some anchor) client_ns rest store =
    if ltb client_ns anchor then (err 422 "SENSOR_EVIDENCE_INVALID", store) else rest

unfoldable pub start_row : ℕ → Check → ℕ → String → ℕ → Store → Challenge → Reply Challenge × Store
start_row now access organization nonce client_ns store c = with_access access store (
    if not (c.organization_id == organization)
    then (err 404 "CHALLENGE_NOT_FOUND", store)
    else if not (is_in_progress store.session.status)
    then (err 409 "SESSION_NOT_ACTIVE", store)
    else if leb c.expires_at now
    then (err 409 "CHALLENGE_EXPIRED", set_row c.id (mark_expired now) store)
    else if not (is_issued c.status)
    then (err 409 "CHALLENGE_NOT_ACTIVE", store)
    else if not (str_eq c.nonce nonce)
    then (err 409 "CHALLENGE_NONCE_INVALID", store)
    else anchored store.session.capture_anchor_monotonic_ns client_ns
        (ok (mark_started now client_ns c), set_row c.id (mark_started now client_ns) store) store)

-- The row that `_challenge_for_update` finds.
abbrev pub with_row {ℓ} :
    {A : Type ℓ} → Store → (Challenge → Reply A × Store) → Option Challenge → Reply A × Store
with_row store handle none = (err 404 "CHALLENGE_NOT_FOUND", store)
with_row store handle (some c) = handle c

unfoldable pub start_challenge : ℕ → Check → ℕ → ℕ → String → ℕ → Store → Reply Challenge × Store
start_challenge now access organization id nonce client_ns store =
    with_row store (start_row now access organization nonce client_ns store) (get id store.rows)
