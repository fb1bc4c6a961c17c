-- ===== src/Challenges/Trace.antt =====
-- Any sequence of the handlers on one session.
use site_proof.Prelude.{ℕ, String, ◌+◌, ◌*◌, ◌≤◌, List, [], ◌∷◌, length}
use site_proof.Prelude.Reply.{Check}
use site_proof.Sessions.Session.{Session}
use site_proof.Challenges.Challenge.{Settings, Fresh}
use site_proof.Challenges.Counts.{length_bound}
use site_proof.Challenges.Invariant.{IsValid, issue_next_challenge-IsValid}
use site_proof.Challenges.Service.{Store, issue_next_challenge, start_challenge}
use site_proof.Challenges.Submit.{Tools, Submission, submit_challenge}
use site_proof.Challenges.Writes.{start_challenge-IsValid, submit_challenge-IsValid}

-- A call of a handler, or any write of another handler to the session's row.
pub data Call : Type 0 where
  issues : Fresh → ℕ → Check → Call
  starts : ℕ → Check → ℕ → ℕ → String → ℕ → Call
  submits : ℕ → Check → ℕ → ℕ → Submission → Call
  writes : (Session → Session) → Call

unfoldable pub step : Settings → Tools → Call → Store → Store
step settings tools (issues fresh now access) store =
    (issue_next_challenge settings fresh now access store).1
step settings tools (starts now access organization id nonce client_ns) store =
    (start_challenge now access organization id nonce client_ns store).1
step settings tools (submits now access organization id payload) store =
    (submit_challenge settings tools now access organization id payload store).1
step settings tools (writes f) store = record store { session = f store.session }

unfoldable pub run : Settings → Tools → List Call → Store → Store
run settings tools [] store = store
run settings tools (call ∷ calls) store = run settings tools calls (step settings tools call store)

module _ (settings : Settings) (tools : Tools) where
  step-IsValid :
      (call : Call) (store : Store)
      → IsValid settings store.rows
      → IsValid settings (step settings tools call store).rows
  unfolding step
  step-IsValid (issues fresh now access) store v =
      issue_next_challenge-IsValid settings fresh now access store v
  step-IsValid (starts now access organization id nonce client_ns) store v =
      start_challenge-IsValid settings now access organization id nonce client_ns store v
  step-IsValid (submits now access organization id payload) store v =
      submit_challenge-IsValid settings tools now access organization id payload store v
  step-IsValid (writes f) store v = v

  -- From valid rows, after any calls of the three handlers and any other writes to the session,
  -- the rows are one sequence of challenges, where a retry only follows a failed or inconclusive
  -- attempt within the budget and a new sequence only a passed one or a spent budget, at most the
  -- last row is active, and result, nonce and key of each row fit its status.
  pub challenges-IsValid :
      (calls : List Call) (store : Store)
      → IsValid settings store.rows
      → IsValid settings (run settings tools calls store).rows
  unfolding run
  challenges-IsValid [] store v = v
  challenges-IsValid (call ∷ calls) store v = challenges-IsValid calls _ (step-IsValid call store v)

  -- After any calls on a session without challenges there are at most as many challenges as the
  -- settings' count of sequences times the attempts of each.
  pub run_bound :
      (calls : List Call) (session : Session)
      → length (run settings tools calls (record { session = session; rows = [] })).rows
        ≤ settings.challenge_count * (settings.challenge_max_retries + 1)
  run_bound calls session =
      length_bound settings _
        (challenges-IsValid calls (record { session = session; rows = [] }) (tt, tt)).0
