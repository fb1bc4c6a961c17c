-- ===== src/Challenges/Rows.antt =====
-- The rows of one session, as `_challenge_rows` orders them, the last one first: by descending
-- sequence and attempt number.
use site_proof.Prelude.{
  ℕ, ◌+◌, Bool, ◌&&◌, ◌||◌, Option, none, some, List, [], ◌∷◌, map, ltb, ◌==◌, if◌then◌else◌,
}
use site_proof.Challenges.Challenge.{Challenge, is_active, is_failure}

-- `ORDER BY sequence_number, attempt_number`
unfoldable pub is_later : Challenge → Challenge → Bool
is_later a b =
    ltb b.sequence_number a.sequence_number
    || (a.sequence_number == b.sequence_number && ltb b.attempt_number a.attempt_number)

-- A new row, at its place in the order.
unfoldable pub add : Challenge → List Challenge → List Challenge
add c [] = c ∷ []
add c (d ∷ older) = let rest = add c older in if is_later c d then c ∷ d ∷ older else d ∷ rest

unfoldable pub get : ℕ → List Challenge → Option Challenge
get id [] = none
get id (c ∷ older) = if c.id == id then some c else get id older

unfoldable pub update : ℕ → (Challenge → Challenge) → List Challenge → List Challenge
update id f = map (λ c. if c.id == id then f c else c)

-- `next((row for row in reversed(rows) if row.status in ACTIVE_CHALLENGE_STATES), None)`
unfoldable pub active_challenge : List Challenge → Option Challenge
active_challenge [] = none
active_challenge (c ∷ older) = if is_active c.status then some c else active_challenge older

-- `rows[-1] if rows else None`
abbrev pub previous : List Challenge → Option Challenge
previous [] = none
previous (c ∷ _) = some c

-- `_retry_count`
unfoldable pub retry_count : List Challenge → ℕ → ℕ
retry_count [] sequence = 0
retry_count (c ∷ older) sequence =
    if c.sequence_number == sequence && ltb 1 c.attempt_number
    then 1 + retry_count older sequence
    else retry_count older sequence

-- The body of the loop of `_latest_by_sequence`; the dictionary is the list of its values.
unfoldable pub put_latest : Challenge → List Challenge → List Challenge
put_latest c [] = c ∷ []
put_latest c (d ∷ ds) =
    let rest = put_latest c ds in
    if d.sequence_number == c.sequence_number
    then (if ltb d.attempt_number c.attempt_number then c ∷ ds else d ∷ ds)
    else d ∷ rest

-- `_latest_by_sequence`, over the rows from the first to the last.
unfoldable pub latest_by_sequence : List Challenge → List Challenge
latest_by_sequence [] = []
latest_by_sequence (c ∷ older) = put_latest c (latest_by_sequence older)

-- `max(latest.keys(), default=0)`
unfoldable pub max_sequence : List Challenge → ℕ
max_sequence [] = 0
max_sequence (c ∷ cs) =
    let rest = max_sequence cs in if ltb rest c.sequence_number then c.sequence_number else rest

-- `sum(1 for row in latest.values() if row.result == ChallengeResult.FAIL)`
unfoldable pub explicit_failures : List Challenge → ℕ
explicit_failures [] = 0
explicit_failures (c ∷ cs) =
    if is_failure c.result then 1 + explicit_failures cs else explicit_failures cs
