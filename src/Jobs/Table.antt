-- ===== src/Jobs/Table.antt =====
-- The table of jobs, as its rows in any order, and the queries on it.
use site_proof.Prelude.{
  ℕ, String, Bool, true, false, ◌&&◌, Option, none, some, List, [], ◌∷◌, map, ltb, ◌==◌,
  if◌then◌else◌, str_eq,
}
use site_proof.Jobs.Job.{Job}

-- `db.get(VerificationProcessingJob, id)`
unfoldable pub get : ℕ → List Job → Option Job
get k [] = none
get k (j ∷ js) = if j.id == k then some j else get k js

-- Writes to the row with this id.
unfoldable pub update : ℕ → (Job → Job) → List Job → List Job
update k f = map (λ j. if j.id == k then f j else j)

-- Writes to every row that passes a test.
unfoldable pub update_where : (Job → Bool) → (Job → Job) → List Job → List Job
update_where p f = map (λ j. if p j then f j else j)

-- The unique constraint's columns.
unfoldable pub has_key : ℕ → String → Job → Bool
has_key session version j = j.session_id == session && str_eq j.pipeline_version version

-- The query of `enqueue_processing_job`.
unfoldable pub find_key : ℕ → String → List Job → Option Job
unfolding has_key
find_key session version [] = none
find_key session version (j ∷ js) =
    if has_key session version j then some j else find_key session version js

-- `ORDER BY created_at, id`
unfoldable pub before : Job → Job → Bool
before a b =
    if ltb a.created_at b.created_at
    then true
    else if a.created_at == b.created_at
    then ltb a.id b.id
    else false

-- The first of the rows that pass a test: `WHERE p ORDER BY created_at, id LIMIT 1`.
abbrev earlier : Job → Option Job → Option Job
earlier j none = some j
earlier j (some b) = if before b j then some b else some j

unfoldable pub first_where : (Job → Bool) → List Job → Option Job
unfolding before
first_where p [] = none
first_where p (j ∷ js) = let rest = first_where p js in if p j then earlier j rest else rest
