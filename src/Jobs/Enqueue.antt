-- ===== src/Jobs/Enqueue.antt =====
-- `enqueue_processing_job` on a key that has a row already, or gets one in a race.
use mathlib.Core.List.{append-nil}
use mathlib.Core.Option
use site_proof.Prelude.{
  ℕ, ◌≡◌, String, Bool, true, none, some, List, [], ◌∷◌, ◌++◌, arith, Option-cases, eq_iff, inl,
  inr, ◌∙◌, ◌==◌,
}
use site_proof.Jobs.Job.{Job, reuse, new_job}
use site_proof.Jobs.Table.{get, has_key, find_key, update}
use site_proof.Jobs.Queue.{enqueue, insert_or_reuse}
use site_proof.Jobs.Rows.{
  KeepsKey, cond-KeepsKey, find_key-map, get-update, find_key-append, Unique,
}
use site_proof.Jobs.Moves.{IsValidJob}
use site_proof.Jobs.Carries.{IsValid}

-- A race lost between the query and the insert ends as if the winner had come first.
pub enqueue_race :
    (db won : List Job) (session_exists : Bool) (id session : ℕ) (version : String)
    (now created : ℕ)
    → enqueue db won session_exists id session version now created
      ≡ enqueue (db ++ won) [] session_exists id session version now created
unfolding enqueue insert_or_reuse new_job Option.or_else
enqueue_race db won session_exists id session version now created =
    rw append-nil (ground (arith, find_key-append session version db won))

-- A query by key finds a row with this key.
find_key-key :
    (session : ℕ) (version : String) (js : List Job) {j : Job}
    → find_key session version js ≡ some j
    → has_key session version j ≡ true
unfolding find_key
find_key-key session version [] e = cc
find_key-key session version (i ∷ js) {j} e =
    ground (arith, find_key-key session version js {j = j})

-- It is the row with its id.
find_key-get :
    (session : ℕ) (version : String) (js : List Job) {j : Job}
    → Unique js
    → find_key session version js ≡ some j
    → get j.id js ≡ some j
unfolding find_key get
find_key-get session version [] u e = cc
find_key-get session version (i ∷ js) {j} u e =
    ground (arith, find_key-get session version js {j = j} u.2)

-- In a valid table a failed row has no attempt left, so the reuse changes nothing.
reuse-IsValidJob : (now : ℕ) (j : Job) → IsValidJob j → reuse now j ≡ j
unfolding reuse
reuse-IsValidJob now j v = ground arith

pub reuse-KeepsKey : (now : ℕ) → KeepsKey (reuse now)
unfolding reuse
reuse-KeepsKey now = ground arith

get-reuse : (k i now : ℕ) (db : List Job) → IsValid db → get k (update i (reuse now) db) ≡ get k db
get-reuse k i now db v = elim (Option-cases (get k db)) [
  | inl q ↦ get-update k i (reuse now) db (reuse-KeepsKey now) ∙ ground arith
  | inr (j, q) ↦
      get-update k i (reuse now) db (reuse-KeepsKey now)
      ∙ ground (arith, reuse-IsValidJob now j (v.rows k j q))
]

pub enqueue_existing :
    (db : List Job) (session_exists : Bool) (id session : ℕ) (version : String) (now created : ℕ)
    (j : Job)
    → IsValid db
    → find_key session version db ≡ some j
    → enqueue db [] session_exists id session version now created
      ≡ some (j, update j.id (reuse now) db)
unfolding enqueue
enqueue_existing db session_exists id session version now created j v e =
    let same =
      reuse-IsValidJob now j (v.rows j.id j (find_key-get session version db v.unique e)) in
    rw (append-nil, e) (rw same)

pub find_key-reuse :
    (session : ℕ) (version : String) (now : ℕ) (db : List Job) (j : Job)
    → IsValid db
    → find_key session version db ≡ some j
    → find_key session version (update j.id (reuse now) db) ≡ some j
unfolding update
find_key-reuse session version now db j v e =
    let same =
      reuse-IsValidJob now j (v.rows j.id j (find_key-get session version db v.unique e)) in
    find_key-map _ (cond-KeepsKey (λ i. i.id == j.id) (reuse now) (reuse-KeepsKey now)) session
      version db
    ∙ ground arith

-- Every call for a session and a version that have a row returns this row, and leaves every row as
-- it is.
pub enqueue_again :
    (db : List Job) (session_exists : Bool) (id session : ℕ) (version : String) (now created : ℕ)
    (j : Job)
    → IsValid db
    → find_key session version db ≡ some j
    → (db' : List Job) × (enqueue db [] session_exists id session version now created
        ≡ some (j, db'))
      × ((k : ℕ) → get k db' ≡ get k db)
enqueue_again db session_exists id session version now created j v e = (
  update j.id (reuse now) db,
  enqueue_existing db session_exists id session version now created j v e,
  λ k. get-reuse k j.id now db v,
)

-- A call for a session that exists, with an unused id, never raises; the row that it returns has the
-- key of the call and is the one that a query by this key then finds.
pub enqueue_found :
    (db : List Job) (id session : ℕ) (version : String) (now created : ℕ)
    → IsValid db
    → get id db ≡ none
    → (j : Job) × (db' : List Job) × (enqueue db [] true id session version now created
        ≡ some (j, db'))
      × (find_key session version db' ≡ some j)
unfolding enqueue insert_or_reuse
enqueue_found db id session version now created v e =
    elim (Option-cases (find_key session version db)) [
      | inl q ↦ (
        job,
        db ++ job ∷ [],
        rw (append-nil, q) (unfold new_job in rw (e, q)),
        rw (find_key-append, q)
            (unfold new_job find_key has_key Option.or_else in
              ground (arith, eq_iff version version)),
      )
      | inr (j, q) ↦ (
        j,
        update j.id (reuse now) db,
        enqueue_existing db true id session version now created j v q,
        find_key-reuse session version now db j v q,
      )
    ]
  where
    job : Job
    job = new_job id session version now created
