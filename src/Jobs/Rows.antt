-- ===== src/Jobs/Rows.antt =====
-- Laws of the table: what a write to some rows does to each query, and which rows are distinct.
use site_proof.Prelude.{
  ℕ, ◌≡◌, refl, String, Bool, true, false, none, some, List, [], ◌∷◌, ◌++◌, map, arith,
  Option-cases, inl, eq_iff, ◌==◌, if◌then◌else◌, inr,
}
use mathlib.Core.Option
use site_proof.Jobs.Job.{Job}
use site_proof.Jobs.Table.{get, update, has_key, find_key, first_where, before}

-- A write that leaves the key columns alone.
pub record KeepsKey (g : Job → Job) : Type 0 where
  pub ids : (j : Job) → (g j).id ≡ j.id
  pub sessions : (j : Job) → (g j).session_id ≡ j.session_id
  pub versions : (j : Job) → (g j).pipeline_version ≡ j.pipeline_version

-- The primary key and the unique constraint `uq_processing_job_session_pipeline`.
abbrev pub Unique : List Job → Type 0
Unique [] = Unit {0}
Unique (j ∷ js) =
    (get j.id js ≡ none) × (find_key j.session_id j.pipeline_version js ≡ none) × Unique js

module _ (g : Job → Job) (keeps : KeepsKey g) where
  pub get-map : (k : ℕ) (js : List Job) → get k (map g js) ≡ Option.map g (get k js)
  unfolding get
  get-map k [] = refl
  get-map k (j ∷ js) = ground (arith, keeps.ids j, get-map k js)

  pub find_key-map :
      (s : ℕ) (v : String) (js : List Job)
      → find_key s v (map g js) ≡ Option.map g (find_key s v js)
  unfolding find_key
  find_key-map s v [] = refl
  find_key-map s v (j ∷ js) =
      simp (keeps.sessions j, keeps.versions j) (ground (arith, find_key-map s v js))

  pub map-Unique : (js : List Job) → Unique js → Unique (map g js)
  map-Unique [] u = tt
  map-Unique (j ∷ js) u = (
    rw (keeps.ids j, get-map j.id js, u.0) refl,
    rw (keeps.sessions j, keeps.versions j, find_key-map j.session_id j.pipeline_version js, u.1)
        refl,
    map-Unique js u.2,
  )

pub cond-KeepsKey :
    (p : Job → Bool) (f : Job → Job) → KeepsKey f → KeepsKey (λ j. if p j then f j else j)
cond-KeepsKey p f keeps = record {
  ids = λ j. ground (arith, keeps.ids j);
  sessions = λ j. ground (arith, keeps.sessions j);
  versions = λ j. ground (arith, keeps.versions j);
}

-- A write by id reaches that row alone.
pub get-update :
    (k i : ℕ) (f : Job → Job) (js : List Job)
    → KeepsKey f
    → get k (update i f js) ≡ Option.map (λ j. if j.id == i then f j else j) (get k js)
unfolding update
get-update k i f js keeps = get-map _ (cond-KeepsKey (λ j. j.id == i) f keeps) k js

pub get-id : (k : ℕ) (js : List Job) {j : Job} → get k js ≡ some j → j.id ≡ k
unfolding get
get-id k [] e = cc
get-id k (i ∷ js) {j} e = ground (arith, get-id k js {j = j})

pub get-append :
    (k : ℕ) (xs ys : List Job) → get k (xs ++ ys) ≡ Option.or_else (get k xs) (get k ys)
unfolding get Option.or_else
get-append k [] ys = refl
get-append k (j ∷ xs) ys = ground (arith, get-append k xs ys)

pub find_key-append :
    (s : ℕ) (v : String) (xs ys : List Job)
    → find_key s v (xs ++ ys) ≡ Option.or_else (find_key s v xs) (find_key s v ys)
unfolding find_key Option.or_else
find_key-append s v [] ys = refl
find_key-append s v (j ∷ xs) ys = ground (arith, find_key-append s v xs ys)

-- What `first_where` returns is the row with its id, and passes the test.
pub first_where-get :
    (p : Job → Bool) (js : List Job) {j : Job}
    → Unique js
    → first_where p js ≡ some j
    → (get j.id js ≡ some j) × (p j ≡ true)
unfolding first_where get
first_where-get p [] u e = cc
first_where-get p (i ∷ js) {j} u e = elim (Option-cases (first_where p js)) [
  | inl q ↦ ground arith
  | inr (b, q) ↦ ground (arith, first_where-get p js {j = b} u.2 q)
]

-- If it returns nothing, no row passes the test.
pub first_where-none :
    (p : Job → Bool) (k : ℕ) (js : List Job) {j : Job}
    → first_where p js ≡ none
    → get k js ≡ some j
    → p j ≡ false
unfolding first_where get
first_where-none p k [] e h = cc
first_where-none p k (i ∷ js) {j} e h = elim (Option-cases (first_where p js)) [
  | inl q ↦ ground (arith, first_where-none p k js {j = j} q)
  | inr (b, q) ↦ ground arith
]

-- No row that passes the test comes before the one that is returned.
pub first_where-first :
    (p : Job → Bool) (k : ℕ) (js : List Job) {x j : Job}
    → first_where p js ≡ some j
    → get k js ≡ some x
    → p x ≡ true
    → before x j ≡ false
unfolding first_where before get
first_where-first p k [] e h t = cc
first_where-first p k (i ∷ js) {x} {j} e h t = elim (Option-cases (first_where p js)) [
  | inl q ↦ ground (arith, first_where-none p k js {j = x} q)
  | inr (b, q) ↦ ground (arith, first_where-first p k js {x = x} {j = b} q)
]

-- A row with a new id and a new key keeps the rows distinct.
pub append-Unique :
    (js : List Job) (j : Job)
    → get j.id js ≡ none
    → find_key j.session_id j.pipeline_version js ≡ none
    → Unique js
    → Unique (js ++ j ∷ [])
append-Unique [] j a b u = unfold get find_key in (refl, refl, tt)
append-Unique (i ∷ js) j a b (c, d, u) = (
  new_id,
  new_key,
  append-Unique js j (unfold get in ground arith) (unfold find_key has_key in ground arith) u,
)
  where
    new_id : get i.id (js ++ j ∷ []) ≡ none
    new_id = rw (get-append, c) (unfold get Option.or_else in ground arith)

    new_key : find_key i.session_id i.pipeline_version (js ++ j ∷ []) ≡ none
    new_key =
        rw (find_key-append, d)
          (unfold find_key has_key Option.or_else in
            ground (
              arith,
              eq_iff i.pipeline_version j.pipeline_version,
              eq_iff j.pipeline_version i.pipeline_version,
            ))
