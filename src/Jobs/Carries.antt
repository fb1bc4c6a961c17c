-- ===== src/Jobs/Carries.antt =====
-- Writes to the table that are moves at each row that they change, and `_recover_expired_leases` and
-- `claim_processing_job` as such writes.
use mathlib.Core.Option
use site_proof.Prelude.{
  ℕ, ◌≡◌, refl, ap, ◌∙◌, Bool, true, Option, none, some, List, map, arith, ◌==◌, if◌then◌else◌,
  Bool-cases, Option-cases, inl, inr, subst,
}
use site_proof.Jobs.Job.{Job, recovered, is_runnable, claimed}
use site_proof.Jobs.Table.{get, update, update_where, first_where}
use site_proof.Jobs.Queue.{recover, is_claimable, lease_row, claim}
use site_proof.Jobs.Rows.{
  KeepsKey, cond-KeepsKey, Unique, get-map, map-Unique, get-id, first_where-get,
}
use site_proof.Jobs.Moves.{
  Move, Moves, recovers, claims, here, next, Moves-trans, IsValidJob, Moves-IsValidJob,
}

pub record IsValid (db : List Job) : Type 0 where
  pub unique : Unique db
  pub rows : (k : ℕ) (j : Job) → get k db ≡ some j → IsValidJob j

-- Each row of `a` is in `b`, some moves later.
abbrev pub Carries : List Job → List Job → Type 0
Carries a b = (k : ℕ) (j : Job) → get k a ≡ some j → (j' : Job) × (get k b ≡ some j') × Moves j j'

pub Carries-refl : (a : List Job) → Carries a a
Carries-refl a k j e = (j, e, here)

pub Carries-trans : (a b c : List Job) → Carries a b → Carries b c → Carries a c
Carries-trans a b c f g k j e =
    let (j', e', m) = f k j e in let (j'', e'', n) = g k j' e' in (j'', e'', Moves-trans m n)

abbrev pub Kept : List Job → List Job → Type 0
Kept a b = IsValid b × Carries a b

map-Kept :
    (g : Job → Job) (db : List Job)
    → KeepsKey g
    → ((k : ℕ) (j : Job) → get k db ≡ some j → Moves j (g j))
    → IsValid db
    → Kept db (map g db)
map-Kept g db keeps moves v = (
  record {
    unique = map-Unique g keeps db v.unique;
    rows = λ k j e. elim (Option-cases (get k db)) [
      | inl q ↦ absurd (cc (e, q, get-map g keeps k db))
      | inr (i, q) ↦
          let same : g i ≡ j = cc (e, q, get-map g keeps k db) in
          subst IsValidJob same (Moves-IsValidJob (v.rows k i q) (moves k i q))
    ];
  },
  λ k j e. (g j, get-map g keeps k db ∙ ap (Option.map g) e, moves k j e),
)

-- A write to the rows that pass a test is kept if it is a move at each such row.
update_where-Kept :
    (p : Job → Bool) (f : Job → Job) (db : List Job)
    → KeepsKey f
    → ((k : ℕ) (j : Job) → get k db ≡ some j → p j ≡ true → Move j (f j))
    → IsValid db
    → Kept db (update_where p f db)
unfolding update_where
update_where-Kept p f db keeps moves v = map-Kept _ db (cond-KeepsKey p f keeps) moves' v
  where
    moves' : (k : ℕ) (j : Job) → get k db ≡ some j → Moves j (if p j then f j else j)
    moves' k j e = elim (Bool-cases (p j)) [
      | inl t ↦ rw t (next here (moves k j e t))
      | inr t ↦ rw t here
    ]

pub update-Kept :
    (i : ℕ) (f : Job → Job) (db : List Job)
    → KeepsKey f
    → ((j : Job) → get i db ≡ some j → Move j (f j))
    → IsValid db
    → Kept db (update i f db)
unfolding update update_where
update-Kept i f db keeps moves v =
    update_where-Kept (λ j. j.id == i) f db keeps
      (λ k j e t.
        let same : k ≡ i = ground (arith, get-id k db e) in
        moves j (subst (λ (n : ℕ). get n db ≡ some j) same e))
      v

recovered-KeepsKey : (now : ℕ) → KeepsKey (recovered now)
unfolding recovered
recovered-KeepsKey now = ground arith

pub recover-Kept :
    (locked : ℕ → Bool) (now : ℕ) (db : List Job) → IsValid db → Kept db (recover locked now db)
unfolding recover
recover-Kept locked now db v =
    update_where-Kept _ _ db (recovered-KeepsKey now) (λ k j e t. recovers now j (ground arith)) v

claimed-KeepsKey : (now lease : ℕ) → KeepsKey (claimed now lease)
unfolding claimed
claimed-KeepsKey now lease = ground arith

lease_row-Kept :
    (p : Job → Bool) (lease now : ℕ) (db : List Job) (o : Option Job)
    → ((i : Job) → p i ≡ true → is_runnable now i ≡ true)
    → first_where p db ≡ o
    → IsValid db
    → Kept db (lease_row lease now db o).1
lease_row-Kept p lease now db none runnable e v = (v, Carries-refl db)
lease_row-Kept p lease now db (some j) runnable e v =
    let (at_id, t) = first_where-get p db v.unique e in
    update-Kept j.id _ db (claimed-KeepsKey now lease)
      (λ i q.
        let same : j ≡ i = cc (q, at_id) in
        subst (λ (x : Job). Move x (claimed now lease x)) same (claims now lease j (runnable j t)))
      v

pub Kept-trans : (a b c : List Job) → Kept a b → Kept b c → Kept a c
Kept-trans a b c (_, m) (v, n) = (v, Carries-trans a b c m n)

pub claim-Kept :
    (locked : ℕ → Bool) (lease now : ℕ) (db : List Job)
    → IsValid db
    → Kept db (claim locked lease now db).1
unfolding claim
claim-Kept locked lease now db v =
    let db' : List Job = recover locked now db in
    let first = recover-Kept locked now db v in
    Kept-trans db db' _ first
      (lease_row-Kept (is_claimable locked now) lease now db' _ (λ i t. ground arith) refl first.0)
