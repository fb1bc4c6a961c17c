-- ===== src/Jobs/Claims.antt =====
-- What `claim_processing_job` leases.
use mathlib.Core.Option
use site_proof.Prelude.{
  ℕ, ◌<◌, ◌≡◌, ◌≢◌, refl, ◌+◌, Bool, true, false, not, ◌&&◌, Option, none, some, List, arith,
  Option-cases, inl, inr, sym, ap, subst, ◌⊎◌, ◌∙◌, if◌then◌else◌,
}
use site_proof.Jobs.Job.{
  Job, claimed, running, is_runnable, is_waiting, recovered, is_expired, due, lease_until,
}
use site_proof.Jobs.Table.{get, first_where, update, update_where, before}
use site_proof.Jobs.Queue.{claim, recover, lease_row, is_claimable}
use site_proof.Jobs.Rows.{
  KeepsKey, get-map, get-update, get-id, first_where-get, first_where-none, first_where-first,
}
use site_proof.Jobs.Carries.{IsValid, recover-Kept}

-- A row that a claim may lease: not locked, with an attempt left, and due or with its lease over.
pub record Ready (locked : ℕ → Bool) (now : ℕ) (x : Job) : Type 0 where
  pub unlocked : locked x.id ≡ false
  pub budget : x.attempts < x.max_attempts
  pub free :
      ((is_waiting x.status ≡ true) × (due now x.next_attempt_at ≡ true))
      ⊎ (is_expired now x ≡ true)

-- What the recovery makes of one row.
abbrev swept : (ℕ → Bool) → ℕ → Job → Job
swept locked now x = if is_expired now x && not (locked x.id) then recovered now x else x

swept-KeepsKey : (locked : ℕ → Bool) (now : ℕ) → KeepsKey (swept locked now)
unfolding recovered
swept-KeepsKey locked now = ground arith

get-recover :
    (locked : ℕ → Bool) (now k : ℕ) (db : List Job)
    → get k (recover locked now db) ≡ Option.map (swept locked now) (get k db)
unfolding recover update_where
get-recover locked now k db = get-map _ (swept-KeepsKey locked now) k db

-- A row is ready exactly if the recovery leaves it claimable.
Ready-swept :
    (locked : ℕ → Bool) (now : ℕ) (x : Job)
    → Ready locked now x
    → is_claimable locked now (swept locked now x) ≡ true
unfolding is_runnable is_expired recovered
Ready-swept locked now x r = ground arith

swept-Ready :
    (locked : ℕ → Bool) (now : ℕ) (x : Job)
    → is_claimable locked now (swept locked now x) ≡ true
    → Ready locked now x
unfolding is_runnable is_expired recovered
swept-Ready locked now x t = ground arith

before-swept :
    (locked : ℕ → Bool) (now : ℕ) (x y : Job)
    → before (swept locked now x) (swept locked now y) ≡ before x y
unfolding before recovered
before-swept locked now x y = ground arith

claimed-KeepsKey : (now lease : ℕ) → KeepsKey (claimed now lease)
unfolding claimed
claimed-KeepsKey now lease = ground arith

get-claimed :
    (now lease : ℕ) (db : List Job) (b : Job)
    → get b.id db ≡ some b
    → get b.id (update b.id (claimed now lease) db) ≡ some (claimed now lease b)
get-claimed now lease db b e =
    get-update b.id b.id (claimed now lease) db (claimed-KeepsKey now lease)
    ∙ ap (Option.map _) e
    ∙ ground arith

attempts-swept :
    (locked : ℕ → Bool) (now : ℕ) (x : Job) → (swept locked now x).attempts ≡ x.attempts
unfolding recovered
attempts-swept locked now x = ground arith

-- The row that a claim returns: as the table had it, and as the claim leaves it.
pub record Leased (locked : ℕ → Bool) (lease now : ℕ) (db db' : List Job) (i j : Job) : Type 0 where
  pub found : get j.id db ≡ some i
  pub written : get j.id db' ≡ some j
  pub ready : Ready locked now i
  pub first : (k : ℕ) (x : Job) → get k db ≡ some x → Ready locked now x → before x i ≡ false
  pub next_attempt : j.attempts ≡ i.attempts + 1
  pub status : j.status ≡ running
  pub lease_end : j.lease_expires_at ≡ some (lease_until now lease)

module _ (locked : ℕ → Bool) (lease now : ℕ) (db : List Job) (v : IsValid db) where
  abbrev swept_db : List Job
  swept_db = recover locked now db

  -- A row of the recovered table comes from a row of the table.
  from_swept :
      (k : ℕ) (y : Job)
      → get k swept_db ≡ some y
      → (x : Job) × (get k db ≡ some x) × (y ≡ swept locked now x)
  from_swept k y e = elim (Option-cases (get k db)) [
    | inl q ↦ absurd (cc (e, q, get-recover locked now k db))
    | inr (x, q) ↦ (x, q, cc (e, q, get-recover locked now k db))
  ]

  claim-Leased :
      (b : Job)
      → first_where (is_claimable locked now) swept_db ≡ some b
      → let (o, db') = lease_row lease now swept_db (some b) in
        (i : Job) × Leased locked lease now db db' i (claimed now lease b)
  claim-Leased b e =
      let valid = (recover-Kept locked now db v).0 in
      let (at_id, t) = first_where-get (is_claimable locked now) swept_db valid.unique e in
      let (i, q, same) = from_swept b.id b at_id in
      (
        i,
        record {
          found = unfold claimed in q;
          written = unfold claimed in get-claimed now lease swept_db b at_id;
          ready =
              swept-Ready locked now i
                (subst (λ (y : Job). is_claimable locked now y ≡ true) same t);
          first = λ k x h r.
              sym (before-swept locked now x i)
              ∙ subst (λ (y : Job). before (swept locked now x) y ≡ false) same
                  (first_where-first (is_claimable locked now) k swept_db e
                    (get-recover locked now k db ∙ ap (Option.map _) h)
                    (Ready-swept locked now x r));
          next_attempt =
              unfold claimed in
              omega (arith, ap (λ (y : Job). y.attempts) same, attempts-swept locked now i);
          status = unfold claimed in refl;
          lease_end = unfold claimed in refl;
        },
      )

  no_claim :
      first_where (is_claimable locked now) swept_db ≡ none
      → (k : ℕ) (x : Job) → get k db ≡ some x
      → ¬ Ready locked now x
  no_claim e k x h r = cc (
    first_where-none (is_claimable locked now) k swept_db e
        (get-recover locked now k db ∙ ap (Option.map (swept locked now)) h),
    Ready-swept locked now x r,
  )

-- The outcome of a claim: a lease of the first ready row, or no row was ready.
abbrev pub Outcome : (ℕ → Bool) → ℕ → ℕ → List Job → Option Job × List Job → Type 0
Outcome locked lease now db (some j, db') = (i : Job) × Leased locked lease now db db' i j
Outcome locked lease now db (none, db') =
    (k : ℕ) (x : Job) → get k db ≡ some x → ¬ Ready locked now x

-- On a valid table a claim returns nothing only if no row is ready. Otherwise it returns the row
-- that is first by `created_at` and `id` among the ready ones, and the table then has it running,
-- with one attempt more and a lease of at least 30 seconds from now.
pub claim_outcome :
    (locked : ℕ → Bool) (lease now : ℕ) (db : List Job)
    → IsValid db
    → Outcome locked lease now db (claim locked lease now db)
unfolding claim
claim_outcome locked lease now db v = by_row (first_where (is_claimable locked now) swept_db') refl
  where
    swept_db' : List Job
    swept_db' = recover locked now db

    by_row :
        (o : Option Job)
        → first_where (is_claimable locked now) swept_db' ≡ o
        → Outcome locked lease now db (lease_row lease now swept_db' o)
    by_row none e = no_claim locked lease now db v e
    by_row (some b) e = claim-Leased locked lease now db v b e

-- A running row whose lease is not over is not touched by a claim, and so it is not leased again.
pub claim_live :
    (locked : ℕ → Bool) (lease now : ℕ) (db : List Job) (k t : ℕ) (x : Job)
    → IsValid db
    → get k db ≡ some x
    → x.status ≡ running
    → x.lease_expires_at ≡ some t
    → now < t
    → get k (claim locked lease now db).1 ≡ some x
unfolding claim
claim_live locked lease now db k t x v e s l h = by_row (first_where p db') refl
  where
    p : Job → Bool
    p = is_claimable locked now

    db' : List Job
    db' = recover locked now db

    valid : IsValid db'
    valid = (recover-Kept locked now db v).0

    still : get k db' ≡ some x
    still =
        get-recover locked now k db
        ∙ ap (Option.map (swept locked now)) e
        ∙ unfold is_expired in ground arith

    by_row : (o : Option Job) → first_where p db' ≡ o → get k (lease_row lease now db' o).1 ≡ some x
    by_row none q = still
    by_row (some b) q =
        let (at_id, claimable) = first_where-get p db' valid.unique q in
        let other : x.id ≢ b.id = λ same.
          let one : x ≡ b =
            cc (still, at_id, ap (λ (n : ℕ). get n db') (sym (get-id k db' still) ∙ same)) in
          unfold is_runnable in ground (arith, ap (λ (j : Job). j.status) one) in
        get-update k b.id (claimed now lease) db' (claimed-KeepsKey now lease)
        ∙ ap (Option.map _) still
        ∙ ground arith
