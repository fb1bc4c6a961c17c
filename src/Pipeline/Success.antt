-- ===== src/Pipeline/Success.antt =====
-- The end of a pipeline that raises nothing, and of the job that a worker completes.
use site_proof.Prelude.{
  ℕ, ◌≡◌, ◌≢◌, refl, Bool, true, Option, none, some, List, arith, ap, sym, subst, if◌then◌else◌,
  Bool-cases, inl, inr, str_eq, eq_iff, ◌∙◌,
}
use site_proof.Prelude.Float.{Float}
use site_proof.Prelude.Reply.{Reply, ok, err}
use site_proof.Jobs.Job.{Job, Error, running, completed, gave_up, default_lease_seconds}
use site_proof.Jobs.Table.{get}
use site_proof.Jobs.Queue.{claim}
use site_proof.Jobs.Trace.{Call, run}
use site_proof.Jobs.Worker.{process_one, process_one_outcome}
use site_proof.Results.Result.{Key, VerificationResult, is_completed}
use site_proof.Results.Store.{Store, Outcome, returned, raised, find_result, get_result}
use site_proof.Results.Calculation.{Inputs}
use site_proof.Results.Service.{calculate_verification}
use site_proof.Results.Stored.{calculate_verification-stored}
use site_proof.Receipts.Receipt.{SignedReceipt}
use site_proof.Receipts.Crypto.{Crypto, Provider}
use site_proof.Receipts.Service.{Vault, Draw, issue_automated_receipt, find_receipt}
use site_proof.Receipts.Validity.{find_receipt-issue}
use site_proof.Pipeline.Run.{
  World, Stages, analyze, with_receipt, finish_pipeline, with_calculation, with_analyses,
  run_verification_pipeline,
}

-- A completed result of the security engine for the session, and its receipt where signing is on.
pub record Finalized {F : Type 0} (signing_enabled : Bool) (session : ℕ) (world : World F)
    : Type 0 where
  pub result : VerificationResult F
  pub key : Key
  pub stored : find_result key world.store.results ≡ some result
  pub of_session : key.session_id ≡ session
  pub engine : result.key.engine_version ≡ "verification-engine-v2.0"
  pub is_done : is_completed result.processing_status ≡ true
  pub receipt :
      signing_enabled ≡ true
      → (r : SignedReceipt F) × (find_receipt result.id world.vault.receipts ≡ some r)

-- No analysis draws the id of a result that is there.
abbrev pub DrawsNew : {F : Type 0} → Stages F → ℕ → World F → Type 0
DrawsNew stages session world =
    get_result (analyze stages session world.inputs).1.new_result_id world.store.results ≡ none

gave_up-not_completed : (now : ℕ) (e : Error) (j : Job) → (gave_up now e j).status ≢ completed
unfolding gave_up
gave_up-not_completed now e j h = ground arith

module _ {F B K : Type 0} (c : Crypto F B K) (signing_enabled : Bool) (signer : Provider K)
    (draw : Draw) where
  with_receipt-none :
      (world world' : World F) (id : ℕ) (x : Reply (SignedReceipt F) × Vault F)
      → issue_automated_receipt c signer draw world.store world.vault id ≡ x
      → with_receipt world x ≡ (none, world')
      → (world'.store ≡ world.store)
        × ((r : SignedReceipt F) × (find_receipt id world'.vault.receipts ≡ some r))
  with_receipt-none world world' id (err status code, vault) e h = cc
  with_receipt-none world world' id (ok r, vault) e h =
      let same : record world { vault = vault } ≡ world' = cc h in
      let (found, _, _) = find_receipt-issue c signer draw world.store world.vault id r vault e in
      (
        sym (ap (λ (w : World F). w.store) same),
        (r, subst (λ (w : World F). find_receipt id w.vault.receipts ≡ some r) same found),
      )

  -- What `finish_pipeline` lets through.
  finish_pipeline-none :
      (world world' : World F) (r : VerificationResult F)
      → finish_pipeline c signing_enabled signer draw world r ≡ (none, world')
      → (world'.store ≡ world.store)
        × (r.key.engine_version ≡ "verification-engine-v2.0")
        × (is_completed r.processing_status ≡ true)
        × (signing_enabled ≡ true
            → (x : SignedReceipt F) × (find_receipt r.id world'.vault.receipts ≡ some x))
  unfolding finish_pipeline
  finish_pipeline-none world world' r e =
      elim (Bool-cases (str_eq r.key.engine_version "verification-engine-v2.0")) [
        | inr t ↦ cc (rw t at e)
        | inl t ↦ elim (Bool-cases (is_completed r.processing_status)) [
          | inr u ↦ cc (rw (t, u) at e)
          | inl u ↦ by_signing t u (rw (t, u) at e)
        ]
      ]
    where
      by_signing :
          str_eq r.key.engine_version "verification-engine-v2.0" ≡ true
          → is_completed r.processing_status ≡ true
          → (if signing_enabled
              then with_receipt world
                  (issue_automated_receipt c signer draw world.store world.vault r.id)
              else (none, world))
            ≡ (none, world')
          → (world'.store ≡ world.store)
            × (r.key.engine_version ≡ "verification-engine-v2.0")
            × (is_completed r.processing_status ≡ true)
            × (signing_enabled ≡ true
                → (x : SignedReceipt F) × (find_receipt r.id world'.vault.receipts ≡ some x))
      by_signing t u h = elim (Bool-cases signing_enabled) [
        | inl on ↦
            let (kept, there) = with_receipt-none world world' r.id _ refl (rw on at h) in
            (kept, (eq_iff r.key.engine_version "verification-engine-v2.0").0 t, u, λ _. there)
        | inr off ↦
            let same : world ≡ world' = cc (rw off at h) in
            (
              sym (ap (λ (w : World F). w.store) same),
              (eq_iff r.key.engine_version "verification-engine-v2.0").0 t,
              u,
              λ on. cc (on, off),
            )
      ]

module _ {F B K : Type 0} ⦃f : Float F⦄ (c : Crypto F B K) (signing_enabled : Bool)
    (signer : Provider K) (draw : Draw) where
  calculated-Finalized :
      (session : ℕ) (inputs : Inputs F) (world world' : World F)
      (x : Outcome (VerificationResult F) × Store F)
      → get_result inputs.new_result_id world.store.results ≡ none
      → calculate_verification inputs session world.store ≡ x
      → with_calculation c signing_enabled signer draw world x ≡ (none, world')
      → Finalized signing_enabled session world'
  calculated-Finalized session inputs world world' (raised m, store) new e h = cc
  calculated-Finalized session inputs world world' (returned r, store) new e h =
      let (kept, engine, is_done, receipt) =
        finish_pipeline-none c signing_enabled signer draw (record world { store = store }) world' r
          h in
      let (key, stored, of_session) =
        calculate_verification-stored inputs session world.store r new
          (ap (λ (y : Outcome (VerificationResult F) × Store F). y.0) e) in
      let at_store : find_result key store.results ≡ some r =
        subst
          (λ (y : Outcome (VerificationResult F) × Store F). find_result key y.1.results ≡ some r) e
          stored in
      record {
        result = r;
        key = key;
        stored = subst (λ (s : Store F). find_result key s.results ≡ some r) (sym kept) at_store;
        of_session = of_session;
        engine = engine;
        is_done = is_done;
        receipt = receipt;
      }

  pub run_verification_pipeline-Finalized :
      (stages : Stages F) (session : ℕ) (world world' : World F)
      → DrawsNew stages session world
      → run_verification_pipeline c signing_enabled signer draw stages session world
        ≡ (none, world')
      → Finalized signing_enabled session world'
  unfolding run_verification_pipeline
  run_verification_pipeline-Finalized stages session world world' new e =
      by_analyses (analyze stages session world.inputs) new e
    where
      by_analyses :
          (x : Option Error × Inputs F)
          → get_result x.1.new_result_id world.store.results ≡ none
          → with_analyses c signing_enabled signer draw session world x ≡ (none, world')
          → Finalized signing_enabled session world'
      by_analyses (some error, inputs) n h = cc
      by_analyses (none, inputs) n h =
          calculated-Finalized session inputs (record world { inputs = inputs }) world' _ n refl h

  -- If the row of a claimed job is still running at the claimed attempt when the pipeline ends, and is
  -- completed by the end of the attempt, then the job's session has a completed result of the security
  -- engine and, where signing is enabled, this result has a receipt.
  pub completed_job-Finalized :
      (locked : ℕ → Bool) (now : ℕ) (others : List Call) (later : ℕ) (db db' : List Job)
      (job r j : Job) (stages : Stages F) (world : World F)
      → DrawsNew stages job.session_id world
      → claim locked default_lease_seconds now db ≡ (some job, db')
      → get job.id (run db' others) ≡ some r
      → r.status ≡ running
      → r.attempts ≡ job.attempts
      → let (outcome, world') =
          run_verification_pipeline c signing_enabled signer draw stages job.session_id world in
        get job.id (process_one locked now others outcome later db).1 ≡ some j
        → j.status ≡ completed
        → Finalized signing_enabled job.session_id world'
  completed_job-Finalized locked now others later db db' job r j stages world new claimed at_end
        is_running same_attempt at_job completes =
      by_outcome _ refl
    where
      by_outcome :
          (x : Option Error × World F)
          → run_verification_pipeline c signing_enabled signer draw stages job.session_id world ≡ x
          → Finalized signing_enabled job.session_id x.1
      by_outcome (none, world') e =
          run_verification_pipeline-Finalized stages job.session_id world world' new e
      by_outcome (some error, world') e =
          let failed =
            process_one_outcome locked now others (some error) later db db' job r claimed at_end in
          let at_error : get job.id (process_one locked now others (some error) later db).1
              ≡ some j =
            subst
              (λ (x : Option Error × World F).
                get job.id (process_one locked now others x.0 later db).1 ≡ some j)
              e at_job in
          let row : gave_up later error r ≡ j = cc (failed.1 is_running same_attempt, at_error) in
          elim (gave_up-not_completed later error r
            (ap (λ (x : Job). x.status) row ∙ completes)) [ ]
