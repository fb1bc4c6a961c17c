-- ===== src/Pipeline/Run.antt =====
-- `run_verification_pipeline`. The four analyses are arguments: each reads and writes the rows that a
-- calculation reads (Inputs), and may raise.
use Prim.Native.String.{◌++◌ as append}
use site_proof.Prelude.{ℕ, String, Bool, not, Option, none, some, if◌then◌else◌, str_eq}
use site_proof.Prelude.Float.{Float}
use site_proof.Prelude.Reply.{Reply, ok, err}
use site_proof.Jobs.Job.{Error}
use site_proof.Results.Result.{
  VerificationResult, ProcessingStatus, is_completed, pending, waiting_for_signals, calculating,
  completed, failed,
}
use site_proof.Results.Store.{Store, Outcome, returned, raised}
use site_proof.Results.Calculation.{Inputs}
use site_proof.Results.Service.{calculate_verification}
use site_proof.Receipts.Receipt.{SignedReceipt}
use site_proof.Receipts.Crypto.{Crypto, Provider}
use site_proof.Receipts.Service.{Vault, Draw, issue_automated_receipt}

pub record World (F : Type 0) : Type 0 where
  pub inputs : Inputs F
  pub store : Store F
  pub vault : Vault F

-- An analysis for a session: the exception that it raises, if it does, and the rows that it commits.
abbrev pub Analysis : Type 0 → Type 0
Analysis F = ℕ → Inputs F → Option Error × Inputs F

pub record Stages (F : Type 0) : Type 0 where
  pub analyze_session_visual_motion : Analysis F
  pub analyze_session_fusion : Analysis F
  pub analyze_advanced_security : Analysis F
  pub analyze_advanced_signals : Analysis F

abbrev runtime_error : String → Error
runtime_error message = record { message = message; class_name = "RuntimeError" }

abbrev status_text : ProcessingStatus → String
status_text pending = "PENDING"
status_text waiting_for_signals = "WAITING_FOR_SIGNALS"
status_text calculating = "CALCULATING"
status_text completed = "COMPLETED"
status_text failed = "FAILED"

module _ {F : Type 0} where
  abbrev pub then_analyze : Analysis F → ℕ → Option Error × Inputs F → Option Error × Inputs F
  then_analyze analysis session (some e, inputs) = (some e, inputs)
  then_analyze analysis session (none, inputs) = analysis session inputs

  -- The four analyses in their order.
  unfoldable pub analyze : Stages F → ℕ → Inputs F → Option Error × Inputs F
  analyze stages session inputs = then_analyze stages.analyze_advanced_signals session (
      then_analyze stages.analyze_advanced_security session (
        then_analyze stages.analyze_session_fusion session
          (stages.analyze_session_visual_motion session inputs)))

  abbrev pub with_receipt : World F → Reply (SignedReceipt F) × Vault F → Option Error × World F
  with_receipt world (ok r, vault) = (none, record world { vault = vault })
  with_receipt world (err status code, vault) =
      (some (record { message = code; class_name = "SiteProofError" }), world)

module _ {F B K : Type 0} (c : Crypto F B K) (signing_enabled : Bool) (signer : Provider K)
    (draw : Draw) where
  unfoldable pub finish_pipeline : World F → VerificationResult F → Option Error × World F
  finish_pipeline world r =
      if not (str_eq r.key.engine_version "verification-engine-v2.0")
      then (
        some (
            runtime_error
              "Security analysis did not become authoritative; refusing to finalize a legacy verdict."),
        world,
      )
      else if not (is_completed r.processing_status)
      then (
        some (
            runtime_error (
              append "Verification pipeline did not reach a terminal result: "
                (append (status_text r.processing_status) "."))),
        world,
      )
      else if signing_enabled
      then with_receipt world (issue_automated_receipt c signer draw world.store world.vault r.id)
      else (none, world)

  abbrev pub with_calculation :
      World F → Outcome (VerificationResult F) × Store F → Option Error × World F
  with_calculation world (raised m, store) =
      (some (record { message = m; class_name = "ValueError" }), record world { store = store })
  with_calculation world (returned r, store) = finish_pipeline (record world { store = store }) r

module _ {F B K : Type 0} ⦃f : Float F⦄ (c : Crypto F B K) (signing_enabled : Bool)
    (signer : Provider K) (draw : Draw) where
  abbrev pub with_analyses : ℕ → World F → Option Error × Inputs F → Option Error × World F
  with_analyses session world (some e, inputs) = (some e, record world { inputs = inputs })
  with_analyses session world (none, inputs) =
      with_calculation c signing_enabled signer draw (record world { inputs = inputs })
        (calculate_verification inputs session world.store)

  -- The exception that is raised, or `none`, and what has been committed.
  unfoldable pub run_verification_pipeline : Stages F → ℕ → World F → Option Error × World F
  unfolding analyze finish_pipeline
  run_verification_pipeline stages session world =
      with_analyses session world (analyze stages session world.inputs)
