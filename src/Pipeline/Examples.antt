-- ===== src/Pipeline/Examples.antt =====
-- A job whose pipeline issues a receipt.
use site_proof.Prelude.{ℕ, ◌≡◌, refl, Bool, true, false, Option, none, some, [], ◌∷◌, ap, ◌∙◌}
use site_proof.Prelude.Float.{Micro, micro_float}
use site_proof.Prelude.Dict.{find, any, filter}
use site_proof.Jobs.Job.{
  Job, Error, pending, running, completed, default_lease_seconds, claimed, succeeded, is_expired,
  is_runnable,
}
use site_proof.Jobs.Table.{get, first_where, update, update_where}
use site_proof.Jobs.Queue.{claim, recover, mark_succeeded, fenced, active_attempt}
use site_proof.Jobs.Trace.{run}
use site_proof.Jobs.Worker.{process_one, finish}
use site_proof.Trust.Policy.{validate_policy, default_policy, default_policy_definition}
use site_proof.Results.Examples as Reviewed
use site_proof.Results.Result.{is_completed, same_key}
use site_proof.Results.Store.{get_result, find_result}
use site_proof.Results.Service.{calculate_verification}
use site_proof.Receipts.Examples as Signed
use site_proof.Receipts.Service.{
  issue_automated_receipt, issue_new, sign_receipt, add_receipt, find_receipt, ensure_key_metadata,
  find_signing_key, new_key, result_to_seal, session_of,
}
use site_proof.Trust.Gate.{engine_version_for_session}
use site_proof.Results.PolicyRows.{
  get_or_create_default_policy, parse_weights, default_row, parse_type, parse_types, has_all,
  definition_of,
}
use site_proof.Receipts.Crypto.{sign, get_public_key}
use site_proof.Pipeline.Run.{
  World, Stages, Analysis, analyze, finish_pipeline, run_verification_pipeline,
}
use site_proof.Pipeline.Success.{Finalized, DrawsNew, completed_job-Finalized}

abbrev unlocked : ℕ → Bool
unlocked _ = false

abbrev waiting_job : Job
waiting_job = record {
  id = 1;
  session_id = 1;
  pipeline_version = "verification-v2.0";
  status = pending;
  attempts = 0;
  max_attempts = 5;
  next_attempt_at = some 100;
  lease_expires_at = none;
  last_error = none;
  created_at = 90;
}

abbrev claimed_job : Job
claimed_job = record waiting_job {
  status = running;
  attempts = 1;
  next_attempt_at = none;
  lease_expires_at = some 300_000_200;
}

abbrev done_job : Job
done_job = record claimed_job { status = completed; lease_expires_at = none }

-- Analyses whose rows are there.
abbrev idle : Analysis Micro
idle session inputs = (none, inputs)

abbrev stages : Stages Micro
stages = record {
  analyze_session_visual_motion = idle;
  analyze_session_fusion = idle;
  analyze_advanced_security = idle;
  analyze_advanced_signals = idle;
}

abbrev world : World Micro
world = record { inputs = Reviewed.inputs; store = Reviewed.store; vault = Signed.empty }

claim_waiting :
    claim unlocked default_lease_seconds 200 (waiting_job ∷ [])
    ≡ (some claimed_job, claimed_job ∷ [])
unfolding claim recover update update_where first_where claimed is_expired is_runnable
claim_waiting = refl

draws_new : DrawsNew stages 1 world
unfolding analyze get_result find
draws_new = refl

abbrev ran : Option Error × World Micro
ran =
    run_verification_pipeline ⦃f = micro_float⦄ Signed.crypto true Signed.signer Signed.draw stages
      1 world

raises_nothing : ran.0 ≡ none
unfolding run_verification_pipeline analyze finish_pipeline calculate_verification find any
    validate_policy default_policy default_policy_definition find_result same_key is_completed
    issue_automated_receipt issue_new sign_receipt add_receipt find_receipt ensure_key_metadata
    find_signing_key result_to_seal session_of get_result sign get_public_key
    get_or_create_default_policy parse_weights default_row parse_type parse_types filter has_all
    definition_of engine_version_for_session new_key
raises_nothing = refl

done : get 1 (process_one unlocked 200 [] none 400 (waiting_job ∷ [])).1 ≡ some done_job
unfolding process_one claim recover update update_where first_where claimed is_expired is_runnable
    finish mark_succeeded fenced active_attempt succeeded get run
done = refl

completes : get 1 (process_one unlocked 200 [] ran.0 400 (waiting_job ∷ [])).1 ≡ some done_job
completes =
    ap (λ (o : Option Error). get 1 (process_one unlocked 200 [] o 400 (waiting_job ∷ [])).1)
      raises_nothing
    ∙ done

completed_job-Finalized_example : Finalized true 1 ran.1
completed_job-Finalized_example =
    completed_job-Finalized ⦃f = micro_float⦄ Signed.crypto true Signed.signer Signed.draw unlocked
      200 [] 400 (waiting_job ∷ []) (claimed_job ∷ []) claimed_job claimed_job done_job stages world
      draws_new claim_waiting (unfold get run in refl) refl refl completes refl
