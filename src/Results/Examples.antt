-- ===== src/Results/Examples.antt =====
-- A session that is verified and reviewed.
use site_proof.Prelude.{◌≡◌, ◌⊎◌, refl, false, none, some, [], ◌∷◌, map, ◌∙◌}
use site_proof.Prelude.Float.{Micro, micro_float}
use site_proof.Prelude.Dict.{find, any, filter}
use site_proof.Inspections.Inspection.{InspectionStatus, cancelled}
use site_proof.Sessions.Session.{Session, uploaded}
use site_proof.Sessions.Examples as Captured
use site_proof.Trust.Domain.{verified, PolicyDefinition}
use site_proof.Trust.Policy.{default_policy, default_policy_definition, validate_policy}
use site_proof.Trust.Examples as Judgement
use site_proof.Results.Result.{Key, VerificationResult, is_completed, completed, approved}
use site_proof.Results.PolicyRows.{
  PolicyRow, policy_from_row, default_row, get_or_create_default_policy,
}
use site_proof.Results.Policies.{
  policy_from_row-default_row, default_policy-known, get_or_create_default_policy_again,
}
use site_proof.Results.Store.{Store, get_result, find_result, latest_result}
use site_proof.Results.Calculation.{Inputs, decides, stage, upstream_processing}
use site_proof.Results.Service.{calculate_verification, key_for}
use site_proof.Results.Review.{
  Reviewer, ReviewRequest, create_review_decision, record_review, find_inspection, find_reviewed,
  result_to_review, lacks_reason, needs_reason, set_status, status_after,
}
use site_proof.Results.Ledger.{decision_of, ledger, IsConsistent, IsValid}
use site_proof.Results.Kept.{signals_of}
use site_proof.Results.Outcomes.{Raises, Settles, calculate_verification_refines}
use site_proof.Results.Decides.{Judged, calculate_verification-Judged}
use site_proof.Results.ReviewLaws.{Refused, Accepted, create_review_decision_outcome}
use site_proof.Results.Trace.{
  calculating, reviewing, Steps, here, next, completed_kept, Steps-IsValid,
}

abbrev session : Session
session = record Captured.session { status = uploaded }

abbrev pub inputs : Inputs Micro
inputs = record {
  now = 100;
  new_result_id = 40;
  new_policy_id = 60;
  created_at = 90;
  vision_version = "v1";
  fusion_version = "f1";
  visual_rows = [];
  fusion_rows = [];
  security = some Judgement.reused;
  location = none;
  replay = none;
  advanced_signals = some tt;
  collect = λ required. Judgement.good;
}

abbrev key : Key
key = record {
  session_id = 1;
  policy_id = 60;
  policy_version = "1.3";
  engine_version = "verification-engine-v2.0";
}

abbrev pub result : VerificationResult Micro
result = record {
  id = 30;
  organization_id = 5;
  inspection_id = 7;
  key = key;
  policy_name = "Infrastructure Field Verification";
  processing_status = completed;
  raw_score = some 95_000_000;
  final_score = some 95_000_000;
  verdict = some verified;
  overall_confidence = some 900_000;
  hard_rule_triggered = false;
  hard_rule_codes = [];
  summary = none;
  summary_reasons = [];
  warnings = [];
  limitations = [];
  diagnostics = none;
  calculated_at = some 80;
  created_at = 70;
}

abbrev empty : Store Micro
empty = record {
  inspections = Captured.inspection ∷ [];
  sessions = session ∷ [];
  policies = [];
  results = [];
  signals = [];
  reviews = [];
}

abbrev pub store : Store Micro
store = record empty { results = result ∷ [] }

empty-IsValid : IsValid empty.results
empty-IsValid = record { distinct = tt; consistent = tt }

result-IsConsistent : IsConsistent result
unfolding decision_of is_completed
result-IsConsistent = record {
  decided = λ t.
      (record { verdict = verified; score = 95_000_000; confidence = 900_000; codes = [] }, refl);
  undecided = λ t. cc;
}

store-IsValid : IsValid store.results
unfolding find
store-IsValid = record { distinct = (refl, tt); consistent = (result-IsConsistent, tt) }

unused : get_result inputs.new_result_id empty.results ≡ none
unfolding get_result find
unused = refl

unused_too : get_result inputs.new_result_id store.results ≡ none
unfolding get_result find
unused_too = refl

calculate_verification_refines_example :
    Raises ⦃f = micro_float⦄ inputs 1 empty
      (calculate_verification ⦃f = micro_float⦄ inputs 1 empty)
    ⊎ Settles ⦃f = micro_float⦄ inputs 1 empty
        (calculate_verification ⦃f = micro_float⦄ inputs 1 empty)
calculate_verification_refines_example =
    calculate_verification_refines ⦃f = micro_float⦄ inputs 1 empty empty-IsValid unused

-- The policy of the example, and its row.
abbrev policy : PolicyDefinition Micro
policy = Judgement.policy

abbrev row : PolicyRow Micro
row = default_row 60 5 policy

policy_from_row-default_row_example :
    policy_from_row ⦃f = micro_float⦄ (default_row 60 5 policy)
    ≡ validate_policy ⦃f = micro_float⦄ policy
policy_from_row-default_row_example =
    policy_from_row-default_row ⦃f = micro_float⦄ 60 5 policy
      (default_policy-known Micro ⦃f = micro_float⦄)

loaded :
    get_or_create_default_policy ⦃f = micro_float⦄ inputs.new_policy_id session.organization_id
      empty.policies
    ≡ some (row, row ∷ [])
unfolding get_or_create_default_policy find default_policy_definition validate_policy default_policy
    any
loaded = refl

get_or_create_default_policy_again_example :
    (get_or_create_default_policy ⦃f = micro_float⦄ 61 session.organization_id (row ∷ [])
      ≡ some (row, row ∷ []))
    × (d : PolicyDefinition Micro) × (policy_from_row ⦃f = micro_float⦄ row ≡ some d)
get_or_create_default_policy_again_example =
    get_or_create_default_policy_again ⦃f = micro_float⦄ inputs.new_policy_id 61
      session.organization_id empty.policies (row ∷ []) row loaded

read : policy_from_row ⦃f = micro_float⦄ row ≡ some policy
read = policy_from_row-default_row_example ∙ (unfold validate_policy default_policy any in refl)

all_there : stage inputs session.id policy ≡ decides Judgement.good
unfolding stage upstream_processing any filter
all_there = refl

undecided : ledger empty.results (key_for inputs session row policy) ≡ none
unfolding ledger find_result find
undecided = refl

calculate_verification-Judged_example :
    Judged ⦃f = micro_float⦄ Judgement.good policy Judgement.reused none
      (calculate_verification ⦃f = micro_float⦄ inputs 1 empty).0
calculate_verification-Judged_example =
    calculate_verification-Judged ⦃f = micro_float⦄ inputs 1 empty session row (row ∷ []) policy
      Judgement.good Judgement.reused empty-IsValid (unfold find in refl) (unfold find in refl)
      loaded read refl refl all_there undecided

abbrev reviewer : Reviewer
reviewer = record { id = 3; organization_id = 5 }

abbrev approval : ReviewRequest
approval = record { session_id = 1; decision = approved; reason = "" }

create_review_decision_outcome_example :
    Refused reviewer 7 approval store (create_review_decision reviewer 7 approval store)
    ⊎ Accepted reviewer 7 approval store (create_review_decision reviewer 7 approval store)
create_review_decision_outcome_example =
    create_review_decision_outcome reviewer 7 approval store store-IsValid

abbrev later : Store Micro
later =
    (create_review_decision reviewer 7 approval
      (calculate_verification ⦃f = micro_float⦄ inputs 1 store).1).1

steps : Steps ⦃f = micro_float⦄ store later
steps = next (next here (calculating inputs 1 unused_too)) (reviewing reviewer 7 approval)

Steps-IsValid_example : IsValid later.results
Steps-IsValid_example = Steps-IsValid ⦃f = micro_float⦄ store later store-IsValid steps

found : get_result 30 store.results ≡ some result
unfolding get_result find
found = refl

completed_kept_example :
    (get_result 30 later.results ≡ some result)
    × (signals_of 30 later.signals ≡ signals_of 30 store.signals)
completed_kept_example =
    completed_kept ⦃f = micro_float⦄ store later 30 result store-IsValid steps found
      (unfold is_completed in refl)

-- A review writes the status of a cancelled inspection too.
abbrev cancelled_store : Store Micro
cancelled_store = record store {
  inspections = record Captured.inspection { status = cancelled; cancelled_at = some 5 } ∷ [];
}

approved_after_cancellation :
    map (λ i. i.status) (create_review_decision reviewer 7 approval cancelled_store).1.inspections
    ≡ InspectionStatus.approved ∷ []
unfolding create_review_decision record_review find_inspection find_reviewed result_to_review
    latest_result lacks_reason needs_reason set_status status_after find
approved_after_cancellation = refl
