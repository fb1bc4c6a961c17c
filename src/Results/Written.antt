-- ===== src/Results/Written.antt =====
-- What a calculation writes into the row of its key.
use site_proof.Prelude.{◌≡◌, refl, String, Option, none, some, [], ◌∷◌, ◌++◌, ◌∙◌, map}
use site_proof.Prelude.Float.{Float}
use site_proof.Sessions.Session.{Session}
use site_proof.Trust.Domain.{EngineDecision, PolicyDefinition}
use site_proof.Results.Result.{Key, VerificationResult, is_completed}
use site_proof.Results.Store.{Store, get_result, update_result}
use site_proof.Results.Calculation.{
  Inputs, Stage, waits, decides, reset, wait_for, complete_result, finish_result, decide, stage,
  new_result,
}
use site_proof.Results.Service.{calculate}
use site_proof.Results.Ledger.{Decided, decision_of, IsConsistent}
use site_proof.Results.Rows.{Keeps, reset-Keeps, update_result-last, update_result-update_result}

module _ {F : Type 0} where
  abbrev pub decided_by : EngineDecision F → Decided F
  decided_by d = record {
    verdict = d.verdict;
    score = d.score;
    confidence = d.confidence;
    codes = map (λ h. h.code) d.hard_rules;
  }

module _ {F : Type 0} ⦃f : Float F⦄ where
  unfoldable pub decided : Inputs F → PolicyDefinition F → String → Stage F → Option (Decided F)
  decided inputs policy engine (waits summary names) = none
  decided inputs policy engine (decides signals) =
      some (decided_by (decide inputs policy engine signals))

  pub finish_result-Keeps :
      (inputs : Inputs F) (policy : PolicyDefinition F) (engine : String) (s : Stage F)
      → Keeps (finish_result inputs policy engine s)
  unfolding finish_result wait_for complete_result
  finish_result-Keeps inputs policy engine (waits summary names) = record {
    ids = λ r. refl;
    keys = λ r. refl;
  }
  finish_result-Keeps inputs policy engine (decides signals) = record {
    ids = λ r. refl;
    keys = λ r. refl;
  }

  pub decision-finish_result :
      (inputs : Inputs F) (policy : PolicyDefinition F) (engine : String) (s : Stage F)
      (r : VerificationResult F)
      → decision_of (finish_result inputs policy engine s r) ≡ decided inputs policy engine s
  unfolding finish_result wait_for complete_result decision_of decided is_completed
  decision-finish_result inputs policy engine (waits summary names) r = refl
  decision-finish_result inputs policy engine (decides signals) r = refl

  pub finish_result-IsConsistent :
      (inputs : Inputs F) (policy : PolicyDefinition F) (engine : String) (s : Stage F)
      (r : VerificationResult F)
      → r.verdict ≡ none
      → IsConsistent (finish_result inputs policy engine s r)
  unfolding finish_result wait_for complete_result decision_of is_completed
  finish_result-IsConsistent inputs policy engine (waits summary names) r e = record {
    decided = λ t. cc;
    undecided = λ t. e;
  }
  finish_result-IsConsistent inputs policy engine (decides signals) r e = record {
    decided = λ t. (_, refl);
    undecided = λ t. cc;
  }

module _ {F : Type 0} ⦃f : Float F⦄ where
  -- The decision that the inputs lead to, if they lead to one.
  abbrev pub outcome : Inputs F → Session → PolicyDefinition F → Key → Option (Decided F)
  outcome inputs session policy key =
      decided inputs policy key.engine_version (stage inputs session.id policy)

module _ {F : Type 0} ⦃f : Float F⦄ (inputs : Inputs F) (session : Session)
    (policy : PolicyDefinition F) (key : Key) (store : Store F) where
  abbrev pub written : VerificationResult F → VerificationResult F
  written = finish_result inputs policy key.engine_version (stage inputs session.id policy)

  abbrev pub fresh_row : VerificationResult F
  fresh_row = new_result inputs session policy key

  pub calculate-none_rows :
      get_result inputs.new_result_id store.results ≡ none
      → (calculate inputs session policy key store none).1.results
        ≡ store.results ++ written fresh_row ∷ []
  unfolding calculate new_result
  calculate-none_rows e = update_result-last written store.results fresh_row e

  pub calculate-some_rows :
      (r : VerificationResult F)
      → (calculate inputs session policy key store (some r)).1.results
        ≡ update_result r.id (λ x. written (reset x)) store.results
  unfolding calculate reset
  calculate-some_rows r = update_result-update_result r.id reset written store.results reset-Keeps

  pub decision-written :
      (r : VerificationResult F) → decision_of (written r) ≡ outcome inputs session policy key
  decision-written r =
      decision-finish_result inputs policy key.engine_version (stage inputs session.id policy) r

  pub written-Keeps : Keeps written
  written-Keeps =
      finish_result-Keeps inputs policy key.engine_version (stage inputs session.id policy)

  pub rewritten-Keeps : Keeps (λ x. written (reset x))
  rewritten-Keeps = record {
    ids = λ r. written-Keeps.ids (reset r) ∙ reset-Keeps.ids r;
    keys = λ r. written-Keeps.keys (reset r) ∙ reset-Keeps.keys r;
  }
