-- ===== src/Trust/Verdicts.antt =====
-- When `resolve_decision` reaches each verdict.
use site_proof.Prelude.{
  ℕ, ◌≡◌, ◌≢◌, ◌↔◌, ◌⊎◌, refl, Bool, true, ◌&&◌, Option, List, [], arith, ◌==◌, if◌then◌else◌, ◌∙◌,
  sym, ap,
}
use site_proof.Prelude.Float.{Float, ◌<=◌, ◌<<◌}
use site_proof.Prelude.Dict.{find, find_last, find-put_all_nil, any-filter, any}
use site_proof.Trust.Domain.{
  SignalType, location, session_time, challenge_completion, sensor_quality, visual_motion,
  scene_continuity, visual_inertial_consistency, Verdict, verified, flagged, Signal,
  PolicyDefinition, same_type, sorted_types, index,
}
use site_proof.Trust.Scoring.{by_type, calculate_score}
use site_proof.Trust.Rules.{evaluate_hard_rules}
use site_proof.Trust.Decision.{
  is_lacking, any_flagged, missing_required, verdict_of, resolve_decision,
}

abbrev pub has_type : SignalType → List SignalType → Bool
has_type t = any (same_type t)

-- The last signal of a type.
abbrev pub last_of : {F : Type 0} → SignalType → List (Signal F) → Option (Signal F)
last_of t = find_last λ s. same_type s.type t

of_index : ℕ → SignalType
of_index n =
    if n == 0
    then location
    else if n == 1
    then session_time
    else if n == 2
    then challenge_completion
    else if n == 3
    then sensor_quality
    else if n == 4
    then visual_motion
    else if n == 5
    then scene_continuity
    else visual_inertial_consistency

of_index-index : (t : SignalType) → of_index (index t) ≡ t
unfolding of_index
of_index-index location = refl
of_index-index _ = refl

pub same_type-eq : (a b : SignalType) → same_type a b ≡ true → a ≡ b
same_type-eq a b e =
    let same : index a ≡ index b = ground arith in
    sym (of_index-index a) ∙ ap of_index same ∙ of_index-index b

has_type-sorted_types : (t : SignalType) → has_type t sorted_types ≡ true
unfolding any
has_type-sorted_types location = refl
has_type-sorted_types _ = refl

module _ {F : Type 0} where
  find-by_type :
      (t : SignalType) (signals : List (Signal F))
      → find (λ s. same_type s.type t) (by_type signals) ≡ last_of t signals
  unfolding by_type
  find-by_type t signals = find-put_all_nil (λ s. index s.type) (index t) signals

  -- A type is missing exactly if the policy requires it and its last signal is not there, not
  -- available, or has a status that decides nothing.
  pub missing_required_lem :
      (t : SignalType) (signals : List (Signal F)) (policy : PolicyDefinition F)
      → has_type t (missing_required signals policy)
        ≡ (policy.required_signals t && is_lacking (last_of t signals))
  unfolding missing_required
  missing_required_lem t signals policy =
      any-filter (same_type t) _ (lacking t) sorted_types
        (λ u e. ap lacking (sym (same_type-eq t u e)))
      ∙ rw (has_type-sorted_types t, find-by_type t signals)
    where
      lacking : SignalType → Bool
      lacking u =
          policy.required_signals u && is_lacking (find (λ s. same_type s.type u) (by_type signals))

module _ {F : Type 0} ⦃f : Float F⦄ (signals : List (Signal F)) (policy : PolicyDefinition F) where
  -- The verdict is VERIFIED exactly if no required signal is missing, no hard rule was triggered,
  -- the score reaches the policy's threshold and the confidence is not below its minimum.
  pub verified_iff :
      let score = calculate_score signals policy in
      (resolve_decision signals policy).verdict ≡ verified ↔ (
        (missing_required signals policy ≡ [])
        × (evaluate_hard_rules signals policy ≡ [])
        × ((policy.verified_threshold <= score.raw_score) ≡ true)
        × ((policy.minimum_required_confidence <= score.overall_confidence) ≡ true))
  unfolding resolve_decision verdict_of any
  verified_iff = (ground arith, ground arith)

  -- It is INCONCLUSIVE exactly if a required signal is missing.
  pub inconclusive_iff :
      (resolve_decision signals policy).verdict ≡ Verdict.inconclusive
      ↔ missing_required signals policy ≢ []
  unfolding resolve_decision verdict_of any
  inconclusive_iff = (ground arith, ground arith)

  -- It is FLAGGED exactly if no required signal is missing, and a rule that caps the verdict at
  -- FLAGGED was triggered or the score is below both thresholds.
  pub flagged_iff :
      let score = calculate_score signals policy in
      (resolve_decision signals policy).verdict ≡ flagged ↔ (
        (missing_required signals policy ≡ [])
        × ((any_flagged (evaluate_hard_rules signals policy) ≡ true)
            ⊎ (((score.raw_score << policy.verified_threshold) ≡ true)
                × ((score.raw_score << policy.review_threshold) ≡ true))))
  unfolding resolve_decision verdict_of any
  flagged_iff = (ground arith, ground arith)
