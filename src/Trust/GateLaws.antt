-- ===== src/Trust/GateLaws.antt =====
-- The security gate: when it has a rule that flags, and what it makes of a decision.
use site_proof.Prelude.{
  ◌≡◌, ◌↔◌, ◌⊎◌, refl, Bool, true, false, ◌&&◌, ◌||◌, Option, some, none, List, [], ◌∷◌, ◌++◌,
  arith, str_eq, ◌∙◌, All, subst,
}
use site_proof.Prelude.Float.{Float, ◌<=◌}
use site_proof.Prelude.Dict.{any, put_all, any-append}
use site_proof.Trust.Domain.{Verdict, verified, flagged, EngineDecision, HardRuleResult, is_flagged}
use site_proof.Trust.Rules.{same_code}
use site_proof.Trust.Decision.{any_flagged}
use site_proof.Trust.Gate.{
  SecurityRow, LocationRow, ReplayRow, has_code, reuse_rules, location_rules, device_rules,
  replay_rules, composite_rules, evaluate_security_gate, apply_security_gate,
}
use site_proof.Trust.RuleLaws.{flags, Consistent, any_flagged-put_all, All-append}

-- A gated decision is VERIFIED exactly if it was before and the gate has no rule; it is FLAGGED
-- exactly if it was or a rule of the gate flags; it is INCONCLUSIVE exactly if it was and no rule
-- flags. The score and the confidence are those of the decision.
pub apply_security_gate_lem :
    {F : Type 0} (d : EngineDecision F) (rules : List HardRuleResult)
    → let after = apply_security_gate d rules in
      (after.verdict ≡ verified ↔ ((d.verdict ≡ verified) × (rules ≡ [])))
      × (after.verdict ≡ flagged ↔ ((d.verdict ≡ flagged) ⊎ (any_flagged rules ≡ true)))
      × (after.verdict ≡ Verdict.inconclusive
          ↔ ((d.verdict ≡ Verdict.inconclusive) × (any_flagged rules ≡ false)))
      × (after.score ≡ d.score)
      × (after.confidence ≡ d.confidence)
unfolding apply_security_gate any
apply_security_gate_lem d [] = (
  (ground arith, ground arith),
  (ground arith, ground arith),
  (ground arith, ground arith),
  refl,
  refl,
)
apply_security_gate_lem d (r ∷ rules) = (
  (ground arith, ground arith),
  (ground arith, ground arith),
  (ground arith, ground arith),
  refl,
  refl,
)

module _ {F : Type 0} ⦃f : Float F⦄ where
  open f use {hundredths}

  -- Evidence that was used before, or that the device's provider refuses.
  abbrev pub IsForged : SecurityRow F → Option (LocationRow F) → Type 0
  IsForged s location =
      (has_code "EXACT_EVIDENCE_REUSE" s.reason_codes ≡ true)
      ⊎ ((hundredths 99 <= s.evidence_reuse_score) ≡ true)
      ⊎ ((has_code "EXACT_VIDEO_REUSE" s.reason_codes ≡ true)
          × ((hundredths 80 <= s.evidence_reuse_score) ≡ true))
      ⊎ ((l : LocationRow F) × (location ≡ some l)
          × (l.mock_location_detected ≡ true)
          × ((hundredths 95 <= l.confidence) ≡ true))
      ⊎ ((has_code "PROVIDER_DEVICE_INTEGRITY_FAILED" s.reason_codes ≡ true)
          × (str_eq s.device_integrity_status "FAIL" ≡ true)
          × ((hundredths 95 <= s.device_risk_score) ≡ true))

  reuse_rules-Consistent : (s : SecurityRow F) → All Consistent (reuse_rules s)
  unfolding reuse_rules flags
  reuse_rules-Consistent s = ground arith

  location_rules-Consistent : (l : Option (LocationRow F)) → All Consistent (location_rules l)
  unfolding location_rules flags
  location_rules-Consistent none = tt
  location_rules-Consistent (some l) = ground arith

  device_rules-Consistent : (s : SecurityRow F) → All Consistent (device_rules s)
  unfolding device_rules flags
  device_rules-Consistent s = ground arith

  replay_rules-Consistent : (r : Option (ReplayRow F)) → All Consistent (replay_rules r)
  unfolding replay_rules flags
  replay_rules-Consistent none = tt
  replay_rules-Consistent (some r) = ground arith

  composite_rules-Consistent :
      (s : SecurityRow F) (rules : List HardRuleResult) → All Consistent (composite_rules s rules)
  unfolding composite_rules flags
  composite_rules-Consistent s rules = ground arith

  abbrev is_mocked : Option (LocationRow F) → Bool
  is_mocked none = false
  is_mocked (some l) = l.mock_location_detected && hundredths 95 <= l.confidence

  -- The evidence was used before, its location is a mock, or its device's provider refuses it.
  unfoldable pub is_forged : SecurityRow F → Option (LocationRow F) → Bool
  is_forged s location =
      has_code "EXACT_EVIDENCE_REUSE" s.reason_codes
      || hundredths 99 <= s.evidence_reuse_score
      || (has_code "EXACT_VIDEO_REUSE" s.reason_codes && hundredths 80 <= s.evidence_reuse_score)
      || is_mocked location
      || (has_code "PROVIDER_DEVICE_INTEGRITY_FAILED" s.reason_codes
          && str_eq s.device_integrity_status "FAIL"
          && hundredths 95 <= s.device_risk_score)

  reused : SecurityRow F → Bool
  reused s =
      has_code "EXACT_EVIDENCE_REUSE" s.reason_codes
      || hundredths 99 <= s.evidence_reuse_score
      || (has_code "EXACT_VIDEO_REUSE" s.reason_codes && hundredths 80 <= s.evidence_reuse_score)

  any_flagged-reuse_rules : (s : SecurityRow F) → any_flagged (reuse_rules s) ≡ reused s
  unfolding reuse_rules any reused
  any_flagged-reuse_rules s = ground arith

  any_flagged-location_rules :
      (l : Option (LocationRow F)) → any_flagged (location_rules l) ≡ is_mocked l
  unfolding location_rules any
  any_flagged-location_rules none = refl
  any_flagged-location_rules (some l) = ground arith

  any_flagged-device_rules :
      (s : SecurityRow F)
      → any_flagged (device_rules s) ≡ (
          has_code "PROVIDER_DEVICE_INTEGRITY_FAILED" s.reason_codes
          && str_eq s.device_integrity_status "FAIL"
          && hundredths 95 <= s.device_risk_score)
  unfolding device_rules any
  any_flagged-device_rules s = ground arith

  any_flagged-replay_rules : (r : Option (ReplayRow F)) → any_flagged (replay_rules r) ≡ false
  unfolding replay_rules any
  any_flagged-replay_rules none = refl
  any_flagged-replay_rules (some r) = ground arith

  any_flagged-composite_rules :
      (s : SecurityRow F) (rules : List HardRuleResult)
      → any_flagged (composite_rules s rules) ≡ false
  unfolding composite_rules any
  any_flagged-composite_rules s rules = ground arith

  -- The gate has a rule that flags exactly if the evidence is forged.
  pub any_flagged-evaluate_security_gate :
      (s : SecurityRow F) (location : Option (LocationRow F)) (replay : Option (ReplayRow F))
      → any_flagged (evaluate_security_gate (some s) location replay) ≡ is_forged s location
  unfolding evaluate_security_gate is_forged reused any
  any_flagged-evaluate_security_gate s location replay =
      flat
      ∙ any-append is_flagging rules (composite_rules s rules)
      ∙ rw (any_flagged-composite_rules s rules, parts) (ground arith)
    where
      is_flagging : HardRuleResult → Bool
      is_flagging r = is_flagged r.maximum_verdict

      late : List HardRuleResult
      late = device_rules s ++ replay_rules replay

      rules : List HardRuleResult
      rules = reuse_rules s ++ (location_rules location ++ late)

      late-Consistent : All Consistent late
      late-Consistent =
          All-append Consistent _ _ (device_rules-Consistent s) (replay_rules-Consistent replay)

      rules-Consistent : All Consistent rules
      rules-Consistent =
          All-append Consistent _ _ (reuse_rules-Consistent s)
            (All-append Consistent _ _ (location_rules-Consistent location) late-Consistent)

      flat :
          any_flagged (put_all same_code [] (rules ++ composite_rules s rules))
          ≡ any_flagged (rules ++ composite_rules s rules)
      flat =
          any_flagged-put_all [] (rules ++ composite_rules s rules) tt
            (All-append Consistent _ _ rules-Consistent (composite_rules-Consistent s rules))

      parts : any_flagged rules ≡ (
          reused s
          || (is_mocked location
              || ((has_code "PROVIDER_DEVICE_INTEGRITY_FAILED" s.reason_codes
                    && str_eq s.device_integrity_status "FAIL"
                    && hundredths 95 <= s.device_risk_score)
                  || false)))
      parts =
          any-append is_flagging (reuse_rules s) (location_rules location ++ late)
          ∙ rw
              (
                any-append is_flagging (location_rules location) late,
                any-append is_flagging (device_rules s) (replay_rules replay),
                any_flagged-reuse_rules s,
                any_flagged-location_rules location,
                any_flagged-device_rules s,
                any_flagged-replay_rules replay,
              )
              refl

  -- With a completed row of the security analysis.
  pub secured_flagged_iff :
      (d : EngineDecision F) (s : SecurityRow F) (location : Option (LocationRow F))
      (replay : Option (ReplayRow F))
      → (apply_security_gate d (evaluate_security_gate (some s) location replay)).verdict ≡ flagged
        ↔ ((d.verdict ≡ flagged) ⊎ (is_forged s location ≡ true))
  secured_flagged_iff d s location replay =
      subst
        (λ b.
          (apply_security_gate d rules).verdict ≡ flagged ↔ ((d.verdict ≡ flagged) ⊎ (b ≡ true)))
        (any_flagged-evaluate_security_gate s location replay) (apply_security_gate_lem d rules).1
    where
      rules : List HardRuleResult
      rules = evaluate_security_gate (some s) location replay

  -- Without a completed row of the security analysis the gate asks nothing.
  abbrev pub is_forged_by : Option (SecurityRow F) → Option (LocationRow F) → Bool
  is_forged_by none location = false
  is_forged_by (some s) location = is_forged s location

  -- Whatever the signals decide, the gated verdict is FLAGGED exactly if the signals alone are, or
  -- there is a completed row of the security analysis and the evidence is forged: the row has an
  -- exact reuse of the evidence or a reuse score of 0.99 or more, or an exact reuse of the video with
  -- a reuse score of 0.80 or more, or the location is marked as a mock with a confidence of 0.95 or
  -- more, or the device's provider refuses it with a device risk of 0.95 or more.
  pub gated_flagged_iff :
      (d : EngineDecision F) (security : Option (SecurityRow F)) (location : Option (LocationRow F))
      (replay : Option (ReplayRow F))
      → (apply_security_gate d (evaluate_security_gate security location replay)).verdict ≡ flagged
        ↔ ((d.verdict ≡ flagged) ⊎ (is_forged_by security location ≡ true))
  unfolding evaluate_security_gate any
  gated_flagged_iff d none location replay = (apply_security_gate_lem d []).1
  gated_flagged_iff d (some s) location replay = secured_flagged_iff d s location replay
