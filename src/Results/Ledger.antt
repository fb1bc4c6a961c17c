-- ===== src/Results/Ledger.antt =====
-- The abstract view of the automated results: a decision under each key, which is written once.
use mathlib.Core.Option
use site_proof.Prelude.{
  ◌≡◌, String, true, false, Option, none, some, List, arith, eq_iff, if◌then◌else◌, All,
}
use site_proof.Prelude.Rows.{Distinct}
use site_proof.Trust.Domain.{Verdict}
use site_proof.Results.Result.{Key, same_key, VerificationResult, is_completed}
use site_proof.Results.Store.{find_result}

pub record Decided (F : Type 0) : Type 0 where
  pub verdict : Verdict
  pub score : F
  pub confidence : F
  pub codes : List String

-- The abstract state: the decision under each key.
abbrev pub Ledger : Type 0 → Type 0
Ledger F = Key → Option (Decided F)

module _ {F : Type 0} where
  -- To settle a key has an effect only once.
  unfoldable pub settle : Key → Option (Decided F) → Ledger F → Ledger F
  settle k d ledger q = if same_key q k then Option.or_else (ledger q) d else ledger q

  abbrev pub all_of : Option Verdict → Option F → Option F → List String → Option (Decided F)
  all_of none score confidence codes = none
  all_of (some v) none confidence codes = none
  all_of (some v) (some s) none codes = none
  all_of (some v) (some s) (some c) codes =
      some (record { verdict = v; score = s; confidence = c; codes = codes })

  unfoldable pub decision_of : VerificationResult F → Option (Decided F)
  decision_of r =
      if is_completed r.processing_status
      then all_of r.verdict r.final_score r.overall_confidence r.hard_rule_codes
      else none

  abbrev pub decision_at : Option (VerificationResult F) → Option (Decided F)
  decision_at none = none
  decision_at (some r) = decision_of r

  unfoldable pub ledger : List (VerificationResult F) → Ledger F
  ledger rows q = decision_at (find_result q rows)

  -- A completed row has its decision, and any other row none of it.
  pub record IsConsistent (r : VerificationResult F) : Type 0 where
    pub decided :
        is_completed r.processing_status ≡ true → (d : Decided F) × (decision_of r ≡ some d)
    pub undecided : is_completed r.processing_status ≡ false → r.verdict ≡ none

  pub record IsValid (rows : List (VerificationResult F)) : Type 0 where
    pub distinct : Distinct (λ (r : VerificationResult F). r.id) rows
    pub consistent : All IsConsistent rows

pub same_key-eq : (a b : Key) → same_key a b ≡ true → a ≡ b
unfolding same_key
same_key-eq a b e =
    ground
      (arith, eq_iff a.policy_version b.policy_version, eq_iff a.engine_version b.engine_version)

pub same_key_refl : (a : Key) → same_key a a ≡ true
unfolding same_key
same_key_refl a =
    ground
      (arith, eq_iff a.policy_version a.policy_version, eq_iff a.engine_version a.engine_version)
