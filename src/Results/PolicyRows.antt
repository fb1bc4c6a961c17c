-- ===== src/Results/PolicyRows.antt =====
-- The stored policies: `policy_from_row` and `get_or_create_default_policy` of policy.py. `none` is
-- a ValueError.
use site_proof.Prelude.{
  ℕ, String, Bool, true, false, not, ◌&&◌, Option, none, some, List, [], ◌∷◌, ◌++◌, map, ◌==◌,
  if◌then◌else◌, str_eq,
}
use site_proof.Prelude.Float.{Float, whole}
use site_proof.Prelude.Dict.{find, any, filter}
use site_proof.Trust.Domain.{
  SignalType, PolicyDefinition, all_types, sorted_types, type_value, same_type,
}
use site_proof.Trust.Policy.{validate_policy, default_policy_definition}

-- The row of VerificationPolicy. A JSON object is the list of its entries.
pub record PolicyRow (F : Type 0) : Type 0 where
  pub id : ℕ
  pub organization_id : ℕ
  pub name : String
  pub version : String
  pub active : Bool
  pub verified_threshold : F
  pub review_threshold : F
  pub minimum_required_confidence : F
  pub weights : List (String × F)
  pub required_signals : List String
  pub hard_rules : List String

-- `VerificationSignalType(value)`
unfoldable pub parse_type : String → Option SignalType
parse_type value = find (λ t. str_eq (type_value t) value) all_types

abbrev with_first {ℓ} : {A : Type ℓ} → Option A → Option (List A) → Option (List A)
with_first none rest = none
with_first (some x) none = none
with_first (some x) (some xs) = some (x ∷ xs)

unfoldable pub parse_types : List String → Option (List SignalType)
parse_types [] = some []
parse_types (s ∷ rest) = with_first (parse_type s) (parse_types rest)

-- The members of DEFAULT_HARD_RULES, sorted.
abbrev pub known_rules : List String
known_rules =
    "CLEAR_WRONG_LOCATION" ∷ "HIGH_CONFIDENCE_FUSION_MISMATCH" ∷ "MAJOR_SCENE_DISCONTINUITY"
    ∷ "MULTIPLE_HIGH_CONFIDENCE_CHALLENGE_FAILURES" ∷ []

module _ {F : Type 0} where
  abbrev with_type : F → Option SignalType → Option (SignalType × F)
  with_type w none = none
  with_type w (some t) = some (t, w)

  -- `{VerificationSignalType(key): float(value) for key, value in weights.items()}`
  unfoldable pub parse_weights : List (String × F) → Option (List (SignalType × F))
  parse_weights [] = some []
  parse_weights ((s, w) ∷ rest) = with_first (with_type w (parse_type s)) (parse_weights rest)

  abbrev pub weight_or : F → Option (SignalType × F) → F
  weight_or default none = default
  weight_or default (some (t, w)) = w

  abbrev pub is_there : Option (SignalType × F) → Bool
  is_there none = false
  is_there (some _) = true

  abbrev pub weight_entry : SignalType → List (SignalType × F) → Option (SignalType × F)
  weight_entry t = find λ e. same_type e.0 t

  -- `set(weights) == set(VerificationSignalType)`
  unfoldable pub has_all : List (SignalType × F) → Bool
  has_all weights = not (any (λ t. not (is_there (weight_entry t weights))) all_types)

  -- The row that `get_or_create_default_policy` inserts.
  unfoldable pub default_row : ℕ → ℕ → PolicyDefinition F → PolicyRow F
  default_row id organization d = record {
    id = id;
    organization_id = organization;
    name = d.name;
    version = d.version;
    active = true;
    verified_threshold = d.verified_threshold;
    review_threshold = d.review_threshold;
    minimum_required_confidence = d.minimum_required_confidence;
    weights = map (λ t. (type_value t, d.weights t)) all_types;
    required_signals = map type_value (filter d.required_signals sorted_types);
    hard_rules = filter d.hard_rules known_rules;
  }

  unfoldable pub is_default : ℕ → PolicyRow F → Bool
  is_default organization row =
      row.organization_id == organization
      && str_eq row.name "Infrastructure Field Verification"
      && str_eq row.version "1.3"

  abbrev pub inserted :
      ℕ
      → ℕ
      → List (PolicyRow F)
      → Option (PolicyDefinition F)
      → Option (PolicyRow F × List (PolicyRow F))
  inserted id organization rows none = none
  inserted id organization rows (some d) =
      let row = default_row id organization d in some (row, rows ++ row ∷ [])

  abbrev pub checked :
      PolicyRow F
      → List (PolicyRow F)
      → Option (PolicyDefinition F)
      → Option (PolicyRow F × List (PolicyRow F))
  checked row rows none = none
  checked row rows (some d) = some (row, rows)

module _ {F : Type 0} ⦃f : Float F⦄ where
  unfoldable pub definition_of :
      PolicyRow F → List (SignalType × F) → List SignalType → PolicyDefinition F
  definition_of row weights required = record {
    name = row.name;
    version = row.version;
    verified_threshold = row.verified_threshold;
    review_threshold = row.review_threshold;
    minimum_required_confidence = row.minimum_required_confidence;
    weights = λ t. weight_or (whole 0) (weight_entry t weights);
    required_signals = λ t. any (λ u. same_type u t) required;
    hard_rules = λ code. any (λ c. str_eq c code) row.hard_rules;
  }

  abbrev pub from_parts :
      PolicyRow F
      → Option (List (SignalType × F))
      → Option (List SignalType)
      → Option (PolicyDefinition F)
  from_parts row none required = none
  from_parts row (some weights) none = none
  from_parts row (some weights) (some required) =
      if has_all weights then validate_policy (definition_of row weights required) else none

  unfoldable pub policy_from_row : PolicyRow F → Option (PolicyDefinition F)
  policy_from_row row =
      from_parts row (parse_weights row.weights) (parse_types row.required_signals)

  abbrev pub found_or_insert :
      ℕ → ℕ → List (PolicyRow F) → Option (PolicyRow F) → Option (PolicyRow F × List (PolicyRow F))
  found_or_insert id organization rows none =
      inserted id organization rows default_policy_definition
  found_or_insert id organization rows (some row) = checked row rows (policy_from_row row)

  -- The row and the table that the transaction has then.
  unfoldable pub get_or_create_default_policy :
      ℕ → ℕ → List (PolicyRow F) → Option (PolicyRow F × List (PolicyRow F))
  unfolding policy_from_row
  get_or_create_default_policy id organization rows =
      found_or_insert id organization rows (find (is_default organization) rows)
