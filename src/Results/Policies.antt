-- ===== src/Results/Policies.antt =====
-- What is read of a stored policy that was written from a definition.
use mathlib.Core.Path.{fun_ext}
use mathlib.Core.Option
use site_proof.Prelude.{
  ℕ, ◌≡◌, refl, String, Bool, true, Option, none, some, List, [], ◌∷◌, ◌++◌, map, arith, sym, ap,
  subst, ◌∙◌, eq_iff, str_eq,
}
use site_proof.Prelude.Float.{Float, whole}
use site_proof.Prelude.Dict.{find, any, filter, any-filter}
use site_proof.Prelude.Rows.{find-append}
use site_proof.Trust.Domain.{
  SignalType, location, PolicyDefinition, all_types, sorted_types, type_value, same_type,
}
use site_proof.Trust.Policy.{
  validate_policy, default_policy, default_policy_definition, default_hard_rules,
}
use site_proof.Trust.Verdicts.{same_type-eq}
use site_proof.Results.PolicyRows.{
  PolicyRow, parse_type, parse_types, parse_weights, known_rules, weight_entry, weight_or, has_all,
  definition_of, policy_from_row, default_row, checked, inserted, found_or_insert,
  get_or_create_default_policy, is_default,
}

parse_type-type_value : (t : SignalType) → parse_type (type_value t) ≡ some t
unfolding parse_type find
parse_type-type_value location = refl
parse_type-type_value _ = refl

parse_types-map : (ts : List SignalType) → parse_types (map type_value ts) ≡ some ts
unfolding parse_types
parse_types-map [] = refl
parse_types-map (t ∷ ts) = rw (parse_type-type_value t, parse_types-map ts) refl

any-sorted_types : (t : SignalType) → any (λ u. same_type u t) sorted_types ≡ true
unfolding any
any-sorted_types location = refl
any-sorted_types _ = refl

module _ {F : Type 0} where
  parse_weights-map :
      (w : SignalType → F) (ts : List SignalType)
      → parse_weights (map (λ t. (type_value t, w t)) ts) ≡ some (map (λ t. (t, w t)) ts)
  unfolding parse_weights
  parse_weights-map w [] = refl
  parse_weights-map w (t ∷ ts) = rw (parse_type-type_value t, parse_weights-map w ts) refl

  has_all-map : (w : SignalType → F) → has_all (map (λ t. (t, w t)) all_types) ≡ true
  unfolding has_all any find
  has_all-map w = refl

  weight_entry-map :
      (w : SignalType → F) (default : F) (t : SignalType)
      → weight_or default (weight_entry t (map (λ u. (u, w u)) all_types)) ≡ w t
  unfolding find
  weight_entry-map w default location = refl
  weight_entry-map w default _ = refl

any-required :
    (r : SignalType → Bool) (t : SignalType)
    → any (λ u. same_type u t) (filter r sorted_types) ≡ r t
any-required r t =
    any-filter (λ u. same_type u t) r (r t) sorted_types (λ u e. ap r (same_type-eq u t e))
    ∙ rw (any-sorted_types t) refl

-- A rule of the list is one that is known.
any-known :
    (h : String → Bool) (code : String)
    → ((c : String) → h c ≡ true → any (λ k. str_eq k c) known_rules ≡ true)
    → any (λ c. str_eq c code) (filter h known_rules) ≡ h code
any-known h code known =
    any-filter (λ c. str_eq c code) h (h code) known_rules (λ c e. ap h ((eq_iff c code).0 e))
    ∙ ground (arith, known code)

default_hard_rules-known :
    (c : String) → default_hard_rules c ≡ true → any (λ k. str_eq k c) known_rules ≡ true
unfolding any
default_hard_rules-known c e = ground (
  arith,
  eq_iff c "CLEAR_WRONG_LOCATION",
  eq_iff "CLEAR_WRONG_LOCATION" c,
  eq_iff c "HIGH_CONFIDENCE_FUSION_MISMATCH",
  eq_iff "HIGH_CONFIDENCE_FUSION_MISMATCH" c,
  eq_iff c "MAJOR_SCENE_DISCONTINUITY",
  eq_iff "MAJOR_SCENE_DISCONTINUITY" c,
  eq_iff c "MULTIPLE_HIGH_CONFIDENCE_CHALLENGE_FAILURES",
  eq_iff "MULTIPLE_HIGH_CONFIDENCE_CHALLENGE_FAILURES" c,
)

is_default-default_row :
    (F : Type 0) ⦃f : Float F⦄ (id organization : ℕ)
    → is_default organization (default_row {F = F} id organization default_policy) ≡ true
unfolding is_default default_row default_policy
is_default-default_row F id organization = ground arith

pub default_policy-known :
    (F : Type 0) ⦃f : Float F⦄ (c : String)
    → (default_policy {F = F}).hard_rules c ≡ true
    → any (λ k. str_eq k c) known_rules ≡ true
unfolding default_policy
default_policy-known F c e = default_hard_rules-known c e

module _ {F : Type 0} ⦃f : Float F⦄ where
  definition_of-default_row :
      (id organization : ℕ) (d : PolicyDefinition F)
      → ((c : String) → d.hard_rules c ≡ true → any (λ k. str_eq k c) known_rules ≡ true)
      → definition_of
          (default_row id organization d)
          (map (λ t. (t, d.weights t)) all_types)
          (filter d.required_signals sorted_types)
        ≡ d
  unfolding definition_of default_row
  definition_of-default_row id organization d known = λ i. record d {
    weights = fun_ext (λ t. weight_entry-map d.weights (whole 0) t) i;
    required_signals = fun_ext (λ t. any-required d.required_signals t) i;
    hard_rules = fun_ext (λ c. any-known d.hard_rules c known) i;
  }

  -- A policy whose hard rules are known ones, written into a row and read again, is this policy exactly
  -- if it passes the validation.
  pub policy_from_row-default_row :
      (id organization : ℕ) (d : PolicyDefinition F)
      → ((c : String) → d.hard_rules c ≡ true → any (λ k. str_eq k c) known_rules ≡ true)
      → policy_from_row (default_row id organization d) ≡ validate_policy d
  unfolding policy_from_row
  policy_from_row-default_row id organization d known =
      let row = default_row id organization d in
      let weights : parse_weights row.weights ≡ some (map (λ t. (t, d.weights t)) all_types) =
        unfold default_row in parse_weights-map d.weights all_types in
      let required : parse_types row.required_signals
          ≡ some (filter d.required_signals sorted_types) =
        unfold default_row in parse_types-map (filter d.required_signals sorted_types) in
      rw (weights, required, has_all-map d.weights)
        (ap validate_policy (definition_of-default_row id organization d known))

  validate_policy-some :
      (p : PolicyDefinition F) {d : PolicyDefinition F} → validate_policy p ≡ some d → d ≡ p
  unfolding validate_policy
  validate_policy-some p {d} e = ground arith

  -- The row that is inserted is found again and read as the default policy.
  read_default :
      (id organization : ℕ) {d : PolicyDefinition F}
      → default_policy_definition ≡ some d
      → (d ≡ default_policy)
        × (policy_from_row (default_row id organization default_policy) ≡ some d)
  unfolding default_policy_definition
  read_default id organization {d} e = (
    validate_policy-some default_policy e,
    policy_from_row-default_row id organization default_policy (default_policy-known F) ∙ e,
  )

  abbrev Again : ℕ → ℕ → PolicyRow F × List (PolicyRow F) → Type 0
  Again other organization x =
      (get_or_create_default_policy other organization x.1 ≡ some x)
      × (d : PolicyDefinition F) × (policy_from_row x.0 ≡ some d)

  Again-found :
      (other organization : ℕ) (rows : List (PolicyRow F)) (r : PolicyRow F)
      (d : PolicyDefinition F)
      → find (is_default organization) rows ≡ some r
      → policy_from_row r ≡ some d
      → Again other organization (r, rows)
  unfolding get_or_create_default_policy
  Again-found other organization rows r d a b = (rw (a, b) refl, d, b)

  Again-inserted :
      (id other organization : ℕ) (rows : List (PolicyRow F)) (d : PolicyDefinition F)
      → find (is_default organization) rows ≡ none
      → default_policy_definition ≡ some d
      → Again other organization
          (default_row id organization d, rows ++ default_row id organization d ∷ [])
  Again-inserted id other organization rows d a b =
      let (same, read) = read_default id organization b in
      let row = default_row id organization default_policy in
      subst
        (λ (x : PolicyDefinition F).
          Again other organization
            (default_row id organization x, rows ++ default_row id organization x ∷ []))
        (sym same)
        (Again-found other organization (rows ++ row ∷ []) row d
          (find-append (is_default organization) rows (row ∷ [])
            ∙ rw (a)
                (unfold find Option.or_else in rw (is_default-default_row F id organization) refl))
          read)

  -- After get_or_create_default_policy has answered a row, asked again for the same organization, with
  -- any id, it answers the same row and writes nothing, and the row reads as a policy that passes its
  -- validation.
  pub get_or_create_default_policy_again :
      (id other organization : ℕ) (rows rows' : List (PolicyRow F)) (row : PolicyRow F)
      → get_or_create_default_policy id organization rows ≡ some (row, rows')
      → (get_or_create_default_policy other organization rows' ≡ some (row, rows'))
        × (d : PolicyDefinition F) × (policy_from_row row ≡ some d)
  unfolding get_or_create_default_policy
  get_or_create_default_policy_again id other organization rows rows' row e =
      by_row (find (is_default organization) rows) refl e
    where
      get_some : Option (PolicyRow F × List (PolicyRow F)) → PolicyRow F × List (PolicyRow F)
      get_some none = (row, rows')
      get_some (some x) = x

      by_policy :
          (r : PolicyRow F) (p : Option (PolicyDefinition F))
          → find (is_default organization) rows ≡ some r
          → policy_from_row r ≡ p
          → checked r rows p ≡ some (row, rows')
          → (get_or_create_default_policy other organization rows' ≡ some (row, rows'))
            × (d : PolicyDefinition F) × (policy_from_row row ≡ some d)
      by_policy r none a b h = cc
      by_policy r (some d) a b h =
          subst (Again other organization) (ap get_some h)
            (Again-found other organization rows r d a b)

      by_default :
          (p : Option (PolicyDefinition F))
          → find (is_default organization) rows ≡ none
          → default_policy_definition ≡ p
          → inserted id organization rows p ≡ some (row, rows')
          → (get_or_create_default_policy other organization rows' ≡ some (row, rows'))
            × (d : PolicyDefinition F) × (policy_from_row row ≡ some d)
      by_default none a b h = cc
      by_default (some d) a b h =
          subst (Again other organization) (ap get_some h)
            (Again-inserted id other organization rows d a b)

      by_row :
          (o : Option (PolicyRow F))
          → find (is_default organization) rows ≡ o
          → found_or_insert id organization rows o ≡ some (row, rows')
          → (get_or_create_default_policy other organization rows' ≡ some (row, rows'))
            × (d : PolicyDefinition F) × (policy_from_row row ≡ some d)
      by_row none a h = by_default default_policy_definition a refl h
      by_row (some r) a h = by_policy r (policy_from_row r) a refl h
