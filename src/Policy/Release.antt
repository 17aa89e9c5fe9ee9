-- ===== src/Policy/Release.antt =====
-- campusid/policy/release.py. Python's `re.fullmatch` is the parameter `fullmatch`: a pattern and a
-- value, and whether the whole value matches. A dictionary is an association list in the order of
-- its keys' insertion, a tuple or frozenset of texts a list.
use campus_id.Shared.{
  ℕ, String, Bool, true, false, not, ◌&&◌, Option, none, some, List, [], ◌∷◌, map, ◌==◌, text_le,
  if◌then◌else◌, filter, find?, contains, is_empty,
}
use campus_id.Shared.Sorting.{sort_by, by_key}
use campus_id.Policy.Attributes.{
  Classification, restricted, AttributeDefinition, definition, rs_bundle, research_and_scholarship,
  subject_id, pairwise_id,
}

pub data Effect : Type 0 where
  allow allow_value deny require_consent : Effect

pub data SubjectIdMode : Type 0 where
  pairwise shared : SubjectIdMode

pub data Basis : Type 0 where
  restricted_record ferpa_suppressed unknown_attribute explicit_deny explicit_allow : Basis
  value_filter entity_category consent_given consent_required default_deny : Basis

-- A rule whose `precedence` is not negative; the source takes any integer and compares it alone.
pub record ReleaseRule : Type 0 where
  pub id : String
  pub effect : Effect
  pub attribute : String
  pub value_pattern : Option String
  pub precedence : ℕ

pub record ReleasePolicy : Type 0 where
  pub sp_entity_id : String
  pub display_name : String
  pub entity_categories : List String
  pub subject_id_mode : SubjectIdMode
  pub internal_school_official : Bool
  pub require_encrypted_assertion : Bool
  pub rules : List ReleaseRule

pub record Subject : Type 0 where
  pub person_key : String
  pub ferpa_directory_suppressed : Bool

pub record Decision : Type 0 where
  pub attribute : String
  pub released : Bool
  pub values : List String
  pub basis : Basis
  pub rule_id : Option String

abbrev pub Attributes : Type 0
Attributes = List (String × List String)

pub record ReleaseResult : Type 0 where
  pub attributes : Attributes
  pub decisions : List Decision

abbrev withheld : String → Basis → Option String → Decision
withheld name basis rule_id = record {
  attribute = name;
  released = false;
  values = [];
  basis = basis;
  rule_id = rule_id;
}

abbrev shown : String → List String → Basis → Option String → Decision
shown name values basis rule_id = record {
  attribute = name;
  released = true;
  values = values;
  basis = basis;
  rule_id = rule_id;
}

unfoldable pub is_restricted : Classification → Bool
is_restricted restricted = true
is_restricted _ = false

-- `_suppressed`
unfoldable pub suppressed : ReleasePolicy → Subject → AttributeDefinition → Bool
suppressed policy subject attribute =
    subject.ferpa_directory_suppressed
    && attribute.ferpa_directory_item
    && not policy.internal_school_official

-- `_in_entity_category_bundle`
unfoldable pub in_entity_category_bundle : ReleasePolicy → String → Bool
in_entity_category_bundle policy name =
    contains research_and_scholarship policy.entity_categories && contains name rs_bundle

unfoldable pub subject_identifier_attribute : ReleasePolicy → String
subject_identifier_attribute policy = elim policy.subject_id_mode [
  | shared ↦ subject_id
  | pairwise ↦ pairwise_id
]

abbrev pub is_for : String → ReleaseRule → Bool
is_for name rule = rule.attribute == name

abbrev pub record_release : Decision → Attributes → Attributes
record_release d rest =
    if d.released && not (is_empty d.values) then (d.attribute, d.values) ∷ rest else rest

abbrev pub released_of : List Decision → Attributes
released_of [] = []
released_of (d ∷ ds) = record_release d (released_of ds)

-- `sorted(available)`
unfoldable pub sorted_entries : Attributes → Attributes
sorted_entries = sort_by (λ a b. text_le a.0 b.0)

module _ (fullmatch : String → String → Bool) where
  -- `ReleaseRule.matches`
  unfoldable pub matches : ReleaseRule → String → Bool
  matches rule value = elim rule.value_pattern [
    | none ↦ true
    | some pattern ↦ fullmatch pattern value
  ]

  -- The branches on `rule.effect` in the loop of `_decide`. Each of them returns.
  unfoldable pub apply_effect : Effect → ReleaseRule → String → List String → List String → Decision
  unfolding matches
  apply_effect deny rule name values consented = withheld name explicit_deny (some rule.id)
  apply_effect allow rule name values consented = shown name values explicit_allow (some rule.id)
  apply_effect require_consent rule name values consented =
      if contains name consented
      then shown name values consent_given (some rule.id)
      else withheld name consent_required (some rule.id)
  apply_effect allow_value rule name values consented =
      let kept = filter (λ value. matches rule value) values in
      record {
        attribute = name;
        released = not (is_empty kept);
        values = kept;
        basis = value_filter;
        rule_id = some rule.id;
      }

  unfoldable pub apply_rule : ReleaseRule → String → List String → List String → Decision
  unfolding apply_effect
  apply_rule rule name values consented = apply_effect rule.effect rule name values consented

  -- The loop of `_decide` at the first rule about this attribute, and what stands below the loop.
  unfoldable pub decide_by_rules :
      Option ReleaseRule → ReleasePolicy → String → List String → List String → Decision
  unfolding apply_rule in_entity_category_bundle
  decide_by_rules (some rule) policy name values consented = apply_rule rule name values consented
  decide_by_rules none policy name values consented =
      if in_entity_category_bundle policy name
      then shown name values entity_category none
      else withheld name default_deny none

  unfoldable pub decide_known :
      Option AttributeDefinition
      → ReleasePolicy
      → Subject
      → String
      → List String
      → List String
      → Decision
  unfolding decide_by_rules suppressed is_restricted
  decide_known none policy subject name values consented = withheld name unknown_attribute none
  decide_known (some attribute) policy subject name values consented =
      if is_restricted attribute.classification
      then withheld name restricted_record none
      else if suppressed policy subject attribute
      then withheld name ferpa_suppressed none
      else decide_by_rules
          (find? (is_for name) (sort_by (by_key (λ (r : ReleaseRule). r.precedence)) policy.rules))
          policy name values consented

  -- `_decide`
  unfoldable pub decide : ReleasePolicy → Subject → String → List String → List String → Decision
  unfolding decide_known
  decide policy subject name values consented =
      decide_known (definition name) policy subject name values consented

  -- The loop of `evaluate`: the decisions in the order of the names, and what they release.
  unfoldable pub evaluate : ReleasePolicy → Subject → Attributes → List String → ReleaseResult
  unfolding decide sorted_entries
  evaluate policy subject available consented =
      let decisions =
        map (λ (entry : String × List String). decide policy subject entry.0 entry.1 consented)
          (sorted_entries available) in
      record { attributes = released_of decisions; decisions = decisions }

-- `ReleaseResult.denied_names`
unfoldable pub denied_names : ReleaseResult → List String
denied_names result =
    map (λ (d : Decision). d.attribute) (filter (λ d. not d.released) result.decisions)
