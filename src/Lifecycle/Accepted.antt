-- ===== src/Lifecycle/Accepted.antt =====
-- What holds of the rules that campusid/lifecycle/rules.py loads, and of their transitions.
use campus_id.Shared.{
  String, inl, inr, ◌||◌, List, ◌∷◌, ◌==◌, Bool-cases, contains, Within, Within-cons,
}
use campus_id.Lifecycle.Document.{
  Doc, null, negative, real, boolean, whole, text, sequence, mapping, Docs, nil, cons, Fields,
  Loaded, ok, rules_error, type_error, field_or,
}
use campus_id.Lifecycle.Rules.{Entitlement, Rule}
use campus_id.Lifecycle.Declared.{
  Holds, Declared, Vocabulary, grants_loop-Declared, affiliation_loop-Names,
  affiliation_report-Vocabulary,
}
use campus_id.Lifecycle.Loader

-- The rule grants declared entitlements for affiliations of the vocabulary.
abbrev pub Sound : List Entitlement → Rule → Type 0
Sound catalogue rule = Declared catalogue rule.grants × Vocabulary rule.affiliations

rule_made-Sound :
    (catalogue : List Entitlement) (id : String) (names : List String)
    (grants : Loaded (List String))
    → Vocabulary names
    → Holds (Declared catalogue) grants
    → Holds (Sound catalogue) (Loader.rule_made id names grants)
rule_made-Sound catalogue id names (ok grants) v h = (h, v)
rule_made-Sound catalogue id names rules_error v h = tt
rule_made-Sound catalogue id names type_error v h = tt

rule_grants-Sound :
    (catalogue : List Entitlement) (id : String) (names : List String) (doc : Doc)
    → Vocabulary names
    → Holds (Sound catalogue) (Loader.rule_grants catalogue id names doc)
rule_grants-Sound catalogue id names (sequence ds) v =
    rule_made-Sound catalogue id names (Loader.grants_loop catalogue ds) v
      (grants_loop-Declared catalogue ds)
rule_grants-Sound catalogue id names null v = tt
rule_grants-Sound catalogue id names negative v = tt
rule_grants-Sound catalogue id names (real b) v = tt
rule_grants-Sound catalogue id names (boolean b) v = tt
rule_grants-Sound catalogue id names (whole n) v = tt
rule_grants-Sound catalogue id names (text s) v = tt
rule_grants-Sound catalogue id names (mapping fs) v = tt

rule_known-Sound :
    (catalogue : List Entitlement) (entry : Fields) (id : String) (names : Loaded (List String))
    → Holds Vocabulary names
    → Holds (Sound catalogue) (Loader.rule_known catalogue entry id names)
rule_known-Sound catalogue entry id (ok names) v =
    rule_grants-Sound catalogue id names (field_or entry "grants" null) v
rule_known-Sound catalogue entry id rules_error v = tt
rule_known-Sound catalogue entry id type_error v = tt

rule_affiliations-Sound :
    (catalogue : List Entitlement) (entry : Fields) (id : String) (doc : Doc)
    → Holds (Sound catalogue) (Loader.rule_affiliations catalogue entry id doc)
rule_affiliations-Sound catalogue entry id (sequence (cons a rest)) =
    rule_known-Sound catalogue entry id
      (Loader.affiliation_report (Loader.affiliation_loop (cons a rest)))
      (affiliation_report-Vocabulary (Loader.affiliation_loop (cons a rest))
        (affiliation_loop-Names (cons a rest)))
rule_affiliations-Sound catalogue entry id (sequence nil) = tt
rule_affiliations-Sound catalogue entry id null = tt
rule_affiliations-Sound catalogue entry id negative = tt
rule_affiliations-Sound catalogue entry id (real b) = tt
rule_affiliations-Sound catalogue entry id (boolean b) = tt
rule_affiliations-Sound catalogue entry id (whole n) = tt
rule_affiliations-Sound catalogue entry id (text s) = tt
rule_affiliations-Sound catalogue entry id (mapping fs) = tt

rule_id-Sound :
    (catalogue : List Entitlement) (seen : List String) (entry : Fields) (doc : Doc)
    → Holds (Sound catalogue) (Loader.rule_id catalogue seen entry doc)
rule_id-Sound catalogue seen entry (text id) = elim (Bool-cases ((id == "") || contains id seen)) [
  | inl e ↦ rw e tt
  | inr e ↦ rw e (rule_affiliations-Sound catalogue entry id (field_or entry "affiliations" null))
]
rule_id-Sound catalogue seen entry null = tt
rule_id-Sound catalogue seen entry negative = tt
rule_id-Sound catalogue seen entry (real b) = tt
rule_id-Sound catalogue seen entry (boolean b) = tt
rule_id-Sound catalogue seen entry (whole n) = tt
rule_id-Sound catalogue seen entry (sequence ds) = tt
rule_id-Sound catalogue seen entry (mapping fs) = tt

rule_entry-Sound :
    (catalogue : List Entitlement) (seen : List String) (doc : Doc)
    → Holds (Sound catalogue) (Loader.rule_entry catalogue seen doc)
rule_entry-Sound catalogue seen (mapping entry) =
    rule_id-Sound catalogue seen entry (field_or entry "id" null)
rule_entry-Sound catalogue seen null = tt
rule_entry-Sound catalogue seen negative = tt
rule_entry-Sound catalogue seen (real b) = tt
rule_entry-Sound catalogue seen (boolean b) = tt
rule_entry-Sound catalogue seen (whole n) = tt
rule_entry-Sound catalogue seen (text s) = tt
rule_entry-Sound catalogue seen (sequence ds) = tt

abbrev pub AllSound : List Entitlement → List Rule → Type 0
AllSound catalogue rules = (rule : Rule) → Within rule rules → Sound catalogue rule

rule_before-AllSound :
    (catalogue : List Entitlement) (rule : Rule) (later : Loaded (List Rule))
    → Sound catalogue rule
    → Holds (AllSound catalogue) later
    → Holds (AllSound catalogue) (Loader.rule_before rule later)
rule_before-AllSound catalogue rule (ok rules) s h =
    λ r w. elim (Within-cons w) [ inl e ↦ rw e s | inr v ↦ h r v ]
rule_before-AllSound catalogue rule rules_error s h = tt
rule_before-AllSound catalogue rule type_error s h = tt

rule_then-AllSound :
    (catalogue : List Entitlement) (first : Loaded Rule) (later : Rule → Loaded (List Rule))
    → Holds (Sound catalogue) first
    → ((rule : Rule) → Holds (AllSound catalogue) (later rule))
    → Holds (AllSound catalogue) (Loader.rule_then first later)
rule_then-AllSound catalogue (ok rule) later s h =
    rule_before-AllSound catalogue rule (later rule) s (h rule)
rule_then-AllSound catalogue rules_error later s h = tt
rule_then-AllSound catalogue type_error later s h = tt

pub rule_loop-AllSound :
    (catalogue : List Entitlement) (docs : Docs) (seen : List String)
    → Holds (AllSound catalogue) (Loader.rule_loop catalogue docs seen)
rule_loop-AllSound catalogue nil seen = λ r w. elim w [ ]
rule_loop-AllSound catalogue (cons entry rest) seen =
    rule_then-AllSound catalogue (Loader.rule_entry catalogue seen entry)
      (λ rule. Loader.rule_loop catalogue rest (rule.id ∷ seen))
      (rule_entry-Sound catalogue seen entry)
      (λ rule. rule_loop-AllSound catalogue rest (rule.id ∷ seen))
