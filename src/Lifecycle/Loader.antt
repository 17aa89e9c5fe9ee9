-- ===== src/Lifecycle/Loader.antt =====
-- The loader and the store of campusid/lifecycle/rules.py, from the document that PyYAML answers. A
-- mapping has its text keys, which are the ones that the code reads. A text test on an unhashable
-- value (`x in set`) raises a TypeError. Error texts, log lines and YAML's dates are left out.
use campus_id.Shared.{
  ℕ, String, Bool, true, false, not, ◌||◌, Option, some, List, [], ◌∷◌, ◌==◌, ltb, starts_with,
  contains, all, is_some, if◌then◌else◌,
}
use campus_id.Lifecycle.Document.{
  Doc, null, boolean, whole, text, sequence, mapping, Docs, nil, cons, Fields, Loaded, ok,
  rules_error, type_error, field_or, truth,
}
use campus_id.Lifecycle.Rules.{Entitlement, Rule, LifecycleRules, entitlement_of}

abbrev pub classifications : List String
classifications = "public" ∷ "directory" ∷ "internal" ∷ "restricted" ∷ []

abbrev pub affiliation_vocabulary : List String
affiliation_vocabulary =
    "faculty" ∷ "student" ∷ "staff" ∷ "alum" ∷ "member" ∷ "affiliate" ∷ "employee"
    ∷ "library-walk-in" ∷ []

abbrev pub max_grace_days : ℕ
max_grace_days = 365

abbrev pub entitlement_name : Fields → String → String → ℕ → Doc → Loaded Entitlement
entitlement_name entry urn classification grace (text display_name) =
    if display_name == ""
    then rules_error
    else ok (record {
      urn = urn;
      display_name = display_name;
      classification = classification;
      grace_days = grace;
      requires_aal2 = truth (field_or entry "requires_aal2" (boolean false));
    })
entitlement_name entry urn classification grace _ = rules_error

abbrev pub entitlement_grace : Fields → String → String → Doc → Loaded Entitlement
entitlement_grace entry urn classification (whole grace) =
    if ltb max_grace_days grace
    then rules_error
    else entitlement_name entry urn classification grace (field_or entry "display_name" null)
entitlement_grace entry urn classification _ = rules_error

abbrev pub entitlement_class : Fields → String → Doc → Loaded Entitlement
entitlement_class entry urn (text classification) =
    if not (contains classification classifications)
    then rules_error
    else entitlement_grace entry urn classification (field_or entry "grace_days" (whole 0))
entitlement_class entry urn (sequence ds) = type_error
entitlement_class entry urn (mapping fs) = type_error
entitlement_class entry urn _ = rules_error

-- The body of the loop of `_entitlements`.
abbrev pub entitlement_urn : List Entitlement → Fields → Doc → Loaded Entitlement
entitlement_urn catalogue entry (text urn) =
    if not (starts_with urn "urn:")
    then rules_error
    else if is_some (entitlement_of catalogue urn)
    then rules_error
    else entitlement_class entry urn (field_or entry "classification" (text "internal"))
entitlement_urn catalogue entry _ = rules_error

abbrev pub entitlement_entry : List Entitlement → Doc → Loaded Entitlement
entitlement_entry catalogue (mapping entry) =
    entitlement_urn catalogue entry (field_or entry "urn" null)
entitlement_entry catalogue _ = rules_error

abbrev pub adding : {A : Type 0} → List A → Loaded A → (List A → Loaded (List A)) → Loaded (List A)
adding sofar (ok a) continue = continue (a ∷ sofar)
adding sofar rules_error continue = rules_error
adding sofar type_error continue = type_error

-- The catalogue, the last entry first: it has one entry for a URN, so its order is not seen.
abbrev pub entitlement_loop : Docs → List Entitlement → Loaded (List Entitlement)
entitlement_loop nil catalogue = ok catalogue
entitlement_loop (cons entry rest) catalogue =
    adding catalogue (entitlement_entry catalogue entry) (entitlement_loop rest)

-- `_entitlements`
unfoldable pub entitlements : Doc → Loaded (List Entitlement)
entitlements (sequence (cons entry rest)) = entitlement_loop (cons entry rest) []
entitlements _ = rules_error

-- The kinds of hashable values that Python orders among themselves.
pub data Kind : Type 0 where
  words numbers nothing : Kind

abbrev pub kind_eq : Kind → Kind → Bool
kind_eq words words = true
kind_eq numbers numbers = true
kind_eq nothing nothing = true
kind_eq _ _ = false

-- The affiliations of a rule: those of the vocabulary, and the kinds of the others.
pub record Affiliations : Type 0 where
  pub names : List String
  pub unknown : List Kind

abbrev pub with_name : String → Loaded Affiliations → Loaded Affiliations
with_name a (ok found) = ok (record found { names = a ∷ found.names })
with_name a rules_error = rules_error
with_name a type_error = type_error

abbrev pub with_unknown : Kind → Loaded Affiliations → Loaded Affiliations
with_unknown k (ok found) = ok (record found { unknown = k ∷ found.unknown })
with_unknown k rules_error = rules_error
with_unknown k type_error = type_error

abbrev pub affiliation_loop : Docs → Loaded Affiliations
affiliation_loop nil = ok (record { names = []; unknown = [] })
affiliation_loop (cons (text a) rest) =
    let later = affiliation_loop rest in
    if contains a affiliation_vocabulary then with_name a later else with_unknown words later
affiliation_loop (cons (sequence ds) rest) = type_error
affiliation_loop (cons (mapping fs) rest) = type_error
affiliation_loop (cons null rest) = with_unknown nothing (affiliation_loop rest)
affiliation_loop (cons _ rest) = with_unknown numbers (affiliation_loop rest)

-- The report of the unknown ones sorts them: values of two kinds raise a TypeError there.
abbrev pub report : List String → List Kind → Loaded (List String)
report names [] = ok names
report names (k ∷ ks) = if all (kind_eq k) ks then rules_error else type_error

abbrev pub affiliation_report : Loaded Affiliations → Loaded (List String)
affiliation_report (ok found) = report found.names found.unknown
affiliation_report rules_error = rules_error
affiliation_report type_error = type_error

-- The grants of a rule, all declared; a later unhashable one is a TypeError all the same.
abbrev pub grants_next : Bool → String → Loaded (List String) → Loaded (List String)
grants_next declared urn (ok urns) = if declared then ok (urn ∷ urns) else rules_error
grants_next declared urn rules_error = rules_error
grants_next declared urn type_error = type_error

abbrev pub grants_loop : List Entitlement → Docs → Loaded (List String)
grants_loop catalogue nil = ok []
grants_loop catalogue (cons (text urn) rest) =
    grants_next (is_some (entitlement_of catalogue urn)) urn (grants_loop catalogue rest)
grants_loop catalogue (cons (sequence ds) rest) = type_error
grants_loop catalogue (cons (mapping fs) rest) = type_error
grants_loop catalogue (cons _ rest) = grants_next false "" (grants_loop catalogue rest)

abbrev pub rule_made : String → List String → Loaded (List String) → Loaded Rule
rule_made id affiliations (ok grants) =
    ok (record { id = id; affiliations = affiliations; grants = grants })
rule_made id affiliations rules_error = rules_error
rule_made id affiliations type_error = type_error

abbrev pub rule_grants : List Entitlement → String → List String → Doc → Loaded Rule
rule_grants catalogue id affiliations (sequence ds) =
    rule_made id affiliations (grants_loop catalogue ds)
rule_grants catalogue id affiliations _ = rules_error

abbrev pub rule_known : List Entitlement → Fields → String → Loaded (List String) → Loaded Rule
rule_known catalogue entry id (ok affiliations) =
    rule_grants catalogue id affiliations (field_or entry "grants" null)
rule_known catalogue entry id rules_error = rules_error
rule_known catalogue entry id type_error = type_error

abbrev pub rule_affiliations : List Entitlement → Fields → String → Doc → Loaded Rule
rule_affiliations catalogue entry id (sequence (cons a rest)) =
    rule_known catalogue entry id (affiliation_report (affiliation_loop (cons a rest)))
rule_affiliations catalogue entry id _ = rules_error

-- The body of the loop of `_rules`.
abbrev pub rule_id : List Entitlement → List String → Fields → Doc → Loaded Rule
rule_id catalogue seen entry (text id) =
    if (id == "") || contains id seen
    then rules_error
    else rule_affiliations catalogue entry id (field_or entry "affiliations" null)
rule_id catalogue seen entry _ = rules_error

abbrev pub rule_entry : List Entitlement → List String → Doc → Loaded Rule
rule_entry catalogue seen (mapping entry) = rule_id catalogue seen entry (field_or entry "id" null)
rule_entry catalogue seen _ = rules_error

abbrev pub rule_before : Rule → Loaded (List Rule) → Loaded (List Rule)
rule_before rule (ok rules) = ok (rule ∷ rules)
rule_before rule rules_error = rules_error
rule_before rule type_error = type_error

abbrev pub rule_then : Loaded Rule → (Rule → Loaded (List Rule)) → Loaded (List Rule)
rule_then (ok rule) later = rule_before rule (later rule)
rule_then rules_error later = rules_error
rule_then type_error later = type_error

abbrev pub rule_loop : List Entitlement → Docs → List String → Loaded (List Rule)
rule_loop catalogue nil seen = ok []
rule_loop catalogue (cons entry rest) seen =
    rule_then (rule_entry catalogue seen entry) (λ rule. rule_loop catalogue rest (rule.id ∷ seen))

-- `_rules`
unfoldable pub rules_of : Doc → List Entitlement → Loaded (List Rule)
rules_of (sequence (cons entry rest)) catalogue = rule_loop catalogue (cons entry rest) []
rules_of _ catalogue = rules_error

abbrev pub load_rest : List Entitlement → Loaded (List Rule) → Loaded LifecycleRules
load_rest catalogue (ok rules) = ok (record { entitlements = catalogue; rules = rules })
load_rest catalogue rules_error = rules_error
load_rest catalogue type_error = type_error

unfoldable pub load_catalogue : Fields → Loaded (List Entitlement) → Loaded LifecycleRules
unfolding rules_of
load_catalogue document (ok catalogue) =
    load_rest catalogue (rules_of (field_or document "rules" null) catalogue)
load_catalogue document rules_error = rules_error
load_catalogue document type_error = type_error

-- `load_rules`, for a file that cannot be read or parsed (`none`) or that holds a document.
unfoldable pub load_rules : Option Doc → Loaded LifecycleRules
unfolding load_catalogue entitlements
load_rules (some (mapping document)) =
    load_catalogue document (entitlements (field_or document "entitlements" null))
load_rules _ = rules_error
