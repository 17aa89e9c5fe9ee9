-- ===== src/Lifecycle/Declared.antt =====
-- What holds of every rules file that the loader of campusid/lifecycle/rules.py accepts.
use campus_id.Shared.{
  ◌≤◌, String, ◌≡◌, refl, inl, inr, Bool, true, false, List, [], ◌∷◌, all, Bool-cases, contains,
  is_some, Within, Within-cons,
}
use campus_id.Lifecycle.Document.{
  null, negative, real, boolean, whole, text, sequence, mapping, Docs, nil, cons, Loaded, ok,
  rules_error, type_error,
}
use campus_id.Lifecycle.Rules.{Entitlement, entitlement_of}
use campus_id.Lifecycle.Loader

-- A property of the result, if there is one.
abbrev pub Holds : {A : Type 0} → (A → Type 0) → Loaded A → Type 0
Holds P (ok a) = P a
Holds P rules_error = Unit
Holds P type_error = Unit

abbrev pub Declared : List Entitlement → List String → Type 0
Declared catalogue urns =
    (urn : String) → Within urn urns → is_some (entitlement_of catalogue urn) ≡ true

abbrev pub Bounded : List Entitlement → Type 0
Bounded catalogue = (e : Entitlement) → Within e catalogue → e.grace_days ≤ Loader.max_grace_days

abbrev pub Vocabulary : List String → Type 0
Vocabulary names = (a : String) → Within a names → contains a Loader.affiliation_vocabulary ≡ true

grants_next-Declared :
    (catalogue : List Entitlement) (declared : Bool) (urn : String) (later : Loaded (List String))
    → (declared ≡ true → is_some (entitlement_of catalogue urn) ≡ true)
    → Holds (Declared catalogue) later
    → Holds (Declared catalogue) (Loader.grants_next declared urn later)
grants_next-Declared catalogue true urn (ok urns) d h =
    λ u w. elim (Within-cons w) [ inl e ↦ rw e (d refl) | inr v ↦ h u v ]
grants_next-Declared catalogue false urn (ok urns) d h = tt
grants_next-Declared catalogue declared urn rules_error d h = tt
grants_next-Declared catalogue declared urn type_error d h = tt

pub grants_loop-Declared :
    (catalogue : List Entitlement) (docs : Docs)
    → Holds (Declared catalogue) (Loader.grants_loop catalogue docs)
grants_loop-Declared catalogue nil = λ u w. elim w [ ]
grants_loop-Declared catalogue (cons (text urn) rest) =
    grants_next-Declared catalogue (is_some (entitlement_of catalogue urn)) urn
      (Loader.grants_loop catalogue rest) (λ e. e) (grants_loop-Declared catalogue rest)
grants_loop-Declared catalogue (cons (sequence ds) rest) = tt
grants_loop-Declared catalogue (cons (mapping fs) rest) = tt
grants_loop-Declared catalogue (cons null rest) =
    grants_next-Declared catalogue false "" (Loader.grants_loop catalogue rest) (λ e. cc)
      (grants_loop-Declared catalogue rest)
grants_loop-Declared catalogue (cons negative rest) =
    grants_next-Declared catalogue false "" (Loader.grants_loop catalogue rest) (λ e. cc)
      (grants_loop-Declared catalogue rest)
grants_loop-Declared catalogue (cons (real b) rest) =
    grants_next-Declared catalogue false "" (Loader.grants_loop catalogue rest) (λ e. cc)
      (grants_loop-Declared catalogue rest)
grants_loop-Declared catalogue (cons (boolean b) rest) =
    grants_next-Declared catalogue false "" (Loader.grants_loop catalogue rest) (λ e. cc)
      (grants_loop-Declared catalogue rest)
grants_loop-Declared catalogue (cons (whole n) rest) =
    grants_next-Declared catalogue false "" (Loader.grants_loop catalogue rest) (λ e. cc)
      (grants_loop-Declared catalogue rest)

-- The affiliations that the loop keeps are in the vocabulary.
abbrev Names : Loader.Affiliations → Type 0
Names found = Vocabulary found.names

with_name-Names :
    (a : String) (later : Loaded Loader.Affiliations)
    → contains a Loader.affiliation_vocabulary ≡ true
    → Holds Names later
    → Holds Names (Loader.with_name a later)
with_name-Names a (ok found) known h =
    λ b w. elim (Within-cons w) [ inl e ↦ rw e known | inr v ↦ h b v ]
with_name-Names a rules_error known h = tt
with_name-Names a type_error known h = tt

with_unknown-Names :
    (k : Loader.Kind) (later : Loaded Loader.Affiliations)
    → Holds Names later
    → Holds Names (Loader.with_unknown k later)
with_unknown-Names k (ok found) h = h
with_unknown-Names k rules_error h = tt
with_unknown-Names k type_error h = tt

pub affiliation_loop-Names : (docs : Docs) → Holds Names (Loader.affiliation_loop docs)
affiliation_loop-Names nil = λ u w. elim w [ ]
affiliation_loop-Names (cons (text a) rest) =
    let later = affiliation_loop-Names rest in
    elim (Bool-cases (contains a Loader.affiliation_vocabulary)) [
      | inl e ↦ rw e (with_name-Names a (Loader.affiliation_loop rest) e later)
      | inr e ↦ rw e (with_unknown-Names Loader.words (Loader.affiliation_loop rest) later)
    ]
affiliation_loop-Names (cons (sequence ds) rest) = tt
affiliation_loop-Names (cons (mapping fs) rest) = tt
affiliation_loop-Names (cons null rest) =
    with_unknown-Names _ (Loader.affiliation_loop rest) (affiliation_loop-Names rest)
affiliation_loop-Names (cons negative rest) =
    with_unknown-Names _ (Loader.affiliation_loop rest) (affiliation_loop-Names rest)
affiliation_loop-Names (cons (real b) rest) =
    with_unknown-Names _ (Loader.affiliation_loop rest) (affiliation_loop-Names rest)
affiliation_loop-Names (cons (boolean b) rest) =
    with_unknown-Names _ (Loader.affiliation_loop rest) (affiliation_loop-Names rest)
affiliation_loop-Names (cons (whole n) rest) =
    with_unknown-Names _ (Loader.affiliation_loop rest) (affiliation_loop-Names rest)

report-Vocabulary :
    (names : List String) (unknown : List Loader.Kind)
    → Vocabulary names
    → Holds Vocabulary (Loader.report names unknown)
report-Vocabulary names [] h = h
report-Vocabulary names (k ∷ ks) h = elim (Bool-cases (all (Loader.kind_eq k) ks)) [
  | inl e ↦ rw e tt
  | inr e ↦ rw e tt
]

pub affiliation_report-Vocabulary :
    (found : Loaded Loader.Affiliations)
    → Holds Names found
    → Holds Vocabulary (Loader.affiliation_report found)
affiliation_report-Vocabulary (ok found) h = report-Vocabulary found.names found.unknown h
affiliation_report-Vocabulary rules_error h = tt
affiliation_report-Vocabulary type_error h = tt
