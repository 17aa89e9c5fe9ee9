-- ===== src/Policy/Scopes.antt =====
-- What campusid/policy/normalize.py keeps of scoped attributes: values of this deployment's own scope.
use campus_id.Shared.{
  String, ◌≡◌, refl, ap, ◌∙◌, sym, ◌⊎◌, inl, inr, Bool, true, Bool-cases, ◌||◌, Option, none, some,
  List, [], ◌∷◌, ◌++◌, ◌==◌, ==_iff, if◌then◌else◌, Within, Within-cons,
}
use campus_id.Shared.Members.{Within-of_append}
use campus_id.Shared.Texts.{Text, text_eq, text_eq_iff, rpartition, rpartition-some}
use campus_id.Policy.Attributes.{eppn, scoped_affiliation}
use campus_id.Policy.Normalize.{
  Host, Normalized, kept, rejected, DroppedValue, NormalizationResult, among, vocabulary,
  in_vocabulary, is_empty_text, scoped_parts, scoped, normalize_value, after_value,
  normalize_values, with_attribute, normalize,
}

-- The attributes that carry a scope, and the vocabulary of what stands before it.
abbrev pub is_scoped : String → Bool
is_scoped name = (name == eppn) || (name == scoped_affiliation)

abbrev pub vocabulary_of : String → Option (List Text)
vocabulary_of name = if name == scoped_affiliation then some vocabulary else none

-- A value of this scope, whose local part is in the vocabulary.
abbrev pub IsOurs : Text → Option (List Text) → Text → Type 0
IsOurs scope texts v =
    (local : Text) × (v ≡ local ++ (b'@' ∷ scope)) × (in_vocabulary texts local ≡ true)

scoped_parts-IsOurs :
    (s scope v : Text) (texts : Option (List Text)) (parts : Option (Text × Text))
    → rpartition b'@' s ≡ parts
    → scoped_parts s scope texts parts ≡ kept v
    → IsOurs scope texts v
scoped_parts-IsOurs s scope v texts none e h = cc
scoped_parts-IsOurs s scope v texts (some (local, asserted)) e h =
    elim (Bool-cases (is_empty_text local)) [
      | inl a ↦ let f = rw a at h in cc
      | inr a ↦ elim (Bool-cases (text_eq asserted scope)) [
        | inr b ↦ let f = rw (a, b) at h in cc
        | inl b ↦ elim (Bool-cases (in_vocabulary texts local)) [
          | inr c ↦ let f = rw (a, b, c) at h in cc
          | inl c ↦
              let same : s ≡ v = cc (rw (a, b, c) at h) in
              let ours : asserted ≡ scope = (text_eq_iff asserted scope).0 b in
              (
                local,
                sym same
                    ∙ rpartition-some b'@' s local asserted e
                    ∙ ap (λ t. local ++ (b'@' ∷ t)) ours,
                c,
              )
        ]
      ]
    ]

scoped-IsOurs :
    (s scope v : Text) (texts : Option (List Text))
    → scoped s scope texts ≡ kept v
    → IsOurs scope texts v
unfolding scoped
scoped-IsOurs s scope v texts h = scoped_parts-IsOurs s scope v texts (rpartition b'@' s) refl h

module _ (host : Host) where
  normalize_value-IsOurs :
      (name : String) (s scope v : Text)
      → is_scoped name ≡ true
      → normalize_value host name s scope ≡ kept v
      → IsOurs scope (vocabulary_of name) v
  unfolding normalize_value
  normalize_value-IsOurs name s scope v n h = elim (Bool-cases (is_empty_text s)) [
    | inl a ↦ let f = rw a at h in cc
    | inr a ↦ elim (Bool-cases (name == eppn)) [
      | inl e ↦
          let same : name ≡ eppn = (==_iff name eppn).0 e in
          rw same (scoped-IsOurs (host.lower s) scope v none (rw (a, e) at h))
      | inr e ↦
          let f : (name == scoped_affiliation) ≡ true = rw e at n in
          rw f (scoped-IsOurs (host.lower s) scope v (some vocabulary) (rw (a, e, f) at h))
    ]
  ]

  -- Every value of a list is of this scope.
  abbrev AllOurs : String → Text → List Text → Type 0
  AllOurs name scope values = (v : Text) → Within v values → IsOurs scope (vocabulary_of name) v

  after_value-AllOurs :
      (name : String) (raw scope : Text) (o : Normalized) (values : List Text)
      (next : List Text → List Text × List DroppedValue)
      → ((v : Text) → o ≡ kept v → IsOurs scope (vocabulary_of name) v)
      → AllOurs name scope values
      → ((more : List Text) → AllOurs name scope more → AllOurs name scope (next more).0)
      → AllOurs name scope (after_value host name raw o values next).0
  after_value-AllOurs name raw scope (rejected reason) values next h all k = k values all
  after_value-AllOurs name raw scope (kept s) values next h all k =
      elim (Bool-cases (among values s)) [
        | inl e ↦ rw e (k values all)
        | inr e ↦ rw e (
            k (values ++ (s ∷ [])) (λ v w. elim (Within-of_append values w) [
              | inl old ↦ all v old
              | inr new ↦ elim (Within-cons new) [
                | inl same ↦ rw same (h s refl)
                | inr gone ↦ elim gone [ ]
              ]
            ]))
      ]

  normalize_values-AllOurs :
      (name : String) (scope : Text) (raws values : List Text)
      → is_scoped name ≡ true
      → AllOurs name scope values
      → AllOurs name scope (normalize_values host name scope raws values).0
  unfolding normalize_values
  normalize_values-AllOurs name scope [] values n all = all
  normalize_values-AllOurs name scope (raw ∷ rest) values n all =
      after_value-AllOurs name raw scope (normalize_value host name (host.strip raw) scope) values
        (normalize_values host name scope rest)
        (λ v e. normalize_value-IsOurs name (host.strip raw) scope v n e) all
        (λ more k. normalize_values-AllOurs name scope rest more n k)

  Within-with_attribute :
      (name key : String) (now values : List Text) (result : NormalizationResult)
      → Within (key, values) (with_attribute host name now result).attributes
      → ((◌≡◌ {A = String × List Text} (key, values) (name, now))
          ⊎ Within (key, values) result.attributes)
  Within-with_attribute name key [] values result w = inr w
  Within-with_attribute name key (v ∷ now) values result w = Within-cons w

  -- Every value that is kept of eduPersonPrincipalName or eduPersonScopedAffiliation, of any input, has
  -- this deployment's scope after its last `@`, and before it, for an affiliation, a word of the
  -- eduPerson vocabulary.
  pub normalize-IsOurs :
      (attributes : List (String × List Text)) (scope : Text) (name : String) (values : List Text)
      (v : Text)
      → Within (name, values) (normalize host attributes scope).attributes
      → Within v values
      → is_scoped name ≡ true
      → IsOurs scope (vocabulary_of name) v
  unfolding normalize
  normalize-IsOurs [] scope name values v w u n = elim w [ ]
  normalize-IsOurs ((key, raws) ∷ rest) scope name values v w u n =
      elim (Within-with_attribute key name (normalize_values host key scope raws []).0 values
        (normalize host rest scope) w) [
          | inr later ↦ normalize-IsOurs rest scope name values v later u n
          | inl e ↦
              let same : name ≡ key = ap (λ p. p.0) e in
              let mine : values ≡ (normalize_values host key scope raws []).0 = ap (λ p. p.1) e in
              rw same (
                normalize_values-AllOurs key scope raws [] (rw same at n) (λ t z. elim z [ ]) v
                  (rw mine at u))
        ]
