-- ===== src/Scim/Filter/Spelling.antt =====
-- Upper and lower case in the filters of campusid/scim/filters.py: which spelling of a name or of a
-- text a filter has does not change what it matches.
use campus_id.Shared.{
  ◌≡◌, refl, sym, ap, ◌∙◌, inl, inr, Bool, Bool-cases, Option, none, some, Option-cases,
}
use campus_id.Shared.Texts.{Text, text_eq, text_eq_iff, text_eq_self}
use campus_id.Scim.Filter.Syntax.{
  Operator, AttrPath, Literal, string, Node, comparison, present, value_path, conjunction,
  disjunction, negation,
}
use campus_id.Scim.Filter.Literals.{Host}
use campus_id.Scim.Filter.Evaluator.{
  Value, list_value, dict_value, Values, no_values, value, Fields, no_fields, field, field_or,
  find_field, urn_of, spelled_like, get_insensitive,
}

module _ (host : Host) where
  -- No dictionary in a value has two keys that differ in case alone.
  abbrev mutual
    pub IsSpelled : Value host.Number → Type 0
    IsSpelled (list_value vs) = AreSpelled vs
    IsSpelled (dict_value entries) = IsUnambiguous entries
    IsSpelled _ = Unit

    pub AreSpelled : Values host.Number → Type 0
    AreSpelled no_values = Unit
    AreSpelled (value v rest) = IsSpelled v × AreSpelled rest

    pub IsUnambiguous : Fields host.Number → Type 0
    IsUnambiguous no_fields = Unit
    IsUnambiguous (field key v rest) =
        (find_field (spelled_like host key) rest ≡ none) × IsSpelled v × IsUnambiguous rest

  abbrev pub SameName : Text → Text → Type 0
  SameName s t = host.lower s ≡ host.lower t

  abbrev pub SameOption : Option Text → Option Text → Type 0
  SameOption none none = Unit
  SameOption (some s) (some t) = SameName s t
  SameOption _ _ = ⊥

  -- Two paths that differ in case alone.
  pub record SamePath (p q : AttrPath) : Type 0 where
    pub attributes : SameName p.attribute q.attribute
    pub sub_attributes : SameOption p.sub_attribute q.sub_attribute
    pub urns : SameOption (urn_of p.urn) (urn_of q.urn)

  pub data SameLiteral : Literal host.Number → Literal host.Number → Type 0 where
    texts : {s t : Text} → SameName s t → SameLiteral (string s) (string t)
    itself : {v : Literal host.Number} → SameLiteral v v

  -- Two filters that differ in case alone.
  pub data Respelled : Node host.Number → Node host.Number → Type 0 where
    compared :
        {p q : AttrPath} {operator : Operator} {v w : Literal host.Number}
        → SamePath p q
        → SameLiteral v w
        → Respelled (comparison p operator v) (comparison q operator w)
    presence : {p q : AttrPath} → SamePath p q → Respelled (present p) (present q)
    filtered :
        {p q : AttrPath} {a b : Node host.Number}
        → SamePath p q
        → Respelled a b
        → Respelled (value_path p a) (value_path q b)
    both :
        {a b c d : Node host.Number}
        → Respelled a b
        → Respelled c d
        → Respelled (conjunction a c) (conjunction b d)
    either :
        {a b c d : Node host.Number}
        → Respelled a b
        → Respelled c d
        → Respelled (disjunction a c) (disjunction b d)
    negated : {a b : Node host.Number} → Respelled a b → Respelled (negation a) (negation b)

  pub find_field-respelled :
      (s t : Text) (entries : Fields host.Number)
      → SameName s t
      → find_field (spelled_like host s) entries ≡ find_field (spelled_like host t) entries
  find_field-respelled s t entries e =
      ap (λ u. find_field (λ key. text_eq (host.lower key) u) entries) e

  -- The exact spelling finds nothing that another spelling would not find.
  find_field-exact :
      (name : Text) (entries : Fields host.Number) (v : Value host.Number)
      → IsUnambiguous entries
      → find_field (λ key. text_eq key name) entries ≡ some v
      → find_field (spelled_like host name) entries ≡ some v
  find_field-exact name no_fields v h e = cc
  find_field-exact name (field key u rest) v h e = elim (Bool-cases (text_eq key name)) [
    | inl exact ↦
        let same : key ≡ name = (text_eq_iff key name).0 exact in
        let found = rw exact at e in rw same (rw (text_eq_self (host.lower name)) found)
    | inr other ↦
        let later = rw other at e in
        let deep = find_field-exact name rest v h.2 later in
        elim (Bool-cases (spelled_like host name key)) [
          | inr differs ↦ rw differs deep
          | inl alike ↦
              let gone =
                find_field-respelled name key rest
                  (sym ((text_eq_iff (host.lower key) (host.lower name)).0 alike)) in
              let none_there = h.0 in absurd (cc (gone, none_there, deep))
        ]
  ]

  get_insensitive-any :
      (entries : Fields host.Number) (name : Text)
      → IsUnambiguous entries
      → get_insensitive host entries name ≡ field_or (find_field (spelled_like host name) entries)
  unfolding get_insensitive
  get_insensitive-any entries name h =
      elim (Option-cases (find_field (λ key. text_eq key name) entries)) [
        | inl e ↦ rw e refl
        | inr (v, e) ↦ let f = find_field-exact name entries v h e in rw e (rw f refl)
      ]

  pub get_insensitive-respelled :
      (entries : Fields host.Number) (s t : Text)
      → IsUnambiguous entries
      → SameName s t
      → get_insensitive host entries s ≡ get_insensitive host entries t
  get_insensitive-respelled entries s t h e =
      get_insensitive-any entries s h
      ∙ ap field_or (find_field-respelled s t entries e)
      ∙ sym (get_insensitive-any entries t h)

  find_field-IsSpelled :
      (p : Text → Bool) (entries : Fields host.Number)
      → IsUnambiguous entries
      → IsSpelled (field_or (find_field p entries))
  find_field-IsSpelled p no_fields h = tt
  find_field-IsSpelled p (field key v rest) h = elim (Bool-cases (p key)) [
    | inl e ↦ rw e (h.1)
    | inr e ↦ rw e (find_field-IsSpelled p rest h.2)
  ]

  pub get_insensitive-IsSpelled :
      (entries : Fields host.Number) (name : Text)
      → IsUnambiguous entries
      → IsSpelled (get_insensitive host entries name)
  get_insensitive-IsSpelled entries name h =
      rw (get_insensitive-any entries name h)
        (find_field-IsSpelled (spelled_like host name) entries h)
