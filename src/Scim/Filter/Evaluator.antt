-- ===== src/Scim/Filter/Evaluator.antt =====
-- The evaluator of campusid/scim/filters.py: a filter on a resource. A Python value is a `Value`, a
-- dictionary its fields in their order; the comparisons of numbers are the record `Numbers`.
use campus_id.Shared.{
  ℕ, suc, Bool, true, false, not, ◌&&◌, ◌||◌, Option, none, some, List, [], ◌∷◌, eqb, ltb,
  if◌then◌else◌,
}
use campus_id.Shared.Texts.{Text, text_eq, begins_with, includes, finishes_with}
use campus_id.Scim.Filter.Syntax.{
  Operator, AttrPath, Literal, string, number, boolean, null, Node, comparison, present, value_path,
  conjunction, disjunction, negation,
}
use campus_id.Scim.Filter.Literals.{Host}

mutual
  pub data Value (Number : Type 0) : Type 0 where
    none_value : Value Number
    bool_value : Bool → Value Number
    number_value : Number → Value Number
    str_value : Text → Value Number
    list_value : Values Number → Value Number
    dict_value : Fields Number → Value Number

  pub data Values (Number : Type 0) : Type 0 where
    no_values : Values Number
    value : Value Number → Values Number → Values Number

  pub data Fields (Number : Type 0) : Type 0 where
    no_fields : Fields Number
    field : Text → Value Number → Fields Number → Fields Number

-- `==`, `<` and `<=` of the numbers of a host.
pub record Numbers (host : Host) : Type 0 where
  pub same : host.Number → host.Number → Bool
  pub less : host.Number → host.Number → Bool
  pub at_most : host.Number → host.Number → Bool

-- `<` of two texts, by code points.
abbrev pub text_less : Text → Text → Bool
text_less s [] = false
text_less [] (y ∷ ys) = true
text_less (x ∷ xs) (y ∷ ys) = ltb x y || (eqb x y && text_less xs ys)

-- The `gt`, `ge`, `lt` or `le` of two values, from their `<` and `<=`.
abbrev pub by_order {ℓ} : {A : Type ℓ} → (A → A → Bool) → (A → A → Bool) → Operator → A → A → Bool
by_order less at_most Operator.gt a b = less b a
by_order less at_most Operator.ge a b = at_most b a
by_order less at_most Operator.lt a b = less a b
by_order less at_most _ a b = at_most a b

abbrev pub text_at_most : Text → Text → Bool
text_at_most s t = not (text_less t s)

-- The operators of `SUBSTRING`, on two texts in lower case.
abbrev pub in_text : Operator → Text → Text → Bool
in_text Operator.co haystack needle = includes haystack needle
in_text Operator.sw haystack needle = begins_with haystack needle
in_text _ haystack needle = finishes_with haystack needle

abbrev pub any_value : {N : Type 0} → (Value N → Bool) → Values N → Bool
any_value p no_values = false
any_value p (value v rest) = p v || any_value p rest

abbrev pub field_or : {N : Type 0} → Option (Value N) → Value N
field_or none = none_value
field_or (some v) = v

abbrev pub find_field : {N : Type 0} → (Text → Bool) → Fields N → Option (Value N)
find_field p no_fields = none
find_field p (field key v rest) = let later = find_field p rest in if p key then some v else later

-- `_present`
unfoldable pub is_present : {N : Type 0} → Value N → Bool
is_present none_value = false
is_present (str_value []) = false
is_present (list_value no_values) = false
is_present (dict_value no_fields) = false
is_present _ = true

-- A value that is a dictionary and passes a test of its fields.
abbrev pub is_member : {N : Type 0} → (Fields N → Bool) → Value N → Bool
is_member p (dict_value fields) = p fields
is_member p _ = false

-- `collected or None`
abbrev pub collected_or_none : {N : Type 0} → Values N → Value N
collected_or_none no_values = none_value
collected_or_none vs = list_value vs

-- `path.urn`, where an empty text counts as no URN.
abbrev pub urn_of : Option Text → Option Text
urn_of none = none
urn_of (some []) = none
urn_of (some (c ∷ urn)) = some (c ∷ urn)

abbrev pub keep_value : {N : Type 0} → Value N → Values N → Values N
keep_value none_value rest = rest
keep_value v rest = value v rest

module _ (host : Host) where
  abbrev pub spelled_like : Text → Text → Bool
  spelled_like name key = text_eq (host.lower key) (host.lower name)

  abbrev pub or_spelled_like :
      Text → Fields host.Number → Option (Value host.Number) → Value host.Number
  or_spelled_like name entries (some v) = v
  or_spelled_like name entries none = field_or (find_field (spelled_like name) entries)

  -- `_get_insensitive`
  unfoldable pub get_insensitive : Fields host.Number → Text → Value host.Number
  get_insensitive fields name =
      or_spelled_like name fields (find_field (λ key. text_eq key name) fields)

  -- The sub-attribute of each member that is a dictionary, where it is not `None`.
  abbrev pub collect : Text → Values host.Number → Values host.Number
  collect sub no_values = no_values
  collect sub (value (dict_value fields) rest) =
      keep_value (get_insensitive fields sub) (collect sub rest)
  collect sub (value _ rest) = collect sub rest

  abbrev pub read_sub : Option Text → Value host.Number → Value host.Number
  read_sub none v = v
  read_sub (some sub) (list_value vs) = collected_or_none (collect sub vs)
  read_sub (some sub) (dict_value fields) = get_insensitive fields sub
  read_sub (some sub) _ = none_value

  abbrev pub read_in : AttrPath → Value host.Number → Value host.Number
  read_in path (dict_value fields) =
      read_sub path.sub_attribute (get_insensitive fields path.attribute)
  read_in path _ = none_value

  -- The extension that a URN names, or the resource.
  abbrev pub container : Option Text → Fields host.Number → Value host.Number
  container none resource = dict_value resource
  container (some urn) resource = get_insensitive resource urn

  -- `_read`
  unfoldable pub read : Fields host.Number → AttrPath → Value host.Number
  unfolding get_insensitive
  read resource path = read_in path (container (urn_of path.urn) resource)

  module _ (numbers : Numbers host) where
    -- `_equal`
    unfoldable pub equal : Value host.Number → Literal host.Number → Bool
    equal (bool_value true) (boolean true) = true
    equal (bool_value false) (boolean false) = true
    equal (str_value s) (string t) = text_eq (host.lower s) (host.lower t)
    equal (number_value m) (number n) = numbers.same m n
    equal none_value null = true
    equal _ _ = false

    abbrev pub substring : Operator → Value host.Number → Literal host.Number → Bool
    substring operator (str_value s) (string t) = in_text operator (host.lower s) (host.lower t)
    substring operator _ _ = false

    -- `_ordered`
    unfoldable pub ordered : Operator → Value host.Number → Literal host.Number → Bool
    ordered operator (str_value s) (string t) =
        by_order text_less text_at_most operator (host.lower s) (host.lower t)
    ordered operator (number_value m) (number n) =
        by_order numbers.less numbers.at_most operator m n
    ordered operator _ _ = false

    -- The operators but `ne`, on a value that is there.
    abbrev pub compare_there : Operator → Value host.Number → Literal host.Number → Bool
    compare_there Operator.eq v expected = equal v expected
    compare_there Operator.ne v expected = not (equal v expected)
    compare_there Operator.co v expected = substring Operator.co v expected
    compare_there Operator.sw v expected = substring Operator.sw v expected
    compare_there Operator.ew v expected = substring Operator.ew v expected
    compare_there Operator.gt v expected = ordered Operator.gt v expected
    compare_there Operator.ge v expected = ordered Operator.ge v expected
    compare_there Operator.lt v expected = ordered Operator.lt v expected
    compare_there Operator.le v expected = ordered Operator.le v expected

    -- Only `ne` holds of a value that is missing.
    abbrev pub on_missing : Operator → Literal host.Number → Bool
    on_missing Operator.ne expected = not (equal none_value expected)
    on_missing _ expected = false

    -- `_compare_one`
    unfoldable pub compare_one : Operator → Literal host.Number → Value host.Number → Bool
    unfolding equal ordered
    compare_one operator expected none_value = on_missing operator expected
    compare_one operator expected v = compare_there operator v expected

    abbrev pub compare_any : Operator → Literal host.Number → Value host.Number → Bool
    compare_any operator expected (list_value vs) = any_value (compare_one operator expected) vs
    compare_any operator expected v = compare_one operator expected v

    abbrev pub any_member : (Fields host.Number → Bool) → Value host.Number → Bool
    any_member p (list_value vs) = any_value (is_member p) vs
    any_member p _ = false

    unfoldable pub matches : Node host.Number → Fields host.Number → Bool
    unfolding read compare_one is_present
    matches (conjunction left right) resource = matches left resource && matches right resource
    matches (disjunction left right) resource = matches left resource || matches right resource
    matches (negation inner) resource = not (matches inner resource)
    matches (present path) resource = is_present (read resource path)
    matches (value_path path node) resource = any_member (matches node) (read resource path)
    matches (comparison path operator expected) resource =
        compare_any operator expected (read resource path)

    -- `select_members`, from an index on.
    abbrev pub select_from : (Fields host.Number → Bool) → ℕ → Values host.Number → List ℕ
    select_from p i no_values = []
    select_from p i (value v rest) =
        let later = select_from p (suc i) rest in if is_member p v then i ∷ later else later

    unfoldable pub select_members : Node host.Number → Values host.Number → List ℕ
    unfolding matches
    select_members predicate members = select_from (matches predicate) 0 members
