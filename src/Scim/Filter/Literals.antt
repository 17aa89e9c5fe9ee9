-- ===== src/Scim/Filter/Literals.antt =====
-- The leaves of the grammar of campusid/scim/filters.py: attribute paths, operators and values.
-- `str.lower`, the reading of a number and the classes `\s` and `\d` are the record `Host`.
use campus_id.Shared.{
  ℕ, Bool, true, false, ◌&&◌, Option, none, some, List, [], ◌∷◌, eqb, if◌then◌else◌,
}
use campus_id.Shared.Texts.{Text, codes, text_eq, has, partition, rpartition}
use campus_id.Scim.Filter.Syntax.{
  Operator, AttrPath, Literal, string, number, boolean, null, Token, quoted, digits, word,
}

pub record Host : Type 1 where
  pub Number : Type 0
  pub lower : Text → Text
  pub number_of : Text → Number
  pub is_space : ℕ → Bool
  pub is_digit : ℕ → Bool

-- `sub_attribute or None`
abbrev pub or_none : Text → Option Text
or_none [] = none
or_none (c ∷ s) = some (c ∷ s)

abbrev pub path_with_sub : Option Text → Text → Text → Option AttrPath
path_with_sub urn [] sub = none
path_with_sub urn (c ∷ attribute) sub =
    if has b'.' sub
    then none
    else some (record { attribute = c ∷ attribute; sub_attribute = or_none sub; urn = urn })

abbrev pub path_dotted : Option Text → Text → Option (Text × Text) → Option AttrPath
path_dotted urn name none = path_with_sub urn name []
path_dotted urn name (some (attribute, sub)) = path_with_sub urn attribute sub

abbrev pub path_named : Option Text → Text → Option AttrPath
path_named urn name = path_dotted urn name (partition b'.' name)

abbrev pub path_qualified : Text → Option (Text × Text) → Option AttrPath
path_qualified text none = path_named none text
path_qualified text (some (urn, [])) = none
path_qualified text (some (urn, c ∷ name)) = path_named (some urn) (c ∷ name)

-- `parse_attr_path`; `none` is the ScimFilterError.
unfoldable pub parse_attr_path : Text → Option AttrPath
parse_attr_path text = path_qualified text (rpartition b':' text)

-- `s.replace("\\" + from, to)`
abbrev pub unescape : ℕ → ℕ → Text → Text
unescape from to [] = []
unescape from to (c ∷ []) = c ∷ []
unescape from to (c ∷ (d ∷ rest)) =
    let replaced = to ∷ unescape from to rest in
    let kept = c ∷ unescape from to (d ∷ rest) in
    if eqb c b'\\' && eqb d from then replaced else kept

-- `token[1:-1]`
abbrev pub without_last : Text → Text
without_last [] = []
without_last (c ∷ []) = []
without_last (c ∷ (d ∷ rest)) = c ∷ without_last (d ∷ rest)

abbrev pub body_of : Text → Text
body_of [] = []
body_of (c ∷ rest) = without_last rest

-- `_unquote`
unfoldable pub unquote : Text → Text
unquote token = unescape b'/' b'/' (
    unescape b't' b'\t' (
      unescape b'r' b'\r'
        (unescape b'n' b'\n' (unescape b'\\' b'\\' (unescape b'"' b'"' (body_of token))))))

abbrev pub operators : List (Text × Operator)
operators =
    (codes "eq", Operator.eq)
    ∷ (codes "ne", Operator.ne)
    ∷ (codes "co", Operator.co)
    ∷ (codes "sw", Operator.sw)
    ∷ (codes "ew", Operator.ew)
    ∷ (codes "gt", Operator.gt)
    ∷ (codes "ge", Operator.ge)
    ∷ (codes "lt", Operator.lt)
    ∷ (codes "le", Operator.le)
    ∷ []

abbrev pub find_named {ℓ} : {A : Type ℓ} → Text → List (Text × A) → Option A
find_named name [] = none
find_named name ((n, a) ∷ rest) =
    let later = find_named name rest in if text_eq n name then some a else later

-- `Operator(word)`
unfoldable pub operator_of : Text → Option Operator
operator_of name = find_named name operators

module _ (host : Host) where
  -- `_LITERALS[word]`
  unfoldable pub literal_of : Text → Option (Literal host.Number)
  literal_of name =
      find_named name
        ((codes "true", boolean true) ∷ (codes "false", boolean false) ∷ (codes "null", null) ∷ [])

  abbrev pub some_value : Token → Option (Literal host.Number)
  some_value (quoted text) = some (string (unquote text))
  some_value (digits text) = some (number (host.number_of text))
  some_value (word text) = literal_of (host.lower text)
  some_value _ = none
