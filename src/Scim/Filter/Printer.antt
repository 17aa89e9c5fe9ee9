-- ===== src/Scim/Filter/Printer.antt =====
-- A printer for the filters of campusid/scim/filters.py, as tokens: every operand of `and`, `or` and
-- `not` stands in parentheses.
use campus_id.Shared.{ℕ, suc, ◌≡◌, ◌≢◌, true, false, Option, none, some, [], ◌∷◌, ◌++◌, max}
use campus_id.Shared.Texts.{Text, codes, has}
use campus_id.Scim.Filter.Syntax.{
  Operator, AttrPath, Literal, string, number, boolean, null, Node, comparison, present, value_path,
  conjunction, disjunction, negation, Token, lparen, rparen, lbracket, rbracket, dot, quoted,
  digits, word, Tokens,
}

abbrev pub print_name : Text → Option Text → Text
print_name attribute none = attribute
print_name attribute (some []) = attribute
print_name attribute (some (c ∷ sub)) = attribute ++ (b'.' ∷ (c ∷ sub))

abbrev pub print_urn : Option Text → Text → Text
print_urn none name = name
print_urn (some []) name = name
print_urn (some (c ∷ urn)) name = (c ∷ urn) ++ (b':' ∷ name)

-- `AttrPath.__str__`
unfoldable pub print_path : AttrPath → Text
print_path path = print_urn path.urn (print_name path.attribute path.sub_attribute)

abbrev pub print_operator : Operator → Text
print_operator Operator.eq = codes "eq"
print_operator Operator.ne = codes "ne"
print_operator Operator.co = codes "co"
print_operator Operator.sw = codes "sw"
print_operator Operator.ew = codes "ew"
print_operator Operator.gt = codes "gt"
print_operator Operator.ge = codes "ge"
print_operator Operator.lt = codes "lt"
print_operator Operator.le = codes "le"

module _ {Number : Type 0} (show : Number → Text) where
  abbrev pub print_value : Literal Number → Token
  print_value (string text) = quoted (b'"' ∷ (text ++ (b'"' ∷ [])))
  print_value (number n) = digits (show n)
  print_value (boolean true) = word (codes "true")
  print_value (boolean false) = word (codes "false")
  print_value null = word (codes "null")

  -- The tokens of a node, before the tokens that follow.
  unfoldable pub print_before : Node Number → Tokens → Tokens
  print_before (comparison path operator value) rest =
      word (print_path path) ∷ word (print_operator operator) ∷ print_value value ∷ rest
  print_before (present path) rest = word (print_path path) ∷ word (codes "pr") ∷ rest
  print_before (value_path path node) rest =
      word (print_path path) ∷ lbracket ∷ print_before node (rbracket ∷ rest)
  print_before (conjunction left right) rest =
      lparen
      ∷ print_before left
          (rparen ∷ word (codes "and") ∷ lparen ∷ print_before right (rparen ∷ rest))
  print_before (disjunction left right) rest =
      lparen
      ∷ print_before left (rparen ∷ word (codes "or") ∷ lparen ∷ print_before right (rparen ∷ rest))
  print_before (negation node) rest =
      word (codes "not") ∷ lparen ∷ print_before node (rparen ∷ rest)

  -- The tokens of a PATCH path on an attribute, with a value filter and a sub-attribute.
  abbrev pub print_selection : AttrPath → Node Number → Text → Tokens
  print_selection path node sub =
      word (print_path path) ∷ lbracket ∷ print_before node (rbracket ∷ dot ∷ word sub ∷ [])

-- How many levels the brackets of a printed node open.
abbrev pub nesting : {Number : Type 0} → Node Number → ℕ
nesting (comparison path operator value) = 0
nesting (present path) = 0
nesting (value_path path node) = suc (nesting node)
nesting (conjunction left right) = suc (max (nesting left) (nesting right))
nesting (disjunction left right) = suc (max (nesting left) (nesting right))
nesting (negation node) = suc (nesting node)

-- A name without the separators of a path.
abbrev pub IsName : Text → Type 0
IsName name = (name ≢ []) × (has b'.' name ≡ false) × (has b':' name ≡ false)

abbrev pub IsSubName : Option Text → Type 0
IsSubName none = Unit
IsSubName (some sub) = IsName sub

-- A path that can be written: its names are names, and its URN is not empty and
-- it is not the word `not`.
pub record IsPath (lower : Text → Text) (path : AttrPath) : Type 0 where
  pub names : IsName path.attribute
  pub sub_names : IsSubName path.sub_attribute
  pub filled_urn : path.urn ≢ some []
  pub keyword : lower (print_path path) ≢ codes "not"

abbrev pub IsValue : {Number : Type 0} → Literal Number → Type 0
IsValue (string text) = has b'\\' text ≡ false
IsValue (number n) = Unit
IsValue (boolean b) = Unit
IsValue null = Unit

-- A node that can be written: its paths can, and its strings need no escape.
abbrev pub IsPrintable : {Number : Type 0} → (Text → Text) → Node Number → Type 0
IsPrintable lower (comparison path operator value) = IsPath lower path × IsValue value
IsPrintable lower (present path) = IsPath lower path
IsPrintable lower (value_path path node) = IsPath lower path × IsPrintable lower node
IsPrintable lower (conjunction left right) = IsPrintable lower left × IsPrintable lower right
IsPrintable lower (disjunction left right) = IsPrintable lower left × IsPrintable lower right
IsPrintable lower (negation node) = IsPrintable lower node
