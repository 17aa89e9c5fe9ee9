-- ===== src/Scim/Filter/Syntax.antt =====
-- The syntax tree and the tokens of campusid/scim/filters.py. A text is the list of its code points.
use campus_id.Shared.{Bool, Option, List}
use campus_id.Shared.Texts.{Text}

pub data Operator : Type 0 where
  eq ne co sw ew gt ge lt le : Operator

pub record AttrPath : Type 0 where
  pub attribute : Text
  pub sub_attribute : Option Text
  pub urn : Option Text

-- A value that a filter compares with.
pub data Literal (Number : Type 0) : Type 0 where
  string : Text → Literal Number
  number : Number → Literal Number
  boolean : Bool → Literal Number
  null : Literal Number

pub data Node (Number : Type 0) : Type 0 where
  comparison : AttrPath → Operator → Literal Number → Node Number
  present : AttrPath → Node Number
  value_path : AttrPath → Node Number → Node Number
  conjunction : Node Number → Node Number → Node Number
  disjunction : Node Number → Node Number → Node Number
  negation : Node Number → Node Number

pub record PatchPath (Number : Type 0) : Type 0 where
  pub path : AttrPath
  pub predicate : Option (Node Number)
  pub sub_attribute : Option Text

-- A token with its text; a string keeps its quotes.
pub data Token : Type 0 where
  lparen rparen lbracket rbracket dot : Token
  quoted digits word : Text → Token

abbrev pub Tokens : Type 0
Tokens = List Token

-- What a parse answers: a result, the ScimFilterError, or fuel that ran out.
pub data Parsed {ℓ} (A : Type ℓ) : Type ℓ where
  ok : A → Parsed A
  filter_error out_of_fuel : Parsed A

infixl 5 ◌>>=◌
abbrev pub ◌>>=◌ {ℓ κ} : {A : Type ℓ} {B : Type κ} → Parsed A → (A → Parsed B) → Parsed B
ok a >>= f = f a
filter_error >>= f = filter_error
out_of_fuel >>= f = out_of_fuel
