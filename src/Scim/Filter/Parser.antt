-- ===== src/Scim/Filter/Parser.antt =====
-- The recursive descent of campusid/scim/filters.py over tokens. A parser maps the tokens to a result
-- and the tokens that are left. The depth that `parse_filter` counts up to `MAX_DEPTH` is counted
-- down here: the parser of the next level is an argument. A chain of `and` or `or` runs on fuel, one
-- turn for each token and one more.
use campus_id.Shared.{
  ℕ, zero, suc, String, Bool, true, false, Option, none, some, [], ◌∷◌, length, if◌then◌else◌,
}
use campus_id.Shared.Texts.{Text, codes, text_eq}
use campus_id.Scim.Filter.Syntax.{
  Operator, AttrPath, Literal, Node, comparison, present, value_path, conjunction, disjunction,
  negation, Token, lparen, rparen, lbracket, rbracket, word, Tokens, Parsed, ok, filter_error,
  out_of_fuel, ◌>>=◌,
}
use campus_id.Scim.Filter.Literals.{Host, parse_attr_path, operator_of, some_value}

-- `MAX_DEPTH`
abbrev pub max_depth : ℕ
max_depth = 20

abbrev pub same_kind : Token → Token → Bool
same_kind rparen rparen = true
same_kind rbracket rbracket = true
same_kind _ _ = false

-- `_expect`, of a closing token.
abbrev pub expect : Token → Tokens → Parsed Tokens
expect kind [] = filter_error
expect kind (t ∷ rest) = if same_kind kind t then ok rest else filter_error

module _ (host : Host) where
  abbrev pub Parser : Type 0
  Parser = Tokens → Parsed (Node host.Number × Tokens)

  -- `_accept_word`: the tokens after the word, if it comes next.
  unfoldable pub accept_word : String → Tokens → Option Tokens
  accept_word name (word text ∷ rest) =
      if text_eq (host.lower text) (codes name) then some rest else none
  accept_word name _ = none

  -- A node between an opening token, which has been read, and its closing token.
  abbrev pub enclosed : Parser → Token → Parser
  enclosed nested closing ts =
      nested ts >>= λ (node, rest). expect closing rest >>= λ after. ok (node, after)

  abbrev pub negated : Node host.Number × Tokens → Parsed (Node host.Number × Tokens)
  negated (node, rest) = ok (negation node, rest)

  abbrev pub filtered : AttrPath → Node host.Number × Tokens → Parsed (Node host.Number × Tokens)
  filtered path (node, rest) = ok (value_path path node, rest)

  abbrev pub compared :
      AttrPath
      → Operator
      → Option (Literal host.Number)
      → Tokens
      → Parsed (Node host.Number × Tokens)
  compared path operator none rest = filter_error
  compared path operator (some value) rest = ok (comparison path operator value, rest)

  -- `Comparison(path, operator, self._parse_value())`
  abbrev pub comparing : AttrPath → Option Operator → Parser
  comparing path none ts = filter_error
  comparing path (some operator) [] = filter_error
  comparing path (some operator) (t ∷ rest) = compared path operator (some_value host t) rest

  abbrev pub operation : AttrPath → Text → Parser
  operation path name ts =
      if text_eq name (codes "pr")
      then ok (present path, ts)
      else comparing path (operator_of name) ts

  abbrev pub expression : Parser → Option AttrPath → Parser
  expression nested none ts = filter_error
  expression nested (some path) (lbracket ∷ rest) = enclosed nested rbracket rest >>= filtered path
  expression nested (some path) (word text ∷ rest) = operation path (host.lower text) rest
  expression nested (some path) _ = filter_error

  -- `_parse_attribute_expression`
  unfoldable pub attribute_expression : Parser → Parser
  attribute_expression nested (word text ∷ rest) = expression nested (parse_attr_path text) rest
  attribute_expression nested _ = filter_error

  abbrev pub opened : Parser → Tokens → Parsed (Node host.Number × Tokens)
  opened nested (lparen ∷ rest) = enclosed nested rparen rest >>= negated
  opened nested _ = filter_error

  abbrev pub plain : Parser → Parser
  plain nested (lparen ∷ rest) = enclosed nested rparen rest
  plain nested ts = attribute_expression nested ts

  -- `_parse_unary`, on whether the word `not` comes next.
  abbrev pub unary_on : Parser → Tokens → Option Tokens → Parsed (Node host.Number × Tokens)
  unary_on nested ts (some rest) = opened nested rest
  unary_on nested ts none = plain nested ts

  unfoldable pub unary : Parser → Parser
  unfolding attribute_expression
  unary nested ts = unary_on nested ts (accept_word "not" ts)

  abbrev pub Combine : Type 0
  Combine = Node host.Number → Node host.Number → Node host.Number

  -- One turn of a `while self._accept_word(...)` loop.
  abbrev pub chain_turn :
      Combine
      → Parser
      → (Node host.Number → Parser)
      → Node host.Number
      → Tokens
      → Option Tokens
      → Parsed (Node host.Number × Tokens)
  chain_turn combine operand continue node ts none = ok (node, ts)
  chain_turn combine operand continue node ts (some rest) =
      operand rest >>= λ (right, after). continue (combine node right) after

  unfoldable pub chain_loop : String → Combine → Parser → ℕ → Node host.Number → Parser
  chain_loop name combine operand zero node ts = out_of_fuel
  chain_loop name combine operand (suc fuel) node ts =
      chain_turn combine operand (chain_loop name combine operand fuel) node ts
        (accept_word name ts)

  unfoldable pub chain : String → Combine → Parser → Parser
  chain name combine operand ts =
      operand ts >>= λ (node, rest). chain_loop name combine operand (suc (length rest)) node rest

  -- `_parse_and`
  unfoldable pub and_level : Parser → Parser
  and_level nested = chain "and" conjunction (unary nested)

  -- `_Parser.parse_filter`, with so many levels left.
  unfoldable pub filter_at : ℕ → Parser
  filter_at zero ts = filter_error
  filter_at (suc levels) ts = chain "or" disjunction (and_level (filter_at levels)) ts

  abbrev pub finished : Node host.Number × Tokens → Parsed (Node host.Number)
  finished (node, []) = ok node
  finished (node, t ∷ rest) = filter_error

  -- `parse_filter`, from its tokens.
  unfoldable pub parse_tokens : Tokens → Parsed (Node host.Number)
  parse_tokens ts = filter_at (suc max_depth) ts >>= finished
