-- ===== src/Scim/Filter/RoundTrip.antt =====
-- The parser of campusid/scim/filters.py reads a printed filter back.
use campus_id.Shared.{
  ℕ, zero, suc, ◌≤◌, ◌<◌, String, ◌≡◌, refl, ◌∙◌, inl, inr, true, false, none, some, [], ◌∷◌, arith,
  Bool-cases,
}
use campus_id.Shared.Texts.{Text, codes, text_eq, text_eq_iff}
use campus_id.Scim.Filter.Syntax.{
  Operator, AttrPath, Literal, string, number, boolean, null, Node, comparison, present, value_path,
  conjunction, disjunction, negation, Token, lparen, rparen, lbracket, rbracket, word, Tokens, ok,
}
use campus_id.Scim.Filter.Literals.{Host, literal_of, some_value}
use campus_id.Scim.Filter.Parser.{
  Parser, Combine, accept_word, expression, attribute_expression, unary, chain_loop, chain,
  and_level, filter_at, max_depth, parse_tokens,
}
use campus_id.Scim.Filter.Printer.{
  print_path, print_operator, print_value, print_before, nesting, IsPath, IsValue, IsPrintable,
}
use campus_id.Scim.Filter.Leaves.{parse_attr_path-print, operator_of-print, unquote-plain}

-- Words in lower case, which `str.lower` leaves alone.
abbrev pub IsLower : Text → Type 0
IsLower [] = Unit
IsLower (c ∷ s) = (97 ≤ c) × (c ≤ 122) × IsLower s

module _ (host : Host) (show : host.Number → Text)
    (lower_lower : (s : Text) → IsLower s → host.lower s ≡ s)
    (number_show : (n : host.Number) → host.number_of (show n) ≡ n) where
  -- What may follow a printed filter: no `and` and no `or`.
  pub record Stops (ts : Tokens) : Type 0 where
    pub no_and : accept_word host "and" ts ≡ none
    pub no_or : accept_word host "or" ts ≡ none

  lower_word : (name : Text) → IsLower name → host.lower name ≡ name
  lower_word name h = lower_lower name h

  -- A group in parentheses is an operand.
  unary-group :
      (nested : Parser host) (node : Node host.Number) (ts rest : Tokens)
      → nested ts ≡ ok (node, rparen ∷ rest)
      → unary host nested (lparen ∷ ts) ≡ ok (node, rest)
  unfolding unary accept_word
  unary-group nested node ts rest e = rw e refl

  chain-one :
      (name : String) (combine : Combine host) (operand : Parser host) (node : Node host.Number)
      (ts rest : Tokens)
      → operand ts ≡ ok (node, rest)
      → accept_word host name rest ≡ none
      → chain host name combine operand ts ≡ ok (node, rest)
  unfolding chain chain_loop
  chain-one name combine operand node ts rest e stop = rw e (rw stop refl)

  chain-two :
      (name : String) (combine : Combine host) (operand : Parser host)
      (left right : Node host.Number) (ts more rest : Tokens) (t : Token)
      → operand ts ≡ ok (left, t ∷ more)
      → accept_word host name (t ∷ more) ≡ some more
      → operand more ≡ ok (right, rest)
      → accept_word host name rest ≡ none
      → chain host name combine operand ts ≡ ok (combine left right, rest)
  unfolding chain chain_loop
  chain-two name combine operand left right ts more rest t e again f stop =
      rw e (rw again (rw f (rw stop refl)))

  -- An operand with nothing after it is a filter.
  filter_at-unary :
      (levels : ℕ) (node : Node host.Number) (ts rest : Tokens)
      → unary host (filter_at host levels) ts ≡ ok (node, rest)
      → Stops rest
      → filter_at host (suc levels) ts ≡ ok (node, rest)
  unfolding filter_at and_level
  filter_at-unary levels node ts rest e stops =
      let operand = unary host (filter_at host levels) in
      chain-one "or" disjunction (chain host "and" conjunction operand) node ts rest
        (chain-one "and" conjunction operand node ts rest e stops.no_and) stops.no_or

  and_follows : (ts : Tokens) → accept_word host "and" (word (codes "and") ∷ ts) ≡ some ts
  unfolding accept_word
  and_follows ts = rw (lower_word (codes "and") (omega arith)) refl

  or_follows : (ts : Tokens) → accept_word host "or" (word (codes "or") ∷ ts) ≡ some ts
  unfolding accept_word
  or_follows ts = rw (lower_word (codes "or") (omega arith)) refl

  or_is_no_and : (ts : Tokens) → accept_word host "and" (word (codes "or") ∷ ts) ≡ none
  unfolding accept_word
  or_is_no_and ts = rw (lower_word (codes "or") (omega arith)) refl

  rparen-Stops : (ts : Tokens) → Stops (rparen ∷ ts)
  unfolding accept_word
  rparen-Stops ts = record { no_and = refl; no_or = refl }

  pub rbracket-Stops : (ts : Tokens) → Stops (rbracket ∷ ts)
  unfolding accept_word
  rbracket-Stops ts = record { no_and = refl; no_or = refl }

  no_not :
      (path : AttrPath) (ts : Tokens)
      → IsPath host.lower path
      → accept_word host "not" (word (print_path path) ∷ ts) ≡ none
  unfolding accept_word
  no_not path ts h = elim (Bool-cases (text_eq (host.lower (print_path path)) (codes "not"))) [
    | inl e ↦ absurd (h.keyword ((text_eq_iff (host.lower (print_path path)) (codes "not")).0 e))
    | inr e ↦ rw e refl
  ]

  -- An operand that begins with a path is an attribute expression on that path.
  unary-path :
      (nested : Parser host) (path : AttrPath) (ts : Tokens)
      → IsPath host.lower path
      → unary host nested (word (print_path path) ∷ ts) ≡ expression host nested (some path) ts
  unfolding unary attribute_expression
  unary-path nested path ts h =
      rw (no_not path ts h) (rw (parse_attr_path-print path h.names h.sub_names h.filled_urn) refl)

  operator_lower :
      (operator : Operator) → host.lower (print_operator operator) ≡ print_operator operator
  operator_lower Operator.eq = lower_word (codes "eq") (omega arith)
  operator_lower Operator.ne = lower_word (codes "ne") (omega arith)
  operator_lower Operator.co = lower_word (codes "co") (omega arith)
  operator_lower Operator.sw = lower_word (codes "sw") (omega arith)
  operator_lower Operator.ew = lower_word (codes "ew") (omega arith)
  operator_lower Operator.gt = lower_word (codes "gt") (omega arith)
  operator_lower Operator.ge = lower_word (codes "ge") (omega arith)
  operator_lower Operator.lt = lower_word (codes "lt") (omega arith)
  operator_lower Operator.le = lower_word (codes "le") (omega arith)

  operator_no_pr : (operator : Operator) → text_eq (print_operator operator) (codes "pr") ≡ false
  operator_no_pr Operator.eq = refl
  operator_no_pr Operator.ne = refl
  operator_no_pr Operator.co = refl
  operator_no_pr Operator.sw = refl
  operator_no_pr Operator.ew = refl
  operator_no_pr Operator.gt = refl
  operator_no_pr Operator.ge = refl
  operator_no_pr Operator.lt = refl
  operator_no_pr Operator.le = refl

  some_value-print :
      (value : Literal host.Number)
      → IsValue value
      → some_value host (print_value show value) ≡ some value
  unfolding literal_of
  some_value-print (string text) h = rw (unquote-plain text h) refl
  some_value-print (number n) h = rw (number_show n) refl
  some_value-print (boolean true) h = rw (lower_word (codes "true") (omega arith)) refl
  some_value-print (boolean false) h = rw (lower_word (codes "false") (omega arith)) refl
  some_value-print null h = rw (lower_word (codes "null") (omega arith)) refl

  unary-comparison :
      (nested : Parser host) (path : AttrPath) (operator : Operator) (value : Literal host.Number)
      (rest : Tokens)
      → IsPath host.lower path
      → IsValue value
      → unary host nested
          (word (print_path path) ∷ word (print_operator operator) ∷ print_value show value ∷ rest)
        ≡ ok (comparison path operator value, rest)
  unary-comparison nested path operator value rest h v =
      unary-path nested path (word (print_operator operator) ∷ print_value show value ∷ rest) h
      ∙ rw (operator_lower operator) (
          rw (operator_no_pr operator)
            (rw (operator_of-print operator) (rw (some_value-print value v) refl)))

  unary-present :
      (nested : Parser host) (path : AttrPath) (rest : Tokens)
      → IsPath host.lower path
      → unary host nested (word (print_path path) ∷ word (codes "pr") ∷ rest)
        ≡ ok (present path, rest)
  unary-present nested path rest h =
      unary-path nested path (word (codes "pr") ∷ rest) h
      ∙ rw (lower_word (codes "pr") (omega arith)) refl

  unary-value_path :
      (nested : Parser host) (path : AttrPath) (node : Node host.Number) (ts rest : Tokens)
      → IsPath host.lower path
      → nested ts ≡ ok (node, rbracket ∷ rest)
      → unary host nested (word (print_path path) ∷ lbracket ∷ ts) ≡ ok (value_path path node, rest)
  unary-value_path nested path node ts rest h e =
      unary-path nested path (lbracket ∷ ts) h ∙ rw e refl

  unary-negation :
      (nested : Parser host) (node : Node host.Number) (ts rest : Tokens)
      → nested ts ≡ ok (node, rparen ∷ rest)
      → unary host nested (word (codes "not") ∷ lparen ∷ ts) ≡ ok (negation node, rest)
  unfolding unary accept_word
  unary-negation nested node ts rest e = rw (lower_word (codes "not") (omega arith)) (rw e refl)

  filter_at-chain :
      (levels : ℕ) (ts : Tokens)
      → filter_at host (suc levels) ts
        ≡ chain host "or" disjunction
            (chain host "and" conjunction (unary host (filter_at host levels)))
            ts
  unfolding filter_at and_level
  filter_at-chain levels ts = refl

  pub filter_at-print :
      (levels : ℕ) (node : Node host.Number) (rest : Tokens)
      → nesting node < levels
      → IsPrintable host.lower node
      → Stops rest
      → filter_at host levels (print_before show node rest) ≡ ok (node, rest)
  unfolding print_before
  filter_at-print zero node rest l g stops = absurd (omega (arith, l))
  filter_at-print (suc levels) (comparison path operator value) rest l g stops =
      filter_at-unary levels (comparison path operator value) _ rest
        (unary-comparison (filter_at host levels) path operator value rest g.0 g.1) stops
  filter_at-print (suc levels) (present path) rest l g stops =
      filter_at-unary levels (present path) _ rest
        (unary-present (filter_at host levels) path rest g) stops
  filter_at-print (suc levels) (value_path path node) rest l g stops =
      filter_at-unary levels (value_path path node) _ rest
        (unary-value_path (filter_at host levels) path node _ rest g.0 (
          filter_at-print levels node (rbracket ∷ rest) (omega (arith, l)) g.1
            (rbracket-Stops rest)))
        stops
  filter_at-print (suc levels) (negation node) rest l g stops =
      filter_at-unary levels (negation node) _ rest
        (unary-negation (filter_at host levels) node _ rest
          (filter_at-print levels node (rparen ∷ rest) (omega (arith, l)) g (rparen-Stops rest)))
        stops
  filter_at-print (suc levels) (conjunction left right) rest l g stops =
      let nested = filter_at host levels in
      let second = lparen ∷ print_before show right (rparen ∷ rest) in
      let tail = word (codes "and") ∷ second in
      filter_at-chain levels _
      ∙ chain-one "or" disjunction (chain host "and" conjunction (unary host nested))
          (conjunction left right) _ rest
          (chain-two "and" conjunction (unary host nested) left right _ second rest
            (word (codes "and"))
            (unary-group nested left _ tail (
              filter_at-print levels left (rparen ∷ tail) (omega (arith, l)) g.0
                (rparen-Stops tail)))
            (and_follows second)
            (unary-group nested right _ rest (
              filter_at-print levels right (rparen ∷ rest) (omega (arith, l)) g.1
                (rparen-Stops rest)))
            stops.no_and)
          stops.no_or
  filter_at-print (suc levels) (disjunction left right) rest l g stops =
      let nested = filter_at host levels in
      let operand = unary host nested in
      let second = lparen ∷ print_before show right (rparen ∷ rest) in
      let tail = word (codes "or") ∷ second in
      filter_at-chain levels _
      ∙ chain-two "or" disjunction (chain host "and" conjunction operand) left right _ second rest
          (word (codes "or"))
          (chain-one "and" conjunction operand left _ tail
            (unary-group nested left _ tail (
              filter_at-print levels left (rparen ∷ tail) (omega (arith, l)) g.0
                (rparen-Stops tail)))
            (or_is_no_and second))
          (or_follows second)
          (chain-one "and" conjunction operand right _ rest
            (unary-group nested right _ rest (
              filter_at-print levels right (rparen ∷ rest) (omega (arith, l)) g.1
                (rparen-Stops rest)))
            stops.no_and)
          stops.no_or

  nil-Stops : Stops []
  unfolding accept_word
  nil-Stops = record { no_and = refl; no_or = refl }

  -- A filter is parsed from its printed tokens as itself, on these conditions: it nests at most twenty
  -- levels of brackets; in each of its paths the attribute and the sub-attribute, if there is one, are
  -- names, not empty and without `.` and `:`, the URN, if there is one, is not empty, and the printed
  -- path is not the word `not` in any case; its strings have no backslash; `str.lower` leaves a word
  -- that is in lower case as it is; and a number that is shown is read as that number.
  pub parse_tokens-print :
      (node : Node host.Number)
      → nesting node ≤ max_depth
      → IsPrintable host.lower node
      → parse_tokens host (print_before show node []) ≡ ok node
  unfolding parse_tokens
  parse_tokens-print node l g =
      rw (filter_at-print (suc max_depth) node [] (omega (arith, l)) g nil-Stops) refl
