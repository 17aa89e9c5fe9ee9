-- ===== src/Scim/Filter/Termination.antt =====
-- The parser of campusid/scim/filters.py ends: its fuel is enough, and what it reads it consumes.
use campus_id.Shared.{
  ℕ, zero, suc, ◌≤◌, ◌<◌, String, ◌≡◌, ◌≢◌, inl, inr, Option, none, some, [], ◌∷◌, length, arith,
  Bool-cases, Option-cases, ap,
}
use campus_id.Shared.Texts.{Text, codes, text_eq}
use campus_id.Scim.Filter.Syntax.{
  Operator, AttrPath, Literal, Node, conjunction, disjunction, Token, lparen, rparen, lbracket,
  rbracket, dot, quoted, digits, word, Tokens, Parsed, ok, filter_error, out_of_fuel, ◌>>=◌,
}
use campus_id.Scim.Filter.Literals.{Host, parse_attr_path, operator_of, some_value}
use campus_id.Scim.Filter.Parser.{
  same_kind, expect, Parser, Combine, accept_word, enclosed, negated, filtered, compared, comparing,
  operation, expression, attribute_expression, opened, plain, unary, chain_loop, chain, and_level,
  filter_at, finished, max_depth, parse_tokens,
}

-- The result, if there is one, leaves fewer tokens than `n`; and there is no lack of fuel.
abbrev pub Shorter {ℓ} : {A : Type ℓ} → ℕ → Parsed (A × Tokens) → Type 0
Shorter n (ok (a, rest)) = length rest < n
Shorter n filter_error = Unit
Shorter n out_of_fuel = ⊥

abbrev Left : ℕ → Parsed Tokens → Type 0
Left n (ok rest) = length rest < n
Left n filter_error = Unit
Left n out_of_fuel = ⊥

expect-Left : (kind : Token) (ts : Tokens) → Left (length ts) (expect kind ts)
expect-Left kind [] = tt
expect-Left kind (t ∷ rest) = elim (Bool-cases (same_kind kind t)) [
  | inl e ↦ rw e (omega arith)
  | inr e ↦ rw e tt
]

module _ (host : Host) where
  abbrev pub Reads : Parser host → Type 0
  Reads p = (ts : Tokens) → Shorter (length ts) (p ts)

  Shorter-bind :
      {A B : Type 0} (n k : ℕ) (m : Parsed (A × Tokens)) (f : A × Tokens → Parsed (B × Tokens))
      → Shorter n m
      → ((a : A) (rest : Tokens) → length rest < n → Shorter k (f (a, rest)))
      → Shorter k (m >>= f)
  Shorter-bind n k (ok (a, rest)) f h g = g a rest h
  Shorter-bind n k filter_error f h g = tt
  Shorter-bind n k out_of_fuel f h g = h

  Shorter-close :
      (n : ℕ) (node : Node host.Number) (m : Parsed Tokens) (k : ℕ)
      → Left k m
      → k ≤ n
      → Shorter n (m >>= λ after. ok (node, after))
  Shorter-close n node (ok rest) k h le = omega (arith, h, le)
  Shorter-close n node filter_error k h le = tt
  Shorter-close n node out_of_fuel k h le = h

  pub enclosed-Reads :
      (nested : Parser host) (closing : Token) → Reads nested → Reads (enclosed host nested closing)
  enclosed-Reads nested closing h ts =
      Shorter-bind (length ts) (length ts) (nested ts) _ (h ts) (λ node rest less.
        Shorter-close (length ts) node (expect closing rest) (length rest)
          (expect-Left closing rest) (omega (arith, less)))

  accept_word-shorter :
      (name : String) (ts rest : Tokens)
      → accept_word host name ts ≡ some rest
      → length rest < length ts
  unfolding accept_word
  accept_word-shorter name (word text ∷ ts) rest e =
      elim (Bool-cases (text_eq (host.lower text) (codes name))) [
        | inl b ↦ let h = rw b at e in let f : ts ≡ rest = cc in omega (arith, ap length f)
        | inr b ↦ let h = rw b at e in cc
      ]
  accept_word-shorter name [] rest e = cc
  accept_word-shorter name (lparen ∷ ts) rest e = cc
  accept_word-shorter name (rparen ∷ ts) rest e = cc
  accept_word-shorter name (lbracket ∷ ts) rest e = cc
  accept_word-shorter name (rbracket ∷ ts) rest e = cc
  accept_word-shorter name (dot ∷ ts) rest e = cc
  accept_word-shorter name (quoted t ∷ ts) rest e = cc
  accept_word-shorter name (digits t ∷ ts) rest e = cc

  -- A bound that is loosened.
  Shorter-le : {A : Type 0} (n k : ℕ) (m : Parsed (A × Tokens)) → Shorter n m → n ≤ k → Shorter k m
  Shorter-le n k (ok (a, rest)) h le = omega (arith, h, le)
  Shorter-le n k filter_error h le = tt
  Shorter-le n k out_of_fuel h le = h

  compared-Shorter :
      (path : AttrPath) (operator : Operator) (value : Option (Literal host.Number)) (n : ℕ)
      (rest : Tokens)
      → length rest < n
      → Shorter n (compared host path operator value rest)
  compared-Shorter path operator none n rest h = tt
  compared-Shorter path operator (some value) n rest h = h

  comparing-Shorter :
      (path : AttrPath) (operator : Option Operator) (ts : Tokens) (n : ℕ)
      → length ts < n
      → Shorter n (comparing host path operator ts)
  comparing-Shorter path none ts n h = tt
  comparing-Shorter path (some operator) [] n h = tt
  comparing-Shorter path (some operator) (t ∷ rest) n h =
      compared-Shorter path operator (some_value host t) n rest (omega (arith, h))

  operation-Shorter :
      (path : AttrPath) (name : Text) (ts : Tokens) (n : ℕ)
      → length ts < n
      → Shorter n (operation host path name ts)
  operation-Shorter path name ts n h = elim (Bool-cases (text_eq name (codes "pr"))) [
    | inl e ↦ rw e h
    | inr e ↦ rw e (comparing-Shorter path (operator_of name) ts n h)
  ]

  expression-Shorter :
      (nested : Parser host) (path : Option AttrPath) (ts : Tokens) (n : ℕ)
      → Reads nested
      → length ts < n
      → Shorter n (expression host nested path ts)
  expression-Shorter nested none ts n h l = tt
  expression-Shorter nested (some path) (lbracket ∷ rest) n h l =
      Shorter-bind (length rest) n (enclosed host nested rbracket rest) (filtered host path)
        (enclosed-Reads nested rbracket h rest) (λ node after less. omega (arith, less, l))
  expression-Shorter nested (some path) (word text ∷ rest) n h l =
      operation-Shorter path (host.lower text) rest n (omega (arith, l))
  expression-Shorter nested (some path) [] n h l = tt
  expression-Shorter nested (some path) (lparen ∷ rest) n h l = tt
  expression-Shorter nested (some path) (rparen ∷ rest) n h l = tt
  expression-Shorter nested (some path) (rbracket ∷ rest) n h l = tt
  expression-Shorter nested (some path) (dot ∷ rest) n h l = tt
  expression-Shorter nested (some path) (quoted t ∷ rest) n h l = tt
  expression-Shorter nested (some path) (digits t ∷ rest) n h l = tt

  attribute_expression-Reads :
      (nested : Parser host) → Reads nested → Reads (attribute_expression host nested)
  unfolding attribute_expression
  attribute_expression-Reads nested h (word text ∷ rest) =
      expression-Shorter nested (parse_attr_path text) rest (suc (length rest)) h (omega arith)
  attribute_expression-Reads nested h [] = tt
  attribute_expression-Reads nested h (lparen ∷ rest) = tt
  attribute_expression-Reads nested h (rparen ∷ rest) = tt
  attribute_expression-Reads nested h (lbracket ∷ rest) = tt
  attribute_expression-Reads nested h (rbracket ∷ rest) = tt
  attribute_expression-Reads nested h (dot ∷ rest) = tt
  attribute_expression-Reads nested h (quoted t ∷ rest) = tt
  attribute_expression-Reads nested h (digits t ∷ rest) = tt

  opened-Reads : (nested : Parser host) → Reads nested → Reads (opened host nested)
  opened-Reads nested h (lparen ∷ rest) =
      Shorter-bind (length rest) (suc (length rest)) (enclosed host nested rparen rest)
        (negated host) (enclosed-Reads nested rparen h rest)
        (λ node after less. omega (arith, less))
  opened-Reads nested h [] = tt
  opened-Reads nested h (word t ∷ rest) = tt
  opened-Reads nested h (rparen ∷ rest) = tt
  opened-Reads nested h (lbracket ∷ rest) = tt
  opened-Reads nested h (rbracket ∷ rest) = tt
  opened-Reads nested h (dot ∷ rest) = tt
  opened-Reads nested h (quoted t ∷ rest) = tt
  opened-Reads nested h (digits t ∷ rest) = tt

  plain-Reads : (nested : Parser host) → Reads nested → Reads (plain host nested)
  plain-Reads nested h (lparen ∷ rest) =
      Shorter-le (length rest) (suc (length rest)) (enclosed host nested rparen rest)
        (enclosed-Reads nested rparen h rest) (omega arith)
  plain-Reads nested h [] = attribute_expression-Reads nested h []
  plain-Reads nested h (word t ∷ rest) = attribute_expression-Reads nested h (word t ∷ rest)
  plain-Reads nested h (rparen ∷ rest) = attribute_expression-Reads nested h (rparen ∷ rest)
  plain-Reads nested h (lbracket ∷ rest) = attribute_expression-Reads nested h (lbracket ∷ rest)
  plain-Reads nested h (rbracket ∷ rest) = attribute_expression-Reads nested h (rbracket ∷ rest)
  plain-Reads nested h (dot ∷ rest) = attribute_expression-Reads nested h (dot ∷ rest)
  plain-Reads nested h (quoted t ∷ rest) = attribute_expression-Reads nested h (quoted t ∷ rest)
  plain-Reads nested h (digits t ∷ rest) = attribute_expression-Reads nested h (digits t ∷ rest)

  unary-Reads : (nested : Parser host) → Reads nested → Reads (unary host nested)
  unfolding unary
  unary-Reads nested h ts = elim (Option-cases (accept_word host "not" ts)) [
    | inl e ↦ rw e (plain-Reads nested h ts)
    | inr (rest, e) ↦ rw e (
        Shorter-le (length rest) (length ts) (opened host nested rest) (opened-Reads nested h rest)
          (omega (arith, accept_word-shorter "not" ts rest e)))
  ]

  chain_loop-Shorter :
      (name : String) (combine : Combine host) (operand : Parser host) (fuel : ℕ)
      (node : Node host.Number) (ts : Tokens)
      → Reads operand
      → length ts < fuel
      → Shorter (suc (length ts)) (chain_loop host name combine operand fuel node ts)
  unfolding chain_loop
  chain_loop-Shorter name combine operand zero node ts h l = absurd (omega (arith, l))
  chain_loop-Shorter name combine operand (suc fuel) node ts h l =
      elim (Option-cases (accept_word host name ts)) [
        | inl e ↦ rw e (omega arith)
        | inr (rest, e) ↦
            let less = accept_word-shorter name ts rest e in
            rw e (
              Shorter-bind (length rest) (suc (length ts)) (operand rest) _ (h rest)
                (λ right after fewer.
                  Shorter-le (suc (length after)) (suc (length ts))
                    (chain_loop host name combine operand fuel (combine node right) after)
                    (chain_loop-Shorter name combine operand fuel (combine node right) after h
                      (omega (arith, less, fewer, l)))
                    (omega (arith, less, fewer))))
      ]

  chain-Reads :
      (name : String) (combine : Combine host) (operand : Parser host)
      → Reads operand
      → Reads (chain host name combine operand)
  unfolding chain
  chain-Reads name combine operand h ts =
      Shorter-bind (length ts) (length ts) (operand ts) _ (h ts) (λ node rest less.
        Shorter-le (suc (length rest)) (length ts)
          (chain_loop host name combine operand (suc (length rest)) node rest)
          (chain_loop-Shorter name combine operand (suc (length rest)) node rest h (omega arith))
          (omega (arith, less)))

  pub filter_at-Reads : (levels : ℕ) → Reads (filter_at host levels)
  unfolding filter_at and_level
  filter_at-Reads zero ts = tt
  filter_at-Reads (suc levels) ts =
      chain-Reads "or" disjunction (and_level host (filter_at host levels))
        (chain-Reads "and" conjunction (unary host (filter_at host levels))
          (unary-Reads (filter_at host levels) (filter_at-Reads levels)))
        ts

  finished-fuel :
      (m : Parsed (Node host.Number × Tokens)) (n : ℕ)
      → Shorter n m
      → (m >>= finished host) ≢ out_of_fuel
  finished-fuel (ok (node, [])) n h e = cc
  finished-fuel (ok (node, t ∷ rest)) n h e = cc
  finished-fuel filter_error n h e = cc
  finished-fuel out_of_fuel n h e = h

  -- The parser answers for every list of tokens: the fuel of its loops never runs out.
  pub parse_tokens-answers : (ts : Tokens) → parse_tokens host ts ≢ out_of_fuel
  unfolding parse_tokens
  parse_tokens-answers ts =
      finished-fuel (filter_at host (suc max_depth) ts) (length ts)
        (filter_at-Reads (suc max_depth) ts)
