-- ===== src/Scim/Filter/Tokenizer.antt =====
-- The tokenizer of campusid/scim/filters.py: the alternatives of `_TOKEN` in their order, each with the
-- text that it takes and the text after it.
use campus_id.Shared.{
  ℕ, zero, suc, Bool, ◌&&◌, ◌||◌, Option, none, some, [], ◌∷◌, ◌++◌, leb, ltb, eqb, length,
  if◌then◌else◌,
}
use campus_id.Shared.Texts.{Text}
use campus_id.Scim.Filter.Syntax.{
  Token, lparen, rparen, lbracket, rbracket, dot, quoted, digits, word, Tokens, Parsed, ok,
  filter_error, out_of_fuel, ◌>>=◌,
}
use campus_id.Scim.Filter.Literals.{Host}

abbrev pub max_filter_length : ℕ
max_filter_length = 4096

-- The longest run of characters of a class.
abbrev pub span : (ℕ → Bool) → Text → Text × Text
span p [] = ([], [])
span p (c ∷ rest) = let tail = span p rest in if p c then (c ∷ tail.0, tail.1) else ([], c ∷ rest)

abbrev pub taking : Text → Option (Text × Text) → Option (Text × Text)
taking s none = none
taking s (some (t, rest)) = some (s ++ t, rest)

-- A string after its opening quote: `(?:[^"\\]|\\.)*"`.
abbrev pub string_rest : Text → Option (Text × Text)
string_rest [] = none
string_rest (c ∷ []) = if eqb c b'"' then some (b'"' ∷ [], []) else none
string_rest (c ∷ (d ∷ rest)) =
    let closed : Option (Text × Text) = some (b'"' ∷ [], d ∷ rest) in
    let escaped = taking (c ∷ d ∷ []) (string_rest rest) in
    let further = taking (c ∷ []) (string_rest (d ∷ rest)) in
    if eqb c b'"'
    then closed
    else if eqb c b'\\'
    then (if eqb d b'\n' then none else escaped)
    else further

-- `\d+`, where there is a digit.
abbrev pub some_run : Text × Text → Option (Text × Text)
some_run ([], rest) = none
some_run (c ∷ run, rest) = some (c ∷ run, rest)

-- An optional group: what it takes, or nothing.
abbrev pub optional : Text → Option (Text × Text) → Text × Text
optional text none = ([], text)
optional text (some taken) = taken

abbrev pub is_letter : ℕ → Bool
is_letter c = (leb 65 c && leb c 90) || (leb 97 c && leb c 122)

abbrev pub is_word_char : ℕ → Bool
is_word_char c =
    is_letter c
    || ((leb 48 c && leb c 57)
        || (eqb c b'_' || (eqb c b':' || (eqb c b'.' || (eqb c b'$' || eqb c b'-')))))

module _ (host : Host) where
  abbrev pub digit_run : Text → Option (Text × Text)
  digit_run text = some_run (span host.is_digit text)

  -- `(?:\.\d+)?`
  abbrev pub fraction : Text → Text × Text
  fraction [] = ([], [])
  fraction (c ∷ rest) =
      optional (c ∷ rest) (if eqb c b'.' then taking (c ∷ []) (digit_run rest) else none)

  abbrev pub signed_run : Text → Option (Text × Text)
  signed_run [] = none
  signed_run (c ∷ rest) =
      if eqb c b'-' || eqb c b'+' then taking (c ∷ []) (digit_run rest) else digit_run (c ∷ rest)

  -- `(?:[eE][-+]?\d+)?`
  abbrev pub exponent : Text → Text × Text
  exponent [] = ([], [])
  exponent (c ∷ rest) =
      optional (c ∷ rest)
        (if eqb c b'e' || eqb c b'E' then taking (c ∷ []) (signed_run rest) else none)

  abbrev pub with_exponent : Text → Text × Text → Text × Text
  with_exponent taken (more, rest) = (taken ++ more, rest)

  abbrev pub with_fraction : Text → Text × Text → Text × Text
  with_fraction taken (more, rest) = with_exponent (taken ++ more) (exponent rest)

  abbrev pub number_tail : Option (Text × Text) → Option (Text × Text)
  number_tail none = none
  number_tail (some (taken, rest)) = some (with_fraction taken (fraction rest))

  -- The number at the start of a text.
  unfoldable pub number_at : ℕ → Text → Option (Text × Text)
  number_at c rest =
      number_tail (if eqb c b'-' then taking (c ∷ []) (digit_run rest) else digit_run (c ∷ rest))

  -- What the text begins with: nothing for spaces, or a token; and what is left.
  abbrev pub as_token : (Text → Token) → Option (Text × Text) → Option (Option Token × Text)
  as_token kind none = none
  as_token kind (some (taken, rest)) = some (some (kind taken), rest)

  abbrev pub word_or_dot : ℕ → Text → Option (Option Token × Text)
  word_or_dot c rest =
      if is_letter c
      then some (some (word (c ∷ (span is_word_char rest).0)), (span is_word_char rest).1)
      else if eqb c b'.'
      then some (some dot, rest)
      else none

  abbrev pub number_or : ℕ → Text → Option (Text × Text) → Option (Option Token × Text)
  number_or c rest none = word_or_dot c rest
  number_or c rest (some (taken, after)) = some (some (digits taken), after)

  -- `_TOKEN.match` at a character.
  unfoldable pub token_at : ℕ → Text → Option (Option Token × Text)
  unfolding number_at
  token_at c rest =
      if host.is_space c
      then some (none, (span host.is_space rest).1)
      else if eqb c b'('
      then some (some lparen, rest)
      else if eqb c b')'
      then some (some rparen, rest)
      else if eqb c b'['
      then some (some lbracket, rest)
      else if eqb c b']'
      then some (some rbracket, rest)
      else if eqb c b'"'
      then as_token quoted (taking (c ∷ []) (string_rest rest))
      else number_or c rest (number_at c rest)

  abbrev pub token_then : Option Token → Parsed Tokens → Parsed Tokens
  token_then none later = later
  token_then (some t) later = later >>= λ ts. ok (t ∷ ts)

  abbrev pub scan_from : (Text → Parsed Tokens) → Option (Option Token × Text) → Parsed Tokens
  scan_from continue none = filter_error
  scan_from continue (some (t, rest)) = token_then t (continue rest)

  -- The loop of `_tokenize`, on fuel.
  unfoldable pub scan : ℕ → Text → Parsed Tokens
  scan fuel [] = ok []
  scan zero (c ∷ rest) = out_of_fuel
  scan (suc fuel) (c ∷ rest) = scan_from (scan fuel) (token_at c rest)

  unfoldable pub tokenize : Text → Parsed Tokens
  tokenize source =
      if ltb max_filter_length (length source) then filter_error else scan (length source) source
