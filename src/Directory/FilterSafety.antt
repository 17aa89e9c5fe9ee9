-- ===== src/Directory/FilterSafety.antt =====
-- What `escape_filter` and `equality` of campusid/directory/escaping.py promise, against a reader
-- of assertion values by the grammar of RFC 4515 section 3.
use mathlib.Core.List.{append_assoc}
use campus_id.Shared.{
  ℕ, ◌+◌, ◌-◌, ◌*◌, ◌≡◌, refl, sym, ◌∙◌, inl, inr, ◌&&◌, ◌||◌, Option, none, some, List, [], ◌∷◌,
  ◌++◌, arith, eqb, leb, if◌then◌else◌, Bool-cases,
}
use campus_id.Directory.Escaping.{
  Text, replace, substitute, filter_escapes, escape_filter, equality,
}

-- The escape of one character, which the successive replacements add up to.
abbrev pub escape_char : ℕ → Text
escape_char c =
    if eqb c b'\\'
    then b'\\' ∷ b'5' ∷ b'c' ∷ []
    else if eqb c b'*'
    then b'\\' ∷ b'2' ∷ b'a' ∷ []
    else if eqb c b'('
    then b'\\' ∷ b'2' ∷ b'8' ∷ []
    else if eqb c b')'
    then b'\\' ∷ b'2' ∷ b'9' ∷ []
    else if eqb c 0
    then b'\\' ∷ b'0' ∷ b'0' ∷ []
    else c ∷ []

pub each : (ℕ → Text) → Text → Text
each f [] = []
each f (x ∷ xs) = f x ++ each f xs

pub replace-append :
    (c : ℕ) (r xs ys : Text) → replace c r (xs ++ ys) ≡ replace c r xs ++ replace c r ys
unfolding replace
replace-append c r [] ys = refl
replace-append c r (x ∷ xs) ys = elim (Bool-cases (eqb x c)) [
  | inl hit ↦ rw (hit, replace-append c r xs ys) (sym (append_assoc r _ _))
  | inr miss ↦ rw (miss, replace-append c r xs ys)
]

pub substitute-append :
    (table : List (ℕ × Text)) (xs ys : Text)
    → substitute table (xs ++ ys) ≡ substitute table xs ++ substitute table ys
unfolding substitute
substitute-append [] xs ys = refl
substitute-append ((c, r) ∷ table) xs ys = elim (Bool-cases (eqb c b'\\')) [
  | inl skip ↦ rw skip (substitute-append table xs ys)
  | inr other ↦
      rw (other, replace-append c r xs ys)
        (substitute-append table (replace c r xs) (replace c r ys))
]

escape_one : (c : ℕ) → escape_filter (c ∷ []) ≡ escape_char c
unfolding escape_filter
escape_one c = ground arith

escape_filter-append :
    (xs ys : Text) → escape_filter (xs ++ ys) ≡ escape_filter xs ++ escape_filter ys
unfolding escape_filter
escape_filter-append xs ys = rw (replace-append b'\\' (b'\\' ∷ b'5' ∷ b'c' ∷ []) xs ys) (
    substitute-append filter_escapes (replace b'\\' (b'\\' ∷ b'5' ∷ b'c' ∷ []) xs)
      (replace b'\\' (b'\\' ∷ b'5' ∷ b'c' ∷ []) ys))

-- The five passes over the text, the backslash first, do what one pass does that escapes each
-- character by itself.
pub escape_filter-each : (value : Text) → escape_filter value ≡ each escape_char value
unfolding each
escape_filter-each [] = unfold escape_filter in refl
escape_filter-each (c ∷ cs) =
    escape_filter-append (c ∷ []) cs ∙ rw (escape_one c, escape_filter-each cs)

hex : ℕ → Option ℕ
hex d =
    if leb b'0' d && leb d b'9'
    then some (d - 48)
    else if leb b'a' d && leb d b'f'
    then some (d - 87)
    else if leb b'A' d && leb d b'F'
    then some (d - 55)
    else none

pub data Reading : Type 0 where
  plain : Reading
  escaped : Reading
  half : ℕ → Reading

abbrev keep : ℕ → Option (Text × Text) → Option (Text × Text)
keep c none = none
keep c (some (value, rest)) = some (c ∷ value, rest)

abbrev step_hex : Option ℕ → (ℕ → Option (Text × Text)) → Option (Text × Text)
step_hex none k = none
step_hex (some d) k = k d

-- A reader of an assertion value: up to the first closing parenthesis that is not escaped, it
-- decodes `\XX`, and refuses a bare `*`, `(` or NUL. It returns the value and what follows.
pub read_value : Reading → Text → Option (Text × Text)
unfolding hex
read_value mode [] = none
read_value plain (c ∷ rest) =
    let next = read_value plain rest in
    let code = read_value escaped rest in
    if eqb c b')'
    then some ([], rest)
    else if eqb c b'\\'
    then code
    else if eqb c b'*' || eqb c b'(' || eqb c 0
    then none
    else keep c next
read_value escaped (c ∷ rest) = step_hex (hex c) (λ d. read_value (half d) rest)
read_value (half h) (c ∷ rest) =
    let next = read_value plain rest in step_hex (hex c) (λ d. keep (h * 16 + d) next)

read_escape_char :
    (c : ℕ) (rest : Text)
    → read_value plain (escape_char c ++ rest) ≡ keep c (read_value plain rest)
unfolding read_value
read_escape_char c rest = ground arith

read_each :
    (value rest : Text)
    → read_value plain (each escape_char value ++ b')' ∷ rest) ≡ some (value, rest)
unfolding each
read_each [] rest = unfold read_value in refl
read_each (c ∷ cs) rest =
    rw (append_assoc (escape_char c) (each escape_char cs) (b')' ∷ rest))
      (read_escape_char c _ ∙ rw (read_each cs rest))

equality-shape :
    (attribute value rest : Text)
    → equality attribute value ++ rest
      ≡ ((b'(' ∷ attribute) ++ b'=' ∷ []) ++ escape_filter value ++ b')' ∷ rest
equality-shape attribute value rest = unfold equality in simp append_assoc

-- Whatever the value holds, a reader of the grammar that stands at the value of an equality filter
-- reads exactly that value, and stops at the closing parenthesis that `equality` wrote: no value
-- opens, closes or widens a clause.
pub equality-read :
    (attribute value rest : Text)
    → (before : Text) × (equality attribute value ++ rest
        ≡ before ++ escape_filter value ++ b')' ∷ rest)
      × (read_value plain (escape_filter value ++ b')' ∷ rest) ≡ some (value, rest))
equality-read attribute value rest = (
  (b'(' ∷ attribute) ++ b'=' ∷ [],
  equality-shape attribute value rest,
  rw (escape_filter-each value) (read_each value rest),
)
