-- ===== src/Directory/Escaping.antt =====
-- campusid/directory/escaping.py. A Python `str` is the list of its code points.
use campus_id.Shared.{
  ℕ, Bool, false, not, ◌&&◌, Option, none, some, List, [], ◌∷◌, ◌++◌, eqb, if◌then◌else◌, filter,
  is_empty,
}

abbrev pub Text : Type 0
Text = List ℕ

abbrev pub backslash : ℕ
backslash = 92

abbrev pub space : ℕ
space = 32

-- `text.replace(c, replacement)` for a text `c` of one character.
unfoldable pub replace : ℕ → Text → Text → Text
replace c replacement [] = []
replace c replacement (x ∷ xs) =
    let rest = replace c replacement xs in if eqb x c then replacement ++ rest else x ∷ rest

-- The entries `\5c`, `\2a`, `\28`, `\29` and `\00`, in the order of the table.
abbrev pub filter_escapes : List (ℕ × Text)
filter_escapes =
    (b'\\', b'\\' ∷ b'5' ∷ b'c' ∷ [])
    ∷ (b'*', b'\\' ∷ b'2' ∷ b'a' ∷ [])
    ∷ (b'(', b'\\' ∷ b'2' ∷ b'8' ∷ [])
    ∷ (b')', b'\\' ∷ b'2' ∷ b'9' ∷ [])
    ∷ (0, b'\\' ∷ b'0' ∷ b'0' ∷ [])
    ∷ []

abbrev pub dn_escapes : List (ℕ × Text)
dn_escapes =
    (b'\\', b'\\' ∷ b'\\' ∷ [])
    ∷ (b',', b'\\' ∷ b',' ∷ [])
    ∷ (b'+', b'\\' ∷ b'+' ∷ [])
    ∷ (34, b'\\' ∷ 34 ∷ [])
    ∷ (b'<', b'\\' ∷ b'<' ∷ [])
    ∷ (b'>', b'\\' ∷ b'>' ∷ [])
    ∷ (b';', b'\\' ∷ b';' ∷ [])
    ∷ (b'=', b'\\' ∷ b'=' ∷ [])
    ∷ []

-- The loop over a table that skips the backslash.
unfoldable pub substitute : List (ℕ × Text) → Text → Text
unfolding replace
substitute [] escaped = escaped
substitute ((c, replacement) ∷ rest) escaped =
    substitute rest (if eqb c b'\\' then escaped else replace c replacement escaped)

unfoldable pub escape_filter : Text → Text
unfolding substitute
escape_filter value = substitute filter_escapes (replace b'\\' (b'\\' ∷ b'5' ∷ b'c' ∷ []) value)

abbrev pub starts : ℕ → Text → Bool
starts c [] = false
starts c (x ∷ xs) = eqb x c

-- `escaped.endswith(" ")` and `escaped.endswith("\\ ")`.
unfoldable pub ends_with_space : Text → Bool
ends_with_space [] = false
ends_with_space (x ∷ []) = eqb x space
ends_with_space (x ∷ y ∷ rest) = ends_with_space (y ∷ rest)

unfoldable pub ends_with_escaped_space : Text → Bool
ends_with_escaped_space [] = false
ends_with_escaped_space (x ∷ []) = false
ends_with_escaped_space (x ∷ y ∷ []) = eqb x backslash && eqb y space
ends_with_escaped_space (x ∷ y ∷ z ∷ rest) = ends_with_escaped_space (y ∷ z ∷ rest)

-- `escaped[:-1] + "\\ "` of a text that is not empty.
unfoldable pub escape_last : Text → Text
escape_last [] = backslash ∷ space ∷ []
escape_last (x ∷ []) = backslash ∷ space ∷ []
escape_last (x ∷ y ∷ rest) = x ∷ escape_last (y ∷ rest)

abbrev pub escape_first : ℕ → Text → Text
escape_first c escaped = if starts c escaped then backslash ∷ escaped else escaped

abbrev pub escape_end : Text → Text
escape_end escaped =
    if ends_with_space escaped && not (ends_with_escaped_space escaped)
    then escape_last escaped
    else escaped

unfoldable pub escape_dn : Text → Text
unfolding substitute ends_with_space ends_with_escaped_space escape_last
escape_dn value = escape_end (
    escape_first space
      (escape_first b'#' (substitute dn_escapes (replace b'\\' (b'\\' ∷ b'\\' ∷ []) value))))

unfoldable pub equality : Text → Text → Text
unfolding escape_filter
equality attribute value = (b'(' ∷ attribute) ++ (b'=' ∷ escape_filter value) ++ b')' ∷ []

unfoldable pub join : List Text → Text
join [] = []
join (t ∷ ts) = t ++ join ts

abbrev equalities : List Text → Text → List Text
equalities [] value = []
equalities (a ∷ as') value = equality a value ∷ equalities as' value

-- `none` is the `ValueError` of a call with no attribute.
unfoldable pub any_of : List Text → Text → Option Text
unfolding equality join
any_of [] value = none
any_of (a ∷ []) value = some (equality a value)
any_of (a ∷ b ∷ rest) value =
    some ((b'(' ∷ b'|' ∷ join (equalities (a ∷ b ∷ rest) value)) ++ b')' ∷ [])

abbrev conjunction : List Text → Option Text
conjunction [] = none
conjunction (c ∷ []) = some c
conjunction (c ∷ d ∷ rest) = some ((b'(' ∷ b'&' ∷ join (c ∷ d ∷ rest)) ++ b')' ∷ [])

unfoldable pub all_of : List Text → Option Text
unfolding join
all_of clauses = conjunction (filter (λ c. not (is_empty c)) clauses)
