-- ===== src/Directory/Examples.antt =====
-- An injection attempt, a conjunction, and a name that ends in a space.
use campus_id.Shared.{◌≡◌, refl, true, false, some, [], ◌∷◌, ◌++◌}
use campus_id.Directory.Escaping.{
  Text, backslash, space, escape_filter, escape_dn, equality, any_of, all_of,
}
use campus_id.Directory.FilterSafety.{
  escape_filter-each, each, escape_char, equality-read, read_value, plain,
}
use campus_id.Directory.DnSpaces.{escape_dn_bare_space, bare_end}

-- `*)(`
abbrev injection : Text
injection = b'*' ∷ b')' ∷ b'(' ∷ []

injection_escaped :
    escape_filter injection ≡ b'\\' ∷ b'2' ∷ b'a' ∷ b'\\' ∷ b'2' ∷ b'9' ∷ b'\\' ∷ b'2' ∷ b'8' ∷ []
unfolding escape_filter
injection_escaped = refl

escape_filter-each_example : escape_filter injection ≡ each escape_char injection
escape_filter-each_example = escape_filter-each injection

equality-read_example :
    (before : Text) × (equality (b'u' ∷ []) injection ++ []
      ≡ before ++ escape_filter injection ++ b')' ∷ [])
    × (read_value plain (escape_filter injection ++ b')' ∷ []) ≡ some (injection, []))
equality-read_example = equality-read (b'u' ∷ []) injection []

ordinary_space : escape_dn (b'a' ∷ space ∷ []) ≡ b'a' ∷ backslash ∷ space ∷ []
unfolding escape_dn
ordinary_space = refl

escape_dn_bare_space_example : bare_end false (escape_dn (b'a' ∷ backslash ∷ space ∷ [])) ≡ true
escape_dn_bare_space_example = escape_dn_bare_space (b'a' ∷ [])

two_names :
    any_of ((b'u' ∷ []) ∷ (b'v' ∷ []) ∷ []) (b'x' ∷ [])
    ≡ some (
        b'(' ∷ b'|' ∷ b'(' ∷ b'u' ∷ b'=' ∷ b'x' ∷ b')' ∷ b'(' ∷ b'v' ∷ b'=' ∷ b'x' ∷ b')' ∷ b')'
        ∷ [])
unfolding any_of
two_names = refl

one_clause : all_of ([] ∷ (b'a' ∷ []) ∷ []) ≡ some (b'a' ∷ [])
unfolding all_of
one_clause = refl
