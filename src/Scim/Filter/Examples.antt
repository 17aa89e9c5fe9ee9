-- ===== src/Scim/Filter/Examples.antt =====
-- Concrete filters, on a host that reads ASCII and writes a number as so many digits one.
use campus_id.Shared.{
  ℕ, zero, suc, ◌+◌, ◌≡◌, ◌≢◌, ◌↔◌, refl, ap, true, false, ◌&&◌, none, some, [], ◌∷◌, ◌++◌, arith,
  eqb, ltb, leb, length, Within, if◌then◌else◌,
}
use campus_id.Shared.Texts.{Text, codes, text_eq, text_eq_iff}
use campus_id.Scim.Filter.Syntax.{
  Operator, AttrPath, string, Node, comparison, present, conjunction, negation, ok,
}
use campus_id.Scim.Filter.Literals.{Host, unquote}
use campus_id.Scim.Filter.Parser.{parse_tokens}
use campus_id.Scim.Filter.Printer.{print_path, print_before, print_selection, IsPath}
use campus_id.Scim.Filter.RoundTrip.{IsLower, parse_tokens-print}
use campus_id.Scim.Filter.Source.{parse_filter, patch_tokens}
use campus_id.Scim.Filter.Syntax.{out_of_fuel}
use campus_id.Scim.Filter.Answers.{parse_filter-answers, patch_tokens-print}
use campus_id.Scim.Filter.Escapes.{backslash_n, unquote-backslash_n}
use campus_id.Scim.Filter.Evaluator.{
  Value, str_value, list_value, dict_value, Values, no_values, value, Fields, no_fields, field,
  Numbers, is_member, matches, read, select_members,
}
use campus_id.Scim.Filter.Spelling.{texts, compared}
use campus_id.Scim.Filter.AnyCase.{matches-respelled}
use campus_id.Scim.Filter.Selection.{member_at, select_members-exact}

abbrev lower_code : ℕ → ℕ
lower_code c = if leb 65 c && leb c 90 then c + 32 else c

abbrev lower_text : Text → Text
lower_text [] = []
lower_text (c ∷ s) = lower_code c ∷ lower_text s

lower_lower : (s : Text) → IsLower s → lower_text s ≡ s
lower_lower [] h = refl
lower_lower (c ∷ s) (low, high, rest) =
    let upper : (leb 65 c && leb c 90) ≡ false = ground (arith, low) in
    rw upper (ap (λ t. c ∷ t) (lower_lower s rest))

abbrev ones : ℕ → Text
ones zero = []
ones (suc n) = b'1' ∷ ones n

length-ones : (n : ℕ) → length (ones n) ≡ n
length-ones zero = refl
length-ones (suc n) = omega (arith, length-ones n)

abbrev ascii : Host
ascii = record {
  Number = ℕ;
  lower = lower_text;
  number_of = λ s. length s;
  is_space = λ c. eqb c b' ';
  is_digit = λ c. leb 48 c && leb c 57;
}

abbrev numbers : Numbers ascii
numbers = record { same = eqb; less = ltb; at_most = leb }

abbrev path_of : Text → AttrPath
path_of name = record { attribute = name; sub_attribute = none; urn = none }

abbrev user_name : AttrPath
user_name = path_of (codes "userName")

abbrev emails : AttrPath
emails = path_of (codes "emails")

differs : (s t : Text) → text_eq s t ≡ false → s ≢ t
differs s t h e = let f = (text_eq_iff s t).1 e in cc

user_name-IsPath : IsPath lower_text user_name
unfolding print_path
user_name-IsPath = record {
  names = ((λ e. cc), refl, refl);
  sub_names = tt;
  filled_urn = λ e. cc;
  keyword = differs (lower_text (codes "userName")) (codes "not") refl;
}

emails-IsPath : IsPath lower_text emails
unfolding print_path
emails-IsPath = record {
  names = ((λ e. cc), refl, refl);
  sub_names = tt;
  filled_urn = λ e. cc;
  keyword = differs (lower_text (codes "emails")) (codes "not") refl;
}

abbrev is_sam : Node ℕ
is_sam = comparison user_name Operator.eq (string (codes "sam"))

abbrev sam_without_mail : Node ℕ
sam_without_mail = conjunction is_sam (negation (present emails))

parse_tokens-print_example :
    parse_tokens ascii (print_before ones sam_without_mail []) ≡ ok sam_without_mail
parse_tokens-print_example =
    parse_tokens-print ascii ones lower_lower length-ones sam_without_mail (omega arith)
      ((user_name-IsPath, refl), emails-IsPath)

parse_filter-answers_example : parse_filter ascii (codes "a eq \"b\" and (c pr") ≢ out_of_fuel
parse_filter-answers_example = parse_filter-answers ascii (codes "a eq \"b\" and (c pr")

patch_tokens-print_example :
    patch_tokens ascii (print_selection ones emails is_sam (codes "value"))
    ≡ ok (record { path = emails; predicate = some is_sam; sub_attribute = some (codes "value") })
patch_tokens-print_example =
    patch_tokens-print ascii ones lower_lower length-ones (codes "emails") none is_sam
      (codes "value") ((λ e. cc), refl, refl) (λ e. cc) (omega arith) (user_name-IsPath, refl)
      ((λ e. cc), refl, refl)

unquote-backslash_n_example : unquote (backslash_n (codes "C:")) ≡ codes "C:" ++ (b'\n' ∷ [])
unquote-backslash_n_example = unquote-backslash_n (codes "C:") refl

abbrev sam : Fields ℕ
sam = field (codes "userName") (str_value (codes "Sam")) no_fields

abbrev is_sam_in_capitals : Node ℕ
is_sam_in_capitals = comparison (path_of (codes "USERNAME")) Operator.eq (string (codes "SAM"))

matches-respelled_example :
    matches ascii numbers is_sam sam ≡ matches ascii numbers is_sam_in_capitals sam
matches-respelled_example =
    matches-respelled ascii numbers is_sam is_sam_in_capitals sam
      (compared (record { attributes = refl; sub_attributes = tt; urns = tt }) (texts refl))
      (refl, tt, tt)

abbrev members : Values ℕ
members = value (str_value (codes "Sam")) (value (dict_value sam) no_values)

select_members-exact_example : Within 1 (select_members ascii numbers is_sam members) ↔ (
    (v : Value ℕ) × (member_at 1 members ≡ some v)
    × (is_member (matches ascii numbers is_sam) v ≡ true))
select_members-exact_example = select_members-exact ascii numbers is_sam members 1

abbrev group : Fields ℕ
group = field (codes "members") (list_value members) no_fields

read-members : read ascii group (path_of (codes "members")) ≡ list_value members
unfolding read
read-members = refl
