-- ===== src/Scim/Filter/Leaves.antt =====
-- The leaves of campusid/scim/filters.py are read back as they are printed.
use campus_id.Shared.{
  ℕ, ◌≡◌, ◌≢◌, refl, ap, ◌∙◌, false, ◌||◌, Option, none, some, [], ◌∷◌, ◌++◌, eqb, arith,
}
use campus_id.Shared.Texts.{
  Text, has, partition-lacks, partition-append, rpartition-lacks, rpartition-append,
}
use campus_id.Scim.Filter.Syntax.{Operator, AttrPath}
use campus_id.Scim.Filter.Literals.{
  parse_attr_path, path_qualified, path_named, path_dotted, unescape, without_last, unquote,
  operator_of,
}
use campus_id.Scim.Filter.Printer.{
  print_name, print_urn, print_path, print_operator, IsName, IsSubName,
}

has-append : (c : ℕ) (s t : Text) → has c (s ++ t) ≡ (has c s || has c t)
has-append c [] t = refl
has-append c (x ∷ s) t = ground (arith, has-append c s t)

path_named-print :
    (urn : Option Text) (attribute : Text) (sub : Option Text)
    → IsName attribute
    → IsSubName sub
    → path_named urn (print_name attribute sub)
      ≡ some (record { attribute = attribute; sub_attribute = sub; urn = urn })
path_named-print urn [] sub (filled, dots, colons) g = absurd (filled refl)
path_named-print urn (c ∷ a) none (filled, dots, colons) g =
    ap (path_dotted urn (c ∷ a)) (partition-lacks b'.' (c ∷ a) dots)
path_named-print urn (c ∷ a) (some []) n (filled, dots, colons) = absurd (filled refl)
path_named-print urn (c ∷ a) (some (d ∷ s)) (filled, dots, colons) (filled', dots', colons') =
    ap (path_dotted urn ((c ∷ a) ++ (b'.' ∷ d ∷ s))) (partition-append b'.' (c ∷ a) (d ∷ s) dots)
    ∙ rw dots' refl

print_name-colons :
    (attribute : Text) (sub : Option Text)
    → IsName attribute
    → IsSubName sub
    → has b':' (print_name attribute sub) ≡ false
print_name-colons attribute none (filled, dots, colons) g = colons
print_name-colons attribute (some []) n (filled', dots', colons') = absurd (filled' refl)
print_name-colons attribute (some (d ∷ sub)) (filled, dots, colons) (filled', dots', colons') =
    has-append b':' attribute (b'.' ∷ (d ∷ sub)) ∙ rw (colons, colons') refl

-- The last colon is the one before the name.
qualified :
    (urn name : Text)
    → name ≢ []
    → path_qualified (urn ++ (b':' ∷ name)) (some (urn, name)) ≡ path_named (some urn) name
qualified urn [] filled = absurd (filled refl)
qualified urn (c ∷ name) filled = refl

print_name-filled :
    (attribute : Text) (sub : Option Text) → IsName attribute → print_name attribute sub ≢ []
print_name-filled [] sub n e = n.0 refl
print_name-filled (c ∷ a) none n e = cc
print_name-filled (c ∷ a) (some []) n e = cc
print_name-filled (c ∷ a) (some (d ∷ sub)) n e = cc

parse-print_urn :
    (urn : Option Text) (attribute : Text) (sub : Option Text)
    → IsName attribute
    → IsSubName sub
    → urn ≢ some []
    → parse_attr_path (print_urn urn (print_name attribute sub))
      ≡ some (record { attribute = attribute; sub_attribute = sub; urn = urn })
unfolding parse_attr_path
parse-print_urn none attribute sub n g u =
    ap (path_qualified (print_name attribute sub))
      (rpartition-lacks b':' (print_name attribute sub) (print_name-colons attribute sub n g))
    ∙ path_named-print none attribute sub n g
parse-print_urn (some []) attribute sub n g u = absurd (u refl)
parse-print_urn (some (c ∷ rest)) attribute sub n g u =
    let urn = c ∷ rest in
    let name = print_name attribute sub in
    ap (path_qualified (urn ++ (b':' ∷ name)))
      (rpartition-append b':' urn name (print_name-colons attribute sub n g))
    ∙ qualified urn name (print_name-filled attribute sub n)
    ∙ path_named-print (some urn) attribute sub n g

pub parse_attr_path-print :
    (path : AttrPath)
    → IsName path.attribute
    → IsSubName path.sub_attribute
    → path.urn ≢ some []
    → parse_attr_path (print_path path) ≡ some path
unfolding print_path
parse_attr_path-print path n g u = parse-print_urn path.urn path.attribute path.sub_attribute n g u

pub operator_of-print :
    (operator : Operator) → operator_of (print_operator operator) ≡ some operator
unfolding operator_of
operator_of-print Operator.eq = refl
operator_of-print Operator.ne = refl
operator_of-print Operator.co = refl
operator_of-print Operator.sw = refl
operator_of-print Operator.ew = refl
operator_of-print Operator.gt = refl
operator_of-print Operator.ge = refl
operator_of-print Operator.lt = refl
operator_of-print Operator.le = refl

unescape-lacks : (from to : ℕ) (s : Text) → has b'\\' s ≡ false → unescape from to s ≡ s
unescape-lacks from to [] h = refl
unescape-lacks from to (c ∷ []) h = refl
unescape-lacks from to (c ∷ (d ∷ s)) h =
    let plain : eqb c b'\\' ≡ false = ground arith in
    rw plain (ap (λ t. c ∷ t) (unescape-lacks from to (d ∷ s) (ground arith)))

pub without_last-append : (s : Text) (c : ℕ) → without_last (s ++ (c ∷ [])) ≡ s
without_last-append [] c = refl
without_last-append (x ∷ []) c = refl
without_last-append (x ∷ (y ∷ s)) c = ap (λ t. x ∷ t) (without_last-append (y ∷ s) c)

pub unquote-plain : (s : Text) → has b'\\' s ≡ false → unquote (b'"' ∷ (s ++ (b'"' ∷ []))) ≡ s
unfolding unquote
unquote-plain s h = rw (
  without_last-append s b'"',
  unescape-lacks b'"' b'"' s h,
  unescape-lacks b'\\' b'\\' s h,
  unescape-lacks b'n' b'\n' s h,
  unescape-lacks b'r' b'\r' s h,
  unescape-lacks b't' b'\t' s h,
  unescape-lacks b'/' b'/' s h,
)
