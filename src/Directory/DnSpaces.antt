-- ===== src/Directory/DnSpaces.antt =====
-- How `escape_dn` of campusid/directory/escaping.py treats a space at the end of a value.
use mathlib.Core.List.{append_assoc}
use campus_id.Shared.{
  ℕ, ◌≡◌, refl, ap, ◌∙◌, inl, inr, Bool, true, false, not, ◌&&◌, ◌||◌, [], ◌∷◌, ◌++◌, arith, eqb,
  if◌then◌else◌, Bool-cases,
}
use campus_id.Directory.Escaping.{
  Text, backslash, space, replace, substitute, dn_escapes, escape_dn, escape_end, escape_first,
  ends_with_space, ends_with_escaped_space, starts,
}
use campus_id.Directory.FilterSafety.{replace-append, substitute-append}

abbrev pub escape_dn_char : ℕ → Text
escape_dn_char c =
    if eqb c b'\\'
      || eqb c b','
      || eqb c b'+'
      || eqb c 34
      || eqb c b'<'
      || eqb c b'>'
      || eqb c b';'
      || eqb c b'='
    then b'\\' ∷ c ∷ []
    else c ∷ []

-- The replacements of `escape_dn`, before the positional rules.
pub table_pass : Text → Text
table_pass value = substitute dn_escapes (replace b'\\' (b'\\' ∷ b'\\' ∷ []) value)

table_pass-append : (xs ys : Text) → table_pass (xs ++ ys) ≡ table_pass xs ++ table_pass ys
unfolding table_pass
table_pass-append xs ys = rw (replace-append b'\\' (b'\\' ∷ b'\\' ∷ []) xs ys) (
    substitute-append dn_escapes (replace b'\\' (b'\\' ∷ b'\\' ∷ []) xs)
      (replace b'\\' (b'\\' ∷ b'\\' ∷ []) ys))

table_pass_one : (c : ℕ) → table_pass (c ∷ []) ≡ escape_dn_char c
unfolding table_pass substitute
table_pass_one c = ground arith

-- A reader by RFC 4514: whether the text ends in a space that no backslash escapes. The first
-- argument says whether the character that comes is escaped.
pub bare_end : Bool → Text → Bool
bare_end escaped [] = false
bare_end escaped (x ∷ []) = eqb x space && not escaped
bare_end escaped (x ∷ y ∷ rest) = bare_end (eqb x backslash && not escaped) (y ∷ rest)

abbrev tail_of_bug : Text
tail_of_bug = backslash ∷ backslash ∷ space ∷ []

bare_end-char :
    (c y : ℕ) (rest : Text)
    → bare_end false (escape_dn_char c ++ y ∷ rest) ≡ bare_end false (y ∷ rest)
unfolding bare_end
bare_end-char c y rest = ground arith

nonempty_tail : (xs : Text) → (y : ℕ) × (rest : Text) × (xs ++ tail_of_bug ≡ y ∷ rest)
nonempty_tail [] = (backslash, backslash ∷ space ∷ [], refl)
nonempty_tail (x ∷ xs) = (x, xs ++ tail_of_bug, refl)

bare_end-table_pass : (v : Text) → bare_end false (table_pass v ++ tail_of_bug) ≡ true
bare_end-table_pass [] = unfold table_pass substitute replace bare_end in refl
bare_end-table_pass (c ∷ cs) =
    let (y, rest, e) = nonempty_tail (table_pass cs) in
    rw
      (
        table_pass-append (c ∷ []) cs,
        table_pass_one c,
        append_assoc (escape_dn_char c) (table_pass cs) tail_of_bug,
        e,
      )
      (bare_end-char c y rest ∙ rw (← e) (bare_end-table_pass cs))

ends_escaped : (xs : Text) → ends_with_escaped_space (xs ++ tail_of_bug) ≡ true
unfolding ends_with_escaped_space
ends_escaped [] = refl
ends_escaped (x ∷ []) = refl
ends_escaped (x ∷ y ∷ []) = refl
ends_escaped (x ∷ y ∷ z ∷ rest) = ends_escaped (y ∷ z ∷ rest)

escape_end-same : (xs : Text) → ends_with_escaped_space xs ≡ true → escape_end xs ≡ xs
escape_end-same xs h = elim (Bool-cases (ends_with_space xs)) [ inl e ↦ rw (e, h) | inr e ↦ rw e ]

-- A positional backslash in front changes neither test.
bare_end-escape_first :
    (c : ℕ) (xs : Text)
    → eqb c backslash ≡ false
    → bare_end false (escape_first c (xs ++ tail_of_bug)) ≡ bare_end false (xs ++ tail_of_bug)
unfolding bare_end
bare_end-escape_first c [] h = ground arith
bare_end-escape_first c (x ∷ []) h = ground arith
bare_end-escape_first c (x ∷ y ∷ rest) h = ground arith

escape_first-shape :
    (c : ℕ) (xs : Text) → (ys : Text) × (escape_first c (xs ++ tail_of_bug) ≡ ys ++ tail_of_bug)
escape_first-shape c xs = elim (Bool-cases (starts c (xs ++ tail_of_bug))) [
  | inl e ↦ (backslash ∷ xs, rw e)
  | inr e ↦ (xs, rw e)
]

positional :
    (xs : Text)
    → bare_end false (xs ++ tail_of_bug) ≡ true
    → bare_end false (escape_end (escape_first space (escape_first b'#' (xs ++ tail_of_bug))))
      ≡ true
positional xs h =
    let (ys, e) = escape_first-shape b'#' xs in
    let (zs, f) = escape_first-shape space ys in
    rw (e, f, escape_end-same (zs ++ tail_of_bug) (ends_escaped zs), ← f)
      (bare_end-escape_first space ys refl ∙ rw (← e) (bare_end-escape_first b'#' xs refl ∙ h))

table_pass-bug : (v : Text) → table_pass (v ++ backslash ∷ space ∷ []) ≡ table_pass v ++ tail_of_bug
table_pass-bug v =
    rw (table_pass-append v (backslash ∷ space ∷ [])) (ap (λ t. table_pass v ++ t) fixed)
  where
    fixed : table_pass (backslash ∷ space ∷ []) ≡ tail_of_bug
    fixed = unfold table_pass substitute replace in refl

-- A value that ends in a backslash and a space is escaped into a text that still ends in a space
-- that no backslash escapes: the guard takes the second half of the escaped backslash for the
-- escape of the space.
pub escape_dn_bare_space :
    (v : Text) → bare_end false (escape_dn (v ++ backslash ∷ space ∷ [])) ≡ true
escape_dn_bare_space v =
    unfold escape_dn in
    rw (fold_pass (v ++ backslash ∷ space ∷ []), table_pass-bug v)
      (positional (table_pass v) (bare_end-table_pass v))
  where
    fold_pass :
        (t : Text) → substitute dn_escapes (replace b'\\' (b'\\' ∷ b'\\' ∷ []) t) ≡ table_pass t
    fold_pass t = unfold table_pass in refl
