-- ===== src/Scim/Filter/Answers.antt =====
-- The parsers of campusid/scim/filters.py answer for every text, and a PATCH path that is printed is
-- read back.
use campus_id.Shared.{ℕ, ◌<◌, ◌≡◌, ◌≢◌, refl, Option, none, some, [], ◌∷◌, length}
use campus_id.Shared.Texts.{Text}
use campus_id.Scim.Filter.Syntax.{
  AttrPath, Node, lparen, rparen, lbracket, rbracket, dot, quoted, digits, word, Tokens, Parsed, ok,
  filter_error, out_of_fuel, ◌>>=◌,
}
use campus_id.Scim.Filter.Literals.{Host, parse_attr_path}
use campus_id.Scim.Filter.Tokenizer.{tokenize}
use campus_id.Scim.Filter.Scanning.{tokenize-fuel}
use campus_id.Scim.Filter.Parser.{enclosed, filter_at, max_depth, parse_tokens}
use campus_id.Scim.Filter.Termination.{
  Shorter, enclosed-Reads, filter_at-Reads, parse_tokens-answers,
}
use campus_id.Scim.Filter.Printer.{print_selection, nesting, IsName, IsPrintable}
use campus_id.Scim.Filter.Leaves.{parse_attr_path-print}
use campus_id.Scim.Filter.RoundTrip.{IsLower, filter_at-print, rbracket-Stops}
use campus_id.Scim.Filter.Source.{
  parse_filter, or_error, after_filter, with_filter, after_path, patch_tokens, parse_patch_path,
}

bind-fuel {ℓ κ} :
    {A : Type ℓ} {B : Type κ} (m : Parsed A) (f : A → Parsed B)
    → m ≢ out_of_fuel
    → ((a : A) → f a ≢ out_of_fuel)
    → (m >>= f) ≢ out_of_fuel
bind-fuel (ok a) f h g e = g a e
bind-fuel filter_error f h g e = cc
bind-fuel out_of_fuel f h g e = h refl

or_error-fuel {ℓ} : {A : Type ℓ} (o : Option A) → or_error o ≢ out_of_fuel
or_error-fuel none e = cc
or_error-fuel (some a) e = cc

module _ (host : Host) where
  -- The parser of a filter answers for every text, with a node or with the error: the fuel of the
  -- tokenizer's loop and of the chains of `and` and `or` never runs out, and the descent ends.
  pub parse_filter-answers : (source : Text) → parse_filter host source ≢ out_of_fuel
  unfolding parse_filter
  parse_filter-answers source =
      bind-fuel (tokenize host source) (parse_tokens host) (tokenize-fuel host source)
        (parse_tokens-answers host)

  Shorter-fuel {ℓ} : {A : Type ℓ} (n : ℕ) (m : Parsed (A × Tokens)) → Shorter n m → m ≢ out_of_fuel
  Shorter-fuel n (ok o) h e = cc
  Shorter-fuel n filter_error h e = cc
  Shorter-fuel n out_of_fuel h e = h

  with_filter-fuel :
      (path : AttrPath) (sub : Option Text) (rest : Tokens)
      → with_filter host path sub rest ≢ out_of_fuel
  with_filter-fuel path (some sub) rest e = cc
  with_filter-fuel path none rest e =
      bind-fuel (enclosed host (filter_at host max_depth) rbracket rest) _
        (Shorter-fuel (length rest) (enclosed host (filter_at host max_depth) rbracket rest) (
          enclosed-Reads host (filter_at host max_depth) rbracket (filter_at-Reads host max_depth)
            rest))
        (λ (node, after). or_error-fuel (after_filter host path node after)) e

  after_path-fuel : (path : Option AttrPath) (ts : Tokens) → after_path host path ts ≢ out_of_fuel
  after_path-fuel none ts e = cc
  after_path-fuel (some path) [] e = cc
  after_path-fuel (some path) (lparen ∷ rest) e = cc
  after_path-fuel (some path) (rparen ∷ rest) e = cc
  after_path-fuel (some path) (lbracket ∷ rest) e = with_filter-fuel path path.sub_attribute rest e
  after_path-fuel (some path) (rbracket ∷ rest) e = cc
  after_path-fuel (some path) (dot ∷ rest) e = cc
  after_path-fuel (some path) (quoted t ∷ rest) e = cc
  after_path-fuel (some path) (digits t ∷ rest) e = cc
  after_path-fuel (some path) (word t ∷ rest) e = cc

  patch_tokens-fuel : (ts : Tokens) → patch_tokens host ts ≢ out_of_fuel
  patch_tokens-fuel [] e = cc
  patch_tokens-fuel (lparen ∷ rest) e = cc
  patch_tokens-fuel (rparen ∷ rest) e = cc
  patch_tokens-fuel (lbracket ∷ rest) e = cc
  patch_tokens-fuel (rbracket ∷ rest) e = cc
  patch_tokens-fuel (dot ∷ rest) e = cc
  patch_tokens-fuel (quoted t ∷ rest) e = cc
  patch_tokens-fuel (digits t ∷ rest) e = cc
  patch_tokens-fuel (word t ∷ rest) e = after_path-fuel (parse_attr_path t) rest e

  -- So does the parser of a PATCH path.
  pub parse_patch_path-answers : (source : Text) → parse_patch_path host source ≢ out_of_fuel
  unfolding parse_patch_path
  parse_patch_path-answers source =
      bind-fuel (tokenize host source) (patch_tokens host) (tokenize-fuel host source)
        patch_tokens-fuel

module _ (host : Host) (show : host.Number → Text)
    (lower_lower : (s : Text) → IsLower s → host.lower s ≡ s)
    (number_show : (n : host.Number) → host.number_of (show n) ≡ n) where
  -- A PATCH path on an attribute with a value filter and a sub-attribute, printed as tokens, is read
  -- as these three, on these conditions: the filter nests fewer than twenty levels of brackets; the
  -- attribute, the sub-attribute and those of the filter's paths are names, not empty and without
  -- `.` and `:`; no URN is empty; no printed path of the filter is the word `not` in any case; the
  -- filter's strings have no backslash; `str.lower` leaves a word that is in lower case as it is;
  -- and a number that is shown is read as that number.
  pub patch_tokens-print :
      (attribute : Text) (urn : Option Text) (node : Node host.Number) (sub : Text)
      → IsName attribute
      → urn ≢ some []
      → nesting node < max_depth
      → IsPrintable host.lower node
      → IsName sub
      → patch_tokens host (
          print_selection show
            (record { attribute = attribute; sub_attribute = none; urn = urn })
            node
            sub)
        ≡ ok (record {
          path = record { attribute = attribute; sub_attribute = none; urn = urn };
          predicate = some node;
          sub_attribute = some sub;
        })
  patch_tokens-print attribute urn node sub name filled l g h =
      let tail = rbracket ∷ dot ∷ word sub ∷ [] in
      rw
        (parse_attr_path-print (record { attribute = attribute; sub_attribute = none; urn = urn })
          name tt filled)
        (rw
          (filter_at-print host show lower_lower number_show max_depth node tail l g
            (rbracket-Stops host show lower_lower number_show (dot ∷ word sub ∷ [])))
          (rw (h.1, h.2) refl))
