-- ===== src/Scim/Filter/Source.antt =====
-- `parse_filter` and `parse_patch_path` of campusid/scim/filters.py, from the text.
use campus_id.Shared.{Option, none, some, [], ◌∷◌, ◌||◌, if◌then◌else◌}
use campus_id.Shared.Texts.{Text, has}
use campus_id.Scim.Filter.Syntax.{
  AttrPath, Node, PatchPath, lbracket, rbracket, dot, word, Tokens, Parsed, ok, filter_error, ◌>>=◌,
}
use campus_id.Scim.Filter.Literals.{Host, parse_attr_path}
use campus_id.Scim.Filter.Tokenizer.{tokenize}
use campus_id.Scim.Filter.Parser.{enclosed, filter_at, max_depth, parse_tokens}

abbrev pub or_error {ℓ} : {A : Type ℓ} → Option A → Parsed A
or_error none = filter_error
or_error (some a) = ok a

module _ (host : Host) where
  unfoldable pub parse_filter : Text → Parsed (Node host.Number)
  parse_filter source = tokenize host source >>= parse_tokens host

  -- A path with a value filter, which stands on the bare attribute.
  abbrev pub selecting : AttrPath → Node host.Number → Option Text → PatchPath host.Number
  selecting path node sub = record {
    path = record { attribute = path.attribute; sub_attribute = none; urn = path.urn };
    predicate = some node;
    sub_attribute = sub;
  }

  abbrev pub at_end : PatchPath host.Number → Tokens → Option (PatchPath host.Number)
  at_end p [] = some p
  at_end p (t ∷ rest) = none

  -- What stands after a value filter: nothing, or a sub-attribute.
  abbrev pub after_filter : AttrPath → Node host.Number → Tokens → Option (PatchPath host.Number)
  after_filter path node [] = some (selecting path node none)
  after_filter path node (dot ∷ (word name ∷ rest)) =
      if has b'.' name || has b':' name then none else at_end (selecting path node (some name)) rest
  after_filter path node _ = none

  -- A value filter on a path; one on a sub-attribute is refused.
  abbrev pub with_filter : AttrPath → Option Text → Tokens → Parsed (PatchPath host.Number)
  with_filter path (some sub) rest = filter_error
  with_filter path none rest =
      enclosed host (filter_at host max_depth) rbracket rest >>= λ (node, after).
      or_error (after_filter path node after)

  abbrev pub after_path : Option AttrPath → Tokens → Parsed (PatchPath host.Number)
  after_path none rest = filter_error
  after_path (some path) [] =
      ok (record { path = path; predicate = none; sub_attribute = path.sub_attribute })
  after_path (some path) (lbracket ∷ rest) = with_filter path path.sub_attribute rest
  after_path (some path) _ = filter_error

  abbrev pub patch_tokens : Tokens → Parsed (PatchPath host.Number)
  patch_tokens (word text ∷ rest) = after_path (parse_attr_path text) rest
  patch_tokens _ = filter_error

  unfoldable pub parse_patch_path : Text → Parsed (PatchPath host.Number)
  parse_patch_path source = tokenize host source >>= patch_tokens
