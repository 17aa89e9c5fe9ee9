-- ===== src/Scim/Bulk/References.antt =====
-- The `bulkId:` references of campusid/scim/bulk.py.
use Prim.Native.Char.{code}
use Prim.Native.String.{String}
use campus_id.Shared.{Option, none, some, List, [], ◌∷◌, ◌++◌, eqb, if◌then◌else◌}
use campus_id.Scim.Bulk.Document.{
  Json, text, array, object, Items, no_items, item, Fields, no_fields, field, Outcome, ok,
  scim_error, invalid_value, ◌>>=◌, lookup,
}

-- `s.removeprefix(prefix)`, where `s` starts with it.
abbrev pub after_prefix : String → String → Option String
after_prefix String.[] s = some s
after_prefix (String.◌∷◌ c prefix) String.[] = none
after_prefix (String.◌∷◌ c prefix) (String.◌∷◌ d s) =
    let later = after_prefix prefix s in if eqb (code c) (code d) then later else none

-- `BULK_ID_PREFIX`
abbrev pub bulk_id_prefix : String
bulk_id_prefix = "bulkId:"

-- The `bulkId` that a text refers to.
unfoldable pub reference : String → Option String
reference s = after_prefix bulk_id_prefix s

abbrev pub reference_list : Option String → List String
reference_list none = []
reference_list (some id) = id ∷ []

-- `resolved[key]`, or the error of an operation that produced no resource.
abbrev pub resolved_id : Option String → Outcome String
resolved_id none = scim_error 404 invalid_value
resolved_id (some id) = ok id

abbrev pub resolve_on : List (String × String) → String → Option String → Outcome String
resolve_on resolved s none = ok s
resolve_on resolved s (some key) = resolved_id (lookup key resolved)

-- `resolve_references`, of a text.
abbrev pub resolve_text : List (String × String) → String → Outcome String
resolve_text resolved s = resolve_on resolved s (reference s)

unfoldable mutual
  unfolding reference

  -- `referenced_bulk_ids`
  pub referenced_bulk_ids : Json → List String
  referenced_bulk_ids (text s) = reference_list (reference s)
  referenced_bulk_ids (array items) = referenced_by_items items
  referenced_bulk_ids (object entries) = referenced_by_fields entries
  referenced_bulk_ids _ = []

  pub referenced_by_items : Items → List String
  referenced_by_items no_items = []
  referenced_by_items (item v rest) = referenced_bulk_ids v ++ referenced_by_items rest

  pub referenced_by_fields : Fields → List String
  referenced_by_fields no_fields = []
  referenced_by_fields (field key v rest) = referenced_bulk_ids v ++ referenced_by_fields rest

unfoldable mutual
  unfolding reference

  -- `resolve_references`
  pub resolve_references : List (String × String) → Json → Outcome Json
  resolve_references resolved (text s) = resolve_text resolved s >>= λ t. ok (text t)
  resolve_references resolved (array items) = resolve_items resolved items >>= λ vs. ok (array vs)
  resolve_references resolved (object entries) =
      resolve_fields resolved entries >>= λ fs. ok (object fs)
  resolve_references resolved v = ok v

  pub resolve_items : List (String × String) → Items → Outcome Items
  resolve_items resolved no_items = ok no_items
  resolve_items resolved (item v rest) =
      resolve_references resolved v >>= λ w. resolve_items resolved rest >>= λ ws. ok (item w ws)

  pub resolve_fields : List (String × String) → Fields → Outcome Fields
  resolve_fields resolved no_fields = ok no_fields
  resolve_fields resolved (field key v rest) = resolve_references resolved v >>= λ w.
      resolve_fields resolved rest >>= λ fs. ok (field key w fs)
