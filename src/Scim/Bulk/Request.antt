-- ===== src/Scim/Bulk/Request.antt =====
-- `parse_bulk` of campusid/scim/bulk.py: a bulk request is read and checked as a whole. `upper` stands
-- for `str.upper`.
use Prim.Native.Char.{code}
use Prim.Native.String.{String}
use campus_id.Shared.{
  ℕ, suc, Bool, true, false, not, ◌&&◌, ◌||◌, Option, none, some, List, [], ◌∷◌, ◌++◌, ◌==◌, eqb,
  ltb, filter, contains, is_some, truthy, if◌then◌else◌,
}
use campus_id.Scim.Bulk.Document.{
  Json, null, whole, text, array, object, Items, no_items, item, Fields, Outcome, ok, scim_error,
  ScimType, invalid_syntax, invalid_value, too_many, invalid_path, get, ◌>>=◌,
}
use campus_id.Scim.Bulk.References.{reference, reference_list, referenced_bulk_ids}
use campus_id.Scim.Bulk.Order.{Operation, bulk_ids_unique, ordered}

pub record BulkRequest : Type 0 where
  pub operations : List Operation
  pub fail_on_errors : Option ℕ

-- `BULK_REQUEST`, `METHODS`, `RESOURCES` and `MAX_BULK_OPERATIONS`
abbrev pub bulk_request : String
bulk_request = "urn:ietf:params:scim:api:messages:2.0:BulkRequest"

abbrev pub methods : List String
methods = "POST" ∷ "PUT" ∷ "PATCH" ∷ "DELETE" ∷ []

abbrev pub resources : List String
resources = "Users" ∷ "Groups" ∷ []

abbrev pub max_bulk_operations : ℕ
max_bulk_operations = 100

-- An `if` that raises.
abbrev pub refuse_if : Bool → ℕ → ScimType → Outcome Bool
refuse_if true status kind = scim_error status kind
refuse_if false status kind = ok true

-- `path.split("/")`: the part before the first slash, and the others.
abbrev pub split_slash : String → String × List String
split_slash String.[] = (String.[], [])
split_slash (String.◌∷◌ c s) =
    let tail = split_slash s in
    if eqb (code c) b'/' then (String.[], tail.0 ∷ tail.1) else (String.◌∷◌ c tail.0, tail.1)

abbrev pub parts_of : String → List String
parts_of path = filter (λ part. not (part == "")) ((split_slash path).0 ∷ (split_slash path).1)

abbrev pub starts_with_slash : String → Bool
starts_with_slash String.[] = false
starts_with_slash (String.◌∷◌ c s) = eqb (code c) b'/'

abbrev pub addressed : List String → Outcome (String × Option String)
addressed (resource ∷ []) =
    if contains resource resources then ok (resource, none) else scim_error 400 invalid_path
addressed (resource ∷ (id ∷ [])) =
    if contains resource resources then ok (resource, some id) else scim_error 400 invalid_path
addressed _ = scim_error 400 invalid_path

-- `_parse_path`
unfoldable pub parse_path : Json → Outcome (String × Option String)
parse_path (text path) =
    if starts_with_slash path then addressed (parts_of path) else scim_error 400 invalid_path
parse_path _ = scim_error 400 invalid_path

-- `_fail_on_errors`
unfoldable pub fail_on_errors_of : Json → Outcome (Option ℕ)
fail_on_errors_of null = ok none
fail_on_errors_of (whole n) = if ltb n 1 then scim_error 400 invalid_value else ok (some n)
fail_on_errors_of _ = scim_error 400 invalid_value

-- A text or nothing.
abbrev pub optional_text : Json → Outcome (Option String)
optional_text null = ok none
optional_text (text s) = ok (some s)
optional_text _ = scim_error 400 invalid_value

abbrev pub is_object : Json → Bool
is_object (object entries) = true
is_object _ = false

-- The reference in the path, if it has one.
abbrev pub path_reference : Option String → List String
path_reference none = []
path_reference (some id) = reference_list (reference id)

abbrev pub refers_to_itself : Option String → List String → Bool
refers_to_itself none references = false
refers_to_itself (some id) references = contains id references

abbrev pub declares : String → Items → Bool
declares name no_items = false
declares name (item (text s) rest) = (s == name) || declares name rest
declares name (item v rest) = declares name rest

abbrev pub count_items : Items → ℕ
count_items no_items = 0
count_items (item v rest) = suc (count_items rest)

module _ (upper : String → String) where
  abbrev pub parse_method : Json → Outcome String
  parse_method (text s) =
      if contains (upper s) methods then ok (upper s) else scim_error 400 invalid_value
  parse_method _ = scim_error 400 invalid_value

  -- The operation, once its parts are read: the checks in their order.
  abbrev pub assembled :
      String → String × Option String → Option String → Option String → Json → Outcome Operation
  assembled method (resource, resource_id) bulk_id version data_of =
      let references = referenced_bulk_ids data_of ++ path_reference resource_id in
      refuse_if (refers_to_itself bulk_id references) 409 invalid_value >>= λ _. ok (record {
        method = method;
        resource = resource;
        resource_id = resource_id;
        bulk_id = bulk_id;
        data_of = data_of;
        version = version;
        depends_on = references;
      })

  abbrev pub with_data : String → Json → Outcome Json
  with_data method data_of =
      if not (method == "DELETE") && not (is_object data_of)
      then scim_error 400 invalid_value
      else ok data_of

  abbrev pub addressing : String → Option String → Option String → Outcome Bool
  addressing method resource_id bulk_id =
      refuse_if ((method == "POST") && not (truthy bulk_id)) 400 invalid_value >>= λ _.
      refuse_if (not (method == "POST") && not (is_some resource_id)) 400 invalid_path >>= λ _.
      refuse_if ((method == "POST") && is_some resource_id) 400 invalid_path

  -- `_parse_one`
  unfoldable pub parse_one : Json → Outcome Operation
  unfolding parse_path referenced_bulk_ids reference
  parse_one (object entry) = parse_method (get entry "method") >>= λ method.
      parse_path (get entry "path") >>= λ address. optional_text (get entry "bulkId") >>= λ bulk_id.
      addressing method address.1 bulk_id >>= λ _.
      optional_text (get entry "version") >>= λ version.
      with_data method (get entry "data") >>= λ data_of.
      assembled method address bulk_id version data_of
  parse_one _ = scim_error 400 invalid_syntax

  abbrev pub parse_all : Items → Outcome (List Operation)
  parse_all no_items = ok []
  parse_all (item entry rest) =
      parse_one entry >>= λ operation. parse_all rest >>= λ operations. ok (operation ∷ operations)

  abbrev pub requested : Option ℕ → List Operation → Outcome BulkRequest
  requested fail_on_errors operations = bulk_ids_unique [] operations >>= λ _.
      ordered operations >>= λ sequence.
      ok (record { operations = sequence; fail_on_errors = fail_on_errors })

  abbrev pub with_operations : Fields → Json → Outcome BulkRequest
  with_operations document (array (item first rest)) =
      refuse_if (ltb max_bulk_operations (count_items (item first rest))) 413 too_many >>= λ _.
      fail_on_errors_of (get document "failOnErrors") >>= λ fail_on_errors.
      parse_all (item first rest) >>= requested fail_on_errors
  with_operations document _ = scim_error 400 invalid_value

  abbrev pub with_schemas : Fields → Json → Outcome BulkRequest
  with_schemas document (array schemas) =
      if declares bulk_request schemas
      then with_operations document (get document "Operations")
      else scim_error 400 invalid_syntax
  with_schemas document _ = scim_error 400 invalid_syntax

  unfoldable pub parse_bulk : Json → Outcome BulkRequest
  unfolding parse_one fail_on_errors_of bulk_ids_unique ordered
  parse_bulk (object document) = with_schemas document (get document "schemas")
  parse_bulk _ = scim_error 400 invalid_syntax
