-- ===== src/Scim/Patch/Read.antt =====
-- `parse_operations` of campusid/scim/patch.py: a PATCH body is read as a whole before it is applied.
use campus_id.Shared.{
  ℕ, suc, Bool, true, false, ◌&&◌, ◌||◌, not, Option, none, some, List, [], ◌∷◌, ltb, is_some,
  if◌then◌else◌,
}
use campus_id.Shared.Texts.{Text, codes, text_eq}
use campus_id.Scim.Filter.Syntax.{
  PatchPath, Parsed, ok as parsed, filter_error, out_of_fuel as no_fuel,
}
use campus_id.Scim.Filter.Literals.{Host}
use campus_id.Scim.Filter.Source.{parse_patch_path}
use campus_id.Scim.Filter.Evaluator.{
  Value, none_value, str_value, list_value, dict_value, Values, no_values, value, Fields, field_or,
  find_field,
}
use campus_id.Scim.Patch.Apply.{
  Patched, ok, patch_error, out_of_fuel, ◌>>=◌, invalid_value, invalid_path, no_target, mutability,
  Op, add, remove, replace, Operation, is_immutable,
}

-- `PATCH_OP_SCHEMA`
abbrev pub patch_op_schema : Text
patch_op_schema = codes "urn:ietf:params:scim:api:messages:2.0:PatchOp"

-- `MAX_OPERATIONS`
abbrev pub max_operations : ℕ
max_operations = 100

-- `Op(raw_op.lower())`
abbrev pub op_of : Text → Patched Op
op_of name =
    if text_eq name (codes "add")
    then ok add
    else if text_eq name (codes "remove")
    then ok remove
    else if text_eq name (codes "replace")
    then ok replace
    else patch_error invalid_value

abbrev pub is_remove : Op → Bool
is_remove remove = true
is_remove _ = false

-- `entry[name]`, if it is there.
abbrev pub entry_at : {N : Type 0} → Text → Fields N → Option (Value N)
entry_at name entries = find_field (λ k. text_eq k name) entries

abbrev pub declares_text : {N : Type 0} → Text → Values N → Bool
declares_text name no_values = false
declares_text name (value (str_value s) rest) = text_eq s name || declares_text name rest
declares_text name (value v rest) = declares_text name rest

abbrev pub count_values : {N : Type 0} → Values N → ℕ
count_values no_values = 0
count_values (value v rest) = suc (count_values rest)

abbrev pub as_path : {A : Type 0} → Parsed A → Patched A
as_path (parsed path) = ok path
as_path filter_error = patch_error invalid_path
as_path no_fuel = out_of_fuel

module _ (host : Host) where
  abbrev pub parse_op : Value host.Number → Patched Op
  parse_op (str_value s) = op_of (host.lower s)
  parse_op _ = patch_error invalid_value

  abbrev pub changeable : PatchPath host.Number → Patched (Option (PatchPath host.Number))
  changeable path =
      if is_immutable (host.lower path.path.attribute)
      then patch_error mutability
      else ok (some path)

  abbrev pub parse_path : Value host.Number → Patched (Option (PatchPath host.Number))
  parse_path none_value = ok none
  parse_path (str_value s) = as_path (parse_patch_path host s) >>= changeable
  parse_path _ = patch_error invalid_path

  -- The two last checks: a removal has a path, and another operation a value.
  abbrev pub completed :
      Op
      → Option (PatchPath host.Number)
      → Option (Value host.Number)
      → Patched (Operation host.Number)
  completed op path v =
      let operation : Operation host.Number = record {
        op = op;
        path = path;
        new_value = field_or v;
      } in
      if is_remove op && not (is_some path)
      then patch_error no_target
      else if not (is_remove op) && not (is_some v)
      then patch_error invalid_value
      else ok operation

  -- `_parse_one`
  unfoldable pub parse_one : Value host.Number → Patched (Operation host.Number)
  unfolding parse_patch_path
  parse_one (dict_value entry) = parse_op (field_or (entry_at (codes "op") entry)) >>= λ op.
      parse_path (field_or (entry_at (codes "path") entry)) >>= λ path.
      completed op path (entry_at (codes "value") entry)
  parse_one _ = patch_error invalid_value

  abbrev pub parse_all : Values host.Number → Patched (List (Operation host.Number))
  parse_all no_values = ok []
  parse_all (value entry rest) =
      parse_one entry >>= λ operation. parse_all rest >>= λ operations. ok (operation ∷ operations)

  abbrev pub with_operations : Value host.Number → Patched (List (Operation host.Number))
  with_operations (list_value (value first rest)) =
      if ltb max_operations (count_values (value first rest))
      then patch_error invalid_value
      else parse_all (value first rest)
  with_operations _ = patch_error invalid_value

  abbrev pub with_schemas :
      Fields host.Number → Value host.Number → Patched (List (Operation host.Number))
  with_schemas document (list_value schemas) =
      if declares_text patch_op_schema schemas
      then with_operations (field_or (entry_at (codes "Operations") document))
      else patch_error invalid_value
  with_schemas document _ = patch_error invalid_value

  unfoldable pub parse_operations : Value host.Number → Patched (List (Operation host.Number))
  unfolding parse_one
  parse_operations (dict_value document) =
      with_schemas document (field_or (entry_at (codes "schemas") document))
  parse_operations _ = patch_error invalid_value
