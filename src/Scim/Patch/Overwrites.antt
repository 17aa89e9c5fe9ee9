-- ===== src/Scim/Patch/Overwrites.antt =====
-- Two paths of campusid/scim/patch.py that overwrite what they do not name.
use campus_id.Shared.{◌≡◌, ◌≢◌, refl, false, none, some, [], ◌∷◌}
use campus_id.Shared.Texts.{Text, codes}
use campus_id.Scim.Filter.Syntax.{ok as parsed}
use campus_id.Scim.Filter.Literals.{Host}
use campus_id.Scim.Filter.Source.{parse_patch_path}
use campus_id.Scim.Filter.Evaluator.{
  Value, none_value, str_value, list_value, dict_value, Values, no_values, value, Fields, no_fields,
  field, Numbers,
}
use campus_id.Scim.Patch.Attributes.{get_attr, set_attr, delete_attr}
use campus_id.Scim.Patch.Stored.{stored, stored-put, get_attr-set_attr}
use campus_id.Scim.Patch.Apply.{
  Patched, ok, remove, replace, Operation, direct, apply_direct, apply_one, apply_patch,
  is_immutable,
}
use campus_id.Scim.Patch.Read.{parse_operations, parse_one, patch_op_schema}

-- The result, if there is one.
abbrev pub result_of : {N : Type 0} → Patched (Fields N) → Fields N
result_of (ok result) = result
result_of _ = no_fields

module _ (host : Host) (numbers : Numbers host) where
  -- A path that qualifies an attribute by a URN: `urn:attribute`.
  abbrev pub qualified : Text → Text → Value host.Number → Operation host.Number
  qualified urn attribute v = record {
    op = replace;
    path = some (record {
      path = record { attribute = attribute; sub_attribute = none; urn = some urn };
      predicate = none;
      sub_attribute = none;
    });
    new_value = v;
  }

  -- A PATCH body with one operation: to replace what stands at a path that is written as `source`.
  abbrev pub replacing : Text → Value host.Number → Value host.Number
  replacing source v = dict_value (
      field (codes "schemas") (list_value (value (str_value patch_op_schema) no_values)) (
        field (codes "Operations")
          (list_value (
            value
              (dict_value (
                field (codes "op") (str_value (codes "replace"))
                  (field (codes "path") (str_value source) (field (codes "value") v no_fields))))
              no_values))
          no_fields))

  -- A PATCH body that replaces what stands at a path is accepted by `parse_operations` and, applied by
  -- `apply_patch` to a resource whose `id` is a text, leaves an object with the attribute and the new
  -- value as the `id`, where the path is read as the attribute behind the URN `id` and the attribute
  -- is not immutable itself. (`str.lower` leaves `replace` as it is.)
  pub replace-id_overwritten :
      (source attribute s : Text) (v : Value host.Number) (resource : Fields host.Number)
      → host.lower (codes "replace") ≡ codes "replace"
      → parse_patch_path host source
        ≡ parsed (record {
          path = record { attribute = attribute; sub_attribute = none; urn = some (codes "id") };
          predicate = none;
          sub_attribute = none;
        })
      → is_immutable (host.lower attribute) ≡ false
      → get_attr host resource (codes "id") ≡ str_value s
      → (parse_operations host (replacing source v) ≡ ok (qualified (codes "id") attribute v ∷ []))
        × (stored (codes "id") (
              result_of
                (apply_patch host numbers resource (qualified (codes "id") attribute v ∷ [])))
            ≡ some (dict_value (field attribute v no_fields)))
  unfolding parse_operations parse_one apply_patch apply_one apply_direct direct set_attr
  replace-id_overwritten source attribute s v resource word reads free h = (
    rw (word, reads, free) refl,
    rw h (stored-put (codes "id") (dict_value (field attribute v no_fields)) resource),
  )

  abbrev pub without_sub : Text → Text → Operation host.Number
  without_sub attribute sub = record {
    op = remove;
    path = some (record {
      path = record { attribute = attribute; sub_attribute = some sub; urn = none };
      predicate = none;
      sub_attribute = some sub;
    });
    new_value = none_value;
  }

  -- The removal of a sub-attribute from an attribute that has a list of values replaces the whole list
  -- by an empty object.
  pub remove-list_lost :
      (attribute sub : Text) (members : Values host.Number) (resource : Fields host.Number)
      → attribute ≢ []
      → sub ≢ []
      → get_attr host resource attribute ≡ list_value members
      → get_attr host
          (result_of (apply_one host numbers (without_sub attribute sub) resource))
          attribute
        ≡ dict_value no_fields
  unfolding apply_one apply_direct direct delete_attr
  remove-list_lost attribute [] members resource n f h = absurd (f refl)
  remove-list_lost attribute (c ∷ sub) members resource n f h =
      rw h (get_attr-set_attr host attribute (dict_value no_fields) resource n)
