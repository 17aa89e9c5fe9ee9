-- ===== src/Scim/Patch/Examples.antt =====
-- Concrete patches of campusid/scim/patch.py, on a host whose texts are in lower case already.
use campus_id.Shared.{ℕ, ◌≡◌, refl, ◌&&◌, none, some, [], ◌∷◌, eqb, ltb, leb, length}
use campus_id.Shared.Texts.{codes}
use campus_id.Scim.Filter.Syntax.{Node, present, ok as parsed_path}
use campus_id.Scim.Filter.Literals.{Host, parse_attr_path}
use campus_id.Scim.Filter.Tokenizer.{tokenize, scan, token_at}
use campus_id.Scim.Filter.Source.{parse_patch_path}
use campus_id.Scim.Filter.Evaluator.{
  Value, str_value, list_value, dict_value, Values, no_values, value, Fields, no_fields, field,
  Numbers, is_member, matches, select_members,
}
use campus_id.Scim.Patch.Attributes.{get_attr}
use campus_id.Scim.Patch.Stored.{stored}
use campus_id.Scim.Patch.Apply.{
  ok, remove, replace, Operation, apply_one, apply_patch, replaced, change_selected,
}
use campus_id.Scim.Patch.Kept.{Keeps}
use campus_id.Scim.Patch.Overwrites.{
  result_of, qualified, replacing, without_sub, replace-id_overwritten, remove-list_lost,
}
use campus_id.Scim.Patch.Selected.{unmatched, with_matched, change_selected-exact}
use campus_id.Scim.Patch.Read.{parse_operations, parse_one, patch_op_schema}
use campus_id.Scim.Patch.Accepted.{parse_operations-Keeps}

abbrev plain : Host
plain = record {
  Number = ℕ;
  lower = λ s. s;
  number_of = λ s. length s;
  is_space = λ c. eqb c b' ';
  is_digit = λ c. leb 48 c && leb c 57;
}

abbrev numbers : Numbers plain
numbers = record { same = eqb; less = ltb; at_most = leb }

abbrev mail : Fields ℕ
mail = field (codes "type") (str_value (codes "work")) no_fields

abbrev members : Values ℕ
members = value (dict_value mail) (value (dict_value no_fields) no_values)

abbrev person : Fields ℕ
person =
    field (codes "id") (str_value (codes "42"))
      (field (codes "emails") (list_value members) no_fields)

abbrev new_name : Value ℕ
new_name = str_value (codes "sam")

abbrev rename : Operation ℕ
rename = record {
  op = replace;
  path = some (record {
    path = record { attribute = codes "nick"; sub_attribute = none; urn = none };
    predicate = none;
    sub_attribute = none;
  });
  new_value = new_name;
}

abbrev entry : Value ℕ
entry = dict_value (
    field (codes "op") (str_value (codes "replace"))
      (field (codes "path") (str_value (codes "nick")) (field (codes "value") new_name no_fields)))

abbrev body : Value ℕ
body = dict_value (
    field (codes "schemas") (list_value (value (str_value patch_op_schema) no_values))
      (field (codes "Operations") (list_value (value entry no_values)) no_fields))

parsed : parse_operations plain body ≡ ok (rename ∷ [])
unfolding parse_operations parse_one parse_patch_path tokenize scan token_at parse_attr_path
parsed = refl

parse_operations-Keeps_example :
    Keeps (codes "id") person (apply_patch plain numbers person (rename ∷ []))
parse_operations-Keeps_example =
    parse_operations-Keeps plain numbers body (rename ∷ []) person (codes "id") parsed (tt, tt) refl
      refl

id_of_person : get_attr plain person (codes "id") ≡ str_value (codes "42")
unfolding get_attr
id_of_person = refl

path_behind_id :
    parse_patch_path plain (codes "id:x")
    ≡ parsed_path (record {
      path = record { attribute = codes "x"; sub_attribute = none; urn = some (codes "id") };
      predicate = none;
      sub_attribute = none;
    })
unfolding parse_patch_path tokenize scan token_at parse_attr_path
path_behind_id = refl

replace-id_overwritten_example :
    (parse_operations plain (replacing plain numbers (codes "id:x") new_name)
      ≡ ok (qualified plain numbers (codes "id") (codes "x") new_name ∷ []))
    × (stored (codes "id") (
          result_of (
            apply_patch plain numbers person
              (qualified plain numbers (codes "id") (codes "x") new_name ∷ [])))
        ≡ some (dict_value (field (codes "x") new_name no_fields)))
replace-id_overwritten_example =
    replace-id_overwritten plain numbers (codes "id:x") (codes "x") (codes "42") new_name person
      refl path_behind_id refl id_of_person

emails_of_person : get_attr plain person (codes "emails") ≡ list_value members
unfolding get_attr
emails_of_person = refl

remove-list_lost_example :
    get_attr plain
      (result_of (
        apply_one plain numbers (without_sub plain numbers (codes "emails") (codes "type")) person))
      (codes "emails")
    ≡ dict_value no_fields
remove-list_lost_example =
    remove-list_lost plain numbers (codes "emails") (codes "type") members person (λ e. cc)
      (λ e. cc) emails_of_person

abbrev has_type : Node ℕ
has_type = present (record { attribute = codes "type"; sub_attribute = none; urn = none })

change_selected-exact_example :
    (change_selected plain numbers remove none new_name
        (select_members plain numbers has_type members)
        members
      ≡ unmatched (is_member (matches plain numbers has_type)) members)
    × (change_selected plain numbers replace none new_name
          (select_members plain numbers has_type members)
          members
        ≡ with_matched
            (is_member (matches plain numbers has_type))
            (replaced plain numbers none new_name)
            members)
change_selected-exact_example = change_selected-exact plain numbers has_type none new_name members
