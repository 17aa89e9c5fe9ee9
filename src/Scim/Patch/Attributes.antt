-- ===== src/Scim/Patch/Attributes.antt =====
-- The access to attributes in campusid/scim/patch.py. A dictionary that the source changes in place is
-- answered anew here, with its keys in the order that Python keeps.
use campus_id.Shared.{Bool, Option, none, some, [], ◌∷◌, if◌then◌else◌}
use campus_id.Shared.Texts.{Text, text_eq}
use campus_id.Scim.Filter.Literals.{Host}
use campus_id.Scim.Filter.Evaluator.{
  Value, none_value, Fields, no_fields, field, field_or, find_field,
}

-- `container[key] = v`: the key keeps its place, or comes last.
abbrev pub put : {N : Type 0} → Text → Value N → Fields N → Fields N
put key v no_fields = field key v no_fields
put key v (field k u rest) =
    let later = put key v rest in if text_eq k key then field k v rest else field k u later

-- `del container[key]`
abbrev pub drop_key : {N : Type 0} → Text → Fields N → Fields N
drop_key key no_fields = no_fields
drop_key key (field k u rest) =
    let later = drop_key key rest in if text_eq k key then rest else field k u later

-- The first key that passes a test.
abbrev pub find_key : {N : Type 0} → (Text → Bool) → Fields N → Option Text
find_key p no_fields = none
find_key p (field k u rest) = let later = find_key p rest in if p k then some k else later

abbrev pub or_key : Option Text → Option Text → Option Text
or_key none later = later
or_key (some key) later = some key

-- An empty key counts as none.
abbrev pub truthy_key : Option Text → Option Text
truthy_key none = none
truthy_key (some []) = none
truthy_key (some (c ∷ key)) = some (c ∷ key)

abbrev pub key_or : Text → Option Text → Text
key_or name none = name
key_or name (some key) = key

abbrev pub value_at : {N : Type 0} → Option Text → Fields N → Value N
value_at none entries = none_value
value_at (some key) entries = field_or (find_field (λ k. text_eq k key) entries)

abbrev pub without : {N : Type 0} → Option Text → Fields N → Fields N
without none entries = entries
without (some key) entries = drop_key key entries

module _ (host : Host) where
  -- `_key`
  unfoldable pub key_of : Fields host.Number → Text → Option Text
  key_of entries name =
      or_key (find_key (λ k. text_eq k name) entries)
        (find_key (λ k. text_eq (host.lower k) (host.lower name)) entries)

  -- `_get`
  unfoldable pub get_attr : Fields host.Number → Text → Value host.Number
  unfolding key_of
  get_attr entries name = value_at (truthy_key (key_of entries name)) entries

  -- `_set`
  unfoldable pub set_attr : Fields host.Number → Text → Value host.Number → Fields host.Number
  unfolding key_of
  set_attr entries name v = put (key_or name (truthy_key (key_of entries name))) v entries

  -- `_delete`
  unfoldable pub delete_attr : Fields host.Number → Text → Fields host.Number
  unfolding key_of
  delete_attr entries name = without (truthy_key (key_of entries name)) entries
