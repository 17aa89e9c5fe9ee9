-- ===== src/Scim/Patch/Apply.antt =====
-- `apply_patch` of campusid/scim/patch.py: the operations one after the other, on a copy.
use campus_id.Shared.{
  ℕ, zero, suc, Bool, true, false, Option, none, some, List, [], ◌∷◌, any, if◌then◌else◌,
}
use campus_id.Shared.Texts.{Text, codes, text_eq}
use campus_id.Scim.Filter.Syntax.{Node, PatchPath}
use campus_id.Scim.Filter.Literals.{Host, or_none}
use campus_id.Scim.Filter.Evaluator.{
  Value, list_value, dict_value, Values, no_values, value, Fields, no_fields, field, Numbers,
  urn_of, select_members,
}
use campus_id.Scim.Patch.Attributes.{put, get_attr, set_attr, delete_attr}

-- The `scimType` of a PatchError.
pub data PatchType : Type 0 where
  invalid_value invalid_path no_target mutability : PatchType

-- What a patch answers: a result, a PatchError, or fuel that ran out.
pub data Patched {ℓ} (A : Type ℓ) : Type ℓ where
  ok : A → Patched A
  patch_error : PatchType → Patched A
  out_of_fuel : Patched A

infixl 5 ◌>>=◌
abbrev pub ◌>>=◌ {ℓ κ} : {A : Type ℓ} {B : Type κ} → Patched A → (A → Patched B) → Patched B
ok a >>= f = f a
patch_error kind >>= f = patch_error kind
out_of_fuel >>= f = out_of_fuel

pub data Op : Type 0 where
  add remove replace : Op

pub record Operation (Number : Type 0) : Type 0 where
  pub op : Op
  pub path : Option (PatchPath Number)
  pub new_value : Value Number

-- `IMMUTABLE`
abbrev pub immutable : List Text
immutable = codes "id" ∷ codes "schemas" ∷ codes "meta" ∷ []

abbrev pub is_immutable : Text → Bool
is_immutable name = any (λ k. text_eq k name) immutable

-- `[*existing, *additions]`
abbrev pub append_values : {N : Type 0} → Values N → Values N → Values N
append_values no_values ws = ws
append_values (value v vs) ws = value v (append_values vs ws)

abbrev pub additions_of : {N : Type 0} → Value N → Values N
additions_of (list_value vs) = vs
additions_of v = value v no_values

-- What an `add` stores, from what is there.
abbrev pub added : {N : Type 0} → Value N → Value N → Value N
added (list_value existing) v = list_value (append_values existing (additions_of v))
added existing v = v

-- `members[i] = f(members[i])` and `del members[i]`
abbrev pub update_at : {N : Type 0} → (Value N → Value N) → ℕ → Values N → Values N
update_at f i no_values = no_values
update_at f zero (value v rest) = value (f v) rest
update_at f (suc i) (value v rest) = value v (update_at f i rest)

abbrev pub remove_at : {N : Type 0} → ℕ → Values N → Values N
remove_at i no_values = no_values
remove_at zero (value v rest) = rest
remove_at (suc i) (value v rest) = value v (remove_at i rest)

abbrev pub update_each : {N : Type 0} → (Value N → Value N) → List ℕ → Values N → Values N
update_each f [] vs = vs
update_each f (i ∷ is) vs = update_each f is (update_at f i vs)

-- `for index in reversed(selected): del members[index]`
abbrev pub remove_each : {N : Type 0} → List ℕ → Values N → Values N
remove_each [] vs = vs
remove_each (i ∷ is) vs = remove_at i (remove_each is vs)

-- `member.update(entries)`
abbrev pub update_with : {N : Type 0} → Fields N → Fields N → Fields N
update_with no_fields member = member
update_with (field k v rest) member = update_with rest (put k v member)

-- A member that is a dictionary, changed; another one stays.
abbrev pub in_member : {N : Type 0} → (Fields N → Fields N) → Value N → Value N
in_member f (dict_value member) = dict_value (f member)
in_member f v = v

abbrev pub dict_or_empty : {N : Type 0} → Value N → Fields N
dict_or_empty (dict_value entries) = entries
dict_or_empty v = no_fields

-- The key that holds the extension of a URN: its own spelling, where a dictionary is there.
abbrev pub is_dict : {N : Type 0} → Value N → Bool
is_dict (dict_value entries) = true
is_dict v = false

-- `path.sub_attribute`, where an empty text counts as none.
abbrev pub sub_text : Option Text → Option Text
sub_text none = none
sub_text (some sub) = or_none sub

module _ (host : Host) where
  -- The end of `_apply_direct`: the container after the operation.
  unfoldable pub direct : Op → Value host.Number → Text → Fields host.Number → Fields host.Number
  direct remove v name container = delete_attr host container name
  direct add v name container =
      set_attr host container name (added (get_attr host container name) v)
  direct replace v name container = set_attr host container name v

  -- The end of `_target`: a change of the attribute, or of the sub-attribute in its parent.
  abbrev pub in_parent :
      Text
      → Option Text
      → (Text → Fields host.Number → Fields host.Number)
      → Fields host.Number
      → Fields host.Number
  in_parent attribute none change container = change attribute container
  in_parent attribute (some sub) change container =
      set_attr host container attribute
        (dict_value (change sub (dict_or_empty (get_attr host container attribute))))

  -- The beginning of `_target`: the resource, or the extension that a URN names. What is not a
  -- dictionary is replaced, under the URN as it is given.
  abbrev pub stored_extension :
      Text → Bool → Fields host.Number → Fields host.Number → Fields host.Number
  stored_extension urn true resource extension = set_attr host resource urn (dict_value extension)
  stored_extension urn false resource extension = put urn (dict_value extension) resource

  abbrev pub in_container :
      Option Text
      → (Fields host.Number → Patched (Fields host.Number))
      → Fields host.Number
      → Patched (Fields host.Number)
  in_container none change resource = change resource
  in_container (some urn) change resource =
      change (dict_or_empty (get_attr host resource urn)) >>= λ extension.
      ok (stored_extension urn (is_dict (get_attr host resource urn)) resource extension)

  -- `_apply_direct`
  unfoldable pub apply_direct :
      Op
      → Value host.Number
      → PatchPath host.Number
      → Fields host.Number
      → Patched (Fields host.Number)
  unfolding direct
  apply_direct op v path resource =
      in_container (urn_of path.path.urn)
        (λ container.
          ok (in_parent path.path.attribute (sub_text path.sub_attribute) (direct op v) container))
        resource

  module _ (numbers : Numbers host) where
    -- A selected member after an `add` or a `replace`.
    abbrev pub replaced : Option Text → Value host.Number → Value host.Number → Value host.Number
    replaced (some sub) v member = in_member (λ entries. set_attr host entries sub v) member
    replaced none (dict_value entries) member = in_member (update_with entries) member
    replaced none v member = v

    abbrev pub remove_selected : Option Text → List ℕ → Values host.Number → Values host.Number
    remove_selected none selected members = remove_each selected members
    remove_selected (some sub) selected members =
        update_each (in_member (λ entries. delete_attr host entries sub)) selected members

    abbrev pub change_selected :
        Op → Option Text → Value host.Number → List ℕ → Values host.Number → Values host.Number
    change_selected remove sub v selected members = remove_selected sub selected members
    change_selected _ sub v selected members = update_each (replaced sub v) selected members

    -- `_apply_filtered`, on what the attribute holds.
    abbrev pub filtered :
        Op
        → Node host.Number
        → Option Text
        → Value host.Number
        → Text
        → Fields host.Number
        → Value host.Number
        → Patched (Fields host.Number)
    filtered op predicate sub v name container (list_value members) = ok (
        set_attr host container name (
          list_value
            (change_selected op sub v (select_members host numbers predicate members) members)))
    filtered remove predicate sub v name container _ = ok container
    filtered _ predicate sub v name container _ = patch_error no_target

    -- `_apply_filtered`
    unfoldable pub apply_filtered :
        Op
        → Value host.Number
        → PatchPath host.Number
        → Node host.Number
        → Fields host.Number
        → Patched (Fields host.Number)
    apply_filtered op v path predicate resource =
        in_container (urn_of path.path.urn)
          (λ container.
            filtered op predicate (sub_text path.sub_attribute) v path.path.attribute container
              (get_attr host container path.path.attribute))
          resource

    -- `_apply_pathless`: each field as an operation of its own.
    abbrev pub field_path : Text → PatchPath host.Number
    field_path name = record {
      path = record { attribute = name; sub_attribute = none; urn = none };
      predicate = none;
      sub_attribute = none;
    }

    abbrev pub each_field :
        Op → Fields host.Number → Fields host.Number → Patched (Fields host.Number)
    each_field op no_fields resource = ok resource
    each_field op (field name v rest) resource =
        let next = apply_direct op v (field_path name) resource >>= each_field op rest in
        if is_immutable (host.lower name) then patch_error mutability else next

    abbrev pub apply_pathless :
        Op → Value host.Number → Fields host.Number → Patched (Fields host.Number)
    apply_pathless op (dict_value entries) resource = each_field op entries resource
    apply_pathless op v resource = patch_error invalid_value

    abbrev pub at_path :
        Op
        → Value host.Number
        → PatchPath host.Number
        → Option (Node host.Number)
        → Fields host.Number
        → Patched (Fields host.Number)
    at_path op v path none resource = apply_direct op v path resource
    at_path op v path (some predicate) resource = apply_filtered op v path predicate resource

    abbrev pub on_path :
        Op
        → Value host.Number
        → Option (PatchPath host.Number)
        → Fields host.Number
        → Patched (Fields host.Number)
    on_path op v none resource = apply_pathless op v resource
    on_path op v (some path) resource = at_path op v path path.predicate resource

    -- `_apply_one`
    unfoldable pub apply_one :
        Operation host.Number → Fields host.Number → Patched (Fields host.Number)
    unfolding apply_direct apply_filtered
    apply_one operation resource = on_path operation.op operation.new_value operation.path resource

    -- `apply_patch`
    unfoldable pub apply_patch :
        Fields host.Number → List (Operation host.Number) → Patched (Fields host.Number)
    unfolding apply_one
    apply_patch resource [] = ok resource
    apply_patch resource (operation ∷ rest) =
        apply_one operation resource >>= λ working. apply_patch working rest
