-- ===== src/Scim/Patch/Immutable.antt =====
-- The attributes that a patch of campusid/scim/patch.py does not change.
use campus_id.Shared.{
  ◌≡◌, refl, sym, ap, ◌∙◌, inl, inr, true, false, Bool-cases, Option, none, some, List, [], ◌∷◌,
}
use campus_id.Shared.Texts.{Text}
use campus_id.Scim.Filter.Syntax.{Node, PatchPath}
use campus_id.Scim.Filter.Literals.{Host}
use campus_id.Scim.Filter.Evaluator.{
  Value, none_value, bool_value, number_value, str_value, list_value, dict_value, Fields, no_fields,
  field, Numbers, urn_of, select_members,
}
use campus_id.Scim.Patch.Attributes.{get_attr}
use campus_id.Scim.Patch.Stored.{stored-set_attr}
use campus_id.Scim.Patch.Apply.{
  Op, add, remove, replace, Operation, is_immutable, sub_text, apply_direct, change_selected,
  filtered, apply_filtered, field_path, each_field, at_path, on_path, apply_one, apply_patch,
}
use campus_id.Scim.Patch.Kept.{
  Keeps, bind-Keeps, IsOther, UrnIsOther, in_container-Keeps, apply_direct-Keeps,
}

module _ (host : Host) (numbers : Numbers host) where
  filtered-Keeps :
      (op : Op) (i : Text) (predicate : Node host.Number) (sub : Option Text)
      (v : Value host.Number) (name : Text) (container : Fields host.Number)
      (held : Value host.Number)
      → IsOther host i name
      → Keeps i container (filtered host numbers op predicate sub v name container held)
  filtered-Keeps op i predicate sub v name container (list_value members) h =
      stored-set_attr host i name
        (list_value (
          change_selected host numbers op sub v (select_members host numbers predicate members)
            members))
        container h
  filtered-Keeps remove i predicate sub v name container none_value h = refl
  filtered-Keeps remove i predicate sub v name container (bool_value b) h = refl
  filtered-Keeps remove i predicate sub v name container (number_value n) h = refl
  filtered-Keeps remove i predicate sub v name container (str_value s) h = refl
  filtered-Keeps remove i predicate sub v name container (dict_value e) h = refl
  filtered-Keeps add i predicate sub v name container none_value h = tt
  filtered-Keeps add i predicate sub v name container (bool_value b) h = tt
  filtered-Keeps add i predicate sub v name container (number_value n) h = tt
  filtered-Keeps add i predicate sub v name container (str_value s) h = tt
  filtered-Keeps add i predicate sub v name container (dict_value e) h = tt
  filtered-Keeps replace i predicate sub v name container none_value h = tt
  filtered-Keeps replace i predicate sub v name container (bool_value b) h = tt
  filtered-Keeps replace i predicate sub v name container (number_value n) h = tt
  filtered-Keeps replace i predicate sub v name container (str_value s) h = tt
  filtered-Keeps replace i predicate sub v name container (dict_value e) h = tt

  apply_filtered-Keeps :
      (op : Op) (i : Text) (v : Value host.Number) (path : PatchPath host.Number)
      (predicate : Node host.Number) (resource : Fields host.Number)
      → UrnIsOther host i (urn_of path.path.urn)
      → IsOther host i path.path.attribute
      → Keeps i resource (apply_filtered host numbers op v path predicate resource)
  unfolding apply_filtered
  apply_filtered-Keeps op i v path predicate resource u h =
      in_container-Keeps host i (urn_of path.path.urn)
        (λ container.
          filtered host numbers op predicate (sub_text path.sub_attribute) v path.path.attribute
            container (get_attr host container path.path.attribute))
        resource u
        (λ container.
          filtered-Keeps op i predicate (sub_text path.sub_attribute) v path.path.attribute
            container (get_attr host container path.path.attribute) h)

  -- A name that the guard lets pass is not the name of an immutable attribute.
  unguarded-IsOther :
      (i name : Text)
      → host.lower i ≡ i
      → is_immutable i ≡ true
      → is_immutable (host.lower name) ≡ false
      → IsOther host i name
  unguarded-IsOther i name l h g e =
      let same : i ≡ host.lower name = sym l ∙ e in let f = ap is_immutable same in cc

  each_field-Keeps :
      (op : Op) (i : Text) (entries resource : Fields host.Number)
      → host.lower i ≡ i
      → is_immutable i ≡ true
      → Keeps i resource (each_field host numbers op entries resource)
  each_field-Keeps op i no_fields resource l h = refl
  each_field-Keeps op i (field name v rest) resource l h =
      elim (Bool-cases (is_immutable (host.lower name))) [
        | inl e ↦ rw e tt
        | inr e ↦ rw e (
            bind-Keeps i resource (apply_direct host op v (field_path host numbers name) resource)
              (each_field host numbers op rest)
              (apply_direct-Keeps host op i v (field_path host numbers name) resource tt
                (unguarded-IsOther i name l h e))
              (λ middle. each_field-Keeps op i rest middle l h))
      ]

  abbrev pub UrnIsGuarded : Option Text → Type 0
  UrnIsGuarded none = Unit
  UrnIsGuarded (some urn) = is_immutable (host.lower urn) ≡ false

  -- An operation whose path names an immutable attribute neither as its attribute, which the reader
  -- checks, nor as its schema URN, which it does not.
  abbrev pub PathIsGuarded : Option (PatchPath host.Number) → Type 0
  PathIsGuarded none = Unit
  PathIsGuarded (some path) =
      (is_immutable (host.lower path.path.attribute) ≡ false) × UrnIsGuarded (urn_of path.path.urn)

  urn-IsOther :
      (i : Text) (urn : Option Text)
      → host.lower i ≡ i
      → is_immutable i ≡ true
      → UrnIsGuarded urn
      → UrnIsOther host i urn
  urn-IsOther i none l h g = tt
  urn-IsOther i (some urn) l h g = unguarded-IsOther i urn l h g

  at_path-Keeps :
      (op : Op) (i : Text) (v : Value host.Number) (path : PatchPath host.Number)
      (predicate : Option (Node host.Number)) (resource : Fields host.Number)
      → UrnIsOther host i (urn_of path.path.urn)
      → IsOther host i path.path.attribute
      → Keeps i resource (at_path host numbers op v path predicate resource)
  at_path-Keeps op i v path none resource u h = apply_direct-Keeps host op i v path resource u h
  at_path-Keeps op i v path (some predicate) resource u h =
      apply_filtered-Keeps op i v path predicate resource u h

  on_path-Keeps :
      (op : Op) (i : Text) (v : Value host.Number) (path : Option (PatchPath host.Number))
      (resource : Fields host.Number)
      → host.lower i ≡ i
      → is_immutable i ≡ true
      → PathIsGuarded path
      → Keeps i resource (on_path host numbers op v path resource)
  on_path-Keeps op i (dict_value entries) none resource l h g =
      each_field-Keeps op i entries resource l h
  on_path-Keeps op i none_value none resource l h g = tt
  on_path-Keeps op i (bool_value b) none resource l h g = tt
  on_path-Keeps op i (number_value n) none resource l h g = tt
  on_path-Keeps op i (str_value s) none resource l h g = tt
  on_path-Keeps op i (list_value vs) none resource l h g = tt
  on_path-Keeps op i v (some path) resource l h g =
      at_path-Keeps op i v path path.predicate resource
        (urn-IsOther i (urn_of path.path.urn) l h g.1)
        (unguarded-IsOther i path.path.attribute l h g.0)

  apply_one-Keeps :
      (i : Text) (operation : Operation host.Number) (resource : Fields host.Number)
      → host.lower i ≡ i
      → is_immutable i ≡ true
      → PathIsGuarded operation.path
      → Keeps i resource (apply_one host numbers operation resource)
  unfolding apply_one
  apply_one-Keeps i operation resource l h g =
      on_path-Keeps operation.op i operation.new_value operation.path resource l h g

  abbrev pub AllGuarded : List (Operation host.Number) → Type 0
  AllGuarded [] = Unit
  AllGuarded (operation ∷ rest) = PathIsGuarded operation.path × AllGuarded rest

  -- A patch that is applied leaves `id`, `schemas` and `meta` as they are, where no path names one of
  -- them, in upper or lower case, as its attribute or as its schema URN.
  pub apply_patch-Keeps :
      (i : Text) (operations : List (Operation host.Number)) (resource : Fields host.Number)
      → host.lower i ≡ i
      → is_immutable i ≡ true
      → AllGuarded operations
      → Keeps i resource (apply_patch host numbers resource operations)
  unfolding apply_patch
  apply_patch-Keeps i [] resource l h g = refl
  apply_patch-Keeps i (operation ∷ rest) resource l h g =
      bind-Keeps i resource (apply_one host numbers operation resource)
        (λ working. apply_patch host numbers working rest)
        (apply_one-Keeps i operation resource l h g.0)
        (λ working. apply_patch-Keeps i rest working l h g.1)
