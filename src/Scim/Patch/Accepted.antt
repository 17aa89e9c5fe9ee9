-- ===== src/Scim/Patch/Accepted.antt =====
-- A PATCH body that campusid/scim/patch.py reads and applies leaves the immutable attributes alone,
-- where no path is qualified by one of them.
use campus_id.Shared.{
  ◌≡◌, refl, inl, inr, true, false, Bool-cases, ◌&&◌, not, Option, none, some, List, [], ◌∷◌,
  is_some, ltb,
}
use campus_id.Shared.Texts.{Text, codes}
use campus_id.Scim.Filter.Syntax.{PatchPath}
use campus_id.Scim.Filter.Literals.{Host}
use campus_id.Scim.Filter.Source.{parse_patch_path}
use campus_id.Scim.Filter.Evaluator.{
  Value, none_value, bool_value, number_value, str_value, list_value, dict_value, Values, no_values,
  value, Fields, field_or, Numbers, urn_of,
}
use campus_id.Scim.Patch.Apply.{
  Patched, ok, patch_error, out_of_fuel, ◌>>=◌, Op, Operation, is_immutable, apply_patch,
}
use campus_id.Scim.Patch.Kept.{Keeps}
use campus_id.Scim.Patch.Immutable.{UrnIsGuarded, PathIsGuarded, AllGuarded, apply_patch-Keeps}
use campus_id.Scim.Patch.Read.{
  is_remove, entry_at, as_path, parse_op, changeable, parse_path, completed, parse_one, parse_all,
  with_operations, with_schemas, parse_operations, declares_text, patch_op_schema, max_operations,
  count_values,
}

abbrev Yields {ℓ κ} : {A : Type ℓ} → (A → Type κ) → Patched A → Type κ
Yields P (ok a) = P a
Yields P (patch_error kind) = Unit
Yields P out_of_fuel = Unit

bind-Yields {ℓ κ ι} :
    {A : Type ℓ} {B : Type κ} (P : B → Type ι) (m : Patched A) (f : A → Patched B)
    → ((a : A) → m ≡ ok a → Yields P (f a))
    → Yields P (m >>= f)
bind-Yields P (ok a) f h = h a refl
bind-Yields P (patch_error kind) f h = tt
bind-Yields P out_of_fuel f h = tt

module _ (host : Host) where
  -- What the reader checks of a path.
  abbrev PathIsChecked : Option (PatchPath host.Number) → Type 0
  PathIsChecked none = Unit
  PathIsChecked (some path) = is_immutable (host.lower path.path.attribute) ≡ false

  changeable-PathIsChecked :
      (path : PatchPath host.Number) → Yields PathIsChecked (changeable host path)
  changeable-PathIsChecked path =
      elim (Bool-cases (is_immutable (host.lower path.path.attribute))) [
        | inl e ↦ rw e tt
        | inr e ↦ rw e e
      ]

  parse_path-PathIsChecked : (v : Value host.Number) → Yields PathIsChecked (parse_path host v)
  parse_path-PathIsChecked (str_value s) =
      bind-Yields PathIsChecked (as_path (parse_patch_path host s)) (changeable host)
        (λ path e. changeable-PathIsChecked path)
  parse_path-PathIsChecked none_value = tt
  parse_path-PathIsChecked (bool_value b) = tt
  parse_path-PathIsChecked (number_value n) = tt
  parse_path-PathIsChecked (list_value vs) = tt
  parse_path-PathIsChecked (dict_value entries) = tt

  abbrev IsChecked : Operation host.Number → Type 0
  IsChecked operation = PathIsChecked operation.path

  completed-IsChecked :
      (op : Op) (path : Option (PatchPath host.Number)) (v : Option (Value host.Number))
      → PathIsChecked path
      → Yields IsChecked (completed host op path v)
  completed-IsChecked op path v h = elim (Bool-cases (is_remove op && not (is_some path))) [
    | inl e ↦ rw e tt
    | inr e ↦ elim (Bool-cases (not (is_remove op) && not (is_some v))) [
      | inl f ↦ rw (e, f) tt
      | inr f ↦ rw (e, f) h
    ]
  ]

  parse_one-IsChecked : (v : Value host.Number) → Yields IsChecked (parse_one host v)
  unfolding parse_one
  parse_one-IsChecked (dict_value entry) =
      bind-Yields IsChecked (parse_op host (field_or (entry_at (codes "op") entry))) _ (λ op e.
        bind-Yields IsChecked (parse_path host (field_or (entry_at (codes "path") entry))) _
          (λ path f.
            completed-IsChecked op path (entry_at (codes "value") entry)
              (rw f at (parse_path-PathIsChecked (field_or (entry_at (codes "path") entry))))))
  parse_one-IsChecked none_value = tt
  parse_one-IsChecked (bool_value b) = tt
  parse_one-IsChecked (number_value n) = tt
  parse_one-IsChecked (str_value s) = tt
  parse_one-IsChecked (list_value vs) = tt

  abbrev AllChecked : List (Operation host.Number) → Type 0
  AllChecked [] = Unit
  AllChecked (operation ∷ rest) = IsChecked operation × AllChecked rest

  parse_all-AllChecked : (vs : Values host.Number) → Yields AllChecked (parse_all host vs)
  parse_all-AllChecked no_values = tt
  parse_all-AllChecked (value v rest) = bind-Yields AllChecked (parse_one host v) _ (λ operation e.
      bind-Yields AllChecked (parse_all host rest) _
        (λ operations f. (rw e at (parse_one-IsChecked v), rw f at (parse_all-AllChecked rest))))

  with_operations-AllChecked : (v : Value host.Number) → Yields AllChecked (with_operations host v)
  with_operations-AllChecked (list_value (value first rest)) =
      elim (Bool-cases (ltb max_operations (count_values (value first rest)))) [
        | inl e ↦ rw e tt
        | inr e ↦ rw e (parse_all-AllChecked (value first rest))
      ]
  with_operations-AllChecked (list_value no_values) = tt
  with_operations-AllChecked none_value = tt
  with_operations-AllChecked (bool_value b) = tt
  with_operations-AllChecked (number_value n) = tt
  with_operations-AllChecked (str_value s) = tt
  with_operations-AllChecked (dict_value entries) = tt

  with_schemas-AllChecked :
      (document : Fields host.Number) (v : Value host.Number)
      → Yields AllChecked (with_schemas host document v)
  with_schemas-AllChecked document (list_value schemas) =
      elim (Bool-cases (declares_text patch_op_schema schemas)) [
        | inl e ↦
            rw e (with_operations-AllChecked (field_or (entry_at (codes "Operations") document)))
        | inr e ↦ rw e tt
      ]
  with_schemas-AllChecked document none_value = tt
  with_schemas-AllChecked document (bool_value b) = tt
  with_schemas-AllChecked document (number_value n) = tt
  with_schemas-AllChecked document (str_value s) = tt
  with_schemas-AllChecked document (dict_value entries) = tt

  parse_operations-AllChecked :
      (v : Value host.Number) → Yields AllChecked (parse_operations host v)
  unfolding parse_operations
  parse_operations-AllChecked (dict_value document) =
      with_schemas-AllChecked document (field_or (entry_at (codes "schemas") document))
  parse_operations-AllChecked none_value = tt
  parse_operations-AllChecked (bool_value b) = tt
  parse_operations-AllChecked (number_value n) = tt
  parse_operations-AllChecked (str_value s) = tt
  parse_operations-AllChecked (list_value vs) = tt

module _ (host : Host) (numbers : Numbers host) where
  abbrev UrnIsFree : Option (PatchPath host.Number) → Type 0
  UrnIsFree none = Unit
  UrnIsFree (some path) = UrnIsGuarded host numbers (urn_of path.path.urn)

  -- No path has an immutable attribute in the place of its URN.
  abbrev pub AllUrnsFree : List (Operation host.Number) → Type 0
  AllUrnsFree [] = Unit
  AllUrnsFree (operation ∷ rest) = UrnIsFree operation.path × AllUrnsFree rest

  path-PathIsGuarded :
      (path : Option (PatchPath host.Number))
      → PathIsChecked host path
      → UrnIsFree path
      → PathIsGuarded host numbers path
  path-PathIsGuarded none h u = tt
  path-PathIsGuarded (some path) h u = (h, u)

  operations-AllGuarded :
      (operations : List (Operation host.Number))
      → AllChecked host operations
      → AllUrnsFree operations
      → AllGuarded host numbers operations
  operations-AllGuarded [] h u = tt
  operations-AllGuarded (operation ∷ rest) h u =
      (path-PathIsGuarded operation.path h.0 u.0, operations-AllGuarded rest h.1 u.1)

  -- The operations that are read from a PATCH body leave `id`, `schemas` and `meta` as they are, where
  -- no path has one of these in the place of its schema URN.
  pub parse_operations-Keeps :
      (document : Value host.Number) (operations : List (Operation host.Number))
      (resource : Fields host.Number) (i : Text)
      → parse_operations host document ≡ ok operations
      → AllUrnsFree operations
      → host.lower i ≡ i
      → is_immutable i ≡ true
      → Keeps i resource (apply_patch host numbers resource operations)
  parse_operations-Keeps document operations resource i e u l h =
      let checked : AllChecked host operations =
        rw e at (parse_operations-AllChecked host document) in
      apply_patch-Keeps host numbers i operations resource l h
        (operations-AllGuarded operations checked u)
