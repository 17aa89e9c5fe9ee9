-- ===== src/Scim/Patch/Kept.antt =====
-- What a direct operation of campusid/scim/patch.py leaves as it is: the attributes of other names.
use campus_id.Shared.{
  ◌≡◌, ◌≢◌, sym, ap, ◌∙◌, inl, inr, Bool, true, false, Bool-cases, Option, none, some,
}
use campus_id.Shared.Texts.{Text, text_eq, text_eq_iff}
use campus_id.Scim.Filter.Syntax.{PatchPath}
use campus_id.Scim.Filter.Literals.{Host}
use campus_id.Scim.Filter.Evaluator.{Value, dict_value, Fields, urn_of}
use campus_id.Scim.Patch.Attributes.{get_attr}
use campus_id.Scim.Patch.Stored.{stored, stored-put_other, stored-set_attr, stored-delete_attr}
use campus_id.Scim.Patch.Apply.{
  Patched, ok, patch_error, out_of_fuel, ◌>>=◌, Op, add, remove, replace, added, dict_or_empty,
  is_dict, direct, in_parent, stored_extension, in_container, sub_text, apply_direct,
}

-- Where there is a result, it has what the resource has under a name.
abbrev pub Keeps : {N : Type 0} → Text → Fields N → Patched (Fields N) → Type 0
Keeps i entries (ok result) = stored i result ≡ stored i entries
Keeps i entries (patch_error kind) = Unit
Keeps i entries out_of_fuel = Unit

Keeps-after :
    {N : Type 0} (i : Text) (entries middle : Fields N) (m : Patched (Fields N))
    → Keeps i middle m
    → stored i middle ≡ stored i entries
    → Keeps i entries m
Keeps-after i entries middle (ok result) h e = h ∙ e
Keeps-after i entries middle (patch_error kind) h e = tt
Keeps-after i entries middle out_of_fuel h e = tt

pub bind-Keeps :
    {N : Type 0} (i : Text) (entries : Fields N) (m : Patched (Fields N))
    (f : Fields N → Patched (Fields N))
    → Keeps i entries m
    → ((middle : Fields N) → Keeps i middle (f middle))
    → Keeps i entries (m >>= f)
bind-Keeps i entries (ok middle) f h k = Keeps-after i entries middle (f middle) (k middle) h
bind-Keeps i entries (patch_error kind) f h k = tt
bind-Keeps i entries out_of_fuel f h k = tt

module _ (host : Host) where
  -- A name is another one than `i`, in upper or lower case.
  abbrev pub IsOther : Text → Text → Type 0
  IsOther i name = host.lower i ≢ host.lower name

  stored-direct :
      (op : Op) (i name : Text) (v : Value host.Number) (container : Fields host.Number)
      → IsOther i name
      → stored i (direct host op v name container) ≡ stored i container
  unfolding direct
  stored-direct remove i name v container h = stored-delete_attr host i name container h
  stored-direct add i name v container h =
      stored-set_attr host i name (added (get_attr host container name) v) container h
  stored-direct replace i name v container h = stored-set_attr host i name v container h

  stored-in_parent :
      (op : Op) (i attribute : Text) (sub : Option Text) (v : Value host.Number)
      (container : Fields host.Number)
      → IsOther i attribute
      → stored i (in_parent host attribute sub (direct host op v) container) ≡ stored i container
  stored-in_parent op i attribute none v container h = stored-direct op i attribute v container h
  stored-in_parent op i attribute (some sub) v container h =
      stored-set_attr host i attribute
        (dict_value (direct host op v sub (dict_or_empty (get_attr host container attribute))))
        container h

  -- No URN, or one that is another name.
  abbrev pub UrnIsOther : Text → Option Text → Type 0
  UrnIsOther i none = Unit
  UrnIsOther i (some urn) = IsOther i urn

  stored-stored_extension :
      (i urn : Text) (b : Bool) (resource extension : Fields host.Number)
      → IsOther i urn
      → stored i (stored_extension host urn b resource extension) ≡ stored i resource
  stored-stored_extension i urn true resource extension h =
      stored-set_attr host i urn (dict_value extension) resource h
  stored-stored_extension i urn false resource extension h =
      stored-put_other i urn (dict_value extension) resource (elim (Bool-cases (text_eq urn i)) [
        | inl e ↦ absurd (h (sym (ap host.lower ((text_eq_iff urn i).0 e))))
        | inr e ↦ e
      ])

  pub in_container-Keeps :
      (i : Text) (urn : Option Text) (change : Fields host.Number → Patched (Fields host.Number))
      (resource : Fields host.Number)
      → UrnIsOther i urn
      → ((container : Fields host.Number) → Keeps i container (change container))
      → Keeps i resource (in_container host urn change resource)
  in_container-Keeps i none change resource h k = k resource
  in_container-Keeps i (some urn) change resource h k =
      kept (change (dict_or_empty (get_attr host resource urn)))
    where
      kept :
          (m : Patched (Fields host.Number))
          → Keeps i resource (
              m >>= λ extension.
              ok (
                stored_extension host urn
                  (is_dict (get_attr host resource urn))
                  resource
                  extension))
      kept (ok extension) =
          stored-stored_extension i urn (is_dict (get_attr host resource urn)) resource extension h
      kept (patch_error kind) = tt
      kept out_of_fuel = tt

  pub apply_direct-Keeps :
      (op : Op) (i : Text) (v : Value host.Number) (path : PatchPath host.Number)
      (resource : Fields host.Number)
      → UrnIsOther i (urn_of path.path.urn)
      → IsOther i path.path.attribute
      → Keeps i resource (apply_direct host op v path resource)
  unfolding apply_direct
  apply_direct-Keeps op i v path resource u h =
      in_container-Keeps i (urn_of path.path.urn)
        (λ container. ok (
          in_parent host path.path.attribute (sub_text path.sub_attribute) (direct host op v)
            container))
        resource u
        (λ container.
          stored-in_parent op i path.path.attribute (sub_text path.sub_attribute) v container h)
