-- ===== src/Scim/Bulk/Document.antt =====
-- The JSON documents of campusid/scim/bulk.py and the errors of a SCIM operation. An object has its
-- keys in their order, each at most once.
use campus_id.Shared.{ℕ, String, Bool, Option, none, some, List, [], ◌∷◌, ◌==◌, if◌then◌else◌}

mutual
  pub data Json : Type 0 where
    null : Json
    boolean : Bool → Json
    -- A number: an integer that is not negative, or any other.
    whole : ℕ → Json
    other_number : Json
    text : String → Json
    array : Items → Json
    object : Fields → Json

  pub data Items : Type 0 where
    no_items : Items
    item : Json → Items → Items

  pub data Fields : Type 0 where
    no_fields : Fields
    field : String → Json → Fields → Fields

-- The `ScimType` of an error; `unspecified` is an error without one.
pub data ScimType : Type 0 where
  invalid_syntax invalid_value too_many invalid_path uniqueness no_target mutability invalid_version
        unspecified :
      ScimType

-- What an operation answers: a result, a ScimError with its status, the PatchError that a patch
-- raises, a failed `assert`, or fuel that ran out.
pub data Outcome {ℓ} (A : Type ℓ) : Type ℓ where
  ok : A → Outcome A
  scim_error : ℕ → ScimType → Outcome A
  patch_error : ScimType → Outcome A
  assertion_error out_of_fuel : Outcome A

infixl 5 ◌>>=◌
abbrev pub ◌>>=◌ {ℓ κ} : {A : Type ℓ} {B : Type κ} → Outcome A → (A → Outcome B) → Outcome B
ok a >>= f = f a
scim_error status kind >>= f = scim_error status kind
patch_error kind >>= f = patch_error kind
assertion_error >>= f = assertion_error
out_of_fuel >>= f = out_of_fuel

-- `document.get(name)`, where a missing key and a null are both `None`.
abbrev pub get : Fields → String → Json
get no_fields name = null
get (field key value rest) name = let later = get rest name in if key == name then value else later

-- The value of a key in an association list.
abbrev pub lookup : String → List (String × String) → Option String
lookup key [] = none
lookup key ((k, v) ∷ rest) = let later = lookup key rest in if k == key then some v else later
