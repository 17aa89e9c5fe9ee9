-- ===== src/Scim/Bulk/Resolution.antt =====
-- `referenced_bulk_ids` and `resolve_references` of campusid/scim/bulk.py agree on what a reference is.
use campus_id.Shared.{
  String, ◌≡◌, refl, ◌∙◌, sym, inl, inr, Bool, true, false, Bool-cases, ◌&&◌, Option, none, some,
  List, [], ◌∷◌, ◌++◌, ◌==◌, contains, subset, arith,
}
use campus_id.Scim.Bulk.Document.{
  Json, null, boolean, whole, other_number, text, array, object, Items, no_items, item, Fields,
  no_fields, field, Outcome, ok, scim_error, patch_error, assertion_error, out_of_fuel, ◌>>=◌,
  lookup,
}
use campus_id.Scim.Bulk.References.{
  reference, reference_list, resolved_id, resolve_on, resolve_text, referenced_bulk_ids,
  referenced_by_items, referenced_by_fields, resolve_references, resolve_items, resolve_fields,
}

abbrev pub is_ok {ℓ} : {A : Type ℓ} → Outcome A → Bool
is_ok (ok a) = true
is_ok (scim_error status kind) = false
is_ok (patch_error kind) = false
is_ok assertion_error = false
is_ok out_of_fuel = false

abbrev pub keys : List (String × String) → List String
keys [] = []
keys ((k, v) ∷ rest) = k ∷ keys rest

is_ok-bind {ℓ κ} :
    {A : Type ℓ} {B : Type κ} (f : A → B) (m : Outcome A) → is_ok (m >>= λ a. ok (f a)) ≡ is_ok m
is_ok-bind f (ok a) = refl
is_ok-bind f (scim_error status kind) = refl
is_ok-bind f (patch_error kind) = refl
is_ok-bind f assertion_error = refl
is_ok-bind f out_of_fuel = refl

is_ok-both {ℓ κ ι} :
    {A : Type ℓ} {B : Type κ} {C : Type ι} (f : A → B → C) (m : Outcome A) (n : Outcome B)
    → is_ok (m >>= λ a. n >>= λ b. ok (f a b)) ≡ (is_ok m && is_ok n)
is_ok-both f (ok a) n = is_ok-bind (f a) n
is_ok-both f (scim_error status kind) n = refl
is_ok-both f (patch_error kind) n = refl
is_ok-both f assertion_error n = refl
is_ok-both f out_of_fuel n = refl

subset-append : (xs ys zs : List String) → subset (xs ++ ys) zs ≡ (subset xs zs && subset ys zs)
subset-append [] ys zs = refl
subset-append (x ∷ xs) ys zs = ground (arith, subset-append xs ys zs)

is_ok-lookup :
    (key : String) (resolved : List (String × String))
    → is_ok (resolved_id (lookup key resolved)) ≡ contains key (keys resolved)
is_ok-lookup key [] = refl
is_ok-lookup key ((k, v) ∷ rest) = elim (Bool-cases (k == key)) [
  | inl e ↦ rw e refl
  | inr e ↦ rw e (is_ok-lookup key rest)
]

is_ok-resolve_on :
    (resolved : List (String × String)) (s : String) (key : Option String)
    → is_ok (resolve_on resolved s key) ≡ subset (reference_list key) (keys resolved)
is_ok-resolve_on resolved s none = refl
is_ok-resolve_on resolved s (some key) = is_ok-lookup key resolved ∙ ground arith

mutual
  unfolding referenced_bulk_ids resolve_references

  is_ok-resolve_references :
      (resolved : List (String × String)) (v : Json)
      → is_ok (resolve_references resolved v) ≡ subset (referenced_bulk_ids v) (keys resolved)
  is_ok-resolve_references resolved null = refl
  is_ok-resolve_references resolved (boolean b) = refl
  is_ok-resolve_references resolved (whole n) = refl
  is_ok-resolve_references resolved other_number = refl
  is_ok-resolve_references resolved (text s) =
      is_ok-bind (λ t. text t) (resolve_text resolved s) ∙ is_ok-resolve_on resolved s (reference s)
  is_ok-resolve_references resolved (array items) =
      is_ok-bind (λ vs. array vs) (resolve_items resolved items)
      ∙ is_ok-resolve_items resolved items
  is_ok-resolve_references resolved (object entries) =
      is_ok-bind (λ fs. object fs) (resolve_fields resolved entries)
      ∙ is_ok-resolve_fields resolved entries

  is_ok-resolve_items :
      (resolved : List (String × String)) (vs : Items)
      → is_ok (resolve_items resolved vs) ≡ subset (referenced_by_items vs) (keys resolved)
  is_ok-resolve_items resolved no_items = refl
  is_ok-resolve_items resolved (item v rest) =
      is_ok-both (λ w ws. item w ws) (resolve_references resolved v) (resolve_items resolved rest)
      ∙ rw (is_ok-resolve_references resolved v, is_ok-resolve_items resolved rest)
          (sym (subset-append (referenced_bulk_ids v) (referenced_by_items rest) (keys resolved)))

  is_ok-resolve_fields :
      (resolved : List (String × String)) (fs : Fields)
      → is_ok (resolve_fields resolved fs) ≡ subset (referenced_by_fields fs) (keys resolved)
  is_ok-resolve_fields resolved no_fields = refl
  is_ok-resolve_fields resolved (field key v rest) =
      is_ok-both (λ w ws. field key w ws) (resolve_references resolved v)
        (resolve_fields resolved rest)
      ∙ rw (is_ok-resolve_references resolved v, is_ok-resolve_fields resolved rest)
          (sym (subset-append (referenced_bulk_ids v) (referenced_by_fields rest) (keys resolved)))

-- The references of a document can be resolved exactly when an identifier was produced for each
-- `bulkId` that is found in it.
pub resolve_references-exact :
    (resolved : List (String × String)) (v : Json)
    → is_ok (resolve_references resolved v) ≡ subset (referenced_bulk_ids v) (keys resolved)
resolve_references-exact resolved v = is_ok-resolve_references resolved v
