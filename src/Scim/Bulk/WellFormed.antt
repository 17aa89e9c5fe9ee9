-- ===== src/Scim/Bulk/WellFormed.antt =====
-- An operation that `_parse_one` of campusid/scim/bulk.py reads can be run.
use campus_id.Shared.{
  ℕ, String, ◌≡◌, refl, inl, inr, Bool, true, false, Bool-cases, not, Option, none, some, List, [],
  ◌∷◌, ◌++◌, ◌==◌, contains, is_some, truthy,
}
use campus_id.Scim.Bulk.Document.{
  Json, null, boolean, whole, other_number, text, array, object, Outcome, ok, scim_error,
  patch_error, assertion_error, out_of_fuel, ScimType, invalid_value, get, ◌>>=◌,
}
use campus_id.Scim.Bulk.References.{referenced_bulk_ids}
use campus_id.Scim.Bulk.Order.{Operation}
use campus_id.Scim.Bulk.Request.{
  methods, resources, refuse_if, parts_of, starts_with_slash, addressed, parse_path, optional_text,
  is_object, path_reference, refers_to_itself, parse_method, with_data, addressing, parse_one,
}

abbrev pub Yields {ℓ κ} : {A : Type ℓ} → (A → Type κ) → Outcome A → Type κ
Yields P (ok a) = P a
Yields P (scim_error status kind) = Unit
Yields P (patch_error kind) = Unit
Yields P assertion_error = Unit
Yields P out_of_fuel = Unit

pub bind-Yields {ℓ κ ι} :
    {A : Type ℓ} {B : Type κ} (P : B → Type ι) (m : Outcome A) (f : A → Outcome B)
    → ((a : A) → m ≡ ok a → Yields P (f a))
    → Yields P (m >>= f)
bind-Yields P (ok a) f h = h a refl
bind-Yields P (scim_error status kind) f h = tt
bind-Yields P (patch_error kind) f h = tt
bind-Yields P assertion_error f h = tt
bind-Yields P out_of_fuel f h = tt

-- An operation that the runner can run.
pub record IsWellFormed (operation : Operation) : Type 0 where
  pub known_method : contains operation.method methods ≡ true
  pub known_resource : contains operation.resource resources ≡ true
  pub addressed_as : is_some operation.resource_id ≡ not (operation.method == "POST")
  pub correlated : (operation.method == "POST") ≡ true → truthy operation.bulk_id ≡ true
  pub with_object : (operation.method == "DELETE") ≡ false → is_object operation.data_of ≡ true
  pub independent : refers_to_itself operation.bulk_id operation.depends_on ≡ false

refuse_if-ok :
    (b c : Bool) (status : ℕ) (kind : ScimType) → refuse_if b status kind ≡ ok c → b ≡ false
refuse_if-ok true c status kind e = cc
refuse_if-ok false c status kind e = refl

module _ (upper : String → String) where
  parse_method-known :
      (v : Json) (method : String)
      → parse_method upper v ≡ ok method
      → contains method methods ≡ true
  parse_method-known (text s) method e = elim (Bool-cases (contains (upper s) methods)) [
    | inl h ↦ let f : upper s ≡ method = cc (rw h at e) in rw (← f) h
    | inr h ↦ let f = rw h at e in cc
  ]
  parse_method-known null method e = cc
  parse_method-known (boolean b) method e = cc
  parse_method-known (whole n) method e = cc
  parse_method-known other_number method e = cc
  parse_method-known (array items) method e = cc
  parse_method-known (object entries) method e = cc

  addressed-known :
      (parts : List String) (address : String × Option String)
      → addressed parts ≡ ok address
      → contains address.0 resources ≡ true
  addressed-known [] address e = cc
  addressed-known (resource ∷ []) address e = elim (Bool-cases (contains resource resources)) [
    | inl h ↦ let f : (resource, none) ≡ address = cc (rw h at e) in rw (← f) h
    | inr h ↦ let f = rw h at e in cc
  ]
  addressed-known (resource ∷ (id ∷ [])) address e =
      elim (Bool-cases (contains resource resources)) [
        | inl h ↦ let f : (resource, some id) ≡ address = cc (rw h at e) in rw (← f) h
        | inr h ↦ let f = rw h at e in cc
      ]
  addressed-known (a ∷ (b ∷ (c ∷ rest))) address e = cc

  parse_path-known :
      (v : Json) (address : String × Option String)
      → parse_path v ≡ ok address
      → contains address.0 resources ≡ true
  unfolding parse_path
  parse_path-known (text s) address e = elim (Bool-cases (starts_with_slash s)) [
    | inl h ↦ addressed-known (parts_of s) address (rw h at e)
    | inr h ↦ let f = rw h at e in cc
  ]
  parse_path-known null address e = cc
  parse_path-known (boolean b) address e = cc
  parse_path-known (whole n) address e = cc
  parse_path-known other_number address e = cc
  parse_path-known (array items) address e = cc
  parse_path-known (object entries) address e = cc

  -- What the three guards on a method, a resource id and a `bulkId` leave.
  addressing-known :
      (method : String) (resource_id bulk_id : Option String) (b : Bool)
      → addressing upper method resource_id bulk_id ≡ ok b
      → (is_some resource_id ≡ not (method == "POST"))
        × ((method == "POST") ≡ true → truthy bulk_id ≡ true)
  addressing-known method resource_id bulk_id b e = elim (Bool-cases (method == "POST")) [
    | inl p ↦ elim (Bool-cases (truthy bulk_id)) [
      | inl t ↦ elim (Bool-cases (is_some resource_id)) [
        | inl s ↦ let f = rw (p, t, s) at e in cc
        | inr s ↦ (rw (p, s) refl, λ h. t)
      ]
      | inr t ↦ let f = rw (p, t) at e in cc
    ]
    | inr p ↦ elim (Bool-cases (is_some resource_id)) [
      | inl s ↦ (rw (p, s) refl, λ h. cc)
      | inr s ↦ let f = rw (p, s) at e in cc
    ]
  ]

  with_data-known :
      (method : String) (v data_of : Json)
      → with_data upper method v ≡ ok data_of
      → (method == "DELETE") ≡ false
      → is_object data_of ≡ true
  with_data-known method v data_of e d = elim (Bool-cases (is_object v)) [
    | inl h ↦ let f : v ≡ data_of = cc (rw (d, h) at e) in rw (← f) h
    | inr h ↦ let f = rw (d, h) at e in cc
  ]

  -- An operation that is read is one that the runner can run.
  pub parse_one-IsWellFormed : (v : Json) → Yields IsWellFormed (parse_one upper v)
  unfolding parse_one
  parse_one-IsWellFormed (object entry) =
      bind-Yields IsWellFormed (parse_method upper (get entry "method")) _ (λ method e1.
        bind-Yields IsWellFormed (parse_path (get entry "path")) _ (λ address e2.
          bind-Yields IsWellFormed (optional_text (get entry "bulkId")) _ (λ bulk_id e3.
            bind-Yields IsWellFormed (addressing upper method address.1 bulk_id) _ (λ b e4.
              bind-Yields IsWellFormed (optional_text (get entry "version")) _ (λ version e5.
                bind-Yields IsWellFormed (with_data upper method (get entry "data")) _
                  (λ data_of e6.
                    let (placed, correlated) = addressing-known method address.1 bulk_id b e4 in
                    let references = referenced_bulk_ids data_of ++ path_reference address.1 in
                    let itself = refers_to_itself bulk_id references in
                    bind-Yields IsWellFormed (refuse_if itself 409 invalid_value) _ (λ c e7.
                      record {
                        known_method = parse_method-known (get entry "method") method e1;
                        known_resource = parse_path-known (get entry "path") address e2;
                        addressed_as = placed;
                        correlated = correlated;
                        with_object = with_data-known method (get entry "data") data_of e6;
                        independent = refuse_if-ok itself c 409 invalid_value e7;
                      })))))))
  parse_one-IsWellFormed null = tt
  parse_one-IsWellFormed (boolean b) = tt
  parse_one-IsWellFormed (whole n) = tt
  parse_one-IsWellFormed other_number = tt
  parse_one-IsWellFormed (text s) = tt
  parse_one-IsWellFormed (array items) = tt
