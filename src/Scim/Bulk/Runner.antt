-- ===== src/Scim/Bulk/Runner.antt =====
-- `BulkRunner` of campusid/scim/bulk_runner.py. The two stores that it drives, and the reading and
-- patching of a resource, are the record `Stores`, on a state of their own.
use Prim.Native.String.{◌++◌ as text_append}
use campus_id.Shared.{
  ℕ, suc, String, Bool, true, false, Option, none, some, List, [], ◌∷◌, ◌==◌, leb, if◌then◌else◌,
}
use campus_id.Scim.Bulk.Document.{
  Json, Outcome, ok, scim_error, patch_error, assertion_error, out_of_fuel, ScimType, ◌>>=◌,
}
use campus_id.Scim.Bulk.References.{resolve_references, resolve_text, reference}
use campus_id.Scim.Bulk.Order.{Operation}
use campus_id.Scim.Bulk.Request.{BulkRequest}

-- A stored resource: its `id`, its `meta.location` and the whole of it.
pub record Resource : Type 0 where
  pub id : String
  pub location : Option String
  pub body : Json

-- A call that may change the state and may raise.
abbrev pub Action : Type 0 → Type 0 → Type 0
Action S A = S → S × Outcome A

abbrev pub bind_outcome : {S A B : Type 0} → S × Outcome A → (A → Action S B) → S × Outcome B
bind_outcome (s, ok a) f = f a s
bind_outcome (s, scim_error status kind) f = (s, scim_error status kind)
bind_outcome (s, patch_error kind) f = (s, patch_error kind)
bind_outcome (s, assertion_error) f = (s, assertion_error)
bind_outcome (s, out_of_fuel) f = (s, out_of_fuel)

infixl 5 ◌>=>◌
abbrev pub ◌>=>◌ : {S A B : Type 0} → Action S A → (A → Action S B) → Action S B
(m >=> f) s = bind_outcome (m s) f

-- A computation that leaves the state alone.
abbrev pub pure : {S A : Type 0} → Outcome A → Action S A
pure m s = (s, m)

-- `UserOperations` and `GroupOperations`, with `from_scim`, `parse_operations` and `apply_patch`.
pub record Stores (S : Type 0) : Type 1 where
  pub User : Type 0
  pub Patch : Type 0
  pub from_scim : Json → Outcome User
  pub parse_operations : Json → Outcome Patch
  pub apply_patch : Json → Patch → Outcome Json
  pub create_user : User → Json → Action S (Resource × Bool)
  pub get_user : String → Action S Resource
  pub replace_user : String → User → Json → Option String → Action S Resource
  pub apply_patched : String → User → Json → Option String → Action S Resource
  pub soft_delete_user : String → Option String → Action S Bool
  pub create_group : Json → Action S (Resource × Bool)
  pub replace_group : String → Json → Option String → Action S Resource
  pub patch_group : String → Patch → Option String → Action S Resource
  pub delete_group : String → Option String → Action S Bool

-- One entry of the response; `response` is the error's `scimType`.
pub record Entry : Type 0 where
  pub method : String
  pub status : ℕ
  pub bulk_id : Option String
  pub location : Option String
  pub response : Option ScimType

abbrev pub or_none : Option String → Option String
or_none none = none
or_none (some s) = if s == "" then none else some s

-- `_entry`
unfoldable pub entry_of : Operation → ℕ → Option String → Option ScimType → Entry
entry_of operation status location response = record {
  method = operation.method;
  status = status;
  bulk_id = or_none operation.bulk_id;
  location = or_none location;
  response = response;
}

-- `_patch_operations`: a PatchError becomes a ScimError.
abbrev pub as_scim_error : {A : Type 0} → Outcome A → Outcome A
as_scim_error (patch_error kind) = scim_error 400 kind
as_scim_error m = m

-- What an operation answers: a resource, if one is left, and a status.
abbrev pub Answer : Type 0
Answer = Option Resource × ℕ

abbrev pub created : Resource × Bool → Outcome Answer
created (resource, true) = ok (some resource, 201)
created (resource, false) = ok (some resource, 200)

abbrev pub changed : Resource → Outcome Answer
changed resource = ok (some resource, 200)

-- Whether the errors have reached `failOnErrors`.
abbrev pub stops : Option ℕ → ℕ → Bool
stops none errors = false
stops (some limit) errors = leb limit errors

module _ {S : Type 0} (stores : Stores S) where
  -- `_user`, where the path has a resource id.
  abbrev pub user_at : Operation → String → Json → Action S Answer
  user_at operation id data_of =
      if operation.method == "PUT"
      then pure (stores.from_scim data_of)
        >=> (λ user. stores.replace_user id user data_of operation.version)
        >=> (λ resource. pure (changed resource))
      else if operation.method == "PATCH"
      then stores.get_user id
        >=> (λ current. pure (
            as_scim_error (stores.parse_operations data_of) >>= λ patch.
            stores.apply_patch current.body patch))
        >=> (λ patched.
            pure (stores.from_scim patched)
            >=> (λ user. stores.apply_patched id user patched operation.version))
        >=> (λ resource. pure (changed resource))
      else stores.soft_delete_user id operation.version >=> (λ _. pure (ok (none, 204)))

  abbrev pub group_at : Operation → String → Json → Action S Answer
  group_at operation id data_of =
      if operation.method == "PUT"
      then stores.replace_group id data_of operation.version
        >=> (λ resource. pure (changed resource))
      else if operation.method == "PATCH"
      then pure (as_scim_error (stores.parse_operations data_of))
        >=> (λ patch. stores.patch_group id patch operation.version)
        >=> (λ resource. pure (changed resource))
      else stores.delete_group id operation.version >=> (λ _. pure (ok (none, 204)))

  -- `assert resource_id is not None`
  abbrev pub asserting : Option String → (String → Action S Answer) → Action S Answer
  asserting none f = pure assertion_error
  asserting (some id) f = f id

  -- `_user`
  unfoldable pub user_operation : Operation → Option String → Json → Action S Answer
  user_operation operation resource_id data_of =
      if operation.method == "POST"
      then pure (stores.from_scim data_of)
        >=> (λ user. stores.create_user user data_of)
        >=> (λ made. pure (created made))
      else asserting resource_id (λ id. user_at operation id data_of)

  -- `_group`
  unfoldable pub group_operation : Operation → Option String → Json → Action S Answer
  group_operation operation resource_id data_of =
      if operation.method == "POST"
      then stores.create_group data_of >=> (λ made. pure (created made))
      else asserting resource_id (λ id. group_at operation id data_of)

  abbrev pub dispatch : Operation → Option String → Json → Action S Answer
  dispatch operation resource_id data_of =
      if operation.resource == "Users"
      then user_operation operation resource_id data_of
      else group_operation operation resource_id data_of

  -- The identifiers that are resolved after an operation.
  abbrev pub resolved_after :
      Option String → Option Resource → List (String × String) → List (String × String)
  resolved_after (some id) (some resource) resolved =
      if id == "" then resolved else (id, resource.id) ∷ resolved
  resolved_after _ _ resolved = resolved

  abbrev pub resolve_optional : List (String × String) → Option String → Outcome (Option String)
  resolve_optional resolved none = ok none
  resolve_optional resolved (some id) = resolve_text resolved id >>= λ t. ok (some t)

  module _ (issuer : String) where
    -- `f"{self._issuer}/scim/v2/{operation.resource}/{resource_id}"`
    abbrev pub default_location : Operation → Option String → Option String
    default_location operation none = none
    default_location operation (some id) = some (
        text_append issuer
          (text_append "/scim/v2/" (text_append operation.resource (text_append "/" id))))

    abbrev pub location_or : Option String → Option String → Option String
    location_or none default = default
    location_or (some location) default = some location

    abbrev pub location_of : Option Resource → Option String → Option String
    location_of none default = default
    location_of (some resource) default = location_or resource.location default

    -- The end of `_one`: the identifier that is resolved now, and the entry.
    abbrev pub finishing :
        Operation
        → List (String × String)
        → Option String
        → Answer
        → Action S (Entry × List (String × String))
    finishing operation resolved resource_id (resource, status) = pure (
        ok (
          entry_of operation status (location_of resource (default_location operation resource_id))
              none,
          resolved_after operation.bulk_id resource resolved,
        ))

    abbrev pub performing :
        Operation
        → List (String × String)
        → Json
        → Option String
        → Action S (Entry × List (String × String))
    performing operation resolved data_of resource_id =
        dispatch operation resource_id data_of >=> finishing operation resolved resource_id

    abbrev pub addressing :
        Operation → List (String × String) → Json → Action S (Entry × List (String × String))
    addressing operation resolved data_of =
        pure (resolve_optional resolved (or_none operation.resource_id))
        >=> performing operation resolved data_of

    -- `_one`, with the identifiers that it leaves resolved.
    unfoldable pub run_one :
        Operation → List (String × String) → Action S (Entry × List (String × String))
    unfolding resolve_references reference user_operation group_operation entry_of
    run_one operation resolved =
        pure (resolve_references resolved operation.data_of) >=> addressing operation resolved

    abbrev pub then_entries : Entry → S × Outcome (List Entry) → S × Outcome (List Entry)
    then_entries entry (s, m) = (s, m >>= λ entries. ok (entry ∷ entries))

    -- The end of a turn of the loop: the entry, and the others unless the errors are too many.
    abbrev pub next_entries :
        Option ℕ → Entry → ℕ → S × Outcome (List Entry) → S → S × Outcome (List Entry)
    next_entries limit entry errors later s =
        if stops limit errors then (s, ok (entry ∷ [])) else then_entries entry later

    -- What follows an operation: only a ScimError is caught.
    abbrev pub after_one :
        Option ℕ
        → Operation
        → List (String × String)
        → ℕ
        → (List (String × String) → ℕ → Action S (List Entry))
        → S × Outcome (Entry × List (String × String))
        → S × Outcome (List Entry)
    after_one limit operation resolved errors continue (s, ok (entry, ids)) =
        next_entries limit entry errors (continue ids errors s) s
    after_one limit operation resolved errors continue (s, scim_error status kind) =
        next_entries limit (entry_of operation status none (some kind)) (suc errors)
          (continue resolved (suc errors) s) s
    after_one limit operation resolved errors continue (s, patch_error kind) = (s, patch_error kind)
    after_one limit operation resolved errors continue (s, assertion_error) = (s, assertion_error)
    after_one limit operation resolved errors continue (s, out_of_fuel) = (s, out_of_fuel)

    -- The loop of `run`, with the identifiers resolved and the errors so far.
    unfoldable pub run_from :
        Option ℕ → List Operation → List (String × String) → ℕ → Action S (List Entry)
    unfolding run_one entry_of
    run_from limit [] resolved errors s = (s, ok [])
    run_from limit (operation ∷ rest) resolved errors s =
        after_one limit operation resolved errors (run_from limit rest)
          (run_one operation resolved s)

    -- `run`
    unfoldable pub run : BulkRequest → Action S (List Entry)
    unfolding run_from
    run request s = run_from request.fail_on_errors request.operations [] 0 s
