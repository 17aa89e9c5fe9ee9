-- ===== src/Scim/Bulk/PatchFailure.antt =====
-- A user PATCH that cannot be applied, in campusid/scim/bulk_runner.py.
use campus_id.Shared.{
  ℕ, suc, String, ◌≡◌, refl, false, Option, none, some, List, [], ◌∷◌, ◌++◌, length,
}
use campus_id.Scim.Bulk.Document.{Json, ok, scim_error, patch_error, ScimType, ◌>>=◌}
use campus_id.Scim.Bulk.References.{resolve_references}
use campus_id.Scim.Bulk.Order.{Operation}
use campus_id.Scim.Bulk.Runner.{
  Stores, Resource, Entry, entry_of, stops, run, as_scim_error, or_none, user_operation, run_one,
  resolve_optional, run_from,
}

module _ {S : Type 0} (stores : Stores S) (issuer : String) where
  -- The patch of a user is read, and the user found, but it cannot be applied.
  pub record IsRefusedPatch (operation : Operation) (resolved : List (String × String)) (s t : S)
      (kind : ScimType) : Type 0 where
    pub patches : operation.method ≡ "PATCH"
    pub of_users : operation.resource ≡ "Users"
    pub id : String
    pub data_of : Json
    pub current : Resource
    pub patch : stores.Patch
    pub resolves_data : resolve_references resolved operation.data_of ≡ ok data_of
    pub resolves_id :
        resolve_optional stores resolved (or_none operation.resource_id) ≡ ok (some id)
    pub finds : stores.get_user id s ≡ (t, ok current)
    pub reads : stores.parse_operations data_of ≡ ok patch
    pub refuses : stores.apply_patch current.body patch ≡ patch_error kind

  patched-patch_error :
      (data_of : Json) (current : Resource) (patch : stores.Patch) (kind : ScimType)
      → stores.parse_operations data_of ≡ ok patch
      → stores.apply_patch current.body patch ≡ patch_error kind
      → (as_scim_error (stores.parse_operations data_of) >>= λ p. stores.apply_patch current.body p)
        ≡ patch_error kind
  patched-patch_error data_of current patch kind e f = rw e f

  run_one-patch_error :
      (operation : Operation) (resolved : List (String × String)) (s t : S) (kind : ScimType)
      → IsRefusedPatch operation resolved s t kind
      → run_one stores issuer operation resolved s ≡ (t, patch_error kind)
  unfolding run_one user_operation
  run_one-patch_error operation resolved s t kind h =
      rw
        (
          h.resolves_data,
          h.resolves_id,
          h.of_users,
          h.patches,
          h.finds,
          patched-patch_error h.data_of h.current h.patch kind h.reads h.refuses,
        )
        refl

  -- The loop of `run` passes over some operations without an end: from the identifiers resolved, the
  -- errors so far and the state before them to those after them. Each operation succeeds, or fails
  -- with a ScimError, and the errors stay below the limit.
  pub data Passes (limit : Option ℕ)
      : List Operation
        → List (String × String)
        → ℕ
        → S
        → List (String × String)
        → ℕ
        → S
        → Type 0 where
    nothing :
        {resolved : List (String × String)} {errors : ℕ} {s : S}
        → Passes limit [] resolved errors s resolved errors s
    success :
        {operation : Operation} {rest : List Operation}
        {resolved ids later : List (String × String)} {errors count : ℕ} {s t u : S} {entry : Entry}
        → run_one stores issuer operation resolved s ≡ (t, ok (entry, ids))
        → stops limit errors ≡ false
        → Passes limit rest ids errors t later count u
        → Passes limit (operation ∷ rest) resolved errors s later count u
    failure :
        {operation : Operation} {rest : List Operation} {resolved later : List (String × String)}
        {errors count status : ℕ} {s t u : S} {kind : ScimType}
        → run_one stores issuer operation resolved s ≡ (t, scim_error status kind)
        → stops limit (suc errors) ≡ false
        → Passes limit rest resolved (suc errors) t later count u
        → Passes limit (operation ∷ rest) resolved errors s later count u

  -- Operations that are passed over, run alone, answer an entry each.
  Passes-run_from :
      {limit : Option ℕ} {before : List Operation} {resolved later : List (String × String)}
      {errors count : ℕ} {s u : S}
      → Passes limit before resolved errors s later count u
      → (entries : List Entry) × (run_from stores issuer limit before resolved errors s
          ≡ (u, ok entries))
        × (length entries ≡ length before)
  unfolding run_from
  Passes-run_from nothing = ([], refl, refl)
  Passes-run_from (success {entry} e goes p) =
      let (entries, ran, n) = Passes-run_from p in
      (entry ∷ entries, rw (e, goes, ran) refl, rw n refl)
  Passes-run_from (failure {operation} {status} {kind} e goes p) =
      let (entries, ran, n) = Passes-run_from p in
      (entry_of operation status none (some kind) ∷ entries, rw (e, goes, ran) refl, rw n refl)

  -- An error that leaves the run after them takes their entries with it.
  Passes-patch_error :
      {limit : Option ℕ} {before : List Operation} {resolved later : List (String × String)}
      {errors count : ℕ} {s u : S}
      → Passes limit before resolved errors s later count u
      → (rest : List Operation) (t : S) (kind : ScimType)
      → run_from stores issuer limit rest later count u ≡ (t, patch_error kind)
      → run_from stores issuer limit (before ++ rest) resolved errors s ≡ (t, patch_error kind)
  unfolding run_from
  Passes-patch_error nothing rest t kind h = h
  Passes-patch_error (success e goes p) rest t kind h =
      rw (e, goes, Passes-patch_error p rest t kind h) refl
  Passes-patch_error (failure e goes p) rest t kind h =
      rw (e, goes, Passes-patch_error p rest t kind h) refl

  refused-patch_error :
      (limit : Option ℕ) (operation : Operation) (rest : List Operation)
      (resolved : List (String × String)) (errors : ℕ) (s t : S) (kind : ScimType)
      → IsRefusedPatch operation resolved s t kind
      → run_from stores issuer limit (operation ∷ rest) resolved errors s ≡ (t, patch_error kind)
  unfolding run_from
  refused-patch_error limit operation rest resolved errors s t kind h =
      rw (run_one-patch_error operation resolved s t kind h) refl

  -- Where the loop of `run` passes over some operations and the next one is the patch of a user that is
  -- found, and the patch is read but cannot be applied, the whole run ends in its PatchError, whatever
  -- operations follow, and so answers no entries. The operations before it, run alone, answer an entry
  -- each and leave the state that the patch meets.
  pub run-patch_error :
      (limit : Option ℕ) (before : List Operation) (operation : Operation) (rest : List Operation)
      (resolved : List (String × String)) (errors : ℕ) (s u t : S) (kind : ScimType)
      → Passes limit before [] 0 s resolved errors u
      → IsRefusedPatch operation resolved u t kind
      → (run stores issuer
            (record { operations = before ++ (operation ∷ rest); fail_on_errors = limit })
            s
          ≡ (t, patch_error kind))
        × ((entries : List Entry) × (run stores issuer
                (record { operations = before; fail_on_errors = limit })
                s
              ≡ (u, ok entries))
            × (length entries ≡ length before))
  unfolding run
  run-patch_error limit before operation rest resolved errors s u t kind p h = (
    Passes-patch_error p (operation ∷ rest) t kind
        (refused-patch_error limit operation rest resolved errors u t kind h),
    Passes-run_from p,
  )
