-- ===== src/Scim/Bulk/Running.antt =====
-- The response of `BulkRunner.run` in campusid/scim/bulk_runner.py: its entries and where it stops.
use campus_id.Shared.{
  ℕ, suc, String, ◌≡◌, refl, ap, sym, ◌⊎◌, inl, inr, Bool, true, false, Bool-cases, Option, none,
  some, List, [], ◌∷◌, is_some, if◌then◌else◌,
}
use campus_id.Scim.Bulk.Document.{
  Outcome, ok, scim_error, patch_error, assertion_error, out_of_fuel,
}
use campus_id.Scim.Bulk.References.{resolve_references}
use campus_id.Scim.Bulk.Order.{Operation}
use campus_id.Scim.Bulk.Request.{BulkRequest}
use campus_id.Scim.Bulk.Runner.{
  Stores, Entry, Action, bind_outcome, or_none, entry_of, dispatch, resolve_optional, location_of,
  default_location, finishing, performing, addressing, run_one, stops, then_entries, next_entries,
  after_one, run_from, run,
}

-- An entry that reports an error.
abbrev pub is_failure : Entry → Bool
is_failure entry = is_some entry.response

abbrev pub errors_after : ℕ → Entry → ℕ
errors_after errors entry = if is_failure entry then suc errors else errors

-- The entries of a run: one for each operation in order, with its method and its `bulkId`, up to the
-- end or up to the error that reaches the limit.
abbrev pub Reports : Option ℕ → List Operation → ℕ → List Entry → Type 0
Reports limit [] errors entries = entries ≡ []
Reports limit (operation ∷ rest) errors [] = ⊥
Reports limit (operation ∷ rest) errors (entry ∷ entries) =
    (entry.method ≡ operation.method)
    × (entry.bulk_id ≡ or_none operation.bulk_id)
    × (((stops limit (errors_after errors entry) ≡ true) × (entries ≡ []))
        ⊎ ((stops limit (errors_after errors entry) ≡ false)
            × Reports limit rest (errors_after errors entry) entries))

-- Where a computation answers, the answer has a property.
abbrev pub Gives : {S A : Type 0} → (A → Type 0) → S × Outcome A → Type 0
Gives P (s, ok a) = P a
Gives P (s, scim_error status kind) = Unit
Gives P (s, patch_error kind) = Unit
Gives P (s, assertion_error) = Unit
Gives P (s, out_of_fuel) = Unit

bind_outcome-Gives :
    {S A B : Type 0} (P : B → Type 0) (m : S × Outcome A) (f : A → Action S B)
    → ((a : A) (t : S) → Gives P (f a t))
    → Gives P (bind_outcome m f)
bind_outcome-Gives P (s, ok a) f h = h a s
bind_outcome-Gives P (s, scim_error status kind) f h = tt
bind_outcome-Gives P (s, patch_error kind) f h = tt
bind_outcome-Gives P (s, assertion_error) f h = tt
bind_outcome-Gives P (s, out_of_fuel) f h = tt

-- The entry of an operation that succeeds.
abbrev IsEntryOf : Operation → Entry × List (String × String) → Type 0
IsEntryOf operation (entry, ids) =
    (status : ℕ) × (location : Option String) × (entry ≡ entry_of operation status location none)

module _ {S : Type 0} (stores : Stores S) (issuer : String) where
  run_one-IsEntryOf :
      (operation : Operation) (resolved : List (String × String)) (s : S)
      → Gives (IsEntryOf operation) (run_one stores issuer operation resolved s)
  unfolding run_one
  run_one-IsEntryOf operation resolved s =
      bind_outcome-Gives (IsEntryOf operation) (s, resolve_references resolved operation.data_of)
        (addressing stores issuer operation resolved)
        (λ data_of t.
          bind_outcome-Gives (IsEntryOf operation)
            (t, resolve_optional stores resolved (or_none operation.resource_id))
            (performing stores issuer operation resolved data_of)
            (λ resource_id u.
              bind_outcome-Gives (IsEntryOf operation)
                (dispatch stores operation resource_id data_of u)
                (finishing stores issuer operation resolved resource_id)
                (λ (resource, status) v. (
                  status,
                  location_of stores issuer resource
                      (default_location stores issuer operation resource_id),
                  refl,
                ))))

  next_entries-Reports :
      (limit : Option ℕ) (operation : Operation) (rest : List Operation) (entry : Entry)
      (errors count : ℕ) (later : S × Outcome (List Entry)) (s t : S) (entries : List Entry)
      → entry.method ≡ operation.method
      → entry.bulk_id ≡ or_none operation.bulk_id
      → errors_after errors entry ≡ count
      → ((u : S) (es : List Entry) → later ≡ (u, ok es) → Reports limit rest count es)
      → next_entries stores issuer limit entry count later s ≡ (t, ok entries)
      → Reports limit (operation ∷ rest) errors entries
  next_entries-Reports limit operation rest entry errors count later s t entries m b c h e =
      elim (Bool-cases (stops limit count)) [
        | inl last ↦
            let f = ap (λ p. p.1) (rw last at e) in
            let g : entry ∷ [] ≡ entries = cc in rw (← g) (m, b, inl (rw c last, refl))
        | inr goes ↦ further later h (rw goes at e) goes
      ]
    where
      further :
          (later : S × Outcome (List Entry))
          → ((u : S) (es : List Entry) → later ≡ (u, ok es) → Reports limit rest count es)
          → then_entries stores issuer entry later ≡ (t, ok entries)
          → stops limit count ≡ false
          → Reports limit (operation ∷ rest) errors entries
      further (u, ok es) h e goes =
          let f = ap (λ p. p.1) e in
          let g : entry ∷ es ≡ entries = cc in rw (← g) (m, b, inr (rw c goes, rw c (h u es refl)))
      further (u, scim_error status kind) h e goes = let f = ap (λ p. p.1) e in cc
      further (u, patch_error kind) h e goes = let f = ap (λ p. p.1) e in cc
      further (u, assertion_error) h e goes = let f = ap (λ p. p.1) e in cc
      further (u, out_of_fuel) h e goes = let f = ap (λ p. p.1) e in cc

  after_one-Reports :
      (limit : Option ℕ) (operation : Operation) (rest : List Operation)
      (resolved : List (String × String)) (errors : ℕ)
      (continue : List (String × String) → ℕ → Action S (List Entry))
      (o : S × Outcome (Entry × List (String × String))) (t : S) (entries : List Entry)
      → Gives (IsEntryOf operation) o
      → ((ids : List (String × String)) (count : ℕ) (s u : S) (es : List Entry)
          → continue ids count s ≡ (u, ok es)
          → Reports limit rest count es)
      → after_one stores issuer limit operation resolved errors continue o ≡ (t, ok entries)
      → Reports limit (operation ∷ rest) errors entries
  unfolding entry_of
  after_one-Reports limit operation rest resolved errors continue (s, ok (entry, ids)) t entries h k
        e =
      let (status, location, f) = h in
      next_entries-Reports limit operation rest entry errors errors (continue ids errors s) s t
        entries (ap (λ x. x.method) f) (ap (λ x. x.bulk_id) f) (rw f refl)
        (λ u es. k ids errors s u es) e
  after_one-Reports limit operation rest resolved errors continue (s, scim_error status kind) t
        entries h k e =
      next_entries-Reports limit operation rest (entry_of operation status none (some kind)) errors
        (suc errors) (continue resolved (suc errors) s) s t entries refl refl refl
        (λ u es. k resolved (suc errors) s u es) e
  after_one-Reports limit operation rest resolved errors continue (s, patch_error kind) t entries h
        k e =
      let f = ap (λ p. p.1) e in cc
  after_one-Reports limit operation rest resolved errors continue (s, assertion_error) t entries h k
        e =
      let f = ap (λ p. p.1) e in cc
  after_one-Reports limit operation rest resolved errors continue (s, out_of_fuel) t entries h k e =
      let f = ap (λ p. p.1) e in cc

  run_from-Reports :
      (limit : Option ℕ) (operations : List Operation) (resolved : List (String × String))
      (errors : ℕ) (s t : S) (entries : List Entry)
      → run_from stores issuer limit operations resolved errors s ≡ (t, ok entries)
      → Reports limit operations errors entries
  unfolding run_from
  run_from-Reports limit [] resolved errors s t entries e =
      let f = ap (λ p. p.1) e in let g : [] ≡ entries = cc in sym g
  run_from-Reports limit (operation ∷ rest) resolved errors s t entries e =
      after_one-Reports limit operation rest resolved errors (run_from stores issuer limit rest)
        (run_one stores issuer operation resolved s) t entries
        (run_one-IsEntryOf operation resolved s)
        (λ ids count v u es. run_from-Reports limit rest ids count v u es) e

  -- A run that answers has an entry for each operation, in their order and with their methods and
  -- `bulkId`s, up to the end, or up to the first where the errors reach `failOnErrors`.
  pub run-Reports :
      (request : BulkRequest) (s t : S) (entries : List Entry)
      → run stores issuer request s ≡ (t, ok entries)
      → Reports request.fail_on_errors request.operations 0 entries
  unfolding run
  run-Reports request s t entries e =
      run_from-Reports request.fail_on_errors request.operations [] 0 s t entries e
