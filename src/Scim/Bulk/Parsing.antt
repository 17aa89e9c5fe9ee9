-- ===== src/Scim/Bulk/Parsing.antt =====
-- What `parse_bulk` of campusid/scim/bulk.py accepts: operations that can be run, in an order in which
-- they can.
use campus_id.Shared.{
  ℕ, suc, String, ◌≡◌, inl, inr, Bool-cases, not, Option, List, [], ◌∷◌, ◌++◌, all, subset, length,
  zero, ltb, Within, Within-cons, Within-filter,
}
use campus_id.Shared.Members.{Within-of_append}
use campus_id.Scim.Bulk.Document.{
  Json, null, boolean, whole, other_number, text, array, object, Items, no_items, item, Fields, ok,
  too_many, get,
}
use campus_id.Scim.Bulk.Order.{
  Operation, is_ready, ready_of, waiting_of, produced, rounds, bulk_ids_unique, ordered,
}
use campus_id.Scim.Bulk.Ordering.{rounds-next}
use campus_id.Scim.Bulk.Sequencing.{Follows, ordered_sequence}
use campus_id.Scim.Bulk.Request.{
  BulkRequest, max_bulk_operations, refuse_if, fail_on_errors_of, declares, bulk_request,
  count_items, parse_one, parse_all, requested, with_operations, with_schemas, parse_bulk,
}
use campus_id.Scim.Bulk.WellFormed.{Yields, bind-Yields, IsWellFormed, parse_one-IsWellFormed}

module _ (upper : String → String) where
  -- Every operation of a list is well formed.
  abbrev pub AllWellFormed : List Operation → Type 0
  AllWellFormed operations =
      (operation : Operation) → Within operation operations → IsWellFormed operation

  parse_all-AllWellFormed : (items : Items) → Yields AllWellFormed (parse_all upper items)
  parse_all-AllWellFormed no_items = λ operation w. elim w [ ]
  parse_all-AllWellFormed (item v rest) =
      bind-Yields AllWellFormed (parse_one upper v) _ (λ first e.
        bind-Yields AllWellFormed (parse_all upper rest) _ (λ operations f.
          let one : IsWellFormed first = rw e at (parse_one-IsWellFormed upper v) in
          let others : AllWellFormed operations = rw f at (parse_all-AllWellFormed rest) in
          λ operation w. elim (Within-cons w) [
            | inl same ↦ rw same one
            | inr later ↦ others operation later
          ]))

  rounds-Within :
      (fuel : ℕ) (remaining : List Operation) (done : List String) (result : List Operation)
      → rounds fuel remaining done ≡ ok result
      → (operation : Operation) → Within operation result
      → Within operation remaining
  unfolding rounds
  rounds-Within fuel [] done result e operation w = let f : [] ≡ result = cc in rw (← f) at w
  rounds-Within zero (first ∷ rest) done result e operation w = cc
  rounds-Within (suc fuel) (first ∷ rest) done result e operation w =
      let remaining = first ∷ rest in
      let ready = ready_of done remaining in
      let (tail, f, g) = rounds-next fuel first rest done result e in
      elim (Within-of_append ready (rw g at w)) [
        | inl now ↦ (Within-filter (is_ready done) remaining now).0
        | inr later ↦
            (Within-filter (λ o. not (is_ready done o)) remaining
              (rounds-Within fuel (waiting_of done remaining) (produced ready ++ done) tail f
                operation later)).0
      ]

  ordered-Within :
      (operations result : List Operation)
      → ordered operations ≡ ok result
      → (operation : Operation) → Within operation result
      → Within operation operations
  unfolding ordered
  ordered-Within operations result e =
      elim (Bool-cases
        (all (λ operation. subset operation.depends_on (produced operations)) operations)) [
          | inl known ↦ rounds-Within (length operations) operations [] result (rw known at e)
          | inr unknown ↦ let f = rw unknown at e in cc
        ]

  -- A request that can be run: every operation is well formed, and comes after those that produce the
  -- identifiers it refers to.
  abbrev pub IsRunnable : BulkRequest → Type 0
  IsRunnable request = AllWellFormed request.operations × Follows [] request.operations

  requested-IsRunnable :
      (limit : Option ℕ) (operations : List Operation)
      → AllWellFormed operations
      → Yields IsRunnable (requested upper limit operations)
  requested-IsRunnable limit operations h =
      bind-Yields IsRunnable (bulk_ids_unique [] operations) _ (λ seen e.
        bind-Yields IsRunnable (ordered operations) _ (λ result f. (
          (λ operation w. h operation (ordered-Within operations result f operation w)),
          (ordered_sequence operations result f).1,
        )))

  with_operations-IsRunnable :
      (document : Fields) (v : Json) → Yields IsRunnable (with_operations upper document v)
  with_operations-IsRunnable document (array (item first rest)) =
      bind-Yields IsRunnable
        (refuse_if (ltb max_bulk_operations (count_items (item first rest))) 413 too_many) _
        (λ b e.
          bind-Yields IsRunnable (fail_on_errors_of (get document "failOnErrors")) _ (λ limit f.
            bind-Yields IsRunnable (parse_all upper (item first rest)) _ (λ operations g.
              requested-IsRunnable limit operations
                (rw g at (parse_all-AllWellFormed (item first rest))))))
  with_operations-IsRunnable document (array no_items) = tt
  with_operations-IsRunnable document null = tt
  with_operations-IsRunnable document (boolean b) = tt
  with_operations-IsRunnable document (whole n) = tt
  with_operations-IsRunnable document other_number = tt
  with_operations-IsRunnable document (text s) = tt
  with_operations-IsRunnable document (object entries) = tt

  with_schemas-IsRunnable :
      (document : Fields) (v : Json) → Yields IsRunnable (with_schemas upper document v)
  with_schemas-IsRunnable document (array schemas) =
      elim (Bool-cases (declares bulk_request schemas)) [
        | inl e ↦ rw e (with_operations-IsRunnable document (get document "Operations"))
        | inr e ↦ rw e tt
      ]
  with_schemas-IsRunnable document null = tt
  with_schemas-IsRunnable document (boolean b) = tt
  with_schemas-IsRunnable document (whole n) = tt
  with_schemas-IsRunnable document other_number = tt
  with_schemas-IsRunnable document (text s) = tt
  with_schemas-IsRunnable document (object entries) = tt

  -- A request that is accepted can be run: every operation is well formed, and comes after those that
  -- produce the identifiers it refers to.
  pub parse_bulk-IsRunnable :
      (document : Json) (request : BulkRequest)
      → parse_bulk upper document ≡ ok request
      → IsRunnable request
  unfolding parse_bulk
  parse_bulk-IsRunnable (object document) request e =
      rw e at (with_schemas-IsRunnable document (get document "schemas"))
  parse_bulk-IsRunnable null request e = cc
  parse_bulk-IsRunnable (boolean b) request e = cc
  parse_bulk-IsRunnable (whole n) request e = cc
  parse_bulk-IsRunnable other_number request e = cc
  parse_bulk-IsRunnable (text s) request e = cc
  parse_bulk-IsRunnable (array items) request e = cc
