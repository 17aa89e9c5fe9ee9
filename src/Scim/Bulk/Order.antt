-- ===== src/Scim/Bulk/Order.antt =====
-- The order in which campusid/scim/bulk.py runs the operations of a request: rounds of those whose
-- references are produced already.
use campus_id.Shared.{
  ℕ, zero, suc, String, Bool, not, Option, none, some, List, [], ◌∷◌, ◌++◌, ◌==◌, length, filter,
  all, contains, subset, is_empty, if◌then◌else◌,
}
use campus_id.Scim.Bulk.Document.{
  Json, Outcome, ok, scim_error, out_of_fuel, invalid_value, uniqueness, ◌>>=◌,
}

pub record Operation : Type 0 where
  pub method : String
  pub resource : String
  pub resource_id : Option String
  pub bulk_id : Option String
  pub data_of : Json
  pub version : Option String
  pub depends_on : List String

-- `_assert_bulk_ids_unique`, from the identifiers that were seen on; the answer is the set `seen`.
abbrev pub with_id :
    Option String → List String → (List String → Outcome (List String)) → Outcome (List String)
with_id none seen next = next seen
with_id (some id) seen next =
    if contains id seen then scim_error 409 uniqueness else next (id ∷ seen)

unfoldable pub bulk_ids_unique : List String → List Operation → Outcome (List String)
bulk_ids_unique seen [] = ok seen
bulk_ids_unique seen (operation ∷ rest) =
    with_id operation.bulk_id seen (λ ids. bulk_ids_unique ids rest)

-- The identifier that an operation produces, where it is neither `None` nor empty.
abbrev pub produced_id : Option String → List String
produced_id none = []
produced_id (some id) = if id == "" then [] else id ∷ []

abbrev pub produced : List Operation → List String
produced [] = []
produced (operation ∷ rest) = produced_id operation.bulk_id ++ produced rest

-- The operations of a round, whose references are done.
abbrev pub is_ready : List String → Operation → Bool
is_ready done operation = subset operation.depends_on done

abbrev pub ready_of : List String → List Operation → List Operation
ready_of done remaining = filter (is_ready done) remaining

abbrev pub waiting_of : List String → List Operation → List Operation
waiting_of done remaining = filter (λ operation. not (is_ready done operation)) remaining

-- The rounds of `_ordered`, on fuel: what is left, and the identifiers that are done.
unfoldable pub rounds : ℕ → List Operation → List String → Outcome (List Operation)
rounds fuel [] done = ok []
rounds zero (operation ∷ rest) done = out_of_fuel
rounds (suc fuel) (operation ∷ rest) done =
    let remaining = operation ∷ rest in
    let ready = ready_of done remaining in
    let later = rounds fuel (waiting_of done remaining) (produced ready ++ done) in
    if is_empty ready then scim_error 409 invalid_value else later >>= λ tail. ok (ready ++ tail)

-- `_ordered`
unfoldable pub ordered : List Operation → Outcome (List Operation)
unfolding rounds
ordered operations =
    if all (λ operation. subset operation.depends_on (produced operations)) operations
    then rounds (length operations) operations []
    else scim_error 400 invalid_value
