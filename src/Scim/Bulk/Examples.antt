-- ===== src/Scim/Bulk/Examples.antt =====
-- Concrete bulk requests: a group that refers to the user that the same request creates.
use campus_id.Shared.{
  ℕ, suc, String, ◌++◌, length, ◌≡◌, ◌≢◌, refl, inl, inr, true, none, some, List, [], ◌∷◌, subset,
  Within, here, there, Within-cons,
}
use mathlib.Core.List.{Perm}
use campus_id.Scim.Bulk.Document.{
  Json, text, array, object, item, no_items, field, no_fields, ok, patch_error, out_of_fuel,
  no_target,
}
use campus_id.Scim.Bulk.References.{reference, referenced_bulk_ids, resolve_references}
use campus_id.Scim.Bulk.Order.{Operation, ordered, rounds}
use campus_id.Scim.Bulk.Ordering.{ordered-answers}
use campus_id.Scim.Bulk.Sequencing.{Follows, ordered_sequence}
use campus_id.Scim.Bulk.Cycles.{ordered_complete}
use campus_id.Scim.Bulk.Resolution.{is_ok, keys, resolve_references-exact}
use campus_id.Scim.Bulk.Request.{BulkRequest, bulk_request, parse_bulk, parse_path, parse_one}
use campus_id.Scim.Bulk.Parsing.{IsRunnable, parse_bulk-IsRunnable}
use campus_id.Scim.Bulk.Runner.{Stores, Resource, Entry, entry_of, run, run_from, run_one}
use campus_id.Scim.Bulk.Running.{Reports, run-Reports}
use campus_id.Scim.Bulk.PatchFailure.{IsRefusedPatch, Passes, nothing, success, run-patch_error}

abbrev no_data : Json
no_data = object no_fields

abbrev with_member : Json
with_member = object (field "value" (text "bulkId:u") no_fields)

abbrev user : Operation
user = record {
  method = "POST";
  resource = "Users";
  resource_id = none;
  bulk_id = some "u";
  data_of = no_data;
  version = none;
  depends_on = [];
}

abbrev group : Operation
group = record {
  method = "POST";
  resource = "Groups";
  resource_id = none;
  bulk_id = some "g";
  data_of = with_member;
  version = none;
  depends_on = "u" ∷ [];
}

abbrev as_sent : List Operation
as_sent = group ∷ user ∷ []

abbrev as_run : List Operation
as_run = user ∷ group ∷ []

ordered-as_run : ordered as_sent ≡ ok as_run
unfolding ordered rounds
ordered-as_run = refl

ordered_sequence_example : Perm as_run as_sent × Follows [] as_run
ordered_sequence_example = ordered_sequence as_sent as_run ordered-as_run

ordered-answers_example : ordered (group ∷ []) ≢ out_of_fuel
ordered-answers_example = ordered-answers (group ∷ [])

swapped :
    (a b operation : Operation) → Within operation (a ∷ b ∷ []) → Within operation (b ∷ a ∷ [])
swapped a b operation w = elim (Within-cons w) [
  | inl e ↦ rw e (there here)
  | inr v ↦ elim (Within-cons v) [ inl e ↦ rw e here | inr u ↦ elim u [ ] ]
]

ordered_complete_example : (result : List Operation) × (ordered as_sent ≡ ok result)
ordered_complete_example =
    ordered_complete as_sent as_run (refl, (refl, tt)) (swapped user group) (swapped group user)

resolve_references-exact_example :
    is_ok (resolve_references (("u", "42") ∷ []) with_member)
    ≡ subset (referenced_bulk_ids with_member) (keys (("u", "42") ∷ []))
resolve_references-exact_example = resolve_references-exact (("u", "42") ∷ []) with_member

abbrev user_entry : Json
user_entry = object (
    field "method" (text "POST")
      (field "path" (text "/Users") (field "bulkId" (text "u") (field "data" no_data no_fields))))

abbrev group_entry : Json
group_entry = object (
    field "method" (text "POST") (
      field "path" (text "/Groups")
        (field "bulkId" (text "g") (field "data" with_member no_fields))))

abbrev document : Json
document = object (
    field "schemas" (array (item (text bulk_request) no_items))
      (field "Operations" (array (item group_entry (item user_entry no_items))) no_fields))

abbrev request : BulkRequest
request = record { operations = as_run; fail_on_errors = none }

parsed : parse_bulk (λ s. s) document ≡ ok request
unfolding parse_bulk parse_one parse_path reference referenced_bulk_ids rounds
parsed = refl

parse_bulk-IsRunnable_example : IsRunnable (λ s. s) request
parse_bulk-IsRunnable_example = parse_bulk-IsRunnable (λ s. s) document request parsed

abbrev stored : Resource
stored = record { id = "42"; location = none; body = no_data }

-- Stores that count the calls, and refuse every patch.
abbrev stores : Stores ℕ
stores = record {
  User = Json;
  Patch = Json;
  from_scim = λ v. ok v;
  parse_operations = λ v. ok v;
  apply_patch = λ v p. patch_error no_target;
  create_user = λ u v n. (suc n, ok (stored, true));
  get_user = λ id n. (suc n, ok stored);
  replace_user = λ id u v version n. (suc n, ok stored);
  apply_patched = λ id u v version n. (suc n, ok stored);
  soft_delete_user = λ id version n. (suc n, ok true);
  create_group = λ v n. (suc n, ok (stored, true));
  replace_group = λ id v version n. (suc n, ok stored);
  patch_group = λ id p version n. (suc n, ok stored);
  delete_group = λ id version n. (suc n, ok true);
}

abbrev two_entries : List Entry
two_entries =
    record { method = "POST"; status = 201; bulk_id = some "u"; location = none; response = none }
    ∷ record { method = "POST"; status = 201; bulk_id = some "g"; location = none; response = none }
    ∷ []

ran : run stores "https://idp" request 0 ≡ (2, ok two_entries)
unfolding run run_from run_one entry_of resolve_references reference
ran = refl

run-Reports_example : Reports none as_run 0 two_entries
run-Reports_example = run-Reports stores "https://idp" request 0 2 two_entries ran

abbrev patch : Operation
patch = record {
  method = "PATCH";
  resource = "Users";
  resource_id = some "42";
  bulk_id = none;
  data_of = no_data;
  version = none;
  depends_on = [];
}

resolved_ids : List (String × String)
resolved_ids = ("g", "42") ∷ ("u", "42") ∷ []

as_run-Passes : Passes stores "https://idp" none as_run [] 0 0 resolved_ids 0 2
unfolding resolved_ids run_one resolve_references reference entry_of
as_run-Passes = success refl refl (success refl refl nothing)

patch-IsRefusedPatch : IsRefusedPatch stores "https://idp" patch resolved_ids 2 3 no_target
unfolding resolved_ids resolve_references reference
patch-IsRefusedPatch = record {
  patches = refl;
  of_users = refl;
  id = "42";
  data_of = no_data;
  current = stored;
  patch = no_data;
  resolves_data = refl;
  resolves_id = refl;
  finds = refl;
  reads = refl;
  refuses = refl;
}

-- The two creations are committed, and no entry for them is answered.
run-patch_error_example :
    (run stores "https://idp"
        (record { operations = as_run ++ (patch ∷ as_run); fail_on_errors = none })
        0
      ≡ (3, patch_error no_target))
    × ((entries : List Entry) × (run stores "https://idp"
            (record { operations = as_run; fail_on_errors = none })
            0
          ≡ (2, ok entries))
        × (length entries ≡ length as_run))
run-patch_error_example =
    run-patch_error stores "https://idp" none as_run patch as_run resolved_ids 0 0 2 3 no_target
      as_run-Passes patch-IsRefusedPatch
