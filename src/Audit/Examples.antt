-- ===== src/Audit/Examples.antt =====
-- The chain's theorems over a host with a checksum for a digest, and two written events.
use campus_id.Shared.{
  ℕ, ◌+◌, ◌≡◌, refl, ◌⊎◌, String, none, some, List, [], ◌∷◌, length, eqb, if◌then◌else◌, arith,
}
use campus_id.Audit.Chain.{
  Text, Value, Fields, end, field, number, dict, Host, Event, zeros, genesis, verify, verify_from,
  verify_chain, write, last_seq_of, altered,
}
use campus_id.Audit.Tamper.{same_head-same_contents, contents, Collision}
use campus_id.Audit.Batches.{verify_chain_exact, write_verifies}

abbrev Toy : Type 0
Toy = Value ℕ ℕ Unit

abbrev of_number : Toy → ℕ
of_number (number n) = n
of_number _ = 0

-- `str(value or "")` of the values below.
abbrev name_of : Toy → String
name_of (number n) = if eqb n 7 then "7" else "8"
name_of _ = ""

abbrev of_fields : Fields ℕ ℕ Unit → Text
of_fields end = []
of_fields (field k v rest) = of_number v ∷ of_fields rest

abbrev toy_dumps : Toy → Text
toy_dumps (dict fs) = of_fields fs
toy_dumps _ = []

abbrev checksum : Text → ℕ
checksum [] = 1
checksum (x ∷ xs) = x + checksum xs

toy_length : (material : Text) → length (checksum material ∷ zeros 63) ≡ 64
unfolding zeros
toy_length material = refl

abbrev toy : Host
toy = record {
  Number = ℕ;
  Moment = ℕ;
  Other = Unit;
  dumps = toy_dumps;
  sha256 = λ material. checksum material ∷ zeros 63;
  utc_text = λ m. "";
  str = λ o. "";
  str_or_empty = name_of;
  sha256_length = toy_length;
}

abbrev login : List (String × Toy)
login = ("event_id", number 7) ∷ ("detail", number 9) ∷ []

abbrev logout : List (String × Toy)
logout = ("event_id", number 8) ∷ []

abbrev one_event : List (Event toy)
one_event = write toy genesis [] 1 login

abbrev trail : List (Event toy)
trail = write toy genesis one_event 2 logout

one_verifies : verify_from toy genesis one_event ≡ none
unfolding write verify_from zeros
one_verifies = refl

write_verifies_example : verify_from toy genesis trail ≡ none
unfolding write last_seq_of
write_verifies_example = write_verifies toy genesis one_event 2 logout one_verifies refl

verify_chain_exact_example : verify_chain toy 1 trail genesis ≡ some (verify_from toy genesis trail)
unfolding write
verify_chain_exact_example = verify_chain_exact toy 1 trail genesis (omega arith) (omega arith)

trail_verifies : verify toy trail ≡ none
unfolding verify
trail_verifies = write_verifies_example

same_head-same_contents_example : (contents toy trail ≡ contents toy trail) ⊎ Collision toy
same_head-same_contents_example =
    same_head-same_contents toy trail trail trail_verifies trail_verifies refl refl

abbrev forged : List (Event toy) → List (Event toy)
forged [] = []
forged (e ∷ rest) = record e { columns = logout } ∷ rest

forgery_found :
    verify toy (forged trail) ≡ some (record { seq = 1; event_id = "8"; problem = altered })
unfolding verify write zeros
forgery_found = refl
