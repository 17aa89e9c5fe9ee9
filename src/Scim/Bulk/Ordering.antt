-- ===== src/Scim/Bulk/Ordering.antt =====
-- The rounds of `_ordered` of campusid/scim/bulk.py end, and what they answer is a permutation.
use mathlib.Core.List.{Perm, perm_middle}
use mathlib.Core.List.Perm
use campus_id.Shared.{
  ℕ, zero, suc, ◌≤◌, ◌<◌, String, ◌≡◌, ◌≢◌, refl, inl, inr, Bool, true, false, Bool-cases, not,
  List, [], ◌∷◌, ◌++◌, length, filter, all, subset, is_empty, if◌then◌else◌, arith,
}
use campus_id.Scim.Bulk.Document.{
  Outcome, ok, scim_error, patch_error, assertion_error, out_of_fuel, invalid_value, ◌>>=◌,
}
use campus_id.Scim.Bulk.Order.{Operation, produced, is_ready, ready_of, waiting_of, rounds, ordered}

-- A list keeps what a filter takes, before what it leaves.
pub filter-split {ℓ} :
    {A : Type ℓ} (p : A → Bool) (xs : List A) → Perm (filter p xs ++ filter (λ x. not (p x)) xs) xs
filter-split p [] = Perm.refl []
filter-split p (x ∷ xs) = elim (Bool-cases (p x)) [
  | inl e ↦ rw e (Perm.cons x (filter-split p xs))
  | inr e ↦ rw e (
      Perm.trans (perm_middle (filter p xs) (filter (λ y. not (p y)) xs))
        (Perm.cons x (filter-split p xs)))
]

pub length-filter-not :
    (p : Operation → Bool) (xs : List Operation)
    → is_empty (filter p xs) ≡ false
    → length (filter (λ x. not (p x)) xs) < length xs
length-filter-not p [] h = cc
length-filter-not p (x ∷ xs) h = elim (Bool-cases (p x)) [
  | inl e ↦ rw e (omega (arith, length-filter_le (λ y. not (p y)) xs))
  | inr e ↦ let k = length-filter-not p xs (rw e at h) in rw e (omega (arith, k))
]
  where
    length-filter_le :
        (q : Operation → Bool) (ys : List Operation) → length (filter q ys) ≤ length ys
    length-filter_le q [] = omega arith
    length-filter_le q (y ∷ ys) = elim (Bool-cases (q y)) [
      | inl e ↦ rw e (omega (arith, length-filter_le q ys))
      | inr e ↦ rw e (omega (arith, length-filter_le q ys))
    ]

bind-fuel :
    (ready : List Operation) (m : Outcome (List Operation))
    → m ≢ out_of_fuel
    → (m >>= λ tail. ok (ready ++ tail)) ≢ out_of_fuel
bind-fuel ready (ok tail) h e = cc
bind-fuel ready (scim_error status kind) h e = cc
bind-fuel ready (patch_error kind) h e = cc
bind-fuel ready assertion_error h e = cc
bind-fuel ready out_of_fuel h e = h refl

pub rounds-fuel :
    (fuel : ℕ) (remaining : List Operation) (done : List String)
    → length remaining ≤ fuel
    → rounds fuel remaining done ≢ out_of_fuel
unfolding rounds
rounds-fuel fuel [] done l = λ e. cc
rounds-fuel zero (operation ∷ rest) done l = absurd (omega (arith, l))
rounds-fuel (suc fuel) (operation ∷ rest) done l =
    let remaining = operation ∷ rest in
    elim (Bool-cases (is_empty (ready_of done remaining))) [
      | inl e ↦ rw e (λ h. cc)
      | inr e ↦
          let shorter = length-filter-not (is_ready done) remaining e in
          rw e (
            bind-fuel (ready_of done remaining)
              (rounds fuel (waiting_of done remaining) (produced (ready_of done remaining) ++ done))
              (rounds-fuel fuel (waiting_of done remaining)
                (produced (ready_of done remaining) ++ done) (omega (arith, shorter, l))))
    ]

ordered_then-fuel :
    (b : Bool) (m : Outcome (List Operation))
    → m ≢ out_of_fuel
    → (if b then m else scim_error 400 invalid_value) ≢ out_of_fuel
ordered_then-fuel true m h e = h e
ordered_then-fuel false m h e = cc

-- The order is found, or refused, for every request: each round runs an operation, so that one round
-- for each operation is enough.
pub ordered-answers : (operations : List Operation) → ordered operations ≢ out_of_fuel
unfolding ordered
ordered-answers operations =
    ordered_then-fuel
      (all (λ operation. subset operation.depends_on (produced operations)) operations)
      (rounds (length operations) operations [])
      (rounds-fuel (length operations) operations [] (omega arith))

-- A result of a round has the round's operations and those of the rounds after it.
pub rounds-next :
    (fuel : ℕ) (operation : Operation) (rest : List Operation) (done : List String)
    (result : List Operation)
    → rounds (suc fuel) (operation ∷ rest) done ≡ ok result
    → (tail : List Operation) × (rounds fuel
          (waiting_of done (operation ∷ rest))
          (produced (ready_of done (operation ∷ rest)) ++ done)
        ≡ ok tail)
      × (result ≡ ready_of done (operation ∷ rest) ++ tail)
unfolding rounds
rounds-next fuel operation rest done result e =
    elim (Bool-cases (is_empty (ready_of done (operation ∷ rest)))) [
      | inl stuck ↦ let f = rw stuck at e in cc
      | inr more ↦
          step
            (rounds fuel (waiting_of done (operation ∷ rest))
              (produced (ready_of done (operation ∷ rest)) ++ done))
            (rw more at e)
    ]
  where
    step :
        (m : Outcome (List Operation))
        → (m >>= λ tail. ok (ready_of done (operation ∷ rest) ++ tail)) ≡ ok result
        → (tail : List Operation) × (m ≡ ok tail)
          × (result ≡ ready_of done (operation ∷ rest) ++ tail)
    step (ok tail) f = (tail, refl, cc)
    step (scim_error status kind) f = cc
    step (patch_error kind) f = cc
    step assertion_error f = cc
    step out_of_fuel f = cc

pub rounds-Perm :
    (fuel : ℕ) (remaining : List Operation) (done : List String) (result : List Operation)
    → rounds fuel remaining done ≡ ok result
    → Perm result remaining
unfolding rounds
rounds-Perm fuel [] done result e = let f : [] ≡ result = cc in rw (← f) (Perm.refl [])
rounds-Perm zero (operation ∷ rest) done result e = cc
rounds-Perm (suc fuel) (operation ∷ rest) done result e =
    let remaining = operation ∷ rest in
    let ready = ready_of done remaining in
    let (tail, f, g) = rounds-next fuel operation rest done result e in
    rw g (
      Perm.trans
        (Perm.append_left ready
          (rounds-Perm fuel (waiting_of done remaining) (produced ready ++ done) tail f))
        (filter-split (is_ready done) remaining))
