-- ===== src/Scim/Bulk/Sequencing.antt =====
-- What `_ordered` of campusid/scim/bulk.py answers: every reference is produced before it is used.
use mathlib.Core.List.{Perm}
use campus_id.Shared.{
  ℕ, zero, suc, String, ◌≡◌, inl, inr, true, Bool-cases, List, [], ◌∷◌, ◌++◌, length, all, subset,
  Within,
}
use campus_id.Shared.Members.{
  Within-append_left, Within-append_right, Within-of_append, subset-Within, Within-subset,
}
use campus_id.Scim.Bulk.Document.{ok}
use campus_id.Scim.Bulk.Order.{
  Operation, produced_id, produced, is_ready, ready_of, waiting_of, rounds, ordered,
}
use campus_id.Scim.Bulk.Ordering.{rounds-next, rounds-Perm}

-- Every text of the one list stands in the other.
abbrev pub Covers : List String → List String → Type 0
Covers xs ys = (x : String) → Within x xs → Within x ys

-- Each operation refers to identifiers that are done or produced before it alone.
abbrev pub Follows : List String → List Operation → Type 0
Follows done [] = Unit
Follows done (operation ∷ rest) =
    (subset operation.depends_on done ≡ true) × Follows (produced_id operation.bulk_id ++ done) rest

pub subset-Covers :
    (xs done more : List String) → subset xs done ≡ true → Covers done more → subset xs more ≡ true
subset-Covers xs done more h c = Within-subset xs more (λ x w. c x (subset-Within xs done h x w))

pub Covers-append :
    (xs done more : List String) → Covers done more → Covers (xs ++ done) (xs ++ more)
Covers-append xs done more c x w = elim (Within-of_append xs w) [
  | inl v ↦ Within-append_left more v
  | inr v ↦ Within-append_right xs (c x v)
]

Covers-swap : (xs ys done : List String) → Covers ((xs ++ ys) ++ done) (ys ++ (xs ++ done))
Covers-swap xs ys done x w = elim (Within-of_append (xs ++ ys) w) [
  | inr v ↦ Within-append_right ys (Within-append_right xs v)
  | inl v ↦ elim (Within-of_append xs v) [
    | inl u ↦ Within-append_right ys (Within-append_left done u)
    | inr u ↦ Within-append_left (xs ++ done) u
  ]
]

Follows-more :
    (done more : List String) (operations : List Operation)
    → Covers done more
    → Follows done operations
    → Follows more operations
Follows-more done more [] c h = tt
Follows-more done more (operation ∷ rest) c h =
    let ids = produced_id operation.bulk_id in
    (
      subset-Covers operation.depends_on done more h.0 c,
      Follows-more (ids ++ done) (ids ++ more) rest (Covers-append ids done more c) h.1,
    )

Follows-append :
    (done : List String) (first second : List Operation)
    → Follows done first
    → Follows (produced first ++ done) second
    → Follows done (first ++ second)
Follows-append done [] second h k = k
Follows-append done (operation ∷ first) second h k =
    let ids = produced_id operation.bulk_id in
    (
      h.0,
      Follows-append (ids ++ done) first second h.1 (
          Follows-more ((ids ++ produced first) ++ done) (produced first ++ (ids ++ done)) second
            (Covers-swap ids (produced first) done) k),
    )

ready_of-Follows :
    (done more : List String) (operations : List Operation)
    → Covers done more
    → Follows more (ready_of done operations)
ready_of-Follows done more [] c = tt
ready_of-Follows done more (operation ∷ rest) c = elim (Bool-cases (is_ready done operation)) [
  | inl e ↦ rw e (
    subset-Covers operation.depends_on done more e c,
    ready_of-Follows done (produced_id operation.bulk_id ++ more) rest
        (λ x w. Within-append_right (produced_id operation.bulk_id) (c x w)),
  )
  | inr e ↦ rw e (ready_of-Follows done more rest c)
]

rounds-Follows :
    (fuel : ℕ) (remaining : List Operation) (done : List String) (result : List Operation)
    → rounds fuel remaining done ≡ ok result
    → Follows done result
unfolding rounds
rounds-Follows fuel [] done result e = let f : [] ≡ result = cc in rw (← f) tt
rounds-Follows zero (operation ∷ rest) done result e = cc
rounds-Follows (suc fuel) (operation ∷ rest) done result e =
    let remaining = operation ∷ rest in
    let ready = ready_of done remaining in
    let (tail, f, g) = rounds-next fuel operation rest done result e in
    rw g (
      Follows-append done ready tail (ready_of-Follows done done remaining (λ x w. w))
        (rounds-Follows fuel (waiting_of done remaining) (produced ready ++ done) tail f))

-- The order that is answered has the operations of the request, each as often, and each operation
-- comes after those that produce the identifiers it refers to.
pub ordered_sequence :
    (operations result : List Operation)
    → ordered operations ≡ ok result
    → Perm result operations × Follows [] result
unfolding ordered
ordered_sequence operations result e =
    elim (Bool-cases
      (all (λ operation. subset operation.depends_on (produced operations)) operations)) [
        | inl known ↦
            let f = rw known at e in
            (
              rounds-Perm (length operations) operations [] result f,
              rounds-Follows (length operations) operations [] result f,
            )
        | inr unknown ↦ let f = rw unknown at e in cc
      ]
