-- ===== src/Scim/Bulk/Cycles.antt =====
-- `_ordered` of campusid/scim/bulk.py refuses a request only where no order runs every operation after
-- those it refers to.
use campus_id.Shared.{
  ℕ, zero, suc, ◌≤◌, String, ◌≡◌, refl, ap, ◌∙◌, ◌⊎◌, inl, inr, Bool, true, false, Bool-cases, not,
  List, [], ◌∷◌, ◌++◌, length, all, subset, is_empty, arith, Within, here, there, Within-cons,
  Within-filter,
}
use campus_id.Shared.Members.{
  Within-append_left, Within-append_right, Within-of_append, Within-kept, subset-Within,
  Within-subset,
}
use campus_id.Scim.Bulk.Document.{ok}
use campus_id.Scim.Bulk.Order.{
  Operation, produced_id, produced, is_ready, ready_of, waiting_of, rounds, ordered,
}
use campus_id.Scim.Bulk.Ordering.{length-filter-not}
use campus_id.Scim.Bulk.Sequencing.{Covers, Follows, subset-Covers}

produced-Within :
    (operation : Operation) {operations : List Operation}
    → Within operation operations
    → Covers (produced_id operation.bulk_id) (produced operations)
produced-Within operation (here {xs}) x w = Within-append_left (produced xs) w
produced-Within operation (there {x = other} v) x w =
    Within-append_right (produced_id other.bulk_id) (produced-Within operation v x w)

Within-nonempty {ℓ} : {A : Type ℓ} {a : A} {xs : List A} → Within a xs → is_empty xs ≡ false
Within-nonempty here = refl
Within-nonempty (there w) = refl

-- In an order that runs, the first operation that is left is ready.
next_is_ready :
    (order remaining : List Operation) (seen done : List String) (left : Operation)
    → Follows seen order
    → Covers seen done
    → ((operation : Operation)
        → Within operation order
        → Within operation remaining ⊎ Covers (produced_id operation.bulk_id) done)
    → Within left order
    → Within left remaining
    → is_empty (ready_of done remaining) ≡ false
next_is_ready [] remaining seen done left f c h w v = elim w [ ]
next_is_ready (operation ∷ rest) remaining seen done left f c h w v =
    let first_ready = subset-Covers operation.depends_on seen done f.0 c in
    elim (h operation here) [
      | inl waits ↦ Within-nonempty (Within-kept (is_ready done) waits first_ready)
      | inr ran ↦ elim (Within-cons w) [
        | inl e ↦
            Within-nonempty
              (Within-kept (is_ready done) v (ap (λ o. is_ready done o) e ∙ first_ready))
        | inr later ↦
            next_is_ready rest remaining (produced_id operation.bulk_id ++ seen) done left f.1
              (λ x u. elim (Within-of_append (produced_id operation.bulk_id) u) [
                | inl mine ↦ ran x mine
                | inr before ↦ c x before
              ])
              (λ o u. h o (there u)) later v
      ]
    ]

-- After a round, an operation is waiting or its identifiers are done.
after_round :
    (remaining : List Operation) (done : List String) (operation : Operation)
    → Within operation remaining ⊎ Covers (produced_id operation.bulk_id) done
    → Within operation (waiting_of done remaining)
      ⊎ Covers (produced_id operation.bulk_id) (produced (ready_of done remaining) ++ done)
after_round remaining done operation (inr ran) =
    inr (λ x w. Within-append_right (produced (ready_of done remaining)) (ran x w))
after_round remaining done operation (inl waits) = elim (Bool-cases (is_ready done operation)) [
  | inl e ↦ inr (λ x w.
      Within-append_left done (produced-Within operation (Within-kept (is_ready done) waits e) x w))
  | inr e ↦ inl (Within-kept (λ o. not (is_ready done o)) waits (ap not e))
]

rounds-ok :
    (order : List Operation) (fuel : ℕ) (remaining : List Operation) (done : List String)
    → Follows [] order
    → ((operation : Operation)
        → Within operation order
        → Within operation remaining ⊎ Covers (produced_id operation.bulk_id) done)
    → ((operation : Operation) → Within operation remaining → Within operation order)
    → length remaining ≤ fuel
    → (result : List Operation) × (rounds fuel remaining done ≡ ok result)
unfolding rounds
rounds-ok order fuel [] done f h k l = ([], refl)
rounds-ok order zero (operation ∷ rest) done f h k l = absurd (omega (arith, l))
rounds-ok order (suc fuel) (operation ∷ rest) done f h k l =
    let remaining = operation ∷ rest in
    let ready = ready_of done remaining in
    let some_ready =
      next_is_ready order remaining [] done operation f (λ x w. elim w [ ]) h (k operation here)
        here in
    let shorter = length-filter-not (is_ready done) remaining some_ready in
    let (tail, e) =
      rounds-ok order fuel (waiting_of done remaining) (produced ready ++ done) f
        (λ o w. after_round remaining done o (h o w))
        (λ o w. k o (Within-filter (λ q. not (is_ready done q)) remaining w).0)
        (omega (arith, shorter, l)) in
    (ready ++ tail, rw some_ready (rw e refl))

-- An operation of such an order refers to identifiers that the order produces.
Follows-Covers :
    (done : List String) (order : List Operation) (operation : Operation)
    → Follows done order
    → Within operation order
    → Covers operation.depends_on (produced order ++ done)
Follows-Covers done [] operation f w x u = elim w [ ]
Follows-Covers done (first ∷ rest) operation f w x u = elim (Within-cons w) [
  | inl e ↦
      Within-append_right (produced (first ∷ rest))
        (subset-Within first.depends_on done f.0 x (rw e at u))
  | inr v ↦
      let ids = produced_id first.bulk_id in
      let there_is = Follows-Covers (ids ++ done) rest operation f.1 v x u in
      elim (Within-of_append (produced rest) there_is) [
        | inl a ↦ Within-append_left done (Within-append_right ids a)
        | inr b ↦ elim (Within-of_append ids b) [
          | inl a ↦ Within-append_left done (Within-append_left (produced rest) a)
          | inr a ↦ Within-append_right (ids ++ produced rest) a
        ]
      ]
]

produced-Covers :
    (order operations : List Operation)
    → ((operation : Operation) → Within operation order → Within operation operations)
    → Covers (produced order) (produced operations)
produced-Covers [] operations h x w = elim w [ ]
produced-Covers (operation ∷ rest) operations h x w =
    elim (Within-of_append (produced_id operation.bulk_id) w) [
      | inl mine ↦ produced-Within operation (h operation here) x mine
      | inr v ↦ produced-Covers rest operations (λ o u. h o (there u)) x v
    ]

all-Within :
    (p : Operation → Bool) (operations : List Operation)
    → ((operation : Operation) → Within operation operations → p operation ≡ true)
    → all p operations ≡ true
all-Within p [] h = refl
all-Within p (operation ∷ rest) h = rw (h operation here) (all-Within p rest (λ o w. h o (there w)))

-- Where the operations of a request can be arranged so that each comes after those it refers to, the
-- request is ordered: neither of the two errors is raised.
pub ordered_complete :
    (operations order : List Operation)
    → Follows [] order
    → ((operation : Operation) → Within operation order → Within operation operations)
    → ((operation : Operation) → Within operation operations → Within operation order)
    → (result : List Operation) × (ordered operations ≡ ok result)
unfolding ordered
ordered_complete operations order f h k =
    let known =
      all-Within (λ o. subset o.depends_on (produced operations)) operations
        (λ o w. Within-subset o.depends_on (produced operations) (λ x u.
          elim (Within-of_append (produced order) (Follows-Covers [] order o f (k o w) x u)) [
            | inl a ↦ produced-Covers order operations h x a
            | inr a ↦ elim a [ ]
          ])) in
    let (result, e) =
      rounds-ok order (length operations) operations [] f (λ o w. inl (h o w)) k (omega arith) in
    (result, rw known e)
