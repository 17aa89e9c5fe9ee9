-- ===== src/Scim/Filter/Selection.antt =====
-- `select_members` of campusid/scim/filters.py: the members that a PATCH changes are those that make
-- a value path match.
use campus_id.Shared.{
  ℕ, zero, suc, ◌+◌, ◌≡◌, refl, ap, ◌∙◌, ◌↔◌, inl, inr, Bool, true, Bool-cases, not, Option, none,
  some, arith, is_empty, Within, here, there, Within-cons,
}
use campus_id.Scim.Filter.Syntax.{AttrPath, Node, value_path}
use campus_id.Scim.Filter.Literals.{Host}
use campus_id.Scim.Filter.Evaluator.{
  Value, list_value, Values, no_values, value, Fields, Numbers, any_value, is_member, read, matches,
  select_from, select_members,
}

-- `members[i]`
abbrev pub member_at : {N : Type 0} → ℕ → Values N → Option (Value N)
member_at i no_values = none
member_at zero (value v rest) = some v
member_at (suc i) (value v rest) = member_at i rest

module _ (host : Host) (numbers : Numbers host) where
  select_from-Within :
      (p : Fields host.Number → Bool) (k i : ℕ) (vs : Values host.Number) (v : Value host.Number)
      → member_at i vs ≡ some v
      → is_member p v ≡ true
      → Within (i + k) (select_from host numbers p k vs)
  select_from-Within p k i no_values v h m = cc
  select_from-Within p k zero (value u rest) v h m =
      let e : u ≡ v = cc in
      let f : is_member p u ≡ true = rw e m in let z : 0 + k ≡ k = omega arith in rw (z, f) here
  select_from-Within p k (suc i) (value u rest) v h m =
      let w = select_from-Within p (suc k) i rest v h m in
      let e : i + suc k ≡ suc i + k = omega arith in
      let later = rw e at w in
      elim (Bool-cases (is_member p u)) [ inl f ↦ rw f (there later) | inr f ↦ rw f later ]

  Within-select_from :
      (p : Fields host.Number → Bool) (k n : ℕ) (vs : Values host.Number)
      → Within n (select_from host numbers p k vs)
      → (i : ℕ) × (v : Value host.Number) × (n ≡ i + k)
        × (member_at i vs ≡ some v)
        × (is_member p v ≡ true)
  Within-select_from p k n no_values w = elim w [ ]
  Within-select_from p k n (value u rest) w = elim (Bool-cases (is_member p u)) [
    | inr f ↦
        let (i, v, e, at, m) = Within-select_from p (suc k) n rest (rw f at w) in
        (suc i, v, omega (arith, e), at, m)
    | inl f ↦ elim (Within-cons (rw f at w)) [
      | inl e ↦ (zero, u, omega (arith, e), refl, f)
      | inr later ↦
          let (i, v, e, at, m) = Within-select_from p (suc k) n rest later in
          (suc i, v, omega (arith, e), at, m)
    ]
  ]

  -- The indices that a value filter selects are those of the members that are dictionaries and match
  -- the filter.
  pub select_members-exact :
      (predicate : Node host.Number) (members : Values host.Number) (i : ℕ)
      → Within i (select_members host numbers predicate members) ↔ (
          (v : Value host.Number) × (member_at i members ≡ some v)
          × (is_member (matches host numbers predicate) v ≡ true))
  unfolding select_members
  select_members-exact predicate members i = (
    (λ w.
        let (j, v, e, at, m) = Within-select_from (matches host numbers predicate) 0 i members w in
        let same : i ≡ j = omega (arith, e) in (v, ap (λ n. member_at n members) same ∙ at, m)),
    (λ (v, at, m).
        let w = select_from-Within (matches host numbers predicate) 0 i members v at m in
        let same : i + 0 ≡ i = omega arith in rw same at w),
  )

  any_value-select :
      (p : Fields host.Number → Bool) (k : ℕ) (vs : Values host.Number)
      → any_value (is_member p) vs ≡ not (is_empty (select_from host numbers p k vs))
  any_value-select p k no_values = refl
  any_value-select p k (value v rest) = elim (Bool-cases (is_member p v)) [
    | inl f ↦ rw f refl
    | inr f ↦ rw f (any_value-select p (suc k) rest)
  ]

  -- A value path on an attribute with a list of values matches a resource exactly when its filter
  -- selects a member of that list.
  pub value_path-selects :
      (path : AttrPath) (predicate : Node host.Number) (resource : Fields host.Number)
      (members : Values host.Number)
      → read host resource path ≡ list_value members
      → matches host numbers (value_path path predicate) resource
        ≡ not (is_empty (select_members host numbers predicate members))
  unfolding matches select_members
  value_path-selects path predicate resource members e =
      rw e (any_value-select (matches host numbers predicate) 0 members)
