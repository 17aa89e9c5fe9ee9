-- ===== src/Scim/Patch/Selected.antt =====
-- The loops of `_apply_filtered` in campusid/scim/patch.py over the selected indices.
use campus_id.Shared.{
  ℕ, suc, ◌≡◌, refl, ap, ◌∙◌, inl, inr, Bool, Bool-cases, Option, none, List, [], ◌∷◌, map,
  if◌then◌else◌,
}
use campus_id.Shared.Texts.{Text}
use campus_id.Scim.Filter.Syntax.{Node}
use campus_id.Scim.Filter.Literals.{Host}
use campus_id.Scim.Filter.Evaluator.{
  Value, Values, no_values, value, Fields, Numbers, is_member, matches, select_from, select_members,
}
use campus_id.Scim.Patch.Apply.{
  replace, remove, update_at, remove_at, update_each, remove_each, replaced, change_selected,
}

-- The members that do not pass a test, and the members with those that do changed.
abbrev pub unmatched : {N : Type 0} → (Value N → Bool) → Values N → Values N
unmatched p no_values = no_values
unmatched p (value v rest) = let later = unmatched p rest in if p v then later else value v later

abbrev pub with_matched :
    {N : Type 0} → (Value N → Bool) → (Value N → Value N) → Values N → Values N
with_matched p f no_values = no_values
with_matched p f (value v rest) =
    let later = with_matched p f rest in if p v then value (f v) later else value v later

remove_each-suc :
    {N : Type 0} (is : List ℕ) (v : Value N) (rest : Values N)
    → remove_each (map suc is) (value v rest) ≡ value v (remove_each is rest)
remove_each-suc [] v rest = refl
remove_each-suc (i ∷ is) v rest = ap (remove_at (suc i)) (remove_each-suc is v rest)

update_each-suc :
    {N : Type 0} (f : Value N → Value N) (is : List ℕ) (v : Value N) (rest : Values N)
    → update_each f (map suc is) (value v rest) ≡ value v (update_each f is rest)
update_each-suc f [] v rest = refl
update_each-suc f (i ∷ is) v rest = update_each-suc f is v (update_at f i rest)

module _ (host : Host) (numbers : Numbers host) where
  select_from-suc :
      (p : Fields host.Number → Bool) (k : ℕ) (vs : Values host.Number)
      → select_from host numbers p (suc k) vs ≡ map suc (select_from host numbers p k vs)
  select_from-suc p k no_values = refl
  select_from-suc p k (value v rest) = elim (Bool-cases (is_member p v)) [
    | inl e ↦ rw e (ap (λ is. suc k ∷ is) (select_from-suc p (suc k) rest))
    | inr e ↦ rw e (select_from-suc p (suc k) rest)
  ]

  remove_each-select :
      (p : Fields host.Number → Bool) (vs : Values host.Number)
      → remove_each (select_from host numbers p 0 vs) vs ≡ unmatched (is_member p) vs
  remove_each-select p no_values = refl
  remove_each-select p (value v rest) =
      let is = select_from host numbers p 0 rest in
      let inner = remove_each-suc is v rest ∙ ap (value v) (remove_each-select p rest) in
      elim (Bool-cases (is_member p v)) [
        | inl e ↦ rw e (rw (select_from-suc p 0 rest) (ap (remove_at 0) inner))
        | inr e ↦ rw e (rw (select_from-suc p 0 rest) inner)
      ]

  update_each-select :
      (p : Fields host.Number → Bool) (f : Value host.Number → Value host.Number)
      (vs : Values host.Number)
      → update_each f (select_from host numbers p 0 vs) vs ≡ with_matched (is_member p) f vs
  update_each-select p f no_values = refl
  update_each-select p f (value v rest) =
      let is = select_from host numbers p 0 rest in
      elim (Bool-cases (is_member p v)) [
        | inl e ↦ rw e (
            rw (select_from-suc p 0 rest)
              (update_each-suc f is (f v) rest ∙ ap (value (f v)) (update_each-select p f rest)))
        | inr e ↦ rw e (
            rw (select_from-suc p 0 rest)
              (update_each-suc f is v rest ∙ ap (value v) (update_each-select p f rest)))
      ]

  -- The deletion of the selected indices from the last to the first leaves the members that the filter
  -- does not match, in their order; a replacement changes the members that it matches and no other.
  pub change_selected-exact :
      (predicate : Node host.Number) (sub : Option Text) (v : Value host.Number)
      (members : Values host.Number)
      → (change_selected host numbers remove none v
            (select_members host numbers predicate members)
            members
          ≡ unmatched (is_member (matches host numbers predicate)) members)
        × (change_selected host numbers replace sub v
              (select_members host numbers predicate members)
              members
            ≡ with_matched
                (is_member (matches host numbers predicate))
                (replaced host numbers sub v)
                members)
  unfolding select_members
  change_selected-exact predicate sub v members = (
    remove_each-select (matches host numbers predicate) members,
    update_each-select (matches host numbers predicate) (replaced host numbers sub v) members,
  )
