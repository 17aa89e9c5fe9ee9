-- ===== src/Scim/Filter/AnyCase.antt =====
-- A filter of campusid/scim/filters.py matches the same resources in every spelling.
use campus_id.Shared.{◌≡◌, refl, ap, ◌∙◌, Bool, true, false, not}
use campus_id.Shared.Texts.{Text, text_eq}
use campus_id.Scim.Filter.Syntax.{Operator, Literal, string, Node}
use campus_id.Scim.Filter.Literals.{Host}
use campus_id.Scim.Filter.Evaluator.{
  Value, none_value, bool_value, number_value, str_value, list_value, dict_value, Values, no_values,
  value, Fields, Numbers, any_value, is_member, read, equal, ordered, substring, in_text, by_order,
  text_less, text_at_most, compare_there, on_missing, compare_one, compare_any, any_member, matches,
  is_present,
}
use campus_id.Scim.Filter.Spelling.{
  IsSpelled, AreSpelled, IsUnambiguous, SameName, SameLiteral, texts, itself, Respelled, compared,
  presence, filtered, both, either, negated,
}
use campus_id.Scim.Filter.Reading.{read-respelled, read-IsSpelled}

module _ (host : Host) (numbers : Numbers host) where
  equal-respelled :
      (v : Value host.Number) (s t : Text)
      → SameName host s t
      → equal host numbers v (string s) ≡ equal host numbers v (string t)
  unfolding equal
  equal-respelled (str_value u) s t e = ap (text_eq (host.lower u)) e
  equal-respelled (bool_value true) s t e = refl
  equal-respelled (bool_value false) s t e = refl
  equal-respelled none_value s t e = refl
  equal-respelled (number_value n) s t e = refl
  equal-respelled (list_value vs) s t e = refl
  equal-respelled (dict_value entries) s t e = refl

  substring-respelled :
      (operator : Operator) (v : Value host.Number) (s t : Text)
      → SameName host s t
      → substring host numbers operator v (string s) ≡ substring host numbers operator v (string t)
  substring-respelled operator (str_value u) s t e = ap (in_text operator (host.lower u)) e
  substring-respelled operator none_value s t e = refl
  substring-respelled operator (bool_value b) s t e = refl
  substring-respelled operator (number_value n) s t e = refl
  substring-respelled operator (list_value vs) s t e = refl
  substring-respelled operator (dict_value entries) s t e = refl

  ordered-respelled :
      (operator : Operator) (v : Value host.Number) (s t : Text)
      → SameName host s t
      → ordered host numbers operator v (string s) ≡ ordered host numbers operator v (string t)
  unfolding ordered
  ordered-respelled operator (str_value u) s t e =
      ap (by_order text_less text_at_most operator (host.lower u)) e
  ordered-respelled operator none_value s t e = refl
  ordered-respelled operator (bool_value b) s t e = refl
  ordered-respelled operator (number_value n) s t e = refl
  ordered-respelled operator (list_value vs) s t e = refl
  ordered-respelled operator (dict_value entries) s t e = refl

  compare_there-respelled :
      (operator : Operator) (v : Value host.Number) (s t : Text)
      → SameName host s t
      → compare_there host numbers operator v (string s)
        ≡ compare_there host numbers operator v (string t)
  compare_there-respelled Operator.eq v s t e = equal-respelled v s t e
  compare_there-respelled Operator.ne v s t e = ap not (equal-respelled v s t e)
  compare_there-respelled Operator.co v s t e = substring-respelled Operator.co v s t e
  compare_there-respelled Operator.sw v s t e = substring-respelled Operator.sw v s t e
  compare_there-respelled Operator.ew v s t e = substring-respelled Operator.ew v s t e
  compare_there-respelled Operator.gt v s t e = ordered-respelled Operator.gt v s t e
  compare_there-respelled Operator.ge v s t e = ordered-respelled Operator.ge v s t e
  compare_there-respelled Operator.lt v s t e = ordered-respelled Operator.lt v s t e
  compare_there-respelled Operator.le v s t e = ordered-respelled Operator.le v s t e

  on_missing-respelled :
      (operator : Operator) (s t : Text)
      → on_missing host numbers operator (string s) ≡ on_missing host numbers operator (string t)
  unfolding equal
  on_missing-respelled Operator.eq s t = refl
  on_missing-respelled Operator.ne s t = refl
  on_missing-respelled Operator.co s t = refl
  on_missing-respelled Operator.sw s t = refl
  on_missing-respelled Operator.ew s t = refl
  on_missing-respelled Operator.gt s t = refl
  on_missing-respelled Operator.ge s t = refl
  on_missing-respelled Operator.lt s t = refl
  on_missing-respelled Operator.le s t = refl

  compare_one-respelled :
      (operator : Operator) (l m : Literal host.Number) (v : Value host.Number)
      → SameLiteral host l m
      → compare_one host numbers operator l v ≡ compare_one host numbers operator m v
  unfolding compare_one
  compare_one-respelled operator l m v itself = refl
  compare_one-respelled operator (string s) (string t) none_value (texts e) =
      on_missing-respelled operator s t
  compare_one-respelled operator (string s) (string t) (bool_value b) (texts e) =
      compare_there-respelled operator (bool_value b) s t e
  compare_one-respelled operator (string s) (string t) (number_value n) (texts e) =
      compare_there-respelled operator (number_value n) s t e
  compare_one-respelled operator (string s) (string t) (list_value vs) (texts e) =
      compare_there-respelled operator (list_value vs) s t e
  compare_one-respelled operator (string s) (string t) (dict_value entries) (texts e) =
      compare_there-respelled operator (dict_value entries) s t e
  compare_one-respelled operator (string s) (string t) (str_value u) (texts e) =
      compare_there-respelled operator (str_value u) s t e

  any_value-same :
      (p q : Value host.Number → Bool) (vs : Values host.Number)
      → AreSpelled host vs
      → ((v : Value host.Number) → IsSpelled host v → p v ≡ q v)
      → any_value p vs ≡ any_value q vs
  any_value-same p q no_values h k = refl
  any_value-same p q (value v rest) h k = rw (k v h.0, any_value-same p q rest h.1 k) refl

  is_member-same :
      (p q : Fields host.Number → Bool) (v : Value host.Number)
      → IsSpelled host v
      → ((entries : Fields host.Number) → IsUnambiguous host entries → p entries ≡ q entries)
      → is_member p v ≡ is_member q v
  is_member-same p q (dict_value entries) h k = k entries h
  is_member-same p q none_value h k = refl
  is_member-same p q (bool_value b) h k = refl
  is_member-same p q (number_value n) h k = refl
  is_member-same p q (str_value s) h k = refl
  is_member-same p q (list_value vs) h k = refl

  any_member-same :
      (p q : Fields host.Number → Bool) (v : Value host.Number)
      → IsSpelled host v
      → ((entries : Fields host.Number) → IsUnambiguous host entries → p entries ≡ q entries)
      → any_member host numbers p v ≡ any_member host numbers q v
  any_member-same p q (list_value vs) h k =
      any_value-same (is_member p) (is_member q) vs h (λ v s. is_member-same p q v s k)
  any_member-same p q none_value h k = refl
  any_member-same p q (bool_value b) h k = refl
  any_member-same p q (number_value n) h k = refl
  any_member-same p q (str_value s) h k = refl
  any_member-same p q (dict_value entries) h k = refl

  compare_any-respelled :
      (operator : Operator) (l m : Literal host.Number) (v : Value host.Number)
      → IsSpelled host v
      → SameLiteral host l m
      → compare_any host numbers operator l v ≡ compare_any host numbers operator m v
  compare_any-respelled operator l m (list_value vs) h e =
      any_value-same (compare_one host numbers operator l) (compare_one host numbers operator m) vs
        h (λ v s. compare_one-respelled operator l m v e)
  compare_any-respelled operator l m none_value h e =
      compare_one-respelled operator l m none_value e
  compare_any-respelled operator l m (bool_value b) h e =
      compare_one-respelled operator l m (bool_value b) e
  compare_any-respelled operator l m (number_value n) h e =
      compare_one-respelled operator l m (number_value n) e
  compare_any-respelled operator l m (str_value s) h e =
      compare_one-respelled operator l m (str_value s) e
  compare_any-respelled operator l m (dict_value entries) h e =
      compare_one-respelled operator l m (dict_value entries) e

  -- Two filters whose attribute names, schema URNs and texts differ in case alone match the same
  -- resources, where no dictionary in the resource has two keys that differ in case alone.
  pub matches-respelled :
      (a b : Node host.Number) (resource : Fields host.Number)
      → Respelled host a b
      → IsUnambiguous host resource
      → matches host numbers a resource ≡ matches host numbers b resource
  unfolding matches
  matches-respelled _ _ resource (compared {p} {q} {operator} {v} {w} e f) h =
      ap (compare_any host numbers operator v) (read-respelled host p q resource h e)
      ∙ compare_any-respelled operator v w (read host resource q) (read-IsSpelled host resource q h)
          f
  matches-respelled _ _ resource (presence {p} {q} e) h =
      ap is_present (read-respelled host p q resource h e)
  matches-respelled _ _ resource (filtered {p} {q} {a} {b} e r) h =
      ap (any_member host numbers (matches host numbers a)) (read-respelled host p q resource h e)
      ∙ any_member-same (matches host numbers a) (matches host numbers b) (read host resource q)
          (read-IsSpelled host resource q h) (λ entries k. matches-respelled a b entries r k)
  matches-respelled _ _ resource (both {a} {b} {c} {d} r s) h =
      rw (matches-respelled a b resource r h, matches-respelled c d resource s h) refl
  matches-respelled _ _ resource (either {a} {b} {c} {d} r s) h =
      rw (matches-respelled a b resource r h, matches-respelled c d resource s h) refl
  matches-respelled _ _ resource (negated {a} {b} r) h = ap not (matches-respelled a b resource r h)
