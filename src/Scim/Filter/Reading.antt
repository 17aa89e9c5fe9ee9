-- ===== src/Scim/Filter/Reading.antt =====
-- `_read` of campusid/scim/filters.py finds the same value under every spelling of a path.
use campus_id.Shared.{◌≡◌, refl, ap, ◌∙◌, Option, none, some}
use campus_id.Shared.Texts.{Text}
use campus_id.Scim.Filter.Syntax.{AttrPath}
use campus_id.Scim.Filter.Literals.{Host}
use campus_id.Scim.Filter.Evaluator.{
  Value, none_value, bool_value, number_value, str_value, list_value, dict_value, Values, no_values,
  value, Fields, collected_or_none, urn_of, keep_value, get_insensitive, collect, read_sub, read_in,
  container, read,
}
use campus_id.Scim.Filter.Spelling.{
  IsSpelled, AreSpelled, IsUnambiguous, SameName, SameOption, SamePath, get_insensitive-respelled,
  get_insensitive-IsSpelled,
}

module _ (host : Host) where
  collect-respelled :
      (s t : Text) (vs : Values host.Number)
      → AreSpelled host vs
      → SameName host s t
      → collect host s vs ≡ collect host t vs
  collect-respelled s t no_values h e = refl
  collect-respelled s t (value (dict_value entries) rest) h e =
      rw (get_insensitive-respelled host entries s t h.0 e, collect-respelled s t rest h.1 e) refl
  collect-respelled s t (value none_value rest) h e = collect-respelled s t rest h.1 e
  collect-respelled s t (value (bool_value b) rest) h e = collect-respelled s t rest h.1 e
  collect-respelled s t (value (number_value n) rest) h e = collect-respelled s t rest h.1 e
  collect-respelled s t (value (str_value u) rest) h e = collect-respelled s t rest h.1 e
  collect-respelled s t (value (list_value vs) rest) h e = collect-respelled s t rest h.1 e

  read_sub-respelled :
      (s t : Option Text) (v : Value host.Number)
      → IsSpelled host v
      → SameOption host s t
      → read_sub host s v ≡ read_sub host t v
  read_sub-respelled none none v h e = refl
  read_sub-respelled none (some t) v h e = absurd e
  read_sub-respelled (some s) none v h e = absurd e
  read_sub-respelled (some s) (some t) (list_value vs) h e =
      ap collected_or_none (collect-respelled s t vs h e)
  read_sub-respelled (some s) (some t) (dict_value entries) h e =
      get_insensitive-respelled host entries s t h e
  read_sub-respelled (some s) (some t) none_value h e = refl
  read_sub-respelled (some s) (some t) (bool_value b) h e = refl
  read_sub-respelled (some s) (some t) (number_value n) h e = refl
  read_sub-respelled (some s) (some t) (str_value u) h e = refl

  read_in-respelled :
      (p q : AttrPath) (v : Value host.Number)
      → IsSpelled host v
      → SamePath host p q
      → read_in host p v ≡ read_in host q v
  read_in-respelled p q (dict_value entries) h e =
      ap (read_sub host p.sub_attribute)
        (get_insensitive-respelled host entries p.attribute q.attribute h e.attributes)
      ∙ read_sub-respelled p.sub_attribute q.sub_attribute
          (get_insensitive host entries q.attribute)
          (get_insensitive-IsSpelled host entries q.attribute h) e.sub_attributes
  read_in-respelled p q none_value h e = refl
  read_in-respelled p q (bool_value b) h e = refl
  read_in-respelled p q (number_value n) h e = refl
  read_in-respelled p q (str_value u) h e = refl
  read_in-respelled p q (list_value vs) h e = refl

  container-respelled :
      (s t : Option Text) (entries : Fields host.Number)
      → IsUnambiguous host entries
      → SameOption host s t
      → container host s entries ≡ container host t entries
  container-respelled none none entries h e = refl
  container-respelled none (some t) entries h e = absurd e
  container-respelled (some s) none entries h e = absurd e
  container-respelled (some s) (some t) entries h e = get_insensitive-respelled host entries s t h e

  container-IsSpelled :
      (urn : Option Text) (entries : Fields host.Number)
      → IsUnambiguous host entries
      → IsSpelled host (container host urn entries)
  container-IsSpelled none entries h = h
  container-IsSpelled (some urn) entries h = get_insensitive-IsSpelled host entries urn h

  pub read-respelled :
      (p q : AttrPath) (entries : Fields host.Number)
      → IsUnambiguous host entries
      → SamePath host p q
      → read host entries p ≡ read host entries q
  unfolding read
  read-respelled p q entries h e =
      ap (read_in host p) (container-respelled (urn_of p.urn) (urn_of q.urn) entries h e.urns)
      ∙ read_in-respelled p q (container host (urn_of q.urn) entries)
          (container-IsSpelled (urn_of q.urn) entries h) e

  collect-AreSpelled :
      (sub : Text) (vs : Values host.Number)
      → AreSpelled host vs
      → AreSpelled host (collect host sub vs)
  collect-AreSpelled sub no_values h = tt
  collect-AreSpelled sub (value (dict_value entries) rest) h =
      keep_value-AreSpelled (get_insensitive host entries sub) (collect host sub rest)
        (get_insensitive-IsSpelled host entries sub h.0) (collect-AreSpelled sub rest h.1)
    where
      keep_value-AreSpelled :
          (v : Value host.Number) (vs : Values host.Number)
          → IsSpelled host v
          → AreSpelled host vs
          → AreSpelled host (keep_value v vs)
      keep_value-AreSpelled none_value vs h k = k
      keep_value-AreSpelled (bool_value b) vs h k = (h, k)
      keep_value-AreSpelled (number_value n) vs h k = (h, k)
      keep_value-AreSpelled (str_value s) vs h k = (h, k)
      keep_value-AreSpelled (list_value us) vs h k = (h, k)
      keep_value-AreSpelled (dict_value entries) vs h k = (h, k)
  collect-AreSpelled sub (value none_value rest) h = collect-AreSpelled sub rest h.1
  collect-AreSpelled sub (value (bool_value b) rest) h = collect-AreSpelled sub rest h.1
  collect-AreSpelled sub (value (number_value n) rest) h = collect-AreSpelled sub rest h.1
  collect-AreSpelled sub (value (str_value u) rest) h = collect-AreSpelled sub rest h.1
  collect-AreSpelled sub (value (list_value vs) rest) h = collect-AreSpelled sub rest h.1

  collected_or_none-IsSpelled :
      (vs : Values host.Number) → AreSpelled host vs → IsSpelled host (collected_or_none vs)
  collected_or_none-IsSpelled no_values h = tt
  collected_or_none-IsSpelled (value v vs) h = h

  read_sub-IsSpelled :
      (sub : Option Text) (v : Value host.Number)
      → IsSpelled host v
      → IsSpelled host (read_sub host sub v)
  read_sub-IsSpelled none v h = h
  read_sub-IsSpelled (some s) (list_value vs) h =
      collected_or_none-IsSpelled (collect host s vs) (collect-AreSpelled s vs h)
  read_sub-IsSpelled (some s) (dict_value entries) h = get_insensitive-IsSpelled host entries s h
  read_sub-IsSpelled (some s) none_value h = tt
  read_sub-IsSpelled (some s) (bool_value b) h = tt
  read_sub-IsSpelled (some s) (number_value n) h = tt
  read_sub-IsSpelled (some s) (str_value u) h = tt

  read_in-IsSpelled :
      (p : AttrPath) (v : Value host.Number) → IsSpelled host v → IsSpelled host (read_in host p v)
  read_in-IsSpelled p (dict_value entries) h =
      read_sub-IsSpelled p.sub_attribute (get_insensitive host entries p.attribute)
        (get_insensitive-IsSpelled host entries p.attribute h)
  read_in-IsSpelled p none_value h = tt
  read_in-IsSpelled p (bool_value b) h = tt
  read_in-IsSpelled p (number_value n) h = tt
  read_in-IsSpelled p (str_value u) h = tt
  read_in-IsSpelled p (list_value vs) h = tt

  pub read-IsSpelled :
      (entries : Fields host.Number) (p : AttrPath)
      → IsUnambiguous host entries
      → IsSpelled host (read host entries p)
  unfolding read
  read-IsSpelled entries p h =
      read_in-IsSpelled p (container host (urn_of p.urn) entries)
        (container-IsSpelled (urn_of p.urn) entries h)
