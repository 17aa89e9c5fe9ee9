-- ===== src/Scim/Patch/Stored.antt =====
-- What campusid/scim/patch.py stores under a name is found under it, and nothing else is touched.
use campus_id.Shared.{
  ◌≡◌, ◌≢◌, refl, sym, ap, ◌∙◌, inl, inr, Bool, true, false, Bool-cases, Option-cases, Option, none,
  some, [], ◌∷◌, if◌then◌else◌,
}
use campus_id.Shared.Texts.{Text, text_eq, text_eq_iff, text_eq_self}
use campus_id.Scim.Filter.Literals.{Host}
use campus_id.Scim.Filter.Evaluator.{Value, Fields, no_fields, field, find_field}
use campus_id.Scim.Patch.Attributes.{
  put, drop_key, find_key, truthy_key, key_of, get_attr, set_attr, delete_attr,
}

module _ {N : Type 0} where
  abbrev pub stored : Text → Fields N → Option (Value N)
  stored key entries = find_field (λ k. text_eq k key) entries

  pub stored-put :
      (key : Text) (v : Value N) (entries : Fields N) → stored key (put key v entries) ≡ some v
  stored-put key v no_fields = rw (text_eq_self key) refl
  stored-put key v (field k u rest) = elim (Bool-cases (text_eq k key)) [
    | inl e ↦ rw (e, e) refl
    | inr e ↦ rw (e, e) (stored-put key v rest)
  ]

  pub find_key-put :
      (key : Text) (v : Value N) (entries : Fields N)
      → find_key (λ k. text_eq k key) (put key v entries) ≡ some key
  find_key-put key v no_fields = rw (text_eq_self key) refl
  find_key-put key v (field k u rest) = elim (Bool-cases (text_eq k key)) [
    | inl e ↦ let same : k ≡ key = (text_eq_iff k key).0 e in rw (e, e) (ap (λ t. some t) same)
    | inr e ↦ rw (e, e) (find_key-put key v rest)
  ]

  -- A key that is there keeps its place, and so do the others.
  pub find_key-put_there :
      (p q : Text → Bool) (key : Text) (v : Value N) (entries : Fields N)
      → find_key q entries ≡ some key
      → find_key p (put key v entries) ≡ find_key p entries
  find_key-put_there p q key v no_fields h = cc
  find_key-put_there p q key v (field k u rest) h = elim (Bool-cases (text_eq k key)) [
    | inl e ↦ rw e refl
    | inr e ↦ elim (Bool-cases (q k)) [
      | inl f ↦ let g : k ≡ key = cc (rw f at h) in let t = (text_eq_iff k key).1 g in cc
      | inr f ↦
          rw e (ap (λ o. if p k then some k else o) (find_key-put_there p q key v rest (rw f at h)))
    ]
  ]

  pub stored-put_other :
      (i key : Text) (v : Value N) (entries : Fields N)
      → text_eq key i ≡ false
      → stored i (put key v entries) ≡ stored i entries
  stored-put_other i key v no_fields h = rw h refl
  stored-put_other i key v (field k u rest) h = elim (Bool-cases (text_eq k key)) [
    | inl e ↦
        let same : k ≡ key = (text_eq_iff k key).0 e in
        let other : text_eq k i ≡ false = rw same h in rw e (rw other refl)
    | inr e ↦ rw e (ap (λ o. if text_eq k i then some u else o) (stored-put_other i key v rest h))
  ]

  pub stored-drop_other :
      (i key : Text) (entries : Fields N)
      → text_eq key i ≡ false
      → stored i (drop_key key entries) ≡ stored i entries
  stored-drop_other i key no_fields h = refl
  stored-drop_other i key (field k u rest) h = elim (Bool-cases (text_eq k key)) [
    | inl e ↦
        let same : k ≡ key = (text_eq_iff k key).0 e in
        let other : text_eq k i ≡ false = rw same h in rw e (rw other refl)
    | inr e ↦ rw e (ap (λ o. if text_eq k i then some u else o) (stored-drop_other i key rest h))
  ]

  find_key-passes :
      (p : Text → Bool) (entries : Fields N) (key : Text)
      → find_key p entries ≡ some key
      → p key ≡ true
  find_key-passes p no_fields key h = cc
  find_key-passes p (field k u rest) key h = elim (Bool-cases (p k)) [
    | inl e ↦ let same : k ≡ key = cc (rw e at h) in rw (← same) e
    | inr e ↦ find_key-passes p rest key (rw e at h)
  ]

module _ (host : Host) where
  -- The key that is found for a name differs from it in case alone.
  pub key_of-lower :
      (entries : Fields host.Number) (name key : Text)
      → key_of host entries name ≡ some key
      → host.lower key ≡ host.lower name
  unfolding key_of
  key_of-lower entries name key h = elim (Option-cases (find_key (λ k. text_eq k name) entries)) [
    | inl e ↦
        (text_eq_iff (host.lower key) (host.lower name)).0
          (find_key-passes (λ k. text_eq (host.lower k) (host.lower name)) entries key (rw e at h))
    | inr (k, e) ↦
        let same : k ≡ key = cc (rw e at h) in
        let exact = (text_eq_iff k name).0 (find_key-passes (λ t. text_eq t name) entries k e) in
        ap host.lower (sym same ∙ exact)
  ]

  truthy_key-some : (o : Option Text) (key : Text) → truthy_key o ≡ some key → o ≡ some key
  truthy_key-some none key h = cc
  truthy_key-some (some []) key h = cc
  truthy_key-some (some (c ∷ k)) key h = h

  different :
      (i name key : Text)
      → host.lower i ≢ host.lower name
      → host.lower key ≡ host.lower name
      → text_eq key i ≡ false
  different i name key h e = elim (Bool-cases (text_eq key i)) [
    | inl t ↦ absurd (h (sym (ap host.lower ((text_eq_iff key i).0 t)) ∙ e))
    | inr f ↦ f
  ]

  -- A change under one name leaves what is stored under another, where the two differ not in case
  -- alone.
  pub stored-set_attr :
      (i name : Text) (v : Value host.Number) (entries : Fields host.Number)
      → host.lower i ≢ host.lower name
      → stored i (set_attr host entries name v) ≡ stored i entries
  unfolding set_attr
  stored-set_attr i name v entries h = elim (Option-cases (truthy_key (key_of host entries name))) [
    | inl e ↦ rw e (stored-put_other i name v entries (different i name name h refl))
    | inr (key, e) ↦ rw e (
        stored-put_other i key v entries (
          different i name key h
            (key_of-lower entries name key (truthy_key-some (key_of host entries name) key e))))
  ]

  pub stored-delete_attr :
      (i name : Text) (entries : Fields host.Number)
      → host.lower i ≢ host.lower name
      → stored i (delete_attr host entries name) ≡ stored i entries
  unfolding delete_attr
  stored-delete_attr i name entries h =
      elim (Option-cases (truthy_key (key_of host entries name))) [
        | inl e ↦ rw e refl
        | inr (key, e) ↦ rw e (
            stored-drop_other i key entries (
              different i name key h
                (key_of-lower entries name key (truthy_key-some (key_of host entries name) key e))))
      ]

  truthy_key-filled : (name : Text) → name ≢ [] → truthy_key (some name) ≡ some name
  truthy_key-filled [] h = absurd (h refl)
  truthy_key-filled (c ∷ name) h = refl

  get_attr-put_name :
      (name : Text) (v : Value host.Number) (entries : Fields host.Number)
      → name ≢ []
      → get_attr host (put name v entries) name ≡ v
  unfolding get_attr
  get_attr-put_name name v entries h =
      rw (find_key-put name v entries)
        (rw (truthy_key-filled name h) (rw (stored-put name v entries) refl))

  -- The key that is found for a name is a key that some test finds.
  key_of-there :
      (entries : Fields host.Number) (name key : Text)
      → key_of host entries name ≡ some key
      → (q : Text → Bool) × (find_key q entries ≡ some key)
  unfolding key_of
  key_of-there entries name key h = elim (Option-cases (find_key (λ k. text_eq k name) entries)) [
    | inl e ↦ ((λ k. text_eq (host.lower k) (host.lower name)), rw e at h)
    | inr (k, e) ↦
        ((λ t. text_eq t name), let same : k ≡ key = cc (rw e at h) in e ∙ ap (λ t. some t) same)
  ]

  key_of-put :
      (name : Text) (v : Value host.Number) (entries : Fields host.Number) (key : Text)
      → key_of host entries name ≡ some key
      → key_of host (put key v entries) name ≡ some key
  unfolding key_of
  key_of-put name v entries key h =
      let (q, found) = key_of-there entries name key h in same_keys q found ∙ h
    where
      same_keys :
          (q : Text → Bool)
          → find_key q entries ≡ some key
          → key_of host (put key v entries) name ≡ key_of host entries name
      same_keys q found =
          rw
            (
              find_key-put_there (λ k. text_eq k name) q key v entries found,
              find_key-put_there (λ k. text_eq (host.lower k) (host.lower name)) q key v entries
                  found,
            )
            refl

  get_attr-put_key :
      (name : Text) (v : Value host.Number) (entries : Fields host.Number) (key : Text)
      → truthy_key (key_of host entries name) ≡ some key
      → get_attr host (put key v entries) name ≡ v
  unfolding get_attr
  get_attr-put_key name v entries key h =
      let found = truthy_key-some (key_of host entries name) key h in
      let again = key_of-put name v entries key found in
      let filled : truthy_key (some key) ≡ some key = ap truthy_key (sym found) ∙ h in
      rw again (rw filled (rw (stored-put key v entries) refl))

  -- What is set under a name is read under it.
  pub get_attr-set_attr :
      (name : Text) (v : Value host.Number) (entries : Fields host.Number)
      → name ≢ []
      → get_attr host (set_attr host entries name v) name ≡ v
  unfolding set_attr
  get_attr-set_attr name v entries h = elim (Option-cases (truthy_key (key_of host entries name))) [
    | inl e ↦ rw e (get_attr-put_name name v entries h)
    | inr (key, e) ↦ rw e (get_attr-put_key name v entries key e)
  ]
