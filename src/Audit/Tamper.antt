-- ===== src/Audit/Tamper.antt =====
-- What a published head of the chain of campusid/audit/chain.py proves about the trail.
use campus_id.Shared.{
  ℕ, ◌≡◌, ◌≢◌, refl, sym, ap, ◌∙◌, ◌⊎◌, inl, inr, true, false, Option, none, some, List, [], ◌∷◌,
  ◌++◌, map, arith, length, Bool-cases,
}
use campus_id.Audit.Chain.{
  Text, text_eq, Host, Event, canonical, link, not_after, verify_loop, verify_from, verify,
  last_hash, head, genesis,
}

pub text_eq-eq : (s t : Text) → text_eq s t ≡ true → s ≡ t
text_eq-eq [] [] h = refl
text_eq-eq [] (y ∷ ys) h = cc
text_eq-eq (x ∷ xs) [] h = cc
text_eq-eq (x ∷ xs) (y ∷ ys) h = ground (arith, text_eq-eq xs ys)

pub text_eq_self : (s : Text) → text_eq s s ≡ true
text_eq_self [] = refl
text_eq_self (x ∷ xs) = ground (arith, text_eq_self xs)

text_ne : (s t : Text) → text_eq s t ≡ false → s ≢ t
text_ne s t h e = cc (text_eq_self t, h, ap (λ r. text_eq r t) e)

append_cancel : (p q c d : Text) → length p ≡ length q → p ++ c ≡ q ++ d → (p ≡ q) × (c ≡ d)
append_cancel [] [] c d n e = (refl, e)
append_cancel [] (y ∷ q) c d n e = absurd (omega arith)
append_cancel (x ∷ p) [] c d n e = absurd (omega arith)
append_cancel (x ∷ p) (y ∷ q) c d n e =
    let heads : x ≡ y = cc in
    let tails : p ++ c ≡ q ++ d = cc in
    let (same, rest) = append_cancel p q c d (omega arith) tails in (cc, rest)

module _ (host : Host) where
  -- Two materials with one digest.
  pub record Collision : Type 0 where
    pub left : Text
    pub right : Text
    pub differ : left ≢ right
    pub agree : host.sha256 left ≡ host.sha256 right

  same_or_Collision : (s t : Text) → host.sha256 s ≡ host.sha256 t → (s ≡ t) ⊎ Collision
  same_or_Collision s t h = elim (Bool-cases (text_eq s t)) [
    | inl e ↦ inl (text_eq-eq s t e)
    | inr d ↦ inr (record { left = s; right = t; differ = text_ne s t d; agree = h })
  ]

  -- What a verified first event says.
  pub record Linked (last : Option ℕ) (expected : Text) (event : Event host)
      (events : List (Event host)) : Type 0 where
    pub after : not_after last event.seq ≡ false
    pub linked : event.prev_hash ≡ expected
    pub hashed : link host expected event.columns ≡ event.hash
    pub rest : verify_loop host (some event.seq) (link host expected event.columns) events ≡ none

  pub verify_loop-Linked :
      (last : Option ℕ) (expected : Text) (event : Event host) (events : List (Event host))
      → verify_loop host last expected (event ∷ events) ≡ none
      → Linked last expected event events
  unfolding verify_loop
  verify_loop-Linked last expected event events h = elim (Bool-cases (not_after last event.seq)) [
    | inl early ↦ cc (rw early at h)
    | inr after ↦ elim (Bool-cases (text_eq event.prev_hash expected)) [
      | inr apart ↦ cc (rw (after, apart) at h)
      | inl linked ↦ elim (Bool-cases (text_eq (link host expected event.columns) event.hash)) [
        | inr changed ↦ cc (rw (after, linked, changed) at h)
        | inl hashed ↦ record {
          after = after;
          linked = text_eq-eq event.prev_hash expected linked;
          hashed = text_eq-eq (link host expected event.columns) event.hash hashed;
          rest = rw (after, linked, hashed) at h;
        }
      ]
    ]
  ]

  abbrev pub contents : List (Event host) → List Text
  contents = map (λ (event : Event host). canonical host event.columns)

  length-link :
      (previous : Text) (event : Event host) → length (link host previous event.columns) ≡ 64
  unfolding link
  length-link previous event = host.sha256_length (previous ++ canonical host event.columns)

  link_equal :
      (p q : Text) (x y : Event host)
      → length p ≡ length q
      → link host p x.columns ≡ link host q y.columns
      → ((p ≡ q) × (canonical host x.columns ≡ canonical host y.columns)) ⊎ Collision
  unfolding link
  link_equal p q x y n h =
      elim (same_or_Collision (p ++ canonical host x.columns) (q ++ canonical host y.columns) h) [
        | inl e ↦ inl (append_cancel p q (canonical host x.columns) (canonical host y.columns) n e)
        | inr c ↦ inr c
      ]

  contents_from :
      (l m : Option ℕ) (p q : Text) (xs ys : List (Event host))
      → length p ≡ length q
      → verify_loop host l p xs ≡ none
      → verify_loop host m q ys ≡ none
      → length xs ≡ length ys
      → last_hash host p xs ≡ last_hash host q ys
      → ((p ≡ q) × (contents xs ≡ contents ys)) ⊎ Collision
  contents_from l m p q [] [] n vx vy k h = inl (unfold last_hash in h, refl)
  contents_from l m p q [] (y ∷ ys) n vx vy k h = absurd (omega arith)
  contents_from l m p q (x ∷ xs) [] n vx vy k h = absurd (omega arith)
  contents_from l m p q (x ∷ xs) (y ∷ ys) n vx vy k h =
      let a = verify_loop-Linked l p x xs vx in
      let b = verify_loop-Linked m q y ys vy in
      elim (contents_from (some x.seq) (some y.seq) (link host p x.columns) (link host q y.columns)
        xs ys (length-link p x ∙ sym (length-link q y)) a.rest b.rest (omega arith)
        (unfold last_hash in rw (a.hashed, b.hashed) h)) [
          | inr c ↦ inr c
          | inl (e, same) ↦ elim (link_equal p q x y n e) [
            | inr c ↦ inr c
            | inl (r, s) ↦ inl (r, cc)
          ]
        ]

  -- Two trails of the same number of events that both verify and end on the same head have the same
  -- canonical text of the hashed columns at every event, or else they exhibit two different materials
  -- with one SHA-256 digest. Nothing follows for what the canonical text leaves out, such as the
  -- sequence numbers.
  pub same_head-same_contents :
      (xs ys : List (Event host))
      → verify host xs ≡ none
      → verify host ys ≡ none
      → length xs ≡ length ys
      → head host xs ≡ head host ys
      → (contents xs ≡ contents ys) ⊎ Collision
  unfolding verify verify_from head
  same_head-same_contents xs ys vx vy k h =
      elim (contents_from none none genesis genesis xs ys refl vx vy k h) [
        | inl (e, same) ↦ inl same
        | inr c ↦ inr c
      ]
