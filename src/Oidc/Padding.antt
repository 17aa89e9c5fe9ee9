-- ===== src/Oidc/Padding.antt =====
-- The `.rstrip("=")` of campusid/oidc/pkce.py, by what it takes off.
use campus_id.Shared.{
  ℕ, zero, suc, ◌≡◌, ◌≢◌, refl, sym, ap, ◌∙◌, ◌↔◌, ◌⊎◌, inl, inr, [], ◌∷◌, ◌++◌, eqb, arith,
  Bool-cases, length, length-append,
}
use campus_id.Oidc.Pkce.{Text, rstrip_padding}

-- `n` equal signs.
abbrev pub padding : ℕ → Text
padding zero = []
padding (suc n) = b'=' ∷ padding n

-- A text without the equal signs at the end of another.
pub record IsUnpadded (encoded bare : Text) : Type 0 where
  pub count : ℕ
  pub followed : encoded ≡ bare ++ padding count
  pub ends : (t : Text) → bare ≢ t ++ (b'=' ∷ [])

length-padding : (n : ℕ) → length (padding n) ≡ n
length-padding zero = refl
length-padding (suc n) = rw (length-padding n) refl

padding-last : (n : ℕ) (s : Text) → s ++ padding (suc n) ≡ (s ++ padding n) ++ (b'=' ∷ [])
padding-last zero [] = refl
padding-last (suc n) [] = ap (λ t. b'=' ∷ t) (padding-last n [])
padding-last n (c ∷ s) = ap (λ t. c ∷ t) (padding-last n s)

append_nil : (s : Text) → s ++ [] ≡ s
append_nil [] = refl
append_nil (c ∷ s) = ap (λ t. c ∷ t) (append_nil s)

rstrip_padding-padding : (n : ℕ) → rstrip_padding (padding n) ≡ []
rstrip_padding-padding zero = refl
rstrip_padding-padding (suc n) = rw (rstrip_padding-padding n) refl

rstrip_padding-append : (s : Text) (n : ℕ) → rstrip_padding (s ++ padding n) ≡ rstrip_padding s
rstrip_padding-append [] n = rstrip_padding-padding n
rstrip_padding-append (c ∷ s) n = rw (rstrip_padding-append s n) refl

List-cases : (s : Text) → (s ≡ []) ⊎ ((x : ℕ) × (xs : Text) × (s ≡ x ∷ xs))
List-cases [] = inl refl
List-cases (x ∷ xs) = inr (x, xs, refl)

rstrip_padding-split : (s : Text) → (n : ℕ) × (s ≡ rstrip_padding s ++ padding n)
rstrip_padding-split [] = (0, refl)
rstrip_padding-split (c ∷ s) =
    let (n, e) = rstrip_padding-split s in
    elim (List-cases (rstrip_padding s)) [
      | inl gone ↦
          let f : s ≡ padding n = e ∙ rw gone refl in
          elim (Bool-cases (eqb c 61)) [
            | inl sign ↦
                let d : c ≡ 61 = ground arith in
                (suc n, rw (gone, sign) (rw d (ap (λ t. b'=' ∷ t) f)))
            | inr other ↦ (n, rw (gone, other) (ap (λ t. c ∷ t) f))
          ]
      | inr (x, xs, kept) ↦ (n, rw kept (ap (λ t. c ∷ t) (e ∙ rw kept refl)))
    ]

rstrip_padding-rstrip_padding : (s : Text) → rstrip_padding (rstrip_padding s) ≡ rstrip_padding s
rstrip_padding-rstrip_padding s =
    let (n, e) = rstrip_padding-split s in
    sym (rstrip_padding-append (rstrip_padding s) n) ∙ ap rstrip_padding (sym e)

-- What is left does not end in an equal sign.
rstrip_padding-ends : (s t : Text) → rstrip_padding s ≢ t ++ (b'=' ∷ [])
rstrip_padding-ends s t e =
    let (n, f) = rstrip_padding-split t in
    let same : t ++ (b'=' ∷ []) ≡ rstrip_padding t =
      sym e
      ∙ sym (rstrip_padding-rstrip_padding s)
      ∙ ap rstrip_padding e
      ∙ rstrip_padding-append t 1 in
    let long = sym (length-append t (b'=' ∷ [])) ∙ ap length same in
    let split = ap length f ∙ length-append (rstrip_padding t) (padding n) in
    omega (arith, long, split)

-- A text that does not end in an equal sign is left as it is.
rstrip_padding-bare : (s : Text) → ((t : Text) → s ≢ t ++ (b'=' ∷ [])) → rstrip_padding s ≡ s
rstrip_padding-bare s bare = go (rstrip_padding-split s)
  where
    go : (n : ℕ) × (s ≡ rstrip_padding s ++ padding n) → rstrip_padding s ≡ s
    go (zero, e) = sym (e ∙ append_nil (rstrip_padding s))
    go (suc n, e) =
        absurd (bare (rstrip_padding s ++ padding n) (e ∙ padding-last n (rstrip_padding s)))

-- Stripping and its description.
pub rstrip_padding_iff :
    (encoded bare : Text) → (rstrip_padding encoded ≡ bare) ↔ IsUnpadded encoded bare
rstrip_padding_iff encoded bare = (
  (λ e.
      let (n, f) = rstrip_padding-split encoded in
      record {
        count = n;
        followed = f ∙ ap (λ t. t ++ padding n) e;
        ends = λ t g. rstrip_padding-ends encoded t (e ∙ g);
      }),
  (λ u.
      ap rstrip_padding u.followed
      ∙ rstrip_padding-append bare u.count
      ∙ rstrip_padding-bare bare u.ends),
)
